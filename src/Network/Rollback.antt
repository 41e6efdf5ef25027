-- ===== src/Network/Rollback.antt =====
-- A whole stop and the resources that were held.
use p4net.Base.{◌≡◌, refl, ◌∙◌, Bool, true, false, [], if◌then◌else◌, Bool-cases, inl, inr}
use p4net.Network.Calls.{Call, unregister_hooks, destroy_veth, stop_bmv2, Answer, Log, Net, in_keys}
use p4net.Network.Stop.{
  attempt, reap, each, release_namespace, release_switch, release_veth, unregister_cleanup,
  reap_all, release_clients, release_switches, release_veths, release_namespaces, clear_views,
  do_stop,
}
use p4net.Network.Resources.{
  Resource, a_namespace, a_process, a_client, a_veth, creates, is_held, in_pairs, is_tracked,
  Tracks,
}
use p4net.Network.Releasing.{
  attempt-IsQuiet, each-IsQuiet, reap-IsQuiet, held_back, IsFrame, attempt-IsFrame, reap-IsFrame,
  release_namespace-IsFrame, each-IsFrame,
}
use p4net.Network.Stages.{
  no-clash, behind, release_clients-Tracks, release_switches-Tracks, release_veths-Tracks,
  release_namespaces-Tracks,
}

without_processes :
    (n : Net) (r : Resource) → is_tracked r (record n { processes = [] }) ≡ is_tracked r n
unfolding is_tracked
without_processes n (a_namespace k) = refl
without_processes n (a_process k) = refl
without_processes n (a_client k) = refl
without_processes n (a_veth a b) = refl

clear_views_frame :
    (n : Net) (r : Resource)
    → is_tracked r
        (record n { running_hosts = []; running_switches = []; compiled = []; running = false })
      ≡ is_tracked r n
unfolding is_tracked
clear_views_frame n (a_namespace k) = refl
clear_views_frame n (a_process k) = refl
clear_views_frame n (a_client k) = refl
clear_views_frame n (a_veth a b) = refl

no_longer_registered :
    (n : Net) (r : Resource) → is_tracked r (record n { registered = false }) ≡ is_tracked r n
unfolding is_tracked
no_longer_registered n (a_namespace k) = refl
no_longer_registered n (a_process k) = refl
no_longer_registered n (a_client k) = refl
no_longer_registered n (a_veth a b) = refl

module _ (answers : Log → Call → Answer) where
  pick : (P : Net → Type 0) (b : Bool) (m k : Net) → P m → P k → P (if b then m else k)
  pick P true m k h q = h
  pick P false m k h q = q

  unregistered_frame :
      (n : Net) (r : Resource)
      → is_tracked r (record (attempt answers unregister_hooks n) { registered = false })
        ≡ is_tracked r n
  unfolding IsFrame
  unregistered_frame n r =
      no_longer_registered (attempt answers unregister_hooks n) r
      ∙ attempt-IsFrame answers unregister_hooks n r

  unregistered :
      (n : Net)
      → Tracks n
      → Tracks (record (attempt answers unregister_hooks n) { registered = false })
  unfolding Tracks creates
  unregistered n tracks r h =
      unregistered_frame n r
      ∙ tracks r (
          held_back answers (attempt answers unregister_hooks) n r
            (attempt-IsQuiet answers unregister_hooks (λ q. refl)) h)

  clear_views-Tracks : (n : Net) → Tracks n → Tracks (clear_views answers n)
  unfolding Tracks
  clear_views-Tracks n tracks r h = clear_views_frame n r ∙ tracks r h

  unregister-Tracks : (n : Net) → Tracks n → Tracks (unregister_cleanup answers n)
  unfolding unregister_cleanup
  unregister-Tracks n tracks = pick Tracks n.registered _ n (unregistered n tracks) tracks

  unregister-IsFrame : IsFrame answers (unregister_cleanup answers)
  unfolding unregister_cleanup IsFrame
  unregister-IsFrame n r =
      pick (λ m. is_tracked r m ≡ is_tracked r n) n.registered _ n (unregistered_frame n r) refl

  reap_all-Tracks : (n : Net) → Tracks n → Tracks (reap_all answers n)
  unfolding Tracks
  reap_all-Tracks n tracks r h =
      without_processes (each answers (reap answers) n.processes n) r
      ∙ behind answers (each answers (reap answers) n.processes) n r
          (each-IsQuiet answers (reap answers) n.processes (reap-IsQuiet answers))
          (each-IsFrame answers (reap answers) n.processes (reap-IsFrame answers)) tracks h

  pub do_stop-Tracks : (n : Net) → Tracks n → Tracks (do_stop answers n)
  unfolding do_stop
  do_stop-Tracks n tracks =
      let veths =
        release_veths answers
          (release_switches answers (release_clients answers (reap_all answers n))) in
      clear_views-Tracks (unregister_cleanup answers (release_namespaces answers veths)) (
        unregister-Tracks (release_namespaces answers veths) (
          release_namespaces-Tracks answers veths (
            release_veths-Tracks answers _ (
              release_switches-Tracks answers _
                (release_clients-Tracks answers _ (reap_all-Tracks n tracks))))))

  spaces_frame :
      (n : Net)
      → (r : Resource)
      → is_tracked r (each answers (release_namespace answers) n.namespaces n) ≡ is_tracked r n
  unfolding IsFrame
  spaces_frame n r =
      each-IsFrame answers (release_namespace answers) n.namespaces
        (release_namespace-IsFrame answers) n r

  veths_frame :
      (n : Net)
      → (r : Resource)
      → is_tracked r (each answers (release_veth answers) n.veths n) ≡ is_tracked r n
  unfolding IsFrame
  veths_frame n r =
      each-IsFrame answers (release_veth answers) n.veths
        (λ p. attempt-IsFrame answers (destroy_veth p.0 p.1)) n r

  switches_frame :
      (n : Net)
      → (r : Resource)
      → is_tracked r (each answers (release_switch answers) n.switches n) ≡ is_tracked r n
  unfolding IsFrame
  switches_frame n r =
      each-IsFrame answers (release_switch answers) n.switches
        (λ k. attempt-IsFrame answers (stop_bmv2 k)) n r

  -- What the later releases leave of an emptied collection.
  emptied :
      (n : Net) (r : Resource)
      → is_tracked r (
          release_namespaces answers
            (release_veths answers (release_switches answers (release_clients answers n))))
        ≡ false
  unfolding is_tracked IsFrame in_pairs in_keys
  emptied n (a_namespace k) = refl
  emptied n (a_veth a b) =
      spaces_frame (release_veths answers (release_switches answers (release_clients answers n)))
        (a_veth a b)
  emptied n (a_process k) =
      let switches = release_switches answers (release_clients answers n) in
      spaces_frame (release_veths answers switches) (a_process k)
      ∙ veths_frame switches (a_process k)
  emptied n (a_client k) =
      let clients = release_clients answers n in
      let switches = release_switches answers clients in
      spaces_frame (release_veths answers switches) (a_client k)
      ∙ veths_frame switches (a_client k)
      ∙ switches_frame clients (a_client k)

  -- Nothing is tracked after a stop.
  do_stop-empty : (n : Net) (r : Resource) → is_tracked r (do_stop answers n) ≡ false
  unfolding do_stop IsFrame
  do_stop-empty n r =
      let clients = release_clients answers (reap_all answers n) in
      let switches = release_switches answers clients in
      let veths = release_veths answers switches in
      let spaces = release_namespaces answers veths in
      clear_views_frame (unregister_cleanup answers spaces) r
      ∙ unregister-IsFrame spaces r
      ∙ emptied (reap_all answers n) r

  pub do_stop-free :
      (n : Net) → Tracks n → (r : Resource) → is_held r (do_stop answers n).log ≡ false
  unfolding Tracks
  do_stop-free n tracks r = elim (Bool-cases (is_held r (do_stop answers n).log)) [
    | inl held ↦ absurd (no-clash _ (do_stop-Tracks n tracks r held) (do_stop-empty n r))
    | inr free ↦ free
  ]
