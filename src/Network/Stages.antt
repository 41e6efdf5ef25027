-- ===== src/Network/Stages.antt =====
-- Each release of a stop and the resources that are still held.
use p4net.Base.{◌≡◌, ◌≢◌, refl, ◌∙◌, Bool, true, false, if◌then◌else◌, arith}
use p4net.Base.Text.{Text, text_eq_iff}
use p4net.Network.Calls.{
  Call, destroy_namespace, namespace_exists, destroy_veth, stop_bmv2, disconnect_client, Answer,
  returned, declined, raised, Log, Net,
}
use p4net.Network.Stop.{
  attempt, each, was_there, release_namespace, release_client, release_switch, release_veth,
  release_clients, release_switches, release_veths, release_namespaces,
}
use p4net.Network.Resources.{
  Resource, a_namespace, a_process, a_client, a_veth, creates, gives_up, is_held, is_tracked,
  Tracks,
}
use p4net.Network.Releasing.{
  IsQuiet, attempt-IsQuiet, each-IsQuiet, release_namespace-IsQuiet, held_back, IsFrame,
  attempt-IsFrame, release_namespace-IsFrame, each-IsFrame, keys-gone, pairs-gone, given_up,
}

pub no-clash : (b : Bool) → b ≡ true → b ≢ false
no-clash b h e = ground (arith, h, e)

answer-gives_up :
    (k : Text) (a : Answer)
    → was_there a ≡ false
    → gives_up (namespace_exists k) a (a_namespace k) ≡ true
unfolding was_there gives_up
answer-gives_up k returned e = cc
answer-gives_up k declined e = ground (arith, text_eq_iff k k)
answer-gives_up k raised e = ground (arith, text_eq_iff k k)

destroys : (k : Text) (a : Answer) → gives_up (destroy_namespace k) a (a_namespace k) ≡ true
unfolding gives_up
destroys k a = ground (arith, text_eq_iff k k)

branch_free :
    (b : Bool) (r : Resource) (m k : Net)
    → (b ≡ true → is_held r m.log ≡ false)
    → (b ≡ false → is_held r k.log ≡ false)
    → is_held r (if b then m else k).log ≡ false
branch_free true r m k h q = h refl
branch_free false r m k h q = q refl

module _ (answers : Log → Call → Answer) where
  namespace_gone :
      (k : Text) (n : Net) → is_held (a_namespace k) (release_namespace answers k n).log ≡ false
  unfolding release_namespace creates
  namespace_gone k n =
      let a = answers n.log (namespace_exists k) in
      let asked = attempt answers (namespace_exists k) n in
      branch_free (was_there a) (a_namespace k) _ asked
        (λ there.
          given_up (destroy_namespace k) (answers asked.log (destroy_namespace k)) asked.log
            (a_namespace k) refl (destroys k (answers asked.log (destroy_namespace k))))
        (λ absent.
          given_up (namespace_exists k) a n.log (a_namespace k) refl (answer-gives_up k a absent))

  client_gone : (k : Text) (n : Net) → is_held (a_client k) (release_client answers k n).log ≡ false
  unfolding creates gives_up
  client_gone k n =
      given_up (disconnect_client k) (answers n.log (disconnect_client k)) n.log (a_client k) refl
        (ground (arith, text_eq_iff k k))

  process_gone :
      (k : Text) (n : Net) → is_held (a_process k) (release_switch answers k n).log ≡ false
  unfolding creates gives_up
  process_gone k n =
      given_up (stop_bmv2 k) (answers n.log (stop_bmv2 k)) n.log (a_process k) refl
        (ground (arith, text_eq_iff k k))

  client-IsQuiet : (k : Text) → IsQuiet answers (release_client answers k)
  unfolding creates
  client-IsQuiet k = attempt-IsQuiet answers (disconnect_client k) (λ r. refl)

  switch-IsQuiet : (k : Text) → IsQuiet answers (release_switch answers k)
  unfolding creates
  switch-IsQuiet k = attempt-IsQuiet answers (stop_bmv2 k) (λ r. refl)

  veth-IsQuiet : (p : Text × Text) → IsQuiet answers (release_veth answers p)
  unfolding creates
  veth-IsQuiet p = attempt-IsQuiet answers (destroy_veth p.0 p.1) (λ r. refl)

  -- A resource that is held behind some releases was tracked before them.
  pub behind :
      (f : Net → Net) (n : Net) (r : Resource)
      → IsQuiet answers f
      → IsFrame answers f
      → Tracks n
      → is_held r (f n).log ≡ true
      → is_tracked r (f n) ≡ true
  unfolding IsFrame Tracks
  behind f n r quiet frame tracks h = frame n r ∙ tracks r (held_back answers f n r quiet h)

  release_clients_case :
      (n : Net)
      → Tracks n
      → (r : Resource) → is_held r (release_clients answers n).log ≡ true
      → is_tracked r (release_clients answers n) ≡ true
  unfolding Tracks is_tracked
  release_clients_case n tracks (a_namespace k) h =
      behind (each answers (release_client answers) n.clients) n (a_namespace k)
        (each-IsQuiet answers (release_client answers) n.clients client-IsQuiet)
        (each-IsFrame answers (release_client answers) n.clients
          (λ k. attempt-IsFrame answers (disconnect_client k)))
        tracks h
  release_clients_case n tracks (a_process k) h =
      behind (each answers (release_client answers) n.clients) n (a_process k)
        (each-IsQuiet answers (release_client answers) n.clients client-IsQuiet)
        (each-IsFrame answers (release_client answers) n.clients
          (λ k. attempt-IsFrame answers (disconnect_client k)))
        tracks h
  release_clients_case n tracks (a_client k) h = absurd (
      no-clash _ h (
        keys-gone answers (release_client answers) a_client client-IsQuiet client_gone n.clients k n
          (tracks (a_client k) (
            held_back answers (each answers (release_client answers) n.clients) n (a_client k)
              (each-IsQuiet answers (release_client answers) n.clients client-IsQuiet) h))))
  release_clients_case n tracks (a_veth a b) h =
      behind (each answers (release_client answers) n.clients) n (a_veth a b)
        (each-IsQuiet answers (release_client answers) n.clients client-IsQuiet)
        (each-IsFrame answers (release_client answers) n.clients
          (λ k. attempt-IsFrame answers (disconnect_client k)))
        tracks h

  pub release_clients-Tracks : (n : Net) → Tracks n → Tracks (release_clients answers n)
  unfolding Tracks is_tracked
  release_clients-Tracks n tracks r h = release_clients_case n tracks r h

  release_switches_case :
      (n : Net)
      → Tracks n
      → (r : Resource) → is_held r (release_switches answers n).log ≡ true
      → is_tracked r (release_switches answers n) ≡ true
  unfolding Tracks is_tracked
  release_switches_case n tracks (a_namespace k) h =
      behind (each answers (release_switch answers) n.switches) n (a_namespace k)
        (each-IsQuiet answers (release_switch answers) n.switches switch-IsQuiet)
        (each-IsFrame answers (release_switch answers) n.switches
          (λ k. attempt-IsFrame answers (stop_bmv2 k)))
        tracks h
  release_switches_case n tracks (a_process k) h = absurd (
      no-clash _ h (
        keys-gone answers (release_switch answers) a_process switch-IsQuiet process_gone n.switches
          k n
          (tracks (a_process k) (
            held_back answers (each answers (release_switch answers) n.switches) n (a_process k)
              (each-IsQuiet answers (release_switch answers) n.switches switch-IsQuiet) h))))
  release_switches_case n tracks (a_client k) h =
      behind (each answers (release_switch answers) n.switches) n (a_client k)
        (each-IsQuiet answers (release_switch answers) n.switches switch-IsQuiet)
        (each-IsFrame answers (release_switch answers) n.switches
          (λ k. attempt-IsFrame answers (stop_bmv2 k)))
        tracks h
  release_switches_case n tracks (a_veth a b) h =
      behind (each answers (release_switch answers) n.switches) n (a_veth a b)
        (each-IsQuiet answers (release_switch answers) n.switches switch-IsQuiet)
        (each-IsFrame answers (release_switch answers) n.switches
          (λ k. attempt-IsFrame answers (stop_bmv2 k)))
        tracks h

  pub release_switches-Tracks : (n : Net) → Tracks n → Tracks (release_switches answers n)
  unfolding Tracks is_tracked
  release_switches-Tracks n tracks r h = release_switches_case n tracks r h

  release_veths_case :
      (n : Net)
      → Tracks n
      → (r : Resource) → is_held r (release_veths answers n).log ≡ true
      → is_tracked r (release_veths answers n) ≡ true
  unfolding Tracks is_tracked
  release_veths_case n tracks (a_namespace k) h =
      behind (each answers (release_veth answers) n.veths) n (a_namespace k)
        (each-IsQuiet answers (release_veth answers) n.veths veth-IsQuiet)
        (each-IsFrame answers (release_veth answers) n.veths
          (λ p. attempt-IsFrame answers (destroy_veth p.0 p.1)))
        tracks h
  release_veths_case n tracks (a_process k) h =
      behind (each answers (release_veth answers) n.veths) n (a_process k)
        (each-IsQuiet answers (release_veth answers) n.veths veth-IsQuiet)
        (each-IsFrame answers (release_veth answers) n.veths
          (λ p. attempt-IsFrame answers (destroy_veth p.0 p.1)))
        tracks h
  release_veths_case n tracks (a_client k) h =
      behind (each answers (release_veth answers) n.veths) n (a_client k)
        (each-IsQuiet answers (release_veth answers) n.veths veth-IsQuiet)
        (each-IsFrame answers (release_veth answers) n.veths
          (λ p. attempt-IsFrame answers (destroy_veth p.0 p.1)))
        tracks h
  release_veths_case n tracks (a_veth a b) h = absurd (
      no-clash _ h (
        pairs-gone answers n.veths a b n (
          tracks (a_veth a b) (
            held_back answers (each answers (release_veth answers) n.veths) n (a_veth a b)
              (each-IsQuiet answers (release_veth answers) n.veths veth-IsQuiet) h))))

  pub release_veths-Tracks : (n : Net) → Tracks n → Tracks (release_veths answers n)
  unfolding Tracks is_tracked
  release_veths-Tracks n tracks r h = release_veths_case n tracks r h

  release_namespaces_case :
      (n : Net)
      → Tracks n
      → (r : Resource) → is_held r (release_namespaces answers n).log ≡ true
      → is_tracked r (release_namespaces answers n) ≡ true
  unfolding Tracks is_tracked
  release_namespaces_case n tracks (a_namespace k) h = absurd (
      no-clash _ h (
        keys-gone answers (release_namespace answers) a_namespace
          (release_namespace-IsQuiet answers) namespace_gone n.namespaces k n
          (tracks (a_namespace k) (
            held_back answers (each answers (release_namespace answers) n.namespaces) n
              (a_namespace k)
              (each-IsQuiet answers (release_namespace answers) n.namespaces
                (release_namespace-IsQuiet answers))
              h))))
  release_namespaces_case n tracks (a_process k) h =
      behind (each answers (release_namespace answers) n.namespaces) n (a_process k)
        (each-IsQuiet answers (release_namespace answers) n.namespaces
          (release_namespace-IsQuiet answers))
        (each-IsFrame answers (release_namespace answers) n.namespaces
          (release_namespace-IsFrame answers))
        tracks h
  release_namespaces_case n tracks (a_client k) h =
      behind (each answers (release_namespace answers) n.namespaces) n (a_client k)
        (each-IsQuiet answers (release_namespace answers) n.namespaces
          (release_namespace-IsQuiet answers))
        (each-IsFrame answers (release_namespace answers) n.namespaces
          (release_namespace-IsFrame answers))
        tracks h
  release_namespaces_case n tracks (a_veth a b) h =
      behind (each answers (release_namespace answers) n.namespaces) n (a_veth a b)
        (each-IsQuiet answers (release_namespace answers) n.namespaces
          (release_namespace-IsQuiet answers))
        (each-IsFrame answers (release_namespace answers) n.namespaces
          (release_namespace-IsFrame answers))
        tracks h

  pub release_namespaces-Tracks : (n : Net) → Tracks n → Tracks (release_namespaces answers n)
  unfolding Tracks is_tracked
  release_namespaces-Tracks n tracks r h = release_namespaces_case n tracks r h
