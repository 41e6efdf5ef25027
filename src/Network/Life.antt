-- ===== src/Network/Life.antt =====
-- The life of a network: every order of starts and stops, whatever the collaborators answer.
pub mod Examples
use p4net.Base.{
  ℕ, ◌≡◌, ◌≢◌, refl, sym, ap, subst, ◌∙◌, Bool, true, false, not, if◌then◌else◌, arith, Bool-cases,
  inl, inr, Result, ok, err,
}
use p4net.Base.Text.{Text}
use p4net.Topo.Link.{Float}
use p4net.Topo.Topology.{Topology}
use p4net.Network.Directions.{Floats}
use p4net.Network.Calls.{Call, Answer, Log, Failure, already_running, interrupted, Net, new_net}
use p4net.Network.Start.{do_start}
use p4net.Network.Stop.{do_stop, finished, run_start, start}
use p4net.Network.Resources.{
  Resource, a_namespace, a_process, a_client, a_veth, is_held, is_tracked, Tracks,
}
use p4net.Network.Tracking.{Keeps}
use p4net.Network.Starting.{do_start-Keeps}
use p4net.Network.Rollback.{do_stop-Tracks, do_stop-free}

new_net-Tracks : Tracks new_net
unfolding Tracks is_held
new_net-Tracks r h = cc

running_frame :
    (n : Net) (r : Resource) → is_tracked r (record n { running = true }) ≡ is_tracked r n
unfolding is_tracked
running_frame n (a_namespace k) = refl
running_frame n (a_process k) = refl
running_frame n (a_client k) = refl
running_frame n (a_veth a b) = refl

do_stop-running : (answers : Log → Call → Answer) (n : Net) → (do_stop answers n).running ≡ false
unfolding do_stop
do_stop-running answers n = refl

module _ (answers : Log → Call → Answer) (floats : Floats) (show_float : Float → Text)
    (unsafe with_pcap : Bool) (now : ℕ) where
  running-Tracks : (n : Net) → Tracks n → Tracks (record n { running = true })
  unfolding Tracks
  running-Tracks n tracks r h = running_frame n r ∙ tracks r h

  finished-Tracks :
      (stopping : Bool) (r : Net × Result Failure (Unit {0}))
      → Tracks r.0
      → Tracks (finished answers floats show_float unsafe with_pcap now stopping r).0
  unfolding finished
  finished-Tracks stopping (n, err e) h = do_stop-Tracks answers n h
  finished-Tracks true (n, ok u) h = do_stop-Tracks answers n h
  finished-Tracks false (n, ok u) h = running-Tracks n h

  run_start-Tracks :
      (before after : Bool) (t : Topology) (n : Net)
      → Tracks n
      → Tracks (run_start answers floats show_float unsafe with_pcap now before after t n).0
  unfolding run_start Keeps
  run_start-Tracks true after t n h = do_stop-Tracks answers n h
  run_start-Tracks false after t n h =
      finished-Tracks after (do_start answers floats show_float unsafe with_pcap now t n)
        (do_start-Keeps answers floats show_float unsafe with_pcap now t n h)

  pick-Tracks :
      (b : Bool) (x y : Net × Result Failure (Unit {0}))
      → Tracks x.0
      → Tracks y.0
      → Tracks (if b then x else y).0
  pick-Tracks true x y h q = h
  pick-Tracks false x y h q = q

  start-Tracks :
      (before after : Bool) (t : Topology) (n : Net)
      → Tracks n
      → Tracks (start answers floats show_float unsafe with_pcap now before after t n).0
  unfolding start
  start-Tracks before after t n h =
      pick-Tracks n.running (n, err already_running) _ h (run_start-Tracks before after t n h)

  -- How a network comes to be: new, then started and stopped in any order, with shutdowns in between.
  pub data IsLife : Net → Type 0 where
    begins : IsLife new_net
    starts :
        {n : Net} (before after : Bool) (t : Topology)
        → IsLife n
        → IsLife (start answers floats show_float unsafe with_pcap now before after t n).0
    stops : {n : Net} → IsLife n → IsLife (do_stop answers n)

  IsLife-Tracks : {n : Net} → IsLife n → Tracks n
  IsLife-Tracks begins = new_net-Tracks
  IsLife-Tracks (starts before after t h) = start-Tracks before after t _ (IsLife-Tracks h)
  IsLife-Tracks (stops h) = do_stop-Tracks answers _ (IsLife-Tracks h)

  finished_failed :
      (stopping : Bool) (r : Net × Result Failure (Unit {0})) (e : Failure)
      → Tracks r.0
      → (finished answers floats show_float unsafe with_pcap now stopping r).1 ≡ err e
      → (resource : Resource)
      → is_held resource (finished answers floats show_float unsafe with_pcap now stopping r).0.log
        ≡ false
  unfolding finished
  finished_failed stopping (n, err x) e h q = do_stop-free answers n h
  finished_failed true (n, ok u) e h q = do_stop-free answers n h
  finished_failed false (n, ok u) e h q = cc

  finished_stopped :
      (stopping : Bool) (r : Net × Result Failure (Unit {0})) (e : Failure)
      → (finished answers floats show_float unsafe with_pcap now stopping r).1 ≡ err e
      → (finished answers floats show_float unsafe with_pcap now stopping r).0.running ≡ false
  unfolding finished
  finished_stopped stopping (n, err x) e q = do_stop-running answers n
  finished_stopped true (n, ok u) e q = do_stop-running answers n
  finished_stopped false (n, ok u) e q = cc

  run_start-failed :
      (before after : Bool) (t : Topology) (n : Net) (e : Failure)
      → Tracks n
      → (run_start answers floats show_float unsafe with_pcap now before after t n).1 ≡ err e
      → ((r : Resource)
          → is_held r
              (run_start answers floats show_float unsafe with_pcap now before after t n).0.log
            ≡ false)
        × ((run_start answers floats show_float unsafe with_pcap now before after t n).0.running
            ≡ false)
  unfolding run_start Keeps
  run_start-failed true after t n e h q = (do_stop-free answers n h, do_stop-running answers n)
  run_start-failed false after t n e h q =
      let r = do_start answers floats show_float unsafe with_pcap now t n in
      (
        finished_failed after r e
            (do_start-Keeps answers floats show_float unsafe with_pcap now t n h) q,
        finished_stopped after r e q,
      )

  idle_start :
      (before after : Bool) (t : Topology) (n : Net)
      → n.running ≡ false
      → start answers floats show_float unsafe with_pcap now before after t n
        ≡ run_start answers floats show_float unsafe with_pcap now before after t n
  unfolding start
  idle_start before after t n idle =
      ap
        (λ b.
          if b
          then (n, err already_running)
          else run_start answers floats show_float unsafe with_pcap now before after t n)
        idle

  -- A start of a network that does not run, after any life, that raises for whatever reason leaves
  -- nothing behind: every namespace, veth pair, switch process and client that was created has been
  -- given up since, and the network does not run.
  pub failed_start-releases :
      (before after : Bool) (t : Topology) (n : Net) (e : Failure)
      → IsLife n
      → n.running ≡ false
      → (start answers floats show_float unsafe with_pcap now before after t n).1 ≡ err e
      → ((r : Resource)
          → is_held r (start answers floats show_float unsafe with_pcap now before after t n).0.log
            ≡ false)
        × ((start answers floats show_float unsafe with_pcap now before after t n).0.running
            ≡ false)
  failed_start-releases before after t n e life idle raised =
      subst (λ p. ((r : Resource) → is_held r p.0.log ≡ false) × (p.0.running ≡ false))
        (sym (idle_start before after t n idle))
        (run_start-failed before after t n e (IsLife-Tracks life)
          (ap (λ p. p.1) (sym (idle_start before after t n idle)) ∙ raised))

  -- A stop, after any life of the network and whatever its collaborators answer or raise, gives up
  -- everything that was created and not given up before.
  pub do_stop-releases :
      {n : Net} → IsLife n → (r : Resource) → is_held r (do_stop answers n).log ≡ false
  do_stop-releases {n} life r = do_stop-free answers n (IsLife-Tracks life) r
