-- ===== src/Network/Stop.antt =====
-- `_do_stop` and `_run_start` of src/p4net/network/orchestrator.py. The disconnection of asyncio
-- clients is left out.
use p4net.Base.{ℕ, Bool, true, false, List, [], ◌∷◌, if◌then◌else◌, Result, ok, err}
use p4net.Base.Text.{Text}
use p4net.Topo.Link.{Float}
use p4net.Topo.Topology.{Topology}
use p4net.Network.Directions.{Floats}
use p4net.Network.Calls.{
  Call, unregister_hooks, destroy_namespace, namespace_exists, destroy_veth, stop_bmv2,
  disconnect_client, poll, terminate, await_process, kill, Answer, returned, declined, Log, Failure,
  already_running, interrupted, Net, has_raised, logged,
}
use p4net.Network.Start.{do_start}

unfoldable pub is_running : Answer → Bool
is_running declined = true
is_running _ = false

unfoldable pub was_there : Answer → Bool
was_there returned = true
was_there _ = false

module _ (answers : Log → Call → Answer) where
  -- A call whose exception, of class Exception, is logged only.
  abbrev pub attempt : Call → Net → Net
  attempt c n = logged answers c n

  abbrev answer_of : Call → Net → Answer
  answer_of c n = answers n.log c

  -- `proc.wait(timeout=2.0)`, then `proc.kill()` where it raises.
  unfoldable pub await_or_kill : ℕ → Net → Net
  unfolding has_raised
  await_or_kill p n =
      let waited = attempt (await_process p) n in
      if has_raised (answer_of (await_process p) n) then attempt (kill p) waited else waited

  unfoldable pub end_process : ℕ → Net → Net
  unfolding await_or_kill
  end_process p n =
      let ended = attempt (terminate p) n in
      if has_raised (answer_of (terminate p) n) then ended else await_or_kill p ended

  -- `poll` declines where it returns None: the process still runs.
  unfoldable pub reap : ℕ → Net → Net
  unfolding end_process is_running
  reap p n =
      let asked = attempt (poll p) n in
      if is_running (answer_of (poll p) n) then end_process p asked else asked

  unfoldable pub each : {A : Type 0} → (A → Net → Net) → List A → Net → Net
  each f [] n = n
  each f (x ∷ xs) n = each f xs (f x n)

  unfoldable pub release_namespace : Text → Net → Net
  unfolding was_there
  release_namespace name n =
      let asked = attempt (namespace_exists name) n in
      if was_there (answer_of (namespace_exists name) n)
      then attempt (destroy_namespace name) asked
      else asked

  abbrev pub release_client : Text → Net → Net
  release_client name n = attempt (disconnect_client name) n

  abbrev pub release_switch : Text → Net → Net
  release_switch name n = attempt (stop_bmv2 name) n

  abbrev pub release_veth : Text × Text → Net → Net
  release_veth (a, b) n = attempt (destroy_veth a b) n

  unfoldable pub unregister_cleanup : Net → Net
  unregister_cleanup n =
      if n.registered then record (attempt unregister_hooks n) { registered = false } else n

  abbrev pub reap_all : Net → Net
  reap_all n = record (each reap n.processes n) { processes = [] }

  abbrev pub release_clients : Net → Net
  release_clients n = record (each release_client n.clients n) { clients = [] }

  abbrev pub release_switches : Net → Net
  release_switches n = record (each release_switch n.switches n) { switches = [] }

  abbrev pub release_veths : Net → Net
  release_veths n = record (each release_veth n.veths n) { veths = [] }

  abbrev pub release_namespaces : Net → Net
  release_namespaces n = record (each release_namespace n.namespaces n) { namespaces = [] }

  abbrev pub clear_views : Net → Net
  clear_views n = record n {
    running_hosts = [];
    running_switches = [];
    compiled = [];
    running = false;
  }

  unfoldable pub do_stop : Net → Net
  unfolding reap each release_namespace unregister_cleanup
  do_stop n = clear_views (
      unregister_cleanup
        (release_namespaces (release_veths (release_switches (release_clients (reap_all n))))))

  -- `start` on one thread, where a shutdown may ask for an end before and after the start.
  module _ (floats : Floats) (show_float : Float → Text) (unsafe with_pcap : Bool) (now : ℕ) where
    abbrev rolled_back : Failure → Net → Net × Result Failure (Unit {0})
    rolled_back e n = (do_stop n, err e)

    -- What follows the start: rollback, or the network runs.
    unfoldable pub finished :
        Bool → Net × Result Failure (Unit {0}) → Net × Result Failure (Unit {0})
    unfolding do_stop
    finished stopping (n, err e) = rolled_back e n
    finished true (n, ok _) = rolled_back interrupted n
    finished false (n, ok _) = (record n { running = true }, ok tt)

    unfoldable pub run_start : Bool → Bool → Topology → Net → Net × Result Failure (Unit {0})
    unfolding finished
    run_start true stopping_after t n = rolled_back interrupted n
    run_start false stopping_after t n =
        finished stopping_after (do_start answers floats show_float unsafe with_pcap now t n)

    -- `start`: `_prepare_start` and `_run_start`.
    unfoldable pub start : Bool → Bool → Topology → Net → Net × Result Failure (Unit {0})
    unfolding run_start
    start stopping_before stopping_after t n =
        if n.running then (n, err already_running) else run_start stopping_before stopping_after t n
