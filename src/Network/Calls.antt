-- ===== src/Network/Calls.antt =====
-- The calls of `Network` in src/p4net/network/orchestrator.py on its collaborators (namespaces, veth
-- pairs, processes, clients), which answer by a parameter that may look at all earlier calls.
use p4net.Base.{
  ℕ, Bool, true, false, ◌||◌, Option, List, [], ◌∷◌, ◌++◌, if◌then◌else◌, Result, ok, err,
}
use p4net.Base.Text.{Text, text_eq}
use p4net.Topo.Validate.Problems.{Problem}
use p4net.Runtime.Bmv2.{SwitchProcess}
use p4net.Runtime.Tc.{TcError}
use p4net.Network.Directions.{ResolveError}

pub data Side : Type 0 where
  side_a side_b : Side

pub data Call : Type 0 where
  make_dirs register_hooks unregister_hooks : Call
  compile_source : Text → Text → Call
  create_namespace destroy_namespace namespace_exists : Text → Call
  exec_in : Text → List Text → Call
  create_veth : Text → Text → Option Text → Option Text → Call
  destroy_veth : Text → Text → Call
  veth_mac : Text → Text → Side → Text → Call
  veth_mtu : Text → Text → Side → Text → Call
  veth_up : Text → Text → Side → Call
  enable_ipv6 disable_ipv6 : Option Text → Text → Call
  run_tc : Option Text → List Text → Call
  start_bmv2 : SwitchProcess → Call
  await_bmv2 stop_bmv2 : Text → Call
  connect_client : Text → ℕ → Call
  push_pipeline disconnect_client : Text → Call
  await_ipv6 : Call
  poll terminate await_process kill : ℕ → Call

-- A call returns, returns with a no (`False`, `None` for a running process), or raises.
pub data Answer : Type 0 where
  returned declined raised : Answer

-- A log of calls, the last one first.
abbrev pub Log : Type 0
Log = List (Call × Answer)

pub data Failure : Type 0 where
  call_raised : Call → Failure
  invalid_topology : List Problem → Failure
  unknown_node missing_interface already_running interrupted : Failure
  no_direction : ResolveError → Failure
  no_command : TcError → Failure

-- The collections of a `Network`, dicts by their keys.
pub record Net : Type 0 where
  pub log : Log
  pub running : Bool
  pub registered : Bool
  pub compiled : List Text
  pub namespaces : List Text
  pub veths : List (Text × Text)
  pub switches : List Text
  pub clients : List Text
  pub processes : List ℕ
  pub running_hosts : List Text
  pub running_switches : List Text

abbrev pub new_net : Net
new_net = record {
  log = [];
  running = false;
  registered = false;
  compiled = [];
  namespaces = [];
  veths = [];
  switches = [];
  clients = [];
  processes = [];
  running_hosts = [];
  running_switches = [];
}

unfoldable pub in_keys : Text → List Text → Bool
in_keys k [] = false
in_keys k (j ∷ ks) = text_eq j k || in_keys k ks

-- `d[k] = ...`, of which the keys remain.
unfoldable pub add_key : Text → List Text → List Text
unfolding in_keys
add_key k ks = if in_keys k ks then ks else ks ++ (k ∷ [])

-- A step of the network that may raise.
abbrev pub Act : Type 0 → Type 0
Act A = Net → Net × Result Failure A

abbrev pub give : {A : Type 0} → A → Act A
give a n = (n, ok a)

abbrev pub fail : {A : Type 0} → Failure → Act A
fail e n = (n, err e)

abbrev pub continue : {A B : Type 0} → Net × Result Failure A → (A → Act B) → Net × Result Failure B
continue (n, ok a) next = next a n
continue (n, err e) next = (n, err e)

infixl 5 ◌>>=◌
abbrev pub ◌>>=◌ : {A B : Type 0} → Act A → (A → Act B) → Act B
(act >>= next) n = continue (act n) next

infixl 5 ◌>>◌
abbrev pub ◌>>◌ : {A B : Type 0} → Act A → Act B → Act B
(act >> next) n = continue (act n) (λ _. next)

abbrev pub update : (Net → Net) → Act (Unit {0})
update f n = (f n, ok tt)

unfoldable pub for_each : {A : Type 0} → List A → (A → Act (Unit {0})) → Act (Unit {0})
for_each [] act = give tt
for_each (x ∷ xs) act = act x >> for_each xs act

abbrev pub lifted : {A E : Type 0} → (E → Failure) → Result E A → Act A
lifted f (ok a) = give a
lifted f (err e) = fail (f e)

unfoldable pub has_raised : Answer → Bool
has_raised raised = true
has_raised _ = false

module _ (answers : Log → Call → Answer) where
  abbrev pub logged : Call → Net → Net
  logged c n = record n { log = (c, answers n.log c) ∷ n.log }

  unfoldable pub do_call : Call → Act (Unit {0})
  unfolding has_raised
  do_call c n = (logged c n, if has_raised (answers n.log c) then err (call_raised c) else ok tt)
