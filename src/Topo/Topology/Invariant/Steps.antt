-- ===== src/Topo/Topology/Invariant/Steps.antt =====
-- Building a topology: any sequence of calls of `add_host`, `add_switch` and `add_link`.
use p4net.Base.{◌≡◌, ok, arith}
use p4net.Base.Text.{Text}
use p4net.Base.Dict.{contains, text_eq_instance}
use p4net.Topo.Nodes.{Host, P4Switch, SwitchOptions}
use p4net.Topo.Link.{Link, LinkOptions}
use p4net.Topo.Topology.{Topology, Side, new_topology, add_host, add_switch, add_link}
use p4net.Topo.Topology.Invariant.{WellFormed}
use p4net.Topo.Topology.Invariant.Additions.{add_host-WellFormed, add_switch-WellFormed}
use p4net.Topo.Topology.Invariant.Links.{add_link-WellFormed}

-- One call that returns; a call that raises leaves the builder as it was.
pub data Step : Topology → Topology → Type 0 where
  host_added :
      (h : Host) (t : Topology) (out : Topology × Host) → add_host h t ≡ ok out → Step t out.0
  switch_added :
      (name : Text) (o : SwitchOptions) (t : Topology) (out : Topology × P4Switch)
      → add_switch name o t ≡ ok out
      → Step t out.0
  link_added :
      (sa sb : Side) (o : LinkOptions) (t : Topology) (out : Topology × Link)
      → add_link sa sb o t ≡ ok out
      → Step t out.0

-- What calls make of the empty topology.
pub data Built : Topology → Type 0 where
  empty : Built new_topology
  then_step : (t u : Topology) → Built t → Step t u → Built u

pub Step-WellFormed : {t u : Topology} → WellFormed t → Step t u → WellFormed u
Step-WellFormed valid (host_added h t out e) = add_host-WellFormed h t out valid e
Step-WellFormed valid (switch_added name o t out e) = add_switch-WellFormed name o t out valid e
Step-WellFormed valid (link_added sa sb o t out e) = add_link-WellFormed sa sb o t out valid e

new_topology-WellFormed : WellFormed new_topology
unfolding WellFormed contains
new_topology-WellFormed = (tt, tt, λ name taken. ground arith, tt)

-- Whatever calls built a topology: hosts and switches are stored under their names and checked, no
-- name is both, and every link is checked and its endpoints are assigned at their nodes.
pub Built-WellFormed : {t : Topology} → Built t → WellFormed t
Built-WellFormed empty = new_topology-WellFormed
Built-WellFormed (then_step s t built step) = Step-WellFormed (Built-WellFormed built) step
