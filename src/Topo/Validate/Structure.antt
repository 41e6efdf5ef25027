-- ===== src/Topo/Validate/Structure.antt =====
-- The first part of `Topology.validate`: keys and names, and every link's endpoints by themselves.
use p4net.Base.{ℕ, suc, not, ◌&&◌, none, some, List, [], ◌∷◌, ◌++◌, ltb}
use p4net.Base.Text.{Text, text_eq}
use p4net.Base.Dict.{text_eq_instance, Dict, contains, lookup}
use p4net.Topo.Nodes.{Host, P4Switch, is_some}
use p4net.Topo.Link.{Link, LinkEndpoint}
use p4net.Topo.Topology.{Topology, switch_port_max, is_port}
use p4net.Topo.Validate.Problems.{
  Problem, key_mismatch, host_kind, switch_kind, used_by_both, unknown_node, no_port, ip_on_switch,
  ip6_on_switch, port_out_of_range, uses_cpu_port, self_loop, End, end_a, end_b, when, when_some,
}

unfoldable pub host_keys : Dict Text Host → List Problem
host_keys [] = []
host_keys ((k, h) ∷ d) =
    when (not (text_eq k (Host.name h))) (key_mismatch host_kind k (Host.name h)) ++ host_keys d

unfoldable pub switch_keys : Dict Text P4Switch → List Problem
switch_keys [] = []
switch_keys ((k, s) ∷ d) =
    when (not (text_eq k (P4Switch.name s))) (key_mismatch switch_kind k (P4Switch.name s))
    ++ switch_keys d

unfoldable pub shared_names : Topology → Dict Text Host → List Problem
shared_names t [] = []
shared_names t ((k, h) ∷ d) =
    when (contains k (Topology.switches t)) (used_by_both k) ++ shared_names t d

-- The rules on an endpoint of a switch.
unfoldable pub at_switch : End → LinkEndpoint → P4Switch → List Problem
at_switch end e s =
    when_some (LinkEndpoint.ip e) (ip_on_switch end)
    ++ (when_some (LinkEndpoint.ip6 e) (ip6_on_switch end) ++ (elim (LinkEndpoint.port e) [
      | none ↦ []
      | some p ↦
          when (ltb switch_port_max p) (port_out_of_range end p)
          ++ when (is_port (P4Switch.cpu_port s) p) (uses_cpu_port end p)
    ]))

unfoldable pub endpoint_problems : Topology → End → LinkEndpoint → List Problem
unfolding at_switch
endpoint_problems t end e =
    when
      (not (contains (LinkEndpoint.node e) (Topology.hosts t))
        && not (contains (LinkEndpoint.node e) (Topology.switches t)))
      (unknown_node end)
    ++ (when (not (is_some (LinkEndpoint.port e))) (no_port end)
        ++ (elim (lookup (LinkEndpoint.node e) (Topology.switches t)) [
          | none ↦ []
          | some s ↦ at_switch end e s
        ]))

unfoldable pub link_problems : Topology → ℕ → Link → List Problem
unfolding endpoint_problems
link_problems t i l =
    endpoint_problems t (record { link = i; which = end_a; endpoint = Link.a l }) (Link.a l)
    ++ (endpoint_problems t (record { link = i; which = end_b; endpoint = Link.b l }) (Link.b l)
        ++ when (text_eq (LinkEndpoint.node (Link.a l)) (LinkEndpoint.node (Link.b l)))
            (self_loop i (LinkEndpoint.node (Link.a l))))

unfoldable pub all_link_problems : Topology → ℕ → List Link → List Problem
unfolding link_problems
all_link_problems t i [] = []
all_link_problems t i (l ∷ ls) = link_problems t i l ++ all_link_problems t (suc i) ls
