-- ===== src/Topo/Validate/Built.antt =====
-- What the builder made passes the check of its links, but for links from a node to itself.
use p4net.Base.{
  ℕ, ◌≡◌, ◌≢◌, ◌↔◌, refl, sym, subst, ◌∙◌, true, false, none, List, [], ◌∷◌, All, arith, inl, inr,
}
use mathlib.Core.Option.{some-injective}
use p4net.Base.Text.{Text}
use p4net.Base.Dict.{lookup-contains, text_eq_instance, contains}
use p4net.Topo.Nodes.{P4Switch}
use p4net.Topo.Link.{Link, LinkEndpoint}
use p4net.Topo.Topology.{Topology, NodeKind, a_switch, is_switch, cpu_port_of}
use p4net.Topo.Topology.Invariant.{Assigned, AssignedAt, LinkAssigned, WellFormed}
use p4net.Topo.Topology.Invariant.Nodes.{node_found}
use p4net.Topo.Topology.Invariant.Steps.{Built, Built-WellFormed}
use p4net.Topo.Validate.Structure.{all_link_problems}
use p4net.Topo.Validate.Ends.{
  DataPort, AtSwitch, EndSound, LinkSound, all_link_problems-nothing_iff,
}

AssignedAt-AtSwitch :
    (e : LinkEndpoint) (s : P4Switch) (p : ℕ) → AssignedAt e (a_switch s) p → AtSwitch e s
unfolding AssignedAt AtSwitch DataPort is_switch cpu_port_of
AssignedAt-AtSwitch e s p (port, iface, valid, no_cpu, rules) =
    let (top, no_ip, no_ip6) = rules refl in
    (no_ip, no_ip6, subst (DataPort (P4Switch.cpu_port s)) (sym port) (top, no_cpu))

AssignedAt-port :
    (e : LinkEndpoint) (n : NodeKind) (p : ℕ) → AssignedAt e n p → LinkEndpoint.port e ≢ none
unfolding AssignedAt
AssignedAt-port e n p (port, iface, valid, no_cpu, rules) = λ unset. ground (arith, port, unset)

-- Names of hosts are no names of switches.
Apart : Topology → Type 0
Apart t =
    (name : Text)
    → contains name (Topology.hosts t) ≡ true
    → contains name (Topology.switches t) ≡ false

Assigned-EndSound : (t : Topology) (e : LinkEndpoint) → Apart t → Assigned t e → EndSound t e
unfolding Apart Assigned EndSound
Assigned-EndSound t e apart (n, p, found, at) = elim (node_found t (LinkEndpoint.node e) n found) [
  | inl (h, here, same) ↦
      let is_host = lookup-contains (LinkEndpoint.node e) (Topology.hosts t) h here in
      (
        inl is_host,
        AssignedAt-port e n p at,
        λ s switch. ground (
          arith,
          apart (LinkEndpoint.node e) is_host,
          lookup-contains (LinkEndpoint.node e) (Topology.switches t) s switch,
        ),
      )
  | inr (s, no_host, here, same) ↦ (
    inr (lookup-contains (LinkEndpoint.node e) (Topology.switches t) s here),
    AssignedAt-port e n p at,
    λ r switch.
        subst (AtSwitch e) (some-injective s r (sym here ∙ switch))
          (AssignedAt-AtSwitch e s p (subst (λ m. AssignedAt e m p) same at)),
  )
]

abbrev pub NoLoop : Link → Type 0
NoLoop l = LinkEndpoint.node (Link.a l) ≢ LinkEndpoint.node (Link.b l)

links_sound_iff :
    (t : Topology) (ls : List Link)
    → Apart t
    → All (LinkAssigned t) ls
    → All (LinkSound t) ls ↔ All NoLoop ls
unfolding LinkAssigned LinkSound
links_sound_iff t [] apart assigned = (λ _. tt, λ _. tt)
links_sound_iff t (l ∷ ls) apart ((at_a, at_b, made), more) =
    let rest = links_sound_iff t ls apart more in
    (
      λ ((sound_a, sound_b, differ), sound). (differ, rest.0 sound),
      λ (differ, others). (
        (
          Assigned-EndSound t (Link.a l) apart at_a,
          Assigned-EndSound t (Link.b l) apart at_b,
          differ,
        ),
        rest.1 others,
      ),
    )

WellFormed-links :
    (t : Topology)
    → WellFormed t
    → All (LinkSound t) (Topology.links t) ↔ All NoLoop (Topology.links t)
unfolding WellFormed Apart
WellFormed-links t (hosts, switches, apart, links) =
    links_sound_iff t (Topology.links t) apart links

-- In a topology that calls built, the check of the links by themselves finds nothing exactly when
-- no link joins a node to itself: the builder already guards all its other rules.
pub Built-link_problems_iff :
    (t : Topology)
    → Built t
    → (all_link_problems t 0 (Topology.links t) ≡ []) ↔ All NoLoop (Topology.links t)
Built-link_problems_iff t built =
    let check = all_link_problems-nothing_iff t 0 (Topology.links t) in
    let sound = WellFormed-links t (Built-WellFormed built) in
    (λ h. sound.0 (check.0 h), λ h. check.1 (sound.1 h))
