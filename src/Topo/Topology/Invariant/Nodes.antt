-- ===== src/Topo/Topology/Invariant/Nodes.antt =====
-- What a new host or switch changes of the invariant.
use p4net.Base.{
  ◌≡◌, refl, sym, ◌∙◌, false, none, some, List, All, All-weaken, ok, >>-eq-ok, ok_inj, arith, ◌⊎◌,
  inl, inr, Option-cases,
}
use p4net.Base.Text.{Text, text_eq, text_eq_iff}
use p4net.Base.Dict.{
  text_eq_instance, Dict, contains, lookup, insert, lookup-insert, lookup_absent, contains-insert,
  insert-fresh_All, lookup-entry_All,
}
use p4net.Topo.Nodes.{Host, P4Switch, new_host, check_host}
use p4net.Topo.Link.{Link}
use p4net.Topo.Topology.{Topology, NodeKind, a_host, a_switch, node, node_name}
use p4net.Topo.Topology.Invariant.{HostEntry, SwitchEntry, Assigned, LinkAssigned, WellFormed}

-- A checked host is the one given.
pub new_host-same : (h host : Host) → new_host h ≡ ok host → host ≡ h
unfolding new_host
new_host-same h host e = sym (ok_inj (>>-eq-ok (check_host h) (ok h) e).1)

-- What is looked up under another name is unchanged.
lookup_fresh :
    {V : Type 0} (name other : Text) (v w : V) (d : Dict Text V)
    → contains name d ≡ false
    → lookup other d ≡ some w
    → lookup other (insert name v d) ≡ some w
lookup_fresh name other v w d free h =
    ground (arith, lookup-insert name other v d, text_eq_iff name other, lookup_absent name d free)

-- A resolved name stays resolved to the same node.
Grows : Topology → Topology → Type 0
Grows t u = (name : Text) (n : NodeKind) → node t name ≡ ok n → node u name ≡ ok n

abbrev pub with_host : Text → Host → Topology → Topology
with_host name h t = record {
  hosts = insert name h (Topology.hosts t);
  switches = Topology.switches t;
  links = Topology.links t;
}

abbrev pub with_switch : Text → P4Switch → Topology → Topology
with_switch name s t = record {
  hosts = Topology.hosts t;
  switches = insert name s (Topology.switches t);
  links = Topology.links t;
}

node_host :
    (t : Topology) (name : Text) (h : Host)
    → lookup name (Topology.hosts t) ≡ some h
    → node t name ≡ ok (a_host h)
unfolding node
node_host t name h e = rw (e, node)

node_switch :
    (t : Topology) (name : Text) (s : P4Switch)
    → lookup name (Topology.hosts t) ≡ none
    → lookup name (Topology.switches t) ≡ some s
    → node t name ≡ ok (a_switch s)
unfolding node
node_switch t name s no_host e = rw (no_host, e, node)

pub node_found :
    (t : Topology) (name : Text) (n : NodeKind)
    → node t name ≡ ok n
    → ((h : Host) × (lookup name (Topology.hosts t) ≡ some h) × (n ≡ a_host h))
      ⊎ ((s : P4Switch) × (lookup name (Topology.hosts t) ≡ none)
          × (lookup name (Topology.switches t) ≡ some s)
          × (n ≡ a_switch s))
unfolding node
node_found t name n found = elim (Option-cases (lookup name (Topology.hosts t))) [
  | inr (h, e) ↦ inl (h, e, sym (ok_inj (rw (e, node) at found)))
  | inl no_host ↦ elim (Option-cases (lookup name (Topology.switches t))) [
    | inr (s, e) ↦ inr (s, no_host, e, sym (ok_inj (rw (no_host, e, node) at found)))
    | inl no_switch ↦ ground (arith, found, no_host, no_switch)
  ]
]

-- A name that has a value differs from a free one.
lookup_differs :
    {V : Type 0} (name other : Text) (w : V) (d : Dict Text V)
    → contains name d ≡ false
    → lookup other d ≡ some w
    → text_eq name other ≡ false
lookup_differs name other w d free h =
    ground (arith, text_eq_iff name other, lookup_absent name d free)

with_host-Grows :
    (name : Text) (h : Host) (t : Topology)
    → contains name (Topology.hosts t) ≡ false
    → contains name (Topology.switches t) ≡ false
    → Grows t (with_host name h t)
unfolding Grows
with_host-Grows name h t free free' other n found = elim (node_found t other n found) [
  | inl (g, e, same) ↦
      rw same (node_host (with_host name h t) other g (lookup_fresh name other h g _ free e))
  | inr (s, no_host, e, same) ↦
      let differ = lookup_differs name other s (Topology.switches t) free' e in
      let still = lookup-insert name other h (Topology.hosts t) ∙ (rw differ no_host) in
      rw same (node_switch (with_host name h t) other s still e)
]

with_switch-Grows :
    (name : Text) (s : P4Switch) (t : Topology)
    → contains name (Topology.switches t) ≡ false
    → Grows t (with_switch name s t)
unfolding Grows
with_switch-Grows name s t free other n found = elim (node_found t other n found) [
  | inl (g, e, same) ↦ rw same (node_host (with_switch name s t) other g e)
  | inr (r, no_host, e, same) ↦
      rw same
        (node_switch (with_switch name s t) other r no_host (lookup_fresh name other s r _ free e))
]

LinkAssigned-Grows : (t u : Topology) (l : Link) → Grows t u → LinkAssigned t l → LinkAssigned u l
unfolding LinkAssigned Assigned Grows
LinkAssigned-Grows t u l grows ((n, p, found, at_a), (m, q, found', at_b), checked) =
    ((n, p, grows _ n found, at_a), (m, q, grows _ m found', at_b), checked)

links_grow :
    (t u : Topology) (ls : List Link)
    → Grows t u
    → All (LinkAssigned t) ls
    → All (LinkAssigned u) ls
links_grow t u ls grows h =
    All-weaken (LinkAssigned t) (LinkAssigned u) ls (λ l. LinkAssigned-Grows t u l grows) h

pub with_host-WellFormed :
    (h : Host) (t : Topology)
    → contains (Host.name h) (Topology.hosts t) ≡ false
    → contains (Host.name h) (Topology.switches t) ≡ false
    → new_host h ≡ ok h
    → WellFormed t
    → WellFormed (with_host (Host.name h) h t)
unfolding WellFormed HostEntry
with_host-WellFormed h t free free' checked (hosts, switches, apart, links) = (
  insert-fresh_All HostEntry (Host.name h) h (Topology.hosts t) free (refl, checked) hosts,
  switches,
  λ name taken. ground (
    arith,
    taken,
    free',
    apart name,
    contains-insert (Host.name h) name h (Topology.hosts t),
    text_eq_iff (Host.name h) name,
  ),
  links_grow t _ (Topology.links t) (with_host-Grows (Host.name h) h t free free') links,
)

pub with_switch-WellFormed :
    (name : Text) (s : P4Switch) (t : Topology)
    → contains name (Topology.hosts t) ≡ false
    → contains name (Topology.switches t) ≡ false
    → SwitchEntry (name, s)
    → WellFormed t
    → WellFormed (with_switch name s t)
unfolding WellFormed
with_switch-WellFormed name s t free free' checked (hosts, switches, apart, links) = (
  hosts,
  insert-fresh_All SwitchEntry name s (Topology.switches t) free' checked switches,
  λ other taken. ground (
    arith,
    taken,
    free,
    apart other,
    contains-insert name other s (Topology.switches t),
    text_eq_iff name other,
  ),
  links_grow t _ (Topology.links t) (with_switch-Grows name s t free') links,
)

pub node-node_name :
    (t : Topology) (name : Text) (n : NodeKind)
    → WellFormed t
    → node t name ≡ ok n
    → node_name n ≡ name
unfolding WellFormed HostEntry SwitchEntry node_name
node-node_name t name n (hosts, switches, apart, links) found = elim (node_found t name n found) [
  | inl (h, e, same) ↦
      rw same (sym (lookup-entry_All HostEntry name (Topology.hosts t) h hosts e).0)
  | inr (s, no_host, e, same) ↦
      rw same (sym (lookup-entry_All SwitchEntry name (Topology.switches t) s switches e).0)
]
