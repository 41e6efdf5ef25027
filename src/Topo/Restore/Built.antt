-- ===== src/Topo/Restore/Built.antt =====
-- What `from_dict` needs of a topology to give it back, and that the builder's calls keep it.
use p4net.Base.{
  ℕ, ◌≡◌, refl, sym, ap, subst, ◌∙◌, false, Option, none, some, [], ◌∷◌, All, All-append,
  Result-cases, ok, ok_inj, arith, inl, inr, ℤ, pos, negsuc, length,
}
use p4net.Base.Text.{Text, text_eq_iff}
use p4net.Base.Dict.{text_eq_instance, Dict, contains, insert, contains-insert, insert-fresh_All}
use p4net.Topo.Nodes.{Host, P4Switch, SwitchOptions, new_switch, ranged}
use p4net.Topo.Link.{Link, LinkEndpoint, LinkOptions, new_endpoint}
use p4net.Topo.Topology.{
  Topology, Side, node_name, endpoint_of, assigned, append_link, attach, add_link,
}
use p4net.Topo.Topology.Invariant.Additions.{
  add_host-returns, add_switch-returns, new_switch-returns, name_taken-free,
}
use p4net.Topo.Topology.Invariant.Links.{
  attach-returns, connect-returns, add_link-returns, new_endpoint-same,
}
use p4net.Topo.Topology.Invariant.Steps.{
  Step, host_added, switch_added, link_added, Built, empty, then_step,
}
use p4net.Topo.Restore.Entries.{opt_pos, options_of}

-- No key stands twice.
abbrev pub KeysDiffer : {V : Type 0} → Dict Text V → Type 0
KeysDiffer [] = Unit {0}
KeysDiffer ((k, v) ∷ d) = (contains k d ≡ false) × KeysDiffer d

insert-KeysDiffer :
    {V : Type 0} (k : Text) (v : V) (d : Dict Text V)
    → contains k d ≡ false
    → KeysDiffer d
    → KeysDiffer (insert k v d)
unfolding contains insert
insert-KeysDiffer k v [] free h = (refl, tt)
insert-KeysDiffer k v ((j, w) ∷ d) free h =
    let rest = insert-KeysDiffer k v d (ground (arith, free)) h.1 in
    ground (arith, free, rest, h.0, contains-insert k j v d, text_eq_iff k j, text_eq_iff j k)

-- The constructors take the switch and the ends of the link again.
abbrev pub SwitchAgain : Text × P4Switch → Type 0
SwitchAgain (name, s) = new_switch (P4Switch.name s) (options_of s) ≡ ok s

abbrev pub EndsAgain : Link → Type 0
EndsAgain l = (new_endpoint (Link.a l) ≡ ok (Link.a l)) × (new_endpoint (Link.b l) ≡ ok (Link.b l))

pub record IsRestorable (t : Topology) : Type 0 where
  pub hosts : KeysDiffer (Topology.hosts t)
  pub switches : KeysDiffer (Topology.switches t)
  pub switches_again : All SwitchAgain (Topology.switches t)
  pub ends_again : All EndsAgain (Topology.links t)

ranged_again :
    (lo hi : ℕ) (z : Option ℤ) (o : Option ℕ)
    → ranged lo hi z ≡ ok o
    → ranged lo hi (opt_pos o) ≡ ok o
unfolding ranged
ranged_again lo hi none o e = rw (← ok_inj e) refl
ranged_again lo hi (some (negsuc m)) o e = cc
ranged_again lo hi (some (pos m)) none e = ground (arith, e)
ranged_again lo hi (some (pos m)) (some n) e = ground (arith, e)

new_switch_again :
    (name : Text) (o : SwitchOptions) (s : P4Switch)
    → new_switch name o ≡ ok s
    → new_switch (P4Switch.name s) (options_of s) ≡ ok s
unfolding new_switch
new_switch_again name o s e =
    let (fits, same, device, grpc, thrift, cpu) = new_switch-returns name o s e in
    ground (
      arith,
      e,
      fits,
      same,
      ranged_again _ _ _ _ device,
      ranged_again _ _ _ _ grpc,
      ranged_again _ _ _ _ thrift,
      ranged_again _ _ _ _ cpu,
    )

attach-ends :
    (o : LinkOptions) (t : Topology) (a b : LinkEndpoint) (out : Topology × Link)
    → attach o t a b ≡ ok out
    → (new_endpoint a ≡ ok a) × (new_endpoint b ≡ ok b)
unfolding attach
attach-ends o t a b out e = elim (Result-cases (new_endpoint a)) [
  | inr (_, bad) ↦ ground (arith, e, bad)
  | inl (ea, made_a) ↦ elim (Result-cases (new_endpoint b)) [
    | inr (_, bad) ↦ ground (arith, e, made_a, bad)
    | inl (eb, made_b) ↦ (
      made_a ∙ ap ok (sym (new_endpoint-same a ea made_a)),
      made_b ∙ ap ok (sym (new_endpoint-same b eb made_b)),
    )
  ]
]

add_link-EndsAgain :
    (sa sb : Side) (o : LinkOptions) (t : Topology) (out : Topology × Link)
    → add_link sa sb o t ≡ ok out
    → (out.0 ≡ append_link out.1 t) × EndsAgain out.1
add_link-EndsAgain sa sb o t out e =
    let (na, nb, found_a, found_b, connected) = add_link-returns sa sb o t out e in
    let (pa, pb, at_a, at_b, ifaces, addresses, attached) =
      connect-returns sa sb o t na nb out connected in
    let a = endpoint_of sa (node_name na) pa in
    let b = endpoint_of sb (node_name nb) pb in
    subst (λ pair. (pair.0 ≡ append_link pair.1 t) × EndsAgain pair.1)
      (sym (attach-returns o t a b out attached).0) (refl, attach-ends o t a b out attached)

Step-IsRestorable : {t u : Topology} → IsRestorable t → Step t u → IsRestorable u
Step-IsRestorable r (host_added h t out e) =
    let (untaken, good, same) = add_host-returns h t out e in
    subst (λ pair. IsRestorable pair.0) (sym same)
      (record {
        hosts =
            insert-KeysDiffer (Host.name h) h (Topology.hosts t)
              (name_taken-free t (Host.name h) untaken).0 r.hosts;
        switches = r.switches;
        switches_again = r.switches_again;
        ends_again = r.ends_again;
      })
Step-IsRestorable r (switch_added name o t out e) =
    let (untaken, made, same) = add_switch-returns name o t out e in
    let free = (name_taken-free t name untaken).1 in
    subst (λ pair. IsRestorable pair.0) (sym same)
      (record {
        hosts = r.hosts;
        switches = insert-KeysDiffer name out.1 (Topology.switches t) free r.switches;
        switches_again =
            insert-fresh_All SwitchAgain name out.1 (Topology.switches t) free
              (new_switch_again name (assigned (length (Topology.switches t)) o) out.1 made)
              r.switches_again;
        ends_again = r.ends_again;
      })
Step-IsRestorable r (link_added sa sb o t out e) =
    let (same, ends) = add_link-EndsAgain sa sb o t out e in
    subst IsRestorable (sym same) (record {
      hosts = r.hosts;
      switches = r.switches;
      switches_again = r.switches_again;
      ends_again = All-append EndsAgain (Topology.links t) (out.1 ∷ []) r.ends_again (ends, tt);
    })

pub Built-IsRestorable : {t : Topology} → Built t → IsRestorable t
Built-IsRestorable empty = record {
  hosts = tt;
  switches = tt;
  switches_again = tt;
  ends_again = tt;
}
Built-IsRestorable (then_step s t built step) = Step-IsRestorable (Built-IsRestorable built) step
