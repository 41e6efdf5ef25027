-- ===== src/Topo/Topology/Invariant/Additions.antt =====
-- `add_host` and `add_switch` keep the invariant.
use p4net.Base.{
  ℕ, ◌≡◌, sym, ap, subst, ◌∙◌, true, false, Option, none, some, Result-cases, ok, ok_inj, arith,
  inl, inr, Bool-cases, ℤ, pos, negsuc, length,
}
use p4net.Base.Text.{Text}
use p4net.Base.Dict.{text_eq_instance, contains}
use p4net.Topo.Names.{name_re}
use p4net.Topo.Nodes.{Host, P4Switch, SwitchOptions, new_host, new_switch, ranged}
use p4net.Topo.Topology.{Topology, name_taken, add_host, add_switch, assigned, reject_existing_name}
use p4net.Topo.Topology.Invariant.{SwitchEntry, InRange, WellFormed}
use p4net.Topo.Topology.Invariant.Nodes.{
  with_host, with_switch, with_host-WellFormed, with_switch-WellFormed, new_host-same,
}

ranged-InRange : (lo hi : ℕ) (z : Option ℤ) (o : Option ℕ) → ranged lo hi z ≡ ok o → InRange lo hi o
unfolding ranged InRange
ranged-InRange lo hi none o e n h = ground (arith, e, h)
ranged-InRange lo hi (some (negsuc m)) o e n h = cc
ranged-InRange lo hi (some (pos m)) o e n h = ground (arith, e, h)

-- A host is added under a fresh name, with the fields that were given.
pub add_host-returns :
    (h : Host) (t : Topology) (out : Topology × Host)
    → add_host h t ≡ ok out
    → (name_taken t (Host.name h) ≡ false)
      × (new_host h ≡ ok h)
      × (out ≡ (with_host (Host.name h) h t, h))
unfolding add_host reject_existing_name
add_host-returns h t out e = elim (Bool-cases (name_taken t (Host.name h))) [
  | inl taken ↦ ground (arith, e, taken)
  | inr free ↦ elim (Result-cases (new_host h)) [
    | inr (_, bad) ↦ ground (arith, e, free, bad)
    | inl (host, checked) ↦
        let same = new_host-same h host checked in
        (
          free,
          checked ∙ ap ok same,
          subst (λ x. out ≡ (with_host (Host.name h) x t, x)) same
              (sym (ok_inj (rw (free, checked, add_host) at e))),
        )
  ]
]

pub add_switch-returns :
    (name : Text) (o : SwitchOptions) (t : Topology) (out : Topology × P4Switch)
    → add_switch name o t ≡ ok out
    → (name_taken t name ≡ false)
      × (new_switch name (assigned (length (Topology.switches t)) o) ≡ ok out.1)
      × (out ≡ (with_switch name out.1 t, out.1))
unfolding add_switch reject_existing_name
add_switch-returns name o t out e = elim (Bool-cases (name_taken t name)) [
  | inl taken ↦ ground (arith, e, taken)
  | inr free ↦ elim (Result-cases (new_switch name (assigned (length (Topology.switches t)) o))) [
    | inr (_, bad) ↦ ground (arith, e, free, bad)
    | inl (s, checked) ↦
        let same = ok_inj (rw (free, checked, add_switch) at e) in
        (
          free,
          checked ∙ ap (λ pair. ok pair.1) same,
          sym same ∙ ap (λ x. (with_switch name x t, x)) (ap (λ pair. pair.1) same),
        )
  ]
]

-- The numbers of a switch that the constructor returns are the checked ones.
pub new_switch-returns :
    (name : Text) (o : SwitchOptions) (s : P4Switch)
    → new_switch name o ≡ ok s
    → (name_re name ≡ true)
      × (name ≡ P4Switch.name s)
      × (ranged 0 2147483647 (SwitchOptions.device_id o) ≡ ok (P4Switch.device_id s))
      × (ranged 1024 65535 (SwitchOptions.grpc_port o) ≡ ok (P4Switch.grpc_port s))
      × (ranged 1024 65535 (SwitchOptions.thrift_port o) ≡ ok (P4Switch.thrift_port s))
      × (ranged 1 510 (SwitchOptions.cpu_port o) ≡ ok (P4Switch.cpu_port s))
unfolding new_switch
new_switch-returns name o s e = ground arith

new_switch-SwitchEntry :
    (name : Text) (o : SwitchOptions) (s : P4Switch)
    → new_switch name o ≡ ok s
    → SwitchEntry (name, s)
unfolding SwitchEntry
new_switch-SwitchEntry name o s e =
    let (fits, same, device, grpc, thrift, cpu) = new_switch-returns name o s e in
    (
      same,
      subst (λ x. name_re x ≡ true) same fits,
      ranged-InRange _ _ _ _ device,
      ranged-InRange _ _ _ _ grpc,
      ranged-InRange _ _ _ _ thrift,
      ranged-InRange _ _ _ _ cpu,
    )

pub name_taken-free :
    (t : Topology) (name : Text)
    → name_taken t name ≡ false
    → (contains name (Topology.hosts t) ≡ false) × (contains name (Topology.switches t) ≡ false)
unfolding name_taken
name_taken-free t name h = ground arith

pub add_host-WellFormed :
    (h : Host) (t : Topology) (out : Topology × Host)
    → WellFormed t
    → add_host h t ≡ ok out
    → WellFormed out.0
add_host-WellFormed h t out valid e =
    let (untaken, checked, same) = add_host-returns h t out e in
    let (free, free') = name_taken-free t (Host.name h) untaken in
    subst (λ pair. WellFormed pair.0) (sym same) (with_host-WellFormed h t free free' checked valid)

pub add_switch-WellFormed :
    (name : Text) (o : SwitchOptions) (t : Topology) (out : Topology × P4Switch)
    → WellFormed t
    → add_switch name o t ≡ ok out
    → WellFormed out.0
add_switch-WellFormed name o t out valid e =
    let (untaken, made, same) = add_switch-returns name o t out e in
    let (free, free') = name_taken-free t name untaken in
    let entry =
      new_switch-SwitchEntry name (assigned (length (Topology.switches t)) o) out.1 made in
    subst (λ pair. WellFormed pair.0) (sym same)
      (with_switch-WellFormed name out.1 t free free' entry valid)
