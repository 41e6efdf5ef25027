-- ===== src/Topo/Validate/Distinct.antt =====
-- What the middle parts of `Topology.validate` promise.
use p4net.Base.{
  Distinct, ℕ, suc, ◌≡◌, ◌↔◌, refl, sym, subst, false, Option, none, some, List, [], ◌∷◌, ◌++◌, All,
  arith, inl, inr, Option-cases,
}
use p4net.Base.Text.{Text}
use p4net.Base.Dict.{text_eq_instance, nat_eq, pair_eq, Eq, contains}
use p4net.Topo.Link.{Link, LinkEndpoint}
use p4net.Topo.Topology.{Topology}
use p4net.Topo.Validate.Problems.{Claim, ends, End, end_a, end_b, port_collision}
use p4net.Topo.Validate.Claims.{port_claim, port_claims, port_problems, bool_eq}
use p4net.Topo.Validate.Owners.{claimed, IsSound, collide_nothing_iff}

-- The values that are set.
abbrev pub when_set_to : {A B : Type 0} → Option A → (A → B) → List B
when_set_to none f = []
when_set_to (some a) f = f a ∷ []

-- The pairs of node and port over all ends of all links.
pub assigned_ports : List Link → List (Text × ℕ)
assigned_ports [] = []
assigned_ports (l ∷ ls) =
    when_set_to (LinkEndpoint.port (Link.a l)) (λ p. (LinkEndpoint.node (Link.a l), p))
    ++ (when_set_to (LinkEndpoint.port (Link.b l)) (λ p. (LinkEndpoint.node (Link.b l), p))
        ++ assigned_ports ls)

claimed-port_claim :
    (end : End) (items : List (Claim (Text × ℕ) ℕ))
    → claimed (port_claim end ∷ items)
      ≡ when_set_to
          (LinkEndpoint.port (End.endpoint end))
          (λ p. (LinkEndpoint.node (End.endpoint end), p))
        ++ claimed items
unfolding port_claim claimed
claimed-port_claim end items = elim (Option-cases (LinkEndpoint.port (End.endpoint end))) [
  | inl unset ↦ rw (unset, claimed, port_claim)
  | inr (p, set) ↦ rw (set, claimed, port_claim)
]

claimed-nothing : claimed {K = Text × ℕ} {O = ℕ} [] ≡ []
unfolding claimed
claimed-nothing = refl

claimed-port_claims :
    (i : ℕ) (ls : List Link) → claimed (port_claims (ends i ls)) ≡ assigned_ports ls
unfolding port_claims ends assigned_ports
claimed-port_claims i [] = claimed-nothing
claimed-port_claims i (l ∷ ls) =
    let at_a : End = record { link = i; which = end_a; endpoint = Link.a l } in
    let at_b : End = record { link = i; which = end_b; endpoint = Link.b l } in
    let rest = port_claims (ends (suc i) ls) in
    rw (
      claimed-port_claim at_a (port_claim at_b ∷ rest),
      claimed-port_claim at_b rest,
      claimed-port_claims (suc i) ls,
    )

-- No item of a loop over ports is a problem of its own.
port_claim-IsSound : (end : End) → IsSound (port_claim end)
unfolding IsSound port_claim
port_claim-IsSound end = ground arith

port_claims-IsSound : (es : List End) → All IsSound (port_claims es)
unfolding port_claims
port_claims-IsSound [] = tt
port_claims-IsSound (end ∷ es) = (port_claim-IsSound end, port_claims-IsSound es)

pub absent_all :
    {K : Type 0} (V : Type 0) ⦃e : Eq K⦄ (ks : List K) → All (λ k. contains {V = V} k [] ≡ false) ks
unfolding contains
absent_all V [] = tt
absent_all V (k ∷ ks) = (refl, absent_all V ks)

-- The ports are found sound exactly when no two ends of links hold one port of one node.
pub port_problems-iff-Distinct :
    (t : Topology) → (port_problems t ≡ []) ↔ Distinct (assigned_ports (Topology.links t))
unfolding port_problems
port_problems-iff-Distinct t =
    let items = port_claims (ends 0 (Topology.links t)) in
    let keys_are = claimed-port_claims 0 (Topology.links t) in
    let found = collide_nothing_iff port_collision [] items in
    (
      λ h. let (sound, distinct, fresh) = found.0 h in subst Distinct keys_are distinct,
      λ distinct. found.1 (
        port_claims-IsSound (ends 0 (Topology.links t)),
        subst Distinct (sym keys_are) distinct,
        absent_all ℕ (claimed items),
      ),
    )
