-- ===== src/Topo/Topology/Ports.antt =====
-- The automatic allocation of ports (`Topology._auto_port`).
use p4net.Base.{
  ℕ, zero, suc, ◌+◌, ◌≤◌, ◌<◌, ◌≡◌, ◌≢◌, subst, All, Option-cases, ◌++◌, refl, ◌↔◌, ◌⊎◌, inl, inr,
  true, false, Option, none, some, List, [], ◌∷◌, arith, ltb, if◌then◌else◌, length, Bool-cases,
  err, ok,
}
use p4net.Base.Members.{member, run≤length}
use p4net.Topo.Names.{no_free_port}
use p4net.Topo.Link.{Link, LinkEndpoint}
use p4net.Base.Text.{Text, text_eq_iff}
use p4net.Topo.Topology.{
  NodeKind, first_free, port_at, used_ports, avoided, cpu_port_of, node_name, is_switch, candidate,
  allocated_port, switch_port_max, with_cpu,
}

-- What the loop has passed is in use.
first_free-passed :
    (fuel c : ℕ) (used : List ℕ) (k : ℕ) → c ≤ k → k < first_free fuel c used → member k used ≡ true
unfolding first_free
first_free-passed zero c used k lo hi = ground arith
first_free-passed (suc fuel) c used k lo hi = elim (Bool-cases (member c used)) [
  | inl taken ↦ ground (arith, first_free-passed fuel (suc c) used k)
  | inr free ↦ ground arith
]

-- The loop ends on a free port, or has passed as many ports as its fuel.
first_free-ends :
    (fuel c : ℕ) (used : List ℕ)
    → (member (first_free fuel c used) used ≡ false) ⊎ (first_free fuel c used ≡ c + fuel)
unfolding first_free
first_free-ends zero c used = inr (omega arith)
first_free-ends (suc fuel) c used = ground (arith, first_free-ends fuel (suc c) used)

first_free≥ : (fuel c : ℕ) (used : List ℕ) → c ≤ first_free fuel c used
unfolding first_free
first_free≥ zero c used = omega arith
first_free≥ (suc fuel) c used = ground (arith, first_free≥ fuel (suc c) used)

-- A fuel of the number of ports in use is enough.
first_free-free : (c : ℕ) (used : List ℕ) → member (first_free (length used) c used) used ≡ false
first_free-free c used = elim (first_free-ends (length used) c used) [
  | inl free ↦ free
  | inr far ↦ elim (Bool-cases (member (first_free (length used) c used) used)) [
    | inr free ↦ free
    | inl taken ↦
        let full = run≤length (suc (length used)) c used (λ k lo hi.
          elim (Bool-cases (ltb k (c + length used))) [
            | inl below ↦ first_free-passed (length used) c used k lo (ground (arith, far, below))
            | inr last ↦ subst (λ m. member m used ≡ true) (ground (arith, far, last, hi)) taken
          ]) in
        ground (arith, full)
  ]
]

-- An endpoint that does not hold port `p` of the node.
unfoldable pub LeavesPort : Text → ℕ → LinkEndpoint → Type 0
LeavesPort name p e = LinkEndpoint.node e ≡ name → LinkEndpoint.port e ≢ some p

-- No link holds the port, and it is not the CPU port.
unfoldable pub IsFree : NodeKind → List Link → ℕ → Type 0
IsFree n ls p =
    (cpu_port_of n ≢ some p)
    × All (λ l. LeavesPort (node_name n) p (Link.a l) × LeavesPort (node_name n) p (Link.b l)) ls

port_at-leaves :
    (name : Text) (p : ℕ) (e : LinkEndpoint)
    → (member p (port_at name e) ≡ false) ↔ LeavesPort name p e
unfolding port_at LeavesPort member
port_at-leaves name p e = elim (Option-cases (LinkEndpoint.port e)) [
  | inl unset ↦ ground (arith, unset)
  | inr (q, set) ↦ ground (arith, set, text_eq_iff (LinkEndpoint.node e) name)
]

member-append :
    (p : ℕ) (xs ys : List ℕ)
    → (member p (xs ++ ys) ≡ false) ↔ ((member p xs ≡ false) × (member p ys ≡ false))
unfolding member
member-append p [] ys = ground arith
member-append p (x ∷ xs) ys = ground (arith, member-append p xs ys)

used_ports-leaves :
    (name : Text) (p : ℕ) (ls : List Link)
    → (member p (used_ports name ls) ≡ false)
      ↔ All (λ l. LeavesPort name p (Link.a l) × LeavesPort name p (Link.b l)) ls
unfolding used_ports member
used_ports-leaves name p [] = (λ _. tt, λ _. refl)
used_ports-leaves name p (l ∷ ls) =
    let here =
      member-append p (port_at name (Link.a l)) (port_at name (Link.b l) ++ used_ports name ls) in
    let more = member-append p (port_at name (Link.b l)) (used_ports name ls) in
    let at_a = port_at-leaves name p (Link.a l) in
    let at_b = port_at-leaves name p (Link.b l) in
    let rest = used_ports-leaves name p ls in
    (
      λ h.
          let split_a = here.0 h in
          let split_b = more.0 split_a.1 in
          ((at_a.0 split_a.0, at_b.0 split_b.0), rest.0 split_b.1),
      λ free. here.1 (at_a.1 free.0.0, more.1 (at_b.1 free.0.1, rest.1 free.1)),
    )

with_cpu-leaves :
    (p : ℕ) (cpu : Option ℕ) (used : List ℕ)
    → (member p (with_cpu cpu used) ≡ false) ↔ ((cpu ≢ some p) × (member p used ≡ false))
unfolding member
with_cpu-leaves p none used = ground arith
with_cpu-leaves p (some c) used = ground arith

avoided-iff-IsFree :
    (n : NodeKind) (ls : List Link) (p : ℕ) → (member p (avoided n ls) ≡ false) ↔ IsFree n ls p
unfolding avoided IsFree
avoided-iff-IsFree n ls p =
    let outer = with_cpu-leaves p (cpu_port_of n) (used_ports (node_name n) ls) in
    let ports = used_ports-leaves (node_name n) p ls in
    (λ h. ((outer.0 h).0, ports.0 (outer.0 h).1), λ free. outer.1 (free.0, ports.1 free.1))

avoided-not-IsFree :
    (n : NodeKind) (ls : List Link) (p : ℕ) → (member p (avoided n ls) ≡ true) ↔ (¬ (IsFree n ls p))
avoided-not-IsFree n ls p = ground (arith, avoided-iff-IsFree n ls p)

-- Ports of a switch start at 1.
unfoldable pub first_port : NodeKind → ℕ
first_port n = if is_switch n then 1 else 0

-- The least free port, from the first one on, and within the range of a switch.
unfoldable pub IsAllocated : NodeKind → List Link → ℕ → Type 0
unfolding first_port
IsAllocated n ls p =
    (first_port n ≤ p)
    × IsFree n ls p
    × ((k : ℕ) → first_port n ≤ k → k < p → ¬ (IsFree n ls k))
    × (is_switch n ≡ true → p ≤ switch_port_max)

candidate≥ : (n : NodeKind) (ls : List Link) → first_port n ≤ candidate n ls
unfolding candidate first_port
candidate≥ n ls = first_free≥ (length (avoided n ls)) (first_port n) (avoided n ls)

candidate-IsFree : (n : NodeKind) (ls : List Link) → IsFree n ls (candidate n ls)
unfolding candidate first_port
candidate-IsFree n ls =
    (avoided-iff-IsFree n ls (candidate n ls)).0 (first_free-free (first_port n) (avoided n ls))

candidate-passed :
    (n : NodeKind) (ls : List Link) (k : ℕ)
    → first_port n ≤ k
    → k < candidate n ls
    → ¬ (IsFree n ls k)
unfolding candidate first_port
candidate-passed n ls k lo hi =
    (avoided-not-IsFree n ls k).0
      (first_free-passed (length (avoided n ls)) (first_port n) (avoided n ls) k lo hi)

candidate-IsAllocated :
    (n : NodeKind) (ls : List Link)
    → (is_switch n ≡ true → candidate n ls ≤ switch_port_max)
    → IsAllocated n ls (candidate n ls)
unfolding IsAllocated
candidate-IsAllocated n ls fits =
    (candidate≥ n ls, candidate-IsFree n ls, candidate-passed n ls, fits)

allocated_port-returns :
    (n : NodeKind) (ls : List Link) (p : ℕ)
    → (allocated_port n ls ≡ ok p)
      ↔ ((candidate n ls ≡ p) × (is_switch n ≡ true → candidate n ls ≤ switch_port_max))
unfolding allocated_port
allocated_port-returns n ls p = ground arith

candidate_least : (n : NodeKind) (ls : List Link) (p : ℕ) → IsAllocated n ls p → candidate n ls ≡ p
unfolding IsAllocated
candidate_least n ls p (lo, free, least, top) = ground (
  arith,
  candidate≥ n ls,
  candidate-IsFree n ls,
  candidate-passed n ls p lo,
  least (candidate n ls),
)

IsAllocated-fits :
    (n : NodeKind) (ls : List Link) (p : ℕ)
    → IsAllocated n ls p
    → is_switch n ≡ true
    → p ≤ switch_port_max
unfolding IsAllocated
IsAllocated-fits n ls p (lo, free, least, top) = top

-- An automatic port is the least one from the first port on that no link holds at the node and
-- that is not its CPU port, and on a switch at most 510; the call returns it whenever it exists.
pub allocated_port-iff-IsAllocated :
    (n : NodeKind) (ls : List Link) (p : ℕ) → (allocated_port n ls ≡ ok p) ↔ IsAllocated n ls p
allocated_port-iff-IsAllocated n ls p =
    let returns = allocated_port-returns n ls p in
    (
      λ h. subst (IsAllocated n ls) (returns.0 h).0 (candidate-IsAllocated n ls (returns.0 h).1),
      λ allocated.
          let same = candidate_least n ls p allocated in
          returns.1 (same, rw same (IsAllocated-fits n ls p allocated)),
    )

allocated_port-raises :
    (n : NodeKind) (ls : List Link)
    → (allocated_port n ls ≡ err no_free_port)
      ↔ ((is_switch n ≡ true) × (switch_port_max < candidate n ls))
unfolding allocated_port
allocated_port-raises n ls = ground arith

-- The automatic allocation fails exactly at a switch of which no port from 1 to 510 is free.
pub allocated_port_full_iff :
    (n : NodeKind) (ls : List Link)
    → (allocated_port n ls ≡ err no_free_port)
      ↔ ((is_switch n ≡ true) × ((p : ℕ) → 1 ≤ p → p ≤ 510 → ¬ (IsFree n ls p)))
unfolding first_port
allocated_port_full_iff n ls =
    let raises = allocated_port-raises n ls in
    let from_start = candidate≥ n ls in
    (
      λ h. (
        (raises.0 h).0,
        λ p lo hi.
            candidate-passed n ls p (ground (arith, (raises.0 h).0))
              (omega (arith, (raises.0 h).1)),
      ),
      λ full. raises.1 (
        full.0,
        ground (arith, full.0, from_start, full.1 (candidate n ls), candidate-IsFree n ls),
      ),
    )
