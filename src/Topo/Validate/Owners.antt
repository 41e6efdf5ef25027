-- ===== src/Topo/Validate/Owners.antt =====
-- Loops that give every key to its first claim find nothing exactly when all keys are different.
use p4net.Base.{
  ◌≡◌, ◌≢◌, ◌↔◌, refl, sym, ◌∙◌, false, none, some, List, [], ◌∷◌, All, Distinct, arith, inl, inr,
  Option-cases,
}
use p4net.Base.Dict.{
  Eq, Dict, lookup, contains, insert, contains-insert, contains-lookup, lookup_absent,
}
use p4net.Topo.Validate.Problems.{Problem, Claim, problem, skip, claims, collide}

module _ {K O : Type 0} where
  -- The claimed keys in order.
  unfoldable pub claimed : List (Claim K O) → List K
  claimed [] = []
  claimed (problem p ∷ items) = claimed items
  claimed (skip ∷ items) = claimed items
  claimed (claims k o ∷ items) = k ∷ claimed items

  unfoldable pub IsSound : Claim K O → Type 0
  IsSound c = (p : Problem) → c ≢ problem p

module _ {K O : Type 0} ⦃e : Eq K⦄ (collision : K → O → O → Problem) where
  absent_after :
      (k : K) (o : O) (owners : Dict K O) (ks : List K)
      → All (λ j. contains j (insert k o owners) ≡ false) ks
        ↔ (All (λ j. k ≢ j) ks × All (λ j. contains j owners ≡ false) ks)
  absent_after k o owners [] = (λ _. (tt, tt), λ _. tt)
  absent_after k o owners (j ∷ ks) =
      let rest = absent_after k o owners ks in
      let here : (contains j (insert k o owners) ≡ false)
          ↔ ((k ≢ j) × (contains j owners ≡ false)) =
        ground (arith, contains-insert k j o owners, e.beq_iff k j) in
      (
        λ h. let more = rest.0 h.1 in let now = here.0 h.0 in ((now.0, more.0), (now.1, more.1)),
        λ h. (here.1 (h.0.0, h.1.0), rest.1 (h.0.1, h.1.1)),
      )

  collide-owned :
      (owners : Dict K O) (items : List (Claim K O)) (k : K) (o first : O)
      → lookup k owners ≡ some first
      → collide collision owners (claims k o ∷ items)
        ≡ collision k first o ∷ collide collision owners items
  unfolding collide
  collide-owned owners items k o first h = rw (h, collide)

  collide-free :
      (owners : Dict K O) (items : List (Claim K O)) (k : K) (o : O)
      → lookup k owners ≡ none
      → collide collision owners (claims k o ∷ items) ≡ collide collision (insert k o owners) items
  unfolding collide
  collide-free owners items k o h = rw (h, collide)

  -- The loop finds nothing exactly when no item is a problem, all claimed keys are different, and
  -- none has an owner before.
  pub collide_nothing_iff :
      (owners : Dict K O) (items : List (Claim K O))
      → (collide collision owners items ≡ []) ↔ (
          All IsSound items
          × Distinct (claimed items)
          × All (λ k. contains k owners ≡ false) (claimed items))
  unfolding collide claimed IsSound
  collide_nothing_iff owners [] = (λ _. (tt, tt, tt), λ _. refl)
  collide_nothing_iff owners (problem p ∷ items) =
      (λ h. ground (arith, h), λ h. ground (arith, h.0.0 p refl))
  collide_nothing_iff owners (skip ∷ items) =
      let rest = collide_nothing_iff owners items in
      (
        λ h.
            let (sound, distinct, fresh) = rest.0 h in
            ((λ p. ground arith, sound), distinct, fresh),
        λ (sound, distinct, fresh). rest.1 (sound.1, distinct, fresh),
      )
  collide_nothing_iff owners (claims k o ∷ items) = elim (Option-cases (lookup k owners)) [
    | inr (first, owned) ↦
        let step = collide-owned owners items k o first owned in
        (
          λ h. ground (arith, h, step),
          λ (sound, distinct, fresh). ground (arith, owned, lookup_absent k owners fresh.0),
        )
    | inl free ↦
        let step = collide-free owners items k o free in
        let rest = collide_nothing_iff (insert k o owners) items in
        let after = absent_after k o owners (claimed items) in
        (
          λ h.
              let (sound, distinct, fresh) = rest.0 (sym step ∙ h) in
              let (new, old) = after.0 fresh in
              (
                (λ p. ground arith, sound),
                (new, distinct),
                (ground (arith, free, contains-lookup k owners), old),
              ),
          λ (sound, distinct, fresh).
              step ∙ rest.1 (sound.1, distinct.1, after.1 (distinct.0, fresh.1)),
        )
  ]
