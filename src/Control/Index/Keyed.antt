-- ===== src/Control/Index/Keyed.antt =====
-- Dicts that index a list by a key of its elements.
use p4net.Base.{
  ◌≡◌, ◌≢◌, refl, sym, ◌∙◌, ◌↔◌, inl, inr, false, some, List, [], ◌∷◌, map, All, Distinct,
  Bool-cases, arith,
}
use p4net.Base.Dict.{
  Eq, Dict, lookup, contains, insert, lookup-insert, contains-insert, contains-lookup,
  insert-entry_All,
}
use p4net.Control.Index.{index_by}

module _ {A K : Type 0} ⦃e : Eq K⦄ (key : A → K) where
  -- A key that no element has is looked up below the elements.
  lookup-index_by_other :
      (k : K) (d : Dict K A) (xs : List A)
      → All (λ x. key x ≢ k) xs
      → lookup k (index_by key d xs) ≡ lookup k d
  unfolding index_by
  lookup-index_by_other k d [] h = refl
  lookup-index_by_other k d (x ∷ xs) h =
      let rest = lookup-index_by_other k (insert (key x) x d) xs h.1 in
      rest ∙ ground (arith, lookup-insert (key x) k x d, e.beq_iff (key x) k, h.0)

  others : (x : A) (xs : List A) → All (λ k. key x ≢ k) (map key xs) → All (λ y. key y ≢ key x) xs
  others x [] h = tt
  others x (y ∷ ys) h = (λ same. h.0 (sym same), others x ys h.1)

  -- Where all keys differ, every element is found under its key.
  pub lookup-index_by :
      (d : Dict K A) (xs : List A)
      → Distinct (map key xs)
      → All (λ x. lookup (key x) (index_by key d xs) ≡ some x) xs
  unfolding index_by
  lookup-index_by d [] h = tt
  lookup-index_by d (x ∷ xs) h = (
    lookup-index_by_other (key x) (insert (key x) x d) xs (others x xs h.0)
        ∙ ground (arith, lookup-insert (key x) (key x) x d, e.beq_iff (key x) (key x)),
    lookup-index_by (insert (key x) x d) xs h.1,
  )

  -- What is found is an element, under its own key.
  pub index_by-entry_All :
      (P : A → Type 0) (d : Dict K A) (xs : List A)
      → All (λ entry. (key entry.1 ≡ entry.0) × P entry.1) d
      → All P xs
      → All (λ entry. (key entry.1 ≡ entry.0) × P entry.1) (index_by key d xs)
  unfolding index_by
  index_by-entry_All P d [] h p = h
  index_by-entry_All P d (x ∷ xs) h p =
      index_by-entry_All P (insert (key x) x d) xs
        (insert-entry_All (λ entry. (key entry.1 ≡ entry.0) × P entry.1) (key x) x d (refl, p.0) h)
        p.1

  -- The keys that the dict lacks are the keys of no element.
  contains-index_by_others :
      (k : K) (d : Dict K A) (xs : List A)
      → contains k (index_by key d xs) ≡ false
      → All (λ x. key x ≢ k) xs × (contains k d ≡ false)
  unfolding index_by
  contains-index_by_others k d [] h = (tt, h)
  contains-index_by_others k d (x ∷ xs) h =
      let (others_differ, below) = contains-index_by_others k (insert (key x) x d) xs h in
      let inserted = sym (contains-insert (key x) k x d) ∙ below in
      (
        (ground (arith, inserted, e.beq_iff (key x) k), others_differ),
        ground (arith, inserted, e.beq_iff (key x) k),
      )

  pub contains-index_by_iff :
      (k : K) (xs : List A) → (contains k (index_by key [] xs) ≡ false) ↔ All (λ x. key x ≢ k) xs
  unfolding lookup
  contains-index_by_iff k xs = (
    λ h. (contains-index_by_others k [] xs h).0,
    λ h. elim (Bool-cases (contains k (index_by key [] xs))) [
      | inr absent ↦ absent
      | inl present ↦
          let (v, found) = contains-lookup k (index_by key [] xs) present in
          absurd (cc (found, lookup-index_by_other k [] xs h))
    ],
  )
