-- ===== src/Control/Client/Ids.antt =====
-- Objects that are found by name and named by id, where all ids differ.
use p4net.Base.{
  ◌≡◌, ◌≢◌, refl, sym, ap, ◌∙◌, ◌==◌, ==_iff, ==_refl, some, List, [], ◌∷◌, All, Distinct,
  All-weaken, map, arith, inl, inr, Bool-cases,
}
use mathlib.Core.Option.{some-injective}
use p4net.Base.Text.{Text, text_eq}
use p4net.Base.Dict.{text_eq_instance, Dict, values, lookup, lookup-entry_All}
use p4net.Control.Index.{Preamble, index_by, name_of}
use p4net.Control.Index.Keyed.{index_by-entry_All}
use p4net.Control.Client.Tables.{of_id}

module _ {A : Type 0} (preamble : A → Preamble) where
  later :
      (x : A) (all xs : List A)
      → All (λ id. (preamble x).id ≢ id) (map (λ y. (preamble y).id) xs)
      → All (λ y. of_id preamble (preamble y).id all ≡ some y) xs
      → All (λ y. of_id preamble (preamble y).id (x ∷ all) ≡ some y) xs
  unfolding of_id
  later x all [] h q = tt
  later x all (y ∷ ys) h q =
      (ground (arith, h.0, q.0, ==_iff (preamble x).id (preamble y).id), later x all ys h.1 q.1)

  -- The first object of an id is the one that has it.
  pub of_id-here :
      (xs : List A)
      → Distinct (map (λ x. (preamble x).id) xs)
      → All (λ x. of_id preamble (preamble x).id xs ≡ some x) xs
  unfolding of_id
  of_id-here [] h = tt
  of_id-here (x ∷ xs) h = (rw (==_refl (preamble x).id) refl, later x xs xs h.0 (of_id-here xs h.1))

  -- The objects of a dict are those that their ids lead to.
  Leads : List A → Dict Text A → Type 0
  Leads xs d = All (λ entry. of_id preamble (preamble entry.1).id xs ≡ some entry.1) d

  name_of-found :
      (xs : List A) (d : Dict Text A) (k : Text) (x : A)
      → Leads xs d
      → of_id preamble (preamble x).id xs ≡ some x
      → lookup k d ≡ some x
      → name_of preamble (preamble x).id (values d) ≡ some (preamble x).name
  unfolding Leads name_of lookup
  name_of-found xs [] k x leads here found = cc
  name_of-found xs ((j, y) ∷ d) k x leads here found =
      elim (Bool-cases ((preamble y).id == (preamble x).id)) [
        | inl same ↦
            let one : y ≡ x = some-injective y x (
              sym leads.0
              ∙ ap (λ n. of_id preamble n xs) ((==_iff (preamble y).id (preamble x).id).0 same)
              ∙ here) in
            rw same (ap (λ z. some (preamble z).name) one)
        | inr differ ↦ rw differ (elim (Bool-cases (text_eq j k)) [
          | inl at_key ↦
              let one : y ≡ x = some-injective y x (rw at_key at found) in
              absurd (
                ground (
                  arith,
                  differ,
                  ==_iff (preamble y).id (preamble x).id,
                  ap (λ z. (preamble z).id) one,
                ))
          | inr off ↦ name_of-found xs d k x leads.1 here (rw off at found)
        ])
      ]

  -- What is found by name is named by its id, and has the name.
  pub named_by_id :
      (xs : List A) (k : Text) (x : A)
      → Distinct (map (λ y. (preamble y).id) xs)
      → lookup k (index_by (λ y. (preamble y).name) [] xs) ≡ some x
      → (of_id preamble (preamble x).id xs ≡ some x)
        × (name_of preamble (preamble x).id (values (index_by (λ y. (preamble y).name) [] xs))
            ≡ some k)
  unfolding Leads
  named_by_id xs k x differ found =
      let entries =
        index_by-entry_All (λ y. (preamble y).name)
          (λ y. of_id preamble (preamble y).id xs ≡ some y) [] xs tt (of_id-here xs differ) in
      let d = index_by (λ y. (preamble y).name) [] xs in
      let leads = All-weaken _ _ d (λ entry h. h.1) entries in
      let (name_is, here) =
        lookup-entry_All
          (λ entry.
            ((preamble entry.1).name ≡ entry.0)
            × (of_id preamble (preamble entry.1).id xs ≡ some entry.1))
          k d x entries found in
      (here, name_of-found xs d k x leads here found ∙ ap some name_is)
