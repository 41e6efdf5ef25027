-- ===== src/Control/Client/Relisted.antt =====
-- Keys that were sent, read back from the switch and sent again.
use p4net.Base.{
  ℕ, ◌≡◌, ◌≢◌, refl, sym, ap, subst, ◌∙◌, true, false, Option, none, some, List, [], ◌∷◌, ◌++◌, All,
  Distinct, arith, inl, inr, Bool-cases, Option-cases, Result-cases, ok, ok_inj,
}
use mathlib.Core.List.{append-nil, append_assoc}
use mathlib.Core.Option.{some-injective}
use p4net.Base.Text.{Text, text_eq, text_eq_iff}
use p4net.Base.Dict.{
  text_eq_instance, nat_eq, Dict, keys, lookup, contains, insert, insert_fresh, lookup-contains,
  contains-insert,
}
use p4net.Control.Codec.{Arg}
use p4net.Control.Index.{MatchType, exact, lpm, ternary, range, optional, unspecified, MatchField}
use p4net.Control.Index.MatchKeys.{
  MatchForm, FieldMatch, encode_form, Match, cons_form, encode_items, known_names, is_exact,
}
use p4net.Control.Index.Matching.{IsPythonArg}
use p4net.Control.Client.Tables.{raw_form, decoded_match}
use p4net.Control.Client.ReEncode.{SentAgain, encode_form-SentAgain}

-- The items of a key, the forms that are sent for them, and what these read as.
pub data Sends (fields : Dict Text MatchField) : Match → List FieldMatch → Match → Type 0 where
  nothing : Sends fields [] [] []
  wildcard :
      {items raw : Match} {fms : List FieldMatch} (name : Text) (arg : Arg) (mf : MatchField)
      → lookup name fields ≡ some mf
      → encode_form mf.match_type mf.bitwidth arg ≡ ok none
      → Sends fields items fms raw
      → Sends fields ((name, arg) ∷ items) fms raw
  sent :
      {items raw : Match} {fms : List FieldMatch} (name : Text) (arg : Arg) (mf : MatchField)
      (form : MatchForm)
      → lookup name fields ≡ some mf
      → encode_form mf.match_type mf.bitwidth arg ≡ ok (some form)
      → Sends fields items fms raw
      → Sends fields
          ((name, arg) ∷ items)
          (record { field_id = mf.id; form = form } ∷ fms)
          ((name, raw_form form) ∷ raw)

exact-never_wild :
    (mt : MatchType) (w : ℕ) (arg : Arg) → is_exact mt ≡ true → encode_form mt w arg ≢ ok none
unfolding encode_form
exact-never_wild exact w arg h e = ground (arith, e)
exact-never_wild lpm w arg h e = cc
exact-never_wild ternary w arg h e = cc
exact-never_wild range w arg h e = cc
exact-never_wild optional w arg h e = cc
exact-never_wild unspecified w arg h e = cc

-- A name that is read is absent from the names still to come.
absent-insert :
    (k : Text) (arg : Arg) (out : Match) (ks : List Text)
    → All (λ j. k ≢ j) ks
    → All (λ j. contains j out ≡ false) ks
    → All (λ j. contains j (insert k arg out) ≡ false) ks
absent-insert k arg out [] h q = tt
absent-insert k arg out (j ∷ ks) h q = (
  ground (arith, contains-insert k j arg out, text_eq_iff k j, h.0, q.0),
  absent-insert k arg out ks h.1 q.1,
)

module _ (fields : Dict Text MatchField) where
  step :
      (name : Text) (arg : Arg) (items : Match) (mf : MatchField) (form : Option MatchForm)
      (rest fms : List FieldMatch) (raw : Match)
      → lookup name fields ≡ some mf
      → encode_form mf.match_type mf.bitwidth arg ≡ ok form
      → Sends fields items rest raw
      → cons_form mf.id form rest ≡ fms
      → (out : Match) × Sends fields ((name, arg) ∷ items) fms out
  step name arg items mf none rest fms raw found made sends same = (
    raw,
    subst (λ l. Sends fields ((name, arg) ∷ items) l raw) same
        (wildcard name arg mf found made sends),
  )
  step name arg items mf (some form) rest fms raw found made sends same = (
    (name, raw_form form) ∷ raw,
    subst (λ l. Sends fields ((name, arg) ∷ items) l ((name, raw_form form) ∷ raw)) same
        (sent name arg mf form found made sends),
  )

  pub encode_items-Sends :
      (items : Match) (fms : List FieldMatch)
      → encode_items fields items ≡ ok fms
      → (raw : Match) × Sends fields items fms raw
  unfolding encode_items
  encode_items-Sends [] fms e = ([], subst (λ l. Sends fields [] l []) (ok_inj e) nothing)
  encode_items-Sends ((name, arg) ∷ items) fms e = elim (Option-cases (lookup name fields)) [
    | inl absent ↦ ground (arith, e, absent)
    | inr (mf, found) ↦ elim (Result-cases (encode_form mf.match_type mf.bitwidth arg)) [
      | inr (_, bad) ↦ ground (arith, e, found, bad)
      | inl (form, made) ↦ elim (Result-cases (encode_items fields items)) [
        | inr (_, bad) ↦ ground (arith, e, found, made, bad)
        | inl (rest, more) ↦
            let (raw, sends) = encode_items-Sends items rest more in
            step name arg items mf form rest fms raw found made sends
              (ok_inj (rw (found, made, more, encode_items) at e))
      ]
    ]
  ]

  -- The raw key is sent as the same forms.
  pub Sends_again :
      {items raw : Match} {fms : List FieldMatch}
      → All (λ item. IsPythonArg item.1) items
      → Sends fields items fms raw
      → encode_items fields raw ≡ ok fms
  unfolding encode_items SentAgain
  Sends_again p nothing = refl
  Sends_again p (wildcard name arg mf found e rest) = Sends_again p.1 rest
  Sends_again p (sent name arg mf form found e rest) =
      let again = encode_form-SentAgain mf.bitwidth mf.match_type arg form p.0 e in
      let more = Sends_again p.1 rest in rw (found, again, more) refl

  pub Sends-known :
      {items raw : Match} {fms : List FieldMatch}
      → Sends fields items fms raw
      → known_names fields raw ≡ true
  unfolding known_names
  Sends-known nothing = refl
  Sends-known (wildcard name arg mf found e rest) = Sends-known rest
  Sends-known (sent name arg mf form found e rest) =
      rw (lookup-contains name fields mf found, Sends-known rest) refl

  -- A name that differs from all names of the key differs from all that are read back.
  Sends-other :
      {items raw : Match} {fms : List FieldMatch} (k : Text)
      → Sends fields items fms raw
      → All (λ j. k ≢ j) (keys items)
      → All (λ j. k ≢ j) (keys raw)
  Sends-other k nothing h = tt
  Sends-other k (wildcard name arg mf found e rest) h = Sends-other k rest h.1
  Sends-other k (sent name arg mf form found e rest) h = (h.0, Sends-other k rest h.1)

  pub Sends-Distinct :
      {items raw : Match} {fms : List FieldMatch}
      → Sends fields items fms raw
      → Distinct (keys items)
      → Distinct (keys raw)
  Sends-Distinct nothing h = tt
  Sends-Distinct (wildcard name arg mf found e rest) h = Sends-Distinct rest h.1
  Sends-Distinct (sent name arg mf form found e rest) h =
      (Sends-other name rest h.0, Sends-Distinct rest h.1)

  -- An exact field of the key is never left out.
  pub Sends-exact :
      {items raw : Match} {fms : List FieldMatch} (mf : MatchField)
      → lookup mf.name fields ≡ some mf
      → is_exact mf.match_type ≡ true
      → Sends fields items fms raw
      → contains mf.name items ≡ true
      → contains mf.name raw ≡ true
  unfolding contains
  Sends-exact mf here is_ex nothing h = h
  Sends-exact mf here is_ex (wildcard name arg other found e rest) h =
      elim (Bool-cases (text_eq name mf.name)) [
        | inr differ ↦ Sends-exact mf here is_ex rest (rw differ at h)
        | inl same ↦
            let one_name = (text_eq_iff name mf.name).0 same in
            let one_field : other ≡ mf =
              some-injective other mf (sym found ∙ ap (λ n. lookup n fields) one_name ∙ here) in
            absurd (
              exact-never_wild other.match_type other.bitwidth arg
                (subst (λ f. is_exact f.match_type ≡ true) (sym one_field) is_ex) e)
      ]
  Sends-exact mf here is_ex (sent name arg other form found e rest) h =
      elim (Bool-cases (text_eq name mf.name)) [
        | inl same ↦ rw same refl
        | inr differ ↦ rw differ (Sends-exact mf here is_ex rest (rw differ at h))
      ]

-- The ids of the table lead back to the fields that the names lead to.
unfoldable pub Agrees : Dict Text MatchField → Dict ℕ MatchField → Type 0
Agrees fields by_id =
    (name : Text) (mf : MatchField)
    → lookup name fields ≡ some mf
    → (lookup mf.id by_id ≡ some mf) × (mf.name ≡ name)

-- What the switch returns reads as the raw key, behind what was read before.
pub decoded_match-Sends :
    (fields : Dict Text MatchField) (by_id : Dict ℕ MatchField) (out : Match) {items raw : Match}
    {fms : List FieldMatch}
    → Agrees fields by_id
    → Sends fields items fms raw
    → Distinct (keys raw)
    → All (λ k. contains k out ≡ false) (keys raw)
    → decoded_match by_id fms out ≡ out ++ raw
unfolding decoded_match Agrees
decoded_match-Sends fields by_id out agrees nothing distinct fresh = sym (append-nil out)
decoded_match-Sends fields by_id out agrees (wildcard name arg mf found e rest) distinct fresh =
    decoded_match-Sends fields by_id out agrees rest distinct fresh
decoded_match-Sends fields by_id out agrees (sent {raw = tail} name arg mf form found e rest)
      distinct fresh =
    let (by, same) = agrees name mf found in
    let more =
      decoded_match-Sends fields by_id (insert name (raw_form form) out) agrees rest distinct.1
        (absent-insert name (raw_form form) out (keys tail) distinct.0 fresh.1) in
    let appended = insert_fresh name (raw_form form) out fresh.0 in
    rw (by, same)
      (more ∙ ap (λ d. d ++ tail) appended ∙ append_assoc out ((name, raw_form form) ∷ []) tail)
