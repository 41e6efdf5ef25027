-- ===== src/Control/Index/WholeKey.antt =====
-- `encode_match` as a whole: the list of forms that is sent accepts exactly the packets that the
-- caller's key describes, and only a name or a value that is wrong stops it.
use p4net.Base.{
  ℕ, ◌^◌, ◌<◌, ◌≡◌, sym, subst, ◌∙◌, ◌↔◌, inl, inr, true, false, Option, none, some, List, [], ◌∷◌,
  arith, Bool-cases, Option-cases, All, ok, err, >>=-eq-ok, ok_inj, Result-cases,
}
use p4net.Base.Text.{Text}
use p4net.Base.Dict.{
  Dict, lookup, insert, lookup-All, insert-All, contains-lookup, text_eq_instance,
}
use mathlib.Core.Option.{some-injective}
use p4net.Control.Codec.{Arg, encode_value, parse_lpm, parse_ternary, parse_range, CodecError}
use p4net.Control.Index.{
  MatchType, exact, lpm, ternary, range, optional, unspecified, MatchField, Table, P4InfoIndex,
  IndexError, no_such_field, encoding, index_by,
}
use p4net.Control.Index.MatchKeys.{
  MatchForm, FieldMatch, as_value, encode_form, Match, cons_form, encode_items, known_names,
  fields_of, encode_match,
}
use p4net.Control.Index.UnknownNames.{HasUnknown, known_names-iff-HasUnknown}
use p4net.Control.Index.Matching.{
  FormMatches, SentMatches, KeyMatches, IsPythonArg, exact-matches, lpm-matches, ternary-matches,
  range-matches,
}

pub encode_form-matches :
    (mt : MatchType) (w x : ℕ) (arg : Arg) (sent : Option MatchForm)
    → IsPythonArg arg
    → x < 2 ^ w
    → encode_form mt w arg ≡ ok sent
    → SentMatches w sent x ↔ KeyMatches mt w arg x
unfolding encode_form
encode_form-matches exact w x arg sent p small e =
    let (bs, e1, e2) = >>=-eq-ok (encode_value (as_value arg) w) _ e in
    subst (λ s. SentMatches w s x ↔ KeyMatches exact w arg x) (ok_inj e2)
      (exact-matches w x arg p small bs e1)
encode_form-matches optional w x arg sent p small e =
    let (bs, e1, e2) = >>=-eq-ok (encode_value (as_value arg) w) _ e in
    subst (λ s. SentMatches w s x ↔ KeyMatches optional w arg x) (ok_inj e2)
      (exact-matches w x arg p small bs e1)
encode_form-matches lpm w x arg sent p small e =
    let ((bs, len), e1, e2) = >>=-eq-ok (parse_lpm arg w) _ e in
    subst (λ s. SentMatches w s x ↔ KeyMatches lpm w arg x) (ok_inj e2)
      (lpm-matches w x arg p small bs len e1)
encode_form-matches ternary w x arg sent p small e =
    let ((v, m), e1, e2) = >>=-eq-ok (parse_ternary arg w) _ e in
    subst (λ s. SentMatches w s x ↔ KeyMatches ternary w arg x) (ok_inj e2)
      (ternary-matches w x arg p small v m e1)
encode_form-matches range w x arg sent p small e =
    let ((lo, hi), e1, e2) = >>=-eq-ok (parse_range arg w) _ e in
    subst (λ s. SentMatches w s x ↔ KeyMatches range w arg x) (ok_inj e2)
      (range-matches w x arg p small lo hi e1)
encode_form-matches unspecified w x arg sent p small e = cc

-- A packet, as the number in each of the table's fields by the field's id, with the widths that
-- the switch knows.
pub record Packet : Type 0 where
  pub number : ℕ → ℕ
  pub width : ℕ → ℕ

-- The widths are the table's, and each number fits.
abbrev pub FitsTable : Packet → List MatchField → Type 0
FitsTable packet =
    All (λ mf. (packet.width mf.id ≡ mf.bitwidth) × (packet.number mf.id < 2 ^ mf.bitwidth))

-- The switch's side: every form that was sent is satisfied.
abbrev pub AllSentMatch : Packet → List FieldMatch → Type 0
AllSentMatch packet =
    All (λ fm. FormMatches (packet.width fm.field_id) fm.form (packet.number fm.field_id))

-- The caller's side: every item of the key is satisfied, at the field of its name.
abbrev pub ItemMatches : Dict Text MatchField → Packet → Text × Arg → Type 0
ItemMatches fields packet (name, arg) =
    (mf : MatchField) × (lookup name fields ≡ some mf)
    × KeyMatches mf.match_type mf.bitwidth arg (packet.number mf.id)

-- What every field of a table has, every entry of the dict over them has.
index_by-All :
    (P : MatchField → Type 0) (d : Dict Text MatchField) (mfs : List MatchField)
    → All P mfs
    → All (λ entry. P entry.1) d
    → All (λ entry. P entry.1) (index_by (λ mf. mf.name) d mfs)
unfolding index_by
index_by-All P d [] h q = q
index_by-All P d (mf ∷ mfs) h q =
    index_by-All P (insert mf.name mf d) mfs h.1 (insert-All P mf.name mf d h.0 q)

iff_trans : {A B C : Type 0} → A ↔ B → B ↔ C → A ↔ C
iff_trans f g = (λ a. g.0 (f.0 a), λ c. f.1 (g.1 c))

both_iff : {A B C D : Type 0} → A ↔ B → C ↔ D → (A × C) ↔ (B × D)
both_iff f g = (λ p. (f.0 p.0, g.0 p.1), λ p. (f.1 p.0, g.1 p.1))

cons_form-AllSentMatch :
    (packet : Packet) (id : ℕ) (sent : Option MatchForm) (fms : List FieldMatch)
    → AllSentMatch packet (cons_form id sent fms)
      ↔ (SentMatches (packet.width id) sent (packet.number id) × AllSentMatch packet fms)
cons_form-AllSentMatch packet id none fms = (λ h. (tt, h), λ h. h.1)
cons_form-AllSentMatch packet id (some form) fms = (λ h. h, λ h. h)

encode_items_nil :
    (fields : Dict Text MatchField) (fms : List FieldMatch)
    → encode_items fields [] ≡ ok fms
    → fms ≡ []
unfolding encode_items
encode_items_nil fields fms e = cc

encode_items_cons :
    (fields : Dict Text MatchField) (name : Text) (arg : Arg) (items : Match)
    (fms : List FieldMatch)
    → encode_items fields ((name, arg) ∷ items) ≡ ok fms
    → (mf : MatchField) × (sent : Option MatchForm) × (rest : List FieldMatch) × (lookup name fields
        ≡ some mf)
      × (encode_form mf.match_type mf.bitwidth arg ≡ ok sent)
      × (encode_items fields items ≡ ok rest)
      × (fms ≡ cons_form mf.id sent rest)
unfolding encode_items
encode_items_cons fields name arg items fms e = elim (Option-cases (lookup name fields)) [
  | inl none_found ↦ ground arith
  | inr (mf, found) ↦ elim (Result-cases (encode_form mf.match_type mf.bitwidth arg)) [
    | inr (x, failed) ↦ ground arith
    | inl (sent, encoded) ↦ elim (Result-cases (encode_items fields items)) [
      | inr (x, failed) ↦ ground arith
      | inl (rest, done) ↦ (mf, sent, rest, found, encoded, done, ground arith)
    ]
  ]
]

-- One item is satisfied as its caller means it exactly when what was sent of it is.
item-matches :
    (fields : Dict Text MatchField) (packet : Packet) (name : Text) (arg : Arg) (mf : MatchField)
    (sent : Option MatchForm)
    → IsPythonArg arg
    → (packet.width mf.id ≡ mf.bitwidth) × (packet.number mf.id < 2 ^ mf.bitwidth)
    → lookup name fields ≡ some mf
    → encode_form mf.match_type mf.bitwidth arg ≡ ok sent
    → SentMatches (packet.width mf.id) sent (packet.number mf.id)
      ↔ ItemMatches fields packet (name, arg)
item-matches fields packet name arg mf sent p (width, small) found e = rw width (
    iff_trans
      (encode_form-matches mf.match_type mf.bitwidth (packet.number mf.id) arg sent p small e)
      (
        λ h. (mf, found, h),
        λ (mf', found', h).
            subst (λ f. KeyMatches f.match_type f.bitwidth arg (packet.number f.id))
              (some-injective mf' mf (sym found' ∙ found)) h,
      ))

encode_items-matches :
    (fields : Dict Text MatchField) (packet : Packet) (items : Match) (fms : List FieldMatch)
    → All
        (λ entry.
          (packet.width entry.1.id ≡ entry.1.bitwidth)
          × (packet.number entry.1.id < 2 ^ entry.1.bitwidth))
        fields
    → All (λ item. IsPythonArg item.1) items
    → encode_items fields items ≡ ok fms
    → AllSentMatch packet fms ↔ All (ItemMatches fields packet) items
encode_items-matches fields packet [] fms fits p e =
    rw (encode_items_nil fields fms e) (λ h. tt, λ h. tt)
encode_items-matches fields packet ((name, arg) ∷ items) fms fits p e =
    let (mf, sent, rest, found, encoded, done, whole) =
      encode_items_cons fields name arg items fms e in
    let fit =
      lookup-All (λ f. (packet.width f.id ≡ f.bitwidth) × (packet.number f.id < 2 ^ f.bitwidth))
        name fields mf fits found in
    subst (λ l. AllSentMatch packet l ↔ All (ItemMatches fields packet) ((name, arg) ∷ items))
      (sym whole)
      (iff_trans (cons_form-AllSentMatch packet mf.id sent rest) (
        both_iff (item-matches fields packet name arg mf sent p.0 fit found encoded)
          (encode_items-matches fields packet items rest fits p.1 done)))

encode_match-items :
    (index : P4InfoIndex) (name : Text) (table : Table) (match : Match) (fms : List FieldMatch)
    → lookup name index.tables_by_name ≡ some table
    → encode_match index name match ≡ ok fms
    → encode_items (fields_of table) match ≡ ok fms
unfolding encode_match
encode_match-items index name table match fms found e = ground arith

-- When `encode_match` returns, the forms that it sends are satisfied by exactly the packets that
-- satisfy every item of the key: at each field of the table, a value as `encode_value` reads it, a
-- prefix, a value under a mask, or an interval. In particular, what is left out of the message (a
-- prefix of length 0, a zero mask, the whole range) restricts nothing.
-- The packet's numbers fit the widths of the table's fields, and the `bytes` objects of the key
-- hold bytes.
pub encode_match-matches :
    (index : P4InfoIndex) (name : Text) (table : Table) (match : Match) (fms : List FieldMatch)
    (packet : Packet)
    → lookup name index.tables_by_name ≡ some table
    → FitsTable packet table.match_fields
    → All (λ item. IsPythonArg item.1) match
    → encode_match index name match ≡ ok fms
    → AllSentMatch packet fms ↔ All (ItemMatches (fields_of table) packet) match
encode_match-matches index name table match fms packet found fits p e =
    encode_items-matches (fields_of table) packet match fms
      (index_by-All _ [] table.match_fields fits tt) p
      (encode_match-items index name table match fms found e)

-- With all names known, what stops the loop is a value.
encode_items_error :
    (fields : Dict Text MatchField) (items : Match) (x : IndexError)
    → known_names fields items ≡ true
    → encode_items fields items ≡ err x
    → (c : CodecError) × (x ≡ encoding c)
unfolding encode_items known_names
encode_items_error fields [] x h e = cc
encode_items_error fields ((name, arg) ∷ items) x h e =
    let (mf, found) = contains-lookup name fields (ground arith) in
    elim (Result-cases (encode_form mf.match_type mf.bitwidth arg)) [
      | inr (c, failed) ↦ (c, ground arith)
      | inl (sent, encoded) ↦ elim (Result-cases (encode_items fields items)) [
        | inr (y, failed) ↦
            let (c, same) = encode_items_error fields items y (ground arith) failed in
            (c, ground arith)
        | inl (rest, done) ↦ ground arith
      ]
    ]

encode_match-refuses_names :
    (index : P4InfoIndex) (name : Text) (table : Table) (match : Match)
    → lookup name index.tables_by_name ≡ some table
    → (encode_match index name match ≡ err no_such_field)
      ↔ (known_names (fields_of table) match ≡ false)
unfolding encode_match
encode_match-refuses_names index name table match found = (
  λ e. elim (Bool-cases (known_names (fields_of table) match)) [
    | inr h ↦ h
    | inl h ↦ elim (Result-cases (encode_items (fields_of table) match)) [
      | inl (fms, done) ↦ ground arith
      | inr (x, failed) ↦
          let (c, same) = encode_items_error (fields_of table) match x h failed in ground arith
    ]
  ],
  λ h. ground arith,
)

-- For a known table, `encode_match` raises NoSuchFieldError exactly when some item of the key has a
-- name that no match field of the table has, whatever else is wrong with the key: an EncodingError
-- is raised only for a key whose names are all known.
pub encode_match-unknown_field_iff :
    (index : P4InfoIndex) (name : Text) (table : Table) (match : Match)
    → lookup name index.tables_by_name ≡ some table
    → (encode_match index name match ≡ err no_such_field) ↔ HasUnknown table.match_fields match
encode_match-unknown_field_iff index name table match found =
    iff_trans (encode_match-refuses_names index name table match found)
      (known_names-iff-HasUnknown table match)
