-- ===== src/Control/Client/RoundTrip.antt =====
-- Listing an entry that the client wrote, and deleting what was listed.
use p4net.Base.{
  ◌≡◌, ◌↔◌, refl, sym, subst, true, false, some, List, [], ◌∷◌, All, Distinct, map, arith, ok,
}
use p4net.Base.Text.{Text}
use p4net.Base.Dict.{text_eq_instance, nat_eq, keys, lookup, contains, lookup-entry_All}
use p4net.Control.Codec.{Arg}
use p4net.Control.Index.{P4InfoIndex, MatchField, Table}
use p4net.Control.Index.Keyed.{lookup-index_by, index_by-entry_All}
use p4net.Control.Index.MatchKeys.{
  FieldMatch, Match, encode_items, known_names, exact_present, is_exact, fields_of, encode_match,
}
use p4net.Control.Index.Matching.{IsPythonArg}
use p4net.Control.Client.Tables.{decoded_match, fields_by_id}
use p4net.Control.Client.Relisted.{
  Sends, Agrees, encode_items-Sends, Sends_again, Sends-known, Sends-Distinct, Sends-exact,
  decoded_match-Sends,
}

-- The fields of a table have different names and different ids.
abbrev pub FieldsDiffer : Table → Type 0
FieldsDiffer t =
    Distinct (map (λ mf. mf.name) t.match_fields) × Distinct (map (λ mf. mf.id) t.match_fields)

-- A Python `dict` has every key once, and its `bytes` objects hold bytes.
abbrev pub IsPythonKey : Match → Type 0
IsPythonKey match = Distinct (keys match) × All (λ item. IsPythonArg item.1) match

module _ (t : Table) (differ : FieldsDiffer t) where
  fields-Agrees : Agrees (fields_of t) (fields_by_id t.match_fields)
  unfolding Agrees
  fields-Agrees name mf found =
      let entries =
        index_by-entry_All (λ f. f.name) (λ f. lookup f.id (fields_by_id t.match_fields) ≡ some f)
          [] t.match_fields tt (lookup-index_by (λ f. f.id) [] t.match_fields differ.1) in
      let (same, by) =
        lookup-entry_All
          (λ entry.
            (entry.1.name ≡ entry.0)
            × (lookup entry.1.id (fields_by_id t.match_fields) ≡ some entry.1))
          name (fields_of t) mf entries found in
      (by, same)

  exact_present-raw :
      (mfs : List MatchField) {items raw : Match} {fms : List FieldMatch}
      → All (λ mf. lookup mf.name (fields_of t) ≡ some mf) mfs
      → Sends (fields_of t) items fms raw
      → exact_present mfs items ≡ true
      → exact_present mfs raw ≡ true
  unfolding exact_present
  exact_present-raw [] here sends h = refl
  exact_present-raw (mf ∷ mfs) {items} {raw} here sends h =
      let stays : is_exact mf.match_type ≡ true
          → contains mf.name items ≡ true
          → contains mf.name raw ≡ true =
        λ is_ex given. Sends-exact (fields_of t) mf here.0 is_ex sends given in
      ground (arith, h, stays, exact_present-raw mfs here.1 sends)

encode_match_parts :
    (index : P4InfoIndex) (name : Text) (match : Match) (t : Table) (fms : List FieldMatch)
    → lookup name index.tables_by_name ≡ some t
    → (encode_match index name match ≡ ok fms) ↔ (
        (known_names (fields_of t) match ≡ true)
        × (exact_present t.match_fields match ≡ true)
        × (encode_items (fields_of t) match ≡ ok fms))
unfolding encode_match
encode_match_parts index name match t fms found = ground (arith, found)

none_taken : (ks : List Text) → All (λ k. contains {V = Arg} k [] ≡ false) ks
unfolding contains
none_taken [] = tt
none_taken (k ∷ ks) = (refl, none_taken ks)

-- What `encode_match` sent for a key, read back by field numbers as a listing reads an entry, is a
-- key that `encode_match` encodes to the same forms again. This is of forms that `encode_match`
-- returned, of a table whose match fields have different names and different ids, and of a key that
-- names each field once and whose `bytes` objects hold bytes.
pub encode_match-decoded_match :
    (index : P4InfoIndex) (name : Text) (match : Match) (t : Table) (fms : List FieldMatch)
    → lookup name index.tables_by_name ≡ some t
    → FieldsDiffer t
    → IsPythonKey match
    → encode_match index name match ≡ ok fms
    → encode_match index name (decoded_match (fields_by_id t.match_fields) fms []) ≡ ok fms
encode_match-decoded_match index name match t fms found differ (once, python) e =
    let (known, present, encoded) = (encode_match_parts index name match t fms found).0 e in
    let (raw, sends) = encode_items-Sends (fields_of t) match fms encoded in
    let read =
      decoded_match-Sends (fields_of t) (fields_by_id t.match_fields) [] (fields-Agrees t differ)
        sends (Sends-Distinct (fields_of t) sends once) (none_taken (keys raw)) in
    let here = lookup-index_by (λ f. f.name) [] t.match_fields differ.0 in
    subst (λ key. encode_match index name key ≡ ok fms) (sym read)
      ((encode_match_parts index name raw t fms found).1 (
        Sends-known (fields_of t) sends,
        exact_present-raw t differ t.match_fields here sends present,
        Sends_again (fields_of t) python sends,
      ))
