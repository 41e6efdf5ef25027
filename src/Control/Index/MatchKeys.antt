-- ===== src/Control/Index/MatchKeys.antt =====
-- `encode_match` and `decode_match` of src/p4net/control/p4info_index.py.
use p4net.Base.{
  ℕ, ◌-◌, ◌^◌, Bool, true, false, not, ◌&&◌, ◌||◌, Option, none, some, List, [], ◌∷◌, ◌==◌,
  if◌then◌else◌, pos, ok, err, ◌>>=◌, ◌>>◌, raise_if, require,
}
use p4net.Base.Text.{Text}
use p4net.Base.Dict.{Dict, lookup, contains, insert, text_eq_instance}
use p4net.Builtins.Bytes.{from_bytes}
use p4net.Control.Codec.{
  Value, bytes, bool, int, other, Arg, one, pair, Coded, unsupported_match, exact_shape, lpm_shape,
  ternary_shape, range_shape, missing_exact, encode_value, parse_lpm, parse_ternary, parse_range,
  canonicalize, format_exact, format_lpm, format_ternary, format_range,
}
use p4net.Control.Index.{
  MatchType, exact, lpm, ternary, range, optional, unspecified, MatchField, Table, P4InfoIndex,
  no_such_table, no_such_field, encoding, Indexed, lift, index_by,
}

-- The protobuf FieldMatch: the field's number and one of five forms.
pub data MatchForm : Type 0 where
  exact_form : List ℕ → MatchForm
  lpm_form : List ℕ → ℕ → MatchForm
  ternary_form : List ℕ → List ℕ → MatchForm
  range_form : List ℕ → List ℕ → MatchForm
  optional_form : List ℕ → MatchForm

pub record FieldMatch : Type 0 where
  pub field_id : ℕ
  pub form : MatchForm

-- A tuple is no value of a single field.
abbrev pub as_value : Arg → Value
as_value (one v) = v
as_value _ = other

unfoldable pub all_zero : List ℕ → Bool
all_zero [] = true
all_zero (b ∷ bs) = b == 0 && all_zero bs

-- The body of the loop of `encode_match`; `none` is its `continue`.
unfoldable pub encode_form : MatchType → ℕ → Arg → Coded (Option MatchForm)
encode_form exact w arg = do
  encoded ← encode_value (as_value arg) w
  ok (some (exact_form (canonicalize encoded)))
encode_form lpm w arg = do
  (encoded, plen) ← parse_lpm arg w
  ok (if plen == 0 then none else some (lpm_form (canonicalize encoded) plen))
encode_form ternary w arg = do
  (v, m) ← parse_ternary arg w
  ok (if all_zero m then none else some (ternary_form (canonicalize v) (canonicalize m)))
encode_form range w arg = do
  (low, high) ← parse_range arg w
  ok (
      if from_bytes low == 0 && from_bytes high == 2 ^ w - 1
      then none
      else some (range_form (canonicalize low) (canonicalize high)))
encode_form optional w arg = do
  encoded ← encode_value (as_value arg) w
  ok (some (optional_form (canonicalize encoded)))
encode_form unspecified w arg = err unsupported_match

abbrev pub Match : Type 0
Match = Dict Text Arg

abbrev pub cons_form : ℕ → Option MatchForm → List FieldMatch → List FieldMatch
cons_form id none fms = fms
cons_form id (some form) fms = record { field_id = id; form = form } ∷ fms

-- The loop over the match's items. The first test of `encode_match` has found each name, so that an
-- unknown one (a KeyError in the source) does not come here.
unfoldable pub encode_items : Dict Text MatchField → Match → Indexed (List FieldMatch)
encode_items fields [] = ok []
encode_items fields ((name, arg) ∷ items) = do
  mf ← require (lookup name fields) no_such_field
  form ← lift (encode_form mf.match_type mf.bitwidth arg)
  rest ← encode_items fields items
  ok (cons_form mf.id form rest)

unfoldable pub known_names : {V W : Type 0} → Dict Text W → Dict Text V → Bool
known_names fields [] = true
known_names fields ((name, v) ∷ items) = contains name fields && known_names fields items

abbrev pub is_exact : MatchType → Bool
is_exact exact = true
is_exact _ = false

unfoldable pub exact_present : List MatchField → Match → Bool
exact_present [] match = true
exact_present (mf ∷ mfs) match =
    (not (is_exact mf.match_type) || contains mf.name match) && exact_present mfs match

abbrev pub fields_of : Table → Dict Text MatchField
fields_of t = index_by (λ mf. mf.name) [] t.match_fields

unfoldable pub encode_match : P4InfoIndex → Text → Match → Indexed (List FieldMatch)
encode_match index table_name match = do
  table ← require (lookup table_name index.tables_by_name) no_such_table
  raise_if (not (known_names (fields_of table) match)) no_such_field
  raise_if (not (exact_present table.match_fields match)) (encoding missing_exact)
  encode_items (fields_of table) match

-- The rendering of one raw field; `isinstance(plen, int)` also holds of a bool.
module _ (ipv6_text : List ℕ → Text) where
  unfoldable pub decode_form : MatchType → ℕ → Arg → Coded Text
  decode_form exact w (one (bytes bs)) = format_exact ipv6_text bs w
  decode_form exact w _ = err exact_shape
  decode_form optional w (one (bytes bs)) = format_exact ipv6_text bs w
  decode_form optional w _ = err exact_shape
  decode_form lpm w (pair (bytes bs) (int len)) = format_lpm ipv6_text bs len w
  decode_form lpm w (pair (bytes bs) (bool b)) =
      format_lpm ipv6_text bs (pos (if b then 1 else 0)) w
  decode_form lpm w _ = err lpm_shape
  decode_form ternary w (pair (bytes v) (bytes m)) = format_ternary ipv6_text v m w
  decode_form ternary w _ = err ternary_shape
  decode_form range w (pair (bytes lo) (bytes hi)) = format_range ipv6_text lo hi w
  decode_form range w _ = err range_shape
  decode_form unspecified w _ = err unsupported_match

  unfoldable pub decode_items :
      Dict Text MatchField → Match → Dict Text Text → Indexed (Dict Text Text)
  decode_items fields [] out = ok out
  decode_items fields ((name, raw) ∷ items) out = do
    mf ← require (lookup name fields) no_such_field
    text ← lift (decode_form mf.match_type mf.bitwidth raw)
    decode_items fields items (insert name text out)

  unfoldable pub decode_match : P4InfoIndex → Text → Match → Indexed (Dict Text Text)
  decode_match index table_name match = do
    table ← require (lookup table_name index.tables_by_name) no_such_table
    decode_items (fields_of table) match []
