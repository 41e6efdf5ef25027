-- ===== src/Control/Index/UnknownNames.antt =====
-- The keys of src/p4net/control/p4info_index.py with a name that the table lacks, apart from the test
-- that `encode_match` makes.
use p4net.Base.{
  ◌≡◌, ◌≢◌, refl, ap, ◌↔◌, inl, inr, false, List, [], ◌∷◌, ◌++◌, arith, Bool-cases, All,
}
use p4net.Base.Text.{Text}
use p4net.Base.Dict.{Dict, contains, text_eq_instance}
use p4net.Control.Codec.{Arg}
use p4net.Control.Index.{MatchField, Table, index_by}
use p4net.Control.Index.MatchKeys.{Match, known_names, fields_of}
use p4net.Control.Index.Keyed.{contains-index_by_iff}

-- An item of the key whose name is that of no match field of the table.
pub record HasUnknown (mfs : List MatchField) (match : Match) : Type 0 where
  pub before : Match
  pub item : Text × Arg
  pub after : Match
  pub parts : match ≡ before ++ (item ∷ after)
  pub absent : All (λ mf. mf.name ≢ item.0) mfs

known_names_tail :
    (fields : Dict Text MatchField) (item : Text × Arg) (before after : Match)
    → contains item.0 fields ≡ false
    → known_names fields (before ++ (item ∷ after)) ≡ false
unfolding known_names
known_names_tail fields item [] after h = ground (arith, h)
known_names_tail fields item (b ∷ before) after h =
    ground (arith, known_names_tail fields item before after h)

known_names-HasUnknown :
    (mfs : List MatchField) (match : Match)
    → known_names (index_by (λ mf. mf.name) [] mfs) match ≡ false
    → HasUnknown mfs match
unfolding known_names
known_names-HasUnknown mfs [] h = cc
known_names-HasUnknown mfs (item ∷ match) h =
    elim (Bool-cases (contains item.0 (index_by (λ mf. mf.name) [] mfs))) [
      | inr lacks ↦ record {
        before = [];
        item = item;
        after = match;
        parts = refl;
        absent = (contains-index_by_iff (λ mf. mf.name) item.0 mfs).0 lacks;
      }
      | inl has ↦
          let later = known_names-HasUnknown mfs match (ground (arith, h, has)) in
          record {
            before = item ∷ later.before;
            item = later.item;
            after = later.after;
            parts = ap (λ l. item ∷ l) later.parts;
            absent = later.absent;
          }
    ]

pub known_names-iff-HasUnknown :
    (table : Table) (match : Match)
    → (known_names (fields_of table) match ≡ false) ↔ HasUnknown table.match_fields match
known_names-iff-HasUnknown table match = (
  known_names-HasUnknown table.match_fields match,
  λ u. rw u.parts (
      known_names_tail (fields_of table) u.item u.before u.after
        ((contains-index_by_iff (λ mf. mf.name) u.item.0 table.match_fields).1 u.absent)),
)
