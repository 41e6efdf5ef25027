-- ===== src/Control/Client/Entries.antt =====
-- The entry that a write of `P4RuntimeClient` carries, and what listing and clearing make of it.
use p4net.Base.{
  ℕ, ◌≤◌, ◌≡◌, ◌≢◌, ◌↔◌, Bool, true, false, Option, none, some, arith, inl, inr, Option-cases, pos,
  negsuc, Result, ok, err,
}
use p4net.Base.Text.{Text}
use p4net.Base.Dict.{text_eq_instance, lookup}
use p4net.Control.Codec.{Value, bytes, bool, int, str, other}
use p4net.Control.Index.{
  IndexError, P4Info, Table, new_index, table_id, table_requires_priority, any_needs_priority,
}
use p4net.Control.Index.MatchKeys.{Match, encode_match}
use p4net.Control.Client.{lift_index, TableEntry}
use p4net.Control.Client.Tables.{
  valid_priority, checked_priority, ActionCall, encoded_action, built_entry,
}

-- A table whose order of entries matters takes an int from 1 to 2 ** 31 - 1, any other none.
unfoldable pub PriorityFits : Bool → Option Value → ℕ → Type 0
PriorityFits true given p = (given ≡ some (int (pos p))) × (1 ≤ p) × (p ≤ 2147483647)
PriorityFits false given p = (given ≡ none) × (p ≡ 0)

checked_priority_iff :
    (needed : Bool) (given : Option Value) (p : ℕ)
    → (checked_priority needed given ≡ ok p) ↔ PriorityFits needed given p
unfolding checked_priority valid_priority PriorityFits
checked_priority_iff true none p = ground arith
checked_priority_iff false none p = ground arith
checked_priority_iff false (some v) p = ground arith
checked_priority_iff true (some (int (pos n))) p = ground arith
checked_priority_iff true (some (int (negsuc n))) p = ground arith
checked_priority_iff true (some (bool b)) p = ground arith
checked_priority_iff true (some (bytes bs)) p = ground arith
checked_priority_iff true (some (str s)) p = ground arith
checked_priority_iff true (some other) p = ground arith

-- An entry for a table of the pipeline, with the encoded key and action and a fitting priority.
pub record IsEntry (info : P4Info) (table : Text) (match : Match) (action : Option ActionCall)
    (priority : Option Value) (entry : TableEntry) : Type 0 where
  pub target : Table
  pub found : lookup table (new_index info).tables_by_name ≡ some target
  pub same_id : entry.table_id ≡ target.preamble.id
  pub fits : PriorityFits (any_needs_priority target.match_fields) priority entry.priority
  pub key : encode_match (new_index info) table match ≡ ok entry.match
  pub wire : encoded_action info action ≡ ok entry.action

lift_index_ok : {A : Type 0} (r : Result IndexError A) (a : A) → (lift_index r ≡ ok a) ↔ (r ≡ ok a)
lift_index_ok (ok b) a = ground arith
lift_index_ok (err e) a = ground arith

built_parts :
    (info : P4Info) (table : Text) (match : Match) (action : Option ActionCall)
    (priority : Option Value) (entry : TableEntry) (t : Table)
    → lookup table (new_index info).tables_by_name ≡ some t
    → (built_entry info table match action priority ≡ ok entry) ↔ (
        (entry.table_id ≡ t.preamble.id)
        × (checked_priority (any_needs_priority t.match_fields) priority ≡ ok entry.priority)
        × (encode_match (new_index info) table match ≡ ok entry.match)
        × (encoded_action info action ≡ ok entry.action))
unfolding built_entry table_id table_requires_priority
built_parts info table match action priority entry t found = ground (arith, found)

no_table :
    (info : P4Info) (table : Text) (match : Match) (action : Option ActionCall)
    (priority : Option Value) (entry : TableEntry)
    → lookup table (new_index info).tables_by_name ≡ none
    → built_entry info table match action priority ≢ ok entry
unfolding built_entry table_id
no_table info table match action priority entry absent e = ground (arith, e, absent)

-- A write builds an entry exactly when the table exists, the priority fits the table, and the key
-- and the action are encoded.
pub built_entry-iff-IsEntry :
    (info : P4Info) (table : Text) (match : Match) (action : Option ActionCall)
    (priority : Option Value) (entry : TableEntry)
    → (built_entry info table match action priority ≡ ok entry)
      ↔ IsEntry info table match action priority entry
built_entry-iff-IsEntry info table match action priority entry = (
  λ e. elim (Option-cases (lookup table (new_index info).tables_by_name)) [
    | inl absent ↦ absurd (no_table info table match action priority entry absent e)
    | inr (t, found) ↦
        let (same, checked, key, wire) =
          (built_parts info table match action priority entry t found).0 e in
        record {
          target = t;
          found = found;
          same_id = same;
          fits =
              (checked_priority_iff (any_needs_priority t.match_fields) priority entry.priority).0
                checked;
          key = key;
          wire = wire;
        }
  ],
  λ h. (built_parts info table match action priority entry h.target h.found).1 (
    h.same_id,
    (checked_priority_iff (any_needs_priority h.target.match_fields) priority entry.priority).1
        h.fits,
    h.key,
    h.wire,
  ),
)
