-- ===== src/Control/Client/Clearing.antt =====
-- Entries that the client wrote, as they are listed and as `clear_table` deletes them.
use p4net.Base.{
  ℕ, ◌≡◌, refl, sym, ap, subst, ◌∙◌, ◌==◌, if◌then◌else◌, Option, none, some, List, [], ◌∷◌, All,
  Distinct, map, arith, inl, inr, Option-cases, Result-cases, ok, ok_inj,
}
use p4net.Base.Text.{Text}
use p4net.Base.Dict.{text_eq_instance, Dict, lookup, values, lookup-entry_All}
use p4net.Control.Codec.{Value}
use p4net.Control.Index.{
  P4Info, Table, Action, P4InfoIndex, new_index, name_of, table_name, action_name, MatchField,
}
use p4net.Control.Index.Keyed.{index_by-entry_All}
use p4net.Control.Index.MatchKeys.{Match, encode_match}
use p4net.Control.Index.ActionParams.{WireAction, encode_action}
use p4net.Control.Client.{TableEntry, table_entity, delete_update, Update}
use p4net.Control.Client.Tables.{
  ActionCall, encoded_action, built_entry, Decoded, fields_by_id, match_fields_of_id, table_of_id,
  first_table, decoded_match, decoded_action, action_params, decode_table_entry, deletions,
}
use p4net.Control.Client.Ids.{named_by_id}
use p4net.Control.Client.RoundTrip.{FieldsDiffer, IsPythonKey, encode_match-decoded_match}
use p4net.Control.Client.Entries.{built_entry-iff-IsEntry}

-- The ids of tables, of actions and of the fields of a table are unique, and so are the names of
-- the fields of a table.
pub record IdsDiffer (info : P4Info) : Type 0 where
  pub tables : Distinct (map (λ t. t.preamble.id) info.tables)
  pub actions : Distinct (map (λ a. a.preamble.id) info.actions)
  pub fields : All FieldsDiffer info.tables

encode_action_id :
    (index : P4InfoIndex) (name : Text) (params : Option (Dict Text Value)) (w : WireAction)
    → encode_action index name params ≡ ok w
    → (a : Action) × (lookup name index.actions_by_name ≡ some a) × (w.action_id ≡ a.preamble.id)
unfolding encode_action
encode_action_id index name params w e = elim (Option-cases (lookup name index.actions_by_name)) [
  | inl absent ↦ ground (arith, e, absent)
  | inr (a, found) ↦ (a, found, ground (arith, e, found))
]

unfoldable pub action_name_of : Option ActionCall → Option Text
action_name_of none = none
action_name_of (some call) = some call.0

action_name_lem :
    (info : P4Info) (name : Text) (id : ℕ)
    → name_of (λ y. y.preamble) id (values (new_index info).actions_by_name) ≡ some name
    → action_name (new_index info) id ≡ ok name
unfolding action_name
action_name_lem info name id e = rw e refl

table_name_lem :
    (info : P4Info) (name : Text) (id : ℕ)
    → name_of (λ y. y.preamble) id (values (new_index info).tables_by_name) ≡ some name
    → table_name (new_index info) id ≡ ok name
unfolding table_name
table_name_lem info name id e = rw e refl

decoded_action-named :
    (info : P4Info) (action : Option ActionCall) (wire : Option WireAction)
    → IdsDiffer info
    → encoded_action info action ≡ ok wire
    → (params : Dict Text (List ℕ)) × (decoded_action info wire
        ≡ ok (action_name_of action, params))
unfolding encoded_action decoded_action action_name_of new_index
decoded_action-named info none wire differ e = rw (sym (ok_inj e)) ([], refl)
decoded_action-named info (some (name, given)) wire differ e =
    elim (Result-cases (encode_action (new_index info) name given)) [
      | inl (w, encoded) ↦
          let (a, found, same) = encode_action_id (new_index info) name given w encoded in
          let named : action_name (new_index info) w.action_id ≡ ok name =
            action_name_lem info name w.action_id (
              subst
                (λ n.
                  name_of (λ y. y.preamble) n (values (new_index info).actions_by_name) ≡ some name)
                (sym same)
                (named_by_id (λ y. y.preamble) info.actions name a differ.actions found).1) in
          let is_wire : some w ≡ wire = ok_inj (rw encoded at e) in
          rw (sym is_wire, named) (action_params info w, refl)
      | inr (x, failed) ↦ absurd (ground (arith, e, failed))
    ]

-- The deletion of an entry: its table, its key and its priority.
abbrev pub deletion_of : TableEntry → Update
deletion_of e = record {
  kind = delete_update;
  entity =
      table_entity
        (record { table_id = e.table_id; match = e.match; action = none; priority = e.priority });
}

priority_again : (p : ℕ) → (elim (if p == 0 then none else some p) [ none ↦ 0 | some q ↦ q ]) ≡ p
priority_again p = ground arith

fields_of_id :
    (info : P4Info) (id : ℕ) (t : Table)
    → table_of_id id info.tables ≡ some t
    → match_fields_of_id info id ≡ t.match_fields
unfolding match_fields_of_id
fields_of_id info id t found =
    ap (λ r. elim r [ none ↦ first_table info.tables | some x ↦ x.match_fields ]) found

table_fields :
    (info : P4Info) (name : Text) (t : Table)
    → IdsDiffer info
    → lookup name (new_index info).tables_by_name ≡ some t
    → FieldsDiffer t
unfolding new_index
table_fields info name t differ found =
    (lookup-entry_All (λ entry. (entry.1.preamble.name ≡ entry.0) × FieldsDiffer entry.1) name
      (new_index info).tables_by_name t
      (index_by-entry_All (λ y. y.preamble.name) FieldsDiffer [] info.tables tt differ.fields)
      found).1

abbrev decoded_of : Text → List MatchField → Option Text × Dict Text (List ℕ) → TableEntry → Decoded
decoded_of table mfs acted e = record {
  table = table;
  match = decoded_match (fields_by_id mfs) e.match [];
  action = acted.0;
  params = acted.1;
  priority = if e.priority == 0 then none else some e.priority;
}

decode_table_entry_lem :
    (info : P4Info) (e : TableEntry) (table : Text) (acted : Option Text × Dict Text (List ℕ))
    → table_name (new_index info) e.table_id ≡ ok table
    → decoded_action info e.action ≡ ok acted
    → decode_table_entry info e ≡ ok (decoded_of table (match_fields_of_id info e.table_id) acted e)
unfolding decode_table_entry
decode_table_entry_lem info e table acted named acts = rw (named, acts) refl

deletions_one :
    (info : P4Info) (table : Text) (e : TableEntry) (d : Decoded)
    → encode_match (new_index info) table d.match ≡ ok e.match
    → d.priority ≡ (if e.priority == 0 then none else some e.priority)
    → deletions info table e.table_id (d ∷ []) ≡ ok (deletion_of e ∷ [])
unfolding deletions
deletions_one info table e d key same = rw (key, same, priority_again e.priority) refl

-- An entry that a write built is listed with the names of its table and its action, and what
-- `clear_table` makes of the listing deletes the entry by its own table, key and priority.
pub built_entry-cleared :
    (info : P4Info) (table : Text) (match : Match) (action : Option ActionCall)
    (priority : Option Value) (entry : TableEntry)
    → IdsDiffer info
    → IsPythonKey match
    → built_entry info table match action priority ≡ ok entry
    → (d : Decoded) × (decode_table_entry info entry ≡ ok d)
      × (d.table ≡ table)
      × (d.action ≡ action_name_of action)
      × (deletions info table entry.table_id (d ∷ []) ≡ ok (deletion_of entry ∷ []))
unfolding new_index
built_entry-cleared info table match action priority entry differ python e =
    let target = (built_entry-iff-IsEntry info table match action priority entry).0 e in
    let t = target.target in
    let (here, named) =
      named_by_id (λ y. y.preamble) info.tables table t differ.tables target.found in
    let table_named = table_name_lem info table entry.table_id (
      subst (λ n. name_of (λ y. y.preamble) n (values (new_index info).tables_by_name) ≡ some table)
        (sym target.same_id) named) in
    let fields =
      fields_of_id info entry.table_id t
        (ap (λ n. table_of_id n info.tables) target.same_id ∙ here) in
    let (params, acted) = decoded_action-named info action entry.action differ target.wire in
    let again =
      encode_match-decoded_match (new_index info) table match t entry.match target.found
        (table_fields info table t differ target.found) python target.key in
    let listed =
      decoded_of table (match_fields_of_id info entry.table_id) (action_name_of action, params)
        entry in
    (
      listed,
      decode_table_entry_lem info entry table (action_name_of action, params) table_named acted,
      refl,
      refl,
      deletions_one info table entry listed
          (subst
            (λ mfs.
              encode_match (new_index info) table (decoded_match (fields_by_id mfs) entry.match [])
              ≡ ok entry.match)
            (sym fields) again)
          refl,
    )
