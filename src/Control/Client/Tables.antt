-- ===== src/Control/Client/Tables.antt =====
-- Table entries in src/p4net/control/client.py: insert, modify, delete, list and clear.
use p4net.Base.{
  ℕ, Bool, true, false, ◌&&◌, Option, none, some, List, [], ◌∷◌, ok, err, ◌>>=◌, require, pos, leb,
  ◌==◌, if◌then◌else◌, length,
}
use p4net.Base.Text.{Text}
use p4net.Base.Dict.{Dict, lookup, insert, nat_eq, text_eq_instance}
use p4net.Control.Codec.{Value, bytes, int, Arg, one, pair}
use p4net.Control.Index.{
  P4Info, Table, Action, Preamble, MatchField, Param, new_index, index_by, table_id, table_name,
  action_name, table_requires_priority,
}
use p4net.Control.Index.MatchKeys.{
  MatchForm, exact_form, lpm_form, ternary_form, range_form, optional_form, FieldMatch, Match,
  encode_match,
}
use p4net.Control.Index.ActionParams.{WireParam, WireAction, encode_action}
use p4net.Control.Index.PacketMetadata.{index_by_id}
use p4net.Control.Client.RpcErrors.{ClientError, encoding_error}
use p4net.Control.Client.{
  Client, Called, lift_index, require_connected_with_index, TableEntry, table_entity, Entity,
  UpdateType, insert_update, modify_update, delete_update, Update, WriteRequest, Stub,
  write_request, read_request, send_built, read_with,
}

-- An int from 1 to 2 ** 31 - 1, and no bool.
unfoldable pub valid_priority : Value → Option ℕ
valid_priority (int (pos n)) = if leb 1 n && leb n 2147483647 then some n else none
valid_priority _ = none

-- The priority that an entry carries: 0 where the table takes none.
unfoldable pub checked_priority : Bool → Option Value → Called ℕ
unfolding valid_priority
checked_priority true none = err encoding_error
checked_priority false none = ok 0
checked_priority false (some v) = err encoding_error
checked_priority true (some v) = require (valid_priority v) encoding_error

abbrev pub ActionCall : Type 0
ActionCall = Text × Option (Dict Text Value)

unfoldable pub encoded_action : P4Info → Option ActionCall → Called (Option WireAction)
encoded_action info none = ok none
encoded_action info (some (name, params)) = do
  wire ← lift_index (encode_action (new_index info) name params)
  ok (some wire)

-- The entry that `_write_entry` builds.
unfoldable pub built_entry :
    P4Info → Text → Match → Option ActionCall → Option Value → Called TableEntry
built_entry info table match action priority = do
  id ← lift_index (table_id (new_index info) table)
  needed ← lift_index (table_requires_priority (new_index info) table)
  p ← checked_priority needed priority
  fields ← lift_index (encode_match (new_index info) table match)
  wire ← encoded_action info action
  ok (record { table_id = id; match = fields; action = wire; priority = p })

abbrev pub one_update : UpdateType → TableEntry → List Update
one_update kind entry = record { kind = kind; entity = table_entity entry } ∷ []

unfoldable pub entry_request :
    Client → UpdateType → Text → Match → Option ActionCall → Option Value → Called WriteRequest
entry_request c kind table match action priority = do
  info ← require_connected_with_index c
  entry ← built_entry info table match action priority
  ok (write_request c (one_update kind entry))

-- An entry as `list_table_entries` returns it.
pub record Decoded : Type 0 where
  pub table : Text
  pub match : Match
  pub action : Option Text
  pub params : Dict Text (List ℕ)
  pub priority : Option ℕ

-- The first object of the id.
unfoldable pub of_id : {A : Type 0} → (A → Preamble) → ℕ → List A → Option A
of_id preamble id [] = none
of_id preamble id (x ∷ xs) = if (preamble x).id == id then some x else of_id preamble id xs

abbrev pub table_of_id : ℕ → List Table → Option Table
table_of_id id ts = of_id (λ t. t.preamble) id ts

abbrev pub action_of_id : ℕ → List Action → Option Action
action_of_id id xs = of_id (λ a. a.preamble) id xs

-- `{int(mf.id): mf for mf in table.match_fields}`
abbrev pub fields_by_id : List MatchField → Dict ℕ MatchField
fields_by_id mfs = index_by (λ mf. mf.id) [] mfs

unfoldable pub raw_form : MatchForm → Arg
raw_form (exact_form v) = one (bytes v)
raw_form (lpm_form v len) = pair (bytes v) (int (pos len))
raw_form (ternary_form v m) = pair (bytes v) (bytes m)
raw_form (range_form lo hi) = pair (bytes lo) (bytes hi)
raw_form (optional_form v) = one (bytes v)

-- A field that the table lacks is skipped.
unfoldable pub decoded_match : Dict ℕ MatchField → List FieldMatch → Match → Match
unfolding raw_form
decoded_match fields [] out = out
decoded_match fields (fm ∷ fms) out = decoded_match fields fms (elim (lookup fm.field_id fields) [
  | none ↦ out
  | some mf ↦ insert mf.name (raw_form fm.form) out
])

unfoldable pub decoded_params :
    Dict ℕ Param → List WireParam → Dict Text (List ℕ) → Dict Text (List ℕ)
decoded_params params [] out = out
decoded_params params (w ∷ ws) out =
    decoded_params params ws
      (elim (lookup w.param_id params) [ none ↦ out | some p ↦ insert p.name w.value out ])

unfoldable pub action_params : P4Info → WireAction → Dict Text (List ℕ)
action_params info w = elim (action_of_id w.action_id info.actions) [
  | none ↦ []
  | some a ↦ decoded_params (index_by_id a.params) w.params []
]

unfoldable pub decoded_action :
    P4Info → Option WireAction → Called (Option Text × Dict Text (List ℕ))
decoded_action info none = ok (none, [])
decoded_action info (some w) = do
  name ← lift_index (action_name (new_index info) w.action_id)
  ok (some name, action_params info w)

abbrev pub first_table : List Table → List MatchField
first_table [] = []
first_table (t ∷ ts) = t.match_fields

unfoldable pub match_fields_of_id : P4Info → ℕ → List MatchField
match_fields_of_id info id = elim (table_of_id id info.tables) [
  | none ↦ first_table info.tables
  | some t ↦ t.match_fields
]

unfoldable pub decode_table_entry : P4Info → TableEntry → Called Decoded
decode_table_entry info e = do
  name ← lift_index (table_name (new_index info) e.table_id)
  (action, params) ← decoded_action info e.action
  ok (record {
    table = name;
    match = decoded_match (fields_by_id (match_fields_of_id info e.table_id)) e.match [];
    action = action;
    params = params;
    priority = if e.priority == 0 then none else some e.priority;
  })

unfoldable pub decode_entities : P4Info → List Entity → Called (List Decoded)
decode_entities info [] = ok []
decode_entities info (table_entity e ∷ es) = do
  d ← decode_table_entry info e
  ds ← decode_entities info es
  ok (d ∷ ds)
decode_entities info (_ ∷ es) = decode_entities info es

-- The number of the table that is listed; 0 stands for all.
unfoldable pub listed_id : P4Info → Option Text → Called ℕ
listed_id info none = ok 0
listed_id info (some name) = lift_index (table_id (new_index info) name)

-- The deletions of `clear_table`, from the decoded entries.
unfoldable pub deletions : P4Info → Text → ℕ → List Decoded → Called (List Update)
deletions info table id [] = ok []
deletions info table id (d ∷ ds) = do
  fields ← lift_index (encode_match (new_index info) table d.match)
  rest ← deletions info table id ds
  ok (
      record {
        kind = delete_update;
        entity = table_entity (record {
          table_id = id;
          match = fields;
          action = none;
          priority = elim d.priority [ none ↦ 0 | some p ↦ p ];
        });
      }
      ∷ rest)

unfoldable pub clear_request : Client → P4Info → Text → List Decoded → Called WriteRequest
unfolding deletions
clear_request c info table entries = do
  id ← lift_index (table_id (new_index info) table)
  updates ← deletions info table id entries
  ok (write_request c updates)

module _ {S : Type 0} (stub : Stub S) where
  -- `_write_entry` of an insertion, a modification, or a deletion, which has no action.
  unfoldable pub write_entry :
      Client
      → UpdateType
      → Text
      → Match
      → Option ActionCall
      → Option Value
      → S
      → S × Called (Unit {0})
  write_entry c kind table match action priority s =
      send_built stub s (entry_request c kind table match action priority)

  unfoldable pub insert_table_entry :
      Client → Text → Match → ActionCall → Option Value → S → S × Called (Unit {0})
  insert_table_entry c table match action priority s =
      write_entry c insert_update table match (some action) priority s

  unfoldable pub modify_table_entry :
      Client → Text → Match → ActionCall → Option Value → S → S × Called (Unit {0})
  modify_table_entry c table match action priority s =
      write_entry c modify_update table match (some action) priority s

  unfoldable pub delete_table_entry :
      Client → Text → Match → Option Value → S → S × Called (Unit {0})
  delete_table_entry c table match priority s =
      write_entry c delete_update table match none priority s

  abbrev whole_table : ℕ → TableEntry
  whole_table id = record { table_id = id; match = []; action = none; priority = 0 }

  abbrev pub failed : {A : Type 0} → S → ClientError → S × Called A
  failed s e = (s, err e)

  abbrev list_from : Client → P4Info → Called ℕ → S → S × Called (List Decoded)
  list_from c info (err e) s = failed s e
  list_from c info (ok id) s =
      read_with stub (decode_entities info) s (read_request c (table_entity (whole_table id)))

  unfoldable pub list_table_entries : Client → Option Text → S → S × Called (List Decoded)
  unfolding listed_id
  list_table_entries c table s = elim (require_connected_with_index c) [
    | err e ↦ failed s e
    | ok info ↦ list_from c info (listed_id info table) s
  ]

  abbrev counted : ℕ → S × Called (Unit {0}) → S × Called ℕ
  counted n (s, ok _) = (s, ok n)
  counted n (s, err e) = (s, err e)

  -- `clear_table` from the listed entries on.
  abbrev clear_listed : Client → P4Info → Text → S × Called (List Decoded) → S × Called ℕ
  clear_listed c info table (s, err e) = failed s e
  clear_listed c info table (s, ok []) = (s, ok 0)
  clear_listed c info table (s, ok (d ∷ ds)) =
      counted (length (d ∷ ds)) (send_built stub s (clear_request c info table (d ∷ ds)))

  unfoldable pub clear_table : Client → Text → S → S × Called ℕ
  unfolding clear_request
  clear_table c table s = elim (require_connected_with_index c) [
    | err e ↦ failed s e
    | ok info ↦ clear_listed c info table (list_table_entries c (some table) s)
  ]
