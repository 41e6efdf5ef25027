-- ===== src/Control/Client/Counters.antt =====
-- Indirect counters in src/p4net/control/client.py.
use p4net.Base.{
  ℕ, Bool, true, false, Option, none, some, List, [], ◌∷◌, map, ok, err, ◌>>=◌, ℤ, pos, negsuc, leb,
  if◌then◌else◌,
}
use p4net.Base.Text.{Text}
use p4net.Base.Dict.{int_eq, Dict, keys, lookup, insert}
use p4net.Control.Index.{new_index, counter_id}
use p4net.Control.Client.{
  Client, Called, lift_index, require_connected_with_index, CounterEntry, Entity, counter_entity,
  modify_update, Update, Stub, write_request, read_request, send_write, read_with,
}

pub record CounterData : Type 0 where
  pub packet_count : ℕ
  pub byte_count : ℕ

-- An index that is not set reads as 0.
abbrev index_or_zero : Option ℤ → ℤ
index_or_zero none = pos 0
index_or_zero (some i) = i

-- A later answer for a cell replaces an earlier one.
unfoldable pub collect_counters : Dict ℤ CounterData → List Entity → Dict ℤ CounterData
collect_counters out [] = out
collect_counters out (counter_entity e ∷ es) =
    collect_counters
      (insert (index_or_zero e.index)
        (record { packet_count = e.packet_count; byte_count = e.byte_count }) out)
      es
collect_counters out (_ ∷ es) = collect_counters out es

abbrev counter_cell : ℕ → Option ℤ → CounterEntry
counter_cell id index = record { counter_id = id; index = index; packet_count = 0; byte_count = 0 }

-- `a < b` on ints.
unfoldable pub int_less_eq : ℤ → ℤ → Bool
int_less_eq (pos a) (pos b) = leb a b
int_less_eq (pos a) (negsuc b) = false
int_less_eq (negsuc a) (pos b) = true
int_less_eq (negsuc a) (negsuc b) = leb b a

unfoldable pub insert_sorted : ℤ → List ℤ → List ℤ
unfolding int_less_eq
insert_sorted a [] = a ∷ []
insert_sorted a (b ∷ bs) =
    let rest = insert_sorted a bs in if int_less_eq a b then a ∷ b ∷ bs else b ∷ rest

-- `sorted(xs)`
unfoldable pub sorted : List ℤ → List ℤ
unfolding insert_sorted
sorted [] = []
sorted (a ∷ rest) = insert_sorted a (sorted rest)

-- The write that zeroes the cells.
abbrev reset_updates : ℕ → List ℤ → List Update
reset_updates id cells =
    map (λ i. record { kind = modify_update; entity = counter_entity (counter_cell id (some i)) })
      cells

module _ {S : Type 0} (stub : Stub S) where
  unfoldable pub read_cells : Client → ℕ → Option ℤ → S → S × Called (Dict ℤ CounterData)
  read_cells c id index s =
      read_with stub (λ es. ok (collect_counters [] es)) s
        (read_request c (counter_entity (counter_cell id index)))

  abbrev counter_of : Client → Text → Called ℕ
  counter_of c counter = do
    info ← require_connected_with_index c
    lift_index (counter_id (new_index info) counter)

  -- `read_counter(counter)`: every populated cell.
  unfoldable pub read_counters : Client → Text → S → S × Called (Dict ℤ CounterData)
  read_counters c counter s = elim (counter_of c counter) [
    | err e ↦ (s, err e)
    | ok id ↦ read_cells c id none s
  ]

  abbrev cell_or_zero : ℤ → Dict ℤ CounterData → CounterData
  cell_or_zero index d = elim (lookup index d) [
    | none ↦ record { packet_count = 0; byte_count = 0 }
    | some cell ↦ cell
  ]

  -- `read_counter(counter, index)`
  unfoldable pub read_counter : Client → Text → ℤ → S → S × Called CounterData
  read_counter c counter index s = elim (counter_of c counter) [
    | err e ↦ (s, err e)
    | ok id ↦
        let answer = read_cells c id (some index) s in
        (answer.0, answer.1 >>= λ d. ok (cell_or_zero index d))
  ]

  -- Nothing is sent where there is no cell.
  unfoldable pub reset_cells : Client → ℕ → List ℤ → S → S × Called (Unit {0})
  reset_cells c id [] s = (s, ok tt)
  reset_cells c id (i ∷ is) s = send_write stub s (write_request c (reset_updates id (i ∷ is)))

  abbrev reset_read : Client → ℕ → S × Called (Dict ℤ CounterData) → S × Called (Unit {0})
  reset_read c id (s, err e) = (s, err e)
  reset_read c id (s, ok d) = reset_cells c id (sorted (keys d)) s

  unfoldable pub reset_counter : Client → Text → Option ℤ → S → S × Called (Unit {0})
  reset_counter c counter index s = elim (counter_of c counter) [
    | err e ↦ (s, err e)
    | ok id ↦ elim index [
      | none ↦ reset_read c id (read_counters c counter s)
      | some i ↦ reset_cells c id (i ∷ []) s
    ]
  ]
