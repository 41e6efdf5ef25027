-- ===== src/Topo/Payload.antt =====
-- How `Topology.from_dict` of src/p4net/topo/topology.py reads the values of its payload, which are of
-- the kinds that `to_dict` writes; a number may stand for a float.
use p4net.Base.{Bool, Option, none, some, ℤ, Result, ok, err, ◌>>=◌, require, if◌then◌else◌}
use p4net.Base.Text.{Text, text_eq}
use p4net.Topo.Names.{TopologyError}
use p4net.Topo.Link.{Float, finite}
use p4net.Topo.Render.{
  Json, null, text, number, float, flag, object, array, Fields, no_field, field, Items,
}

-- A missing key, what a constructor raises, and a value of a kind that `to_dict` does not write
-- there: the source has no check of that of its own, and what it does then is not modelled.
pub data RestoreError : Type 0 where
  key_error other_kind : RestoreError
  refused : TopologyError → RestoreError

abbrev pub Restored : Type 0 → Type 0
Restored A = Result RestoreError A

abbrev pub constructed : {A : Type 0} → Result TopologyError A → Restored A
constructed (ok a) = ok a
constructed (err e) = err (refused e)

unfoldable pub get : Text → Fields → Option Json
get k no_field = none
get k (field j v rest) = if text_eq j k then some v else get k rest

abbrev pub as_text : Json → Restored Text
as_text (text s) = ok s
as_text _ = err other_kind

abbrev pub as_flag : Json → Restored Bool
as_flag (flag b) = ok b
as_flag _ = err other_kind

abbrev pub as_opt_text : Json → Restored (Option Text)
as_opt_text null = ok none
as_opt_text (text s) = ok (some s)
as_opt_text _ = err other_kind

abbrev pub as_opt_int : Json → Restored (Option ℤ)
as_opt_int null = ok none
as_opt_int (number z) = ok (some z)
as_opt_int _ = err other_kind

abbrev pub as_opt_float : Json → Restored (Option Float)
as_opt_float null = ok none
as_opt_float (float x) = ok (some x)
as_opt_float (number z) = ok (some (finite z 0))
as_opt_float _ = err other_kind

abbrev pub as_fields : Json → Restored Fields
as_fields (object f) = ok f
as_fields _ = err other_kind

abbrev pub as_items : Json → Restored Items
as_items (array xs) = ok xs
as_items _ = err other_kind

-- `data[k]`
abbrev pub required : {A : Type 0} → (Json → Restored A) → Text → Fields → Restored A
required read k f = require (get k f) key_error >>= read

-- `data.get(k, default)`
abbrev pub get_or : {A : Type 0} → (Json → Restored A) → A → Text → Fields → Restored A
get_or read default k f = elim (get k f) [ none ↦ ok default | some v ↦ read v ]
