-- ===== src/Control/Index/ActionParams.antt =====
-- `encode_action` of src/p4net/control/p4info_index.py.
use p4net.Base.{
  ℕ, Bool, not, ◌&&◌, true, Option, none, some, List, [], ◌∷◌, ok, ◌>>=◌, ◌>>◌, raise_if, require,
}
use p4net.Base.Text.{Text}
use p4net.Base.Dict.{Dict, lookup, contains, text_eq_instance}
use p4net.Control.Codec.{Value, missing_param, encode_value, canonicalize}
use p4net.Control.Index.{
  Param, P4InfoIndex, no_such_action, no_such_field, encoding, Indexed, lift, index_by,
}
use p4net.Control.Index.MatchKeys.{known_names}

-- The protobuf Action and its parameters; PacketMetadata has the same two fields as the latter.
pub record WireParam : Type 0 where
  pub param_id : ℕ
  pub value : List ℕ

pub record WireAction : Type 0 where
  pub action_id : ℕ
  pub params : List WireParam

unfoldable pub params_present : List Param → Dict Text Value → Bool
params_present [] params = true
params_present (p ∷ ps) params = contains p.name params && params_present ps params

-- The loop over the declared parameters. The tests before it have found each name.
unfoldable pub encode_params : List Param → Dict Text Value → Indexed (List WireParam)
encode_params [] params = ok []
encode_params (p ∷ ps) params = do
  v ← require (lookup p.name params) (encoding missing_param)
  encoded ← lift (encode_value v p.bitwidth)
  rest ← encode_params ps params
  ok (record { param_id = p.id; value = canonicalize encoded } ∷ rest)

-- `params or {}`
abbrev pub or_empty : Option (Dict Text Value) → Dict Text Value
or_empty none = []
or_empty (some params) = params

unfoldable pub encode_action : P4InfoIndex → Text → Option (Dict Text Value) → Indexed WireAction
encode_action index name given = do
  action ← require (lookup name index.actions_by_name) no_such_action
  let params = or_empty given
  raise_if (not (known_names (index_by (λ p. p.name) [] action.params) params)) no_such_field
  raise_if (not (params_present action.params params)) (encoding missing_param)
  wire ← encode_params action.params params
  ok (record { action_id = action.preamble.id; params = wire })
