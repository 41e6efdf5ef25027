-- ===== src/Control/Index/Actions.antt =====
-- `encode_action`: the parameters go out in the order of the program's declaration, each once.
use p4net.Base.{
  ℕ, ◌≡◌, refl, subst, inl, inr, true, Option, some, List, [], ◌∷◌, arith, Option-cases, ok,
  Result-cases, ok_inj,
}
use p4net.Base.Text.{Text}
use p4net.Base.Dict.{Dict, lookup, text_eq_instance}
use p4net.Control.Codec.{Value, encode_value, canonicalize}
use p4net.Control.Index.{Param, Action, P4InfoIndex, index_by}
use p4net.Control.Index.MatchKeys.{known_names}
use p4net.Control.Index.ActionParams.{WireParam, WireAction, encode_params, or_empty, encode_action}

-- What is sent of one declared parameter: its id, and the canonical bytes of the caller's value of
-- that name.
pub record Carries (params : Dict Text Value) (p : Param) (wire : WireParam) : Type 0 where
  pub same_id : wire.param_id ≡ p.id
  pub value : Value
  pub given : lookup p.name params ≡ some value
  pub bs : List ℕ
  pub encoded : encode_value value p.bitwidth ≡ ok bs
  pub sent : wire.value ≡ canonicalize bs

-- The two lists go in step.
abbrev pub InOrder : Dict Text Value → List Param → List WireParam → Type 0
InOrder params [] [] = Unit
InOrder params [] (w ∷ ws) = ⊥
InOrder params (p ∷ ps) [] = ⊥
InOrder params (p ∷ ps) (w ∷ ws) = Carries params p w × InOrder params ps ws

encode_params-InOrder :
    (ps : List Param) (params : Dict Text Value) (ws : List WireParam)
    → encode_params ps params ≡ ok ws
    → InOrder params ps ws
unfolding encode_params
encode_params-InOrder [] params ws e = subst (InOrder params []) (ok_inj e) tt
encode_params-InOrder (p ∷ ps) params ws e = elim (Option-cases (lookup p.name params)) [
  | inl missing ↦ ground arith
  | inr (v, given) ↦ elim (Result-cases (encode_value v p.bitwidth)) [
    | inr (x, failed) ↦ ground arith
    | inl (bs, encoded) ↦ elim (Result-cases (encode_params ps params)) [
      | inr (x, failed) ↦ ground arith
      | inl (rest, done) ↦
          let first : WireParam = record { param_id = p.id; value = canonicalize bs } in
          let whole : first ∷ rest ≡ ws = ground arith in
          subst (InOrder params (p ∷ ps)) whole (
            record {
              same_id = refl;
              value = v;
              given = given;
              bs = bs;
              encoded = encoded;
              sent = refl;
            },
            encode_params-InOrder ps params rest done,
          )
    ]
  ]
]

encode_action-parts :
    (index : P4InfoIndex) (name : Text) (action : Action) (given : Option (Dict Text Value))
    (wire : WireAction)
    → lookup name index.actions_by_name ≡ some action
    → encode_action index name given ≡ ok wire
    → (wire.action_id ≡ action.preamble.id)
      × (encode_params action.params (or_empty given) ≡ ok wire.params)
      × (known_names (index_by (λ p. p.name) [] action.params) (or_empty given) ≡ true)
unfolding encode_action
encode_action-parts index name action given wire found e =
    elim (Result-cases (encode_params action.params (or_empty given))) [
      | inr (x, failed) ↦ ground arith
      | inl (ws, done) ↦ (ground arith, ground arith, ground arith)
    ]

-- When `encode_action` returns, the action's id is sent and one parameter for each that the program
-- declares, in the order of the declaration: its id and the canonical bytes of the caller's value.
pub encode_action-InOrder :
    (index : P4InfoIndex) (name : Text) (action : Action) (given : Option (Dict Text Value))
    (wire : WireAction)
    → lookup name index.actions_by_name ≡ some action
    → encode_action index name given ≡ ok wire
    → (wire.action_id ≡ action.preamble.id)
      × InOrder (or_empty given) action.params wire.params
      × (known_names (index_by (λ p. p.name) [] action.params) (or_empty given) ≡ true)
encode_action-InOrder index name action given wire found e =
    let (same, done, known) = encode_action-parts index name action given wire found e in
    (same, encode_params-InOrder action.params (or_empty given) wire.params done, known)
