-- ===== src/Control/Client/Pipeline.antt =====
-- Pushing and reading back a pipeline in src/p4net/control/client.py. The two files of a push are
-- given by what they hold.
use p4net.Base.{
  ℕ, Bool, true, false, not, ◌||◌, Option, none, some, List, [], ◌∷◌, Result, ok, err, ◌>>◌,
  raise_if,
}
use p4net.Base.Text.{Text, codes, text_eq}
use p4net.Control.Index.{P4Info}
use p4net.Control.Client.RpcErrors.{RpcError, Details, p4runtime_error, translate_rpc_error}
use p4net.Control.Client.{Client, Called, require_connected, role_of}

abbrev pipeline_actions : List Text
pipeline_actions =
    codes "VERIFY"
    ∷ codes "VERIFY_AND_SAVE"
    ∷ codes "VERIFY_AND_COMMIT"
    ∷ codes "COMMIT"
    ∷ codes "RECONCILE_AND_COMMIT"
    ∷ []

unfoldable pub listed : Text → List Text → Bool
listed s [] = false
listed s (t ∷ ts) = text_eq t s || listed s ts

-- `p4runtime_pb2.SetForwardingPipelineConfigRequest`
pub record PipelineRequest : Type 0 where
  pub device_id : ℕ
  pub role : Text
  pub election_id_high : ℕ
  pub election_id_low : ℕ
  pub action : Text
  pub p4info : P4Info
  pub p4_device_config : List ℕ

-- The P4Info and the device configuration that a read answers with.
abbrev pub PipelineConfig : Type 0
PipelineConfig = P4Info × List ℕ

-- The two calls of the stub, on the state `S` of the switch.
pub record PipelineStub (S : Type 0) : Type 0 where
  pub set_config : S → PipelineRequest → S × Option RpcError
  pub get_config : S → ℕ → S × Result RpcError PipelineConfig
  pub parse_status : List ℕ → Option Details

unfoldable pub pipeline_request : Client → Text → P4Info → List ℕ → Called PipelineRequest
unfolding listed
pipeline_request c action p4info config = do
  require_connected c
  raise_if (not (listed action pipeline_actions)) p4runtime_error
  ok (record {
    device_id = c.device_id;
    role = role_of c;
    election_id_high = c.election_id_high;
    election_id_low = c.election_id_low;
    action = action;
    p4info = p4info;
    p4_device_config = config;
  })

module _ {S : Type 0} (stub : PipelineStub S) where
  -- The index is replaced only once the switch has taken the pipeline.
  abbrev after_push : Client → P4Info → S × Option RpcError → S × Client × Called (Unit {0})
  after_push c p4info (s, none) = (s, record c { index = some p4info }, ok tt)
  after_push c p4info (s, some e) = (s, c, err (translate_rpc_error stub.parse_status true e))

  unfoldable pub set_pipeline_config :
      Client → Text → P4Info → List ℕ → S → S × Client × Called (Unit {0})
  unfolding pipeline_request
  set_pipeline_config c action p4info config s = elim (pipeline_request c action p4info config) [
    | err e ↦ (s, c, err e)
    | ok req ↦ after_push c p4info (stub.set_config s req)
  ]

  abbrev after_get :
      Client → S × Result RpcError PipelineConfig → S × Client × Called PipelineConfig
  after_get c (s, ok (p4info, config)) = (s, record c { index = some p4info }, ok (p4info, config))
  after_get c (s, err e) = (s, c, err (translate_rpc_error stub.parse_status false e))

  unfoldable pub get_pipeline_config : Client → S → S × Client × Called PipelineConfig
  get_pipeline_config c s = elim (require_connected c) [
    | err e ↦ (s, c, err e)
    | ok _ ↦ after_get c (stub.get_config s c.device_id)
  ]
