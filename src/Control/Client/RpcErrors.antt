-- ===== src/Control/Client/RpcErrors.antt =====
-- src/p4net/control/_rpc_errors.py, and `_translate_rpc_error` of src/p4net/control/client.py.
-- What grpc and protobuf report of a failed call is a record; the parser of the status message is a
-- parameter.
use p4net.Base.{
  ℕ, ◌+◌, Bool, true, false, not, ◌&&◌, Option, none, some, List, [], ◌∷◌, ◌++◌, leb, ◌==◌,
  if◌then◌else◌, ℤ, pos, negsuc,
}
use p4net.Base.Text.{Text, codes, text_eq}
use p4net.Control.Index.{IndexError}

-- `grpc.StatusCode`
pub data StatusCode : Type 0 where
  ok_status cancelled unknown invalid_argument deadline_exceeded not_found already_exists :
      StatusCode
  permission_denied resource_exhausted failed_precondition aborted out_of_range_status : StatusCode
  unimplemented internal unavailable data_loss unauthenticated : StatusCode

-- The exceptions of a client call, by class.
pub data ClientError : Type 0 where
  connection_error not_primary pipeline_error entry_not_found duplicate_entry p4runtime_error :
      ClientError
  index_error : IndexError → ClientError
  encoding_error : ClientError

-- One detail of a status: the canonical code of a `p4.v1.Error`, or `none` for any other detail and
-- for one that does not unpack.
abbrev pub Details : Type 0
Details = List (Option ℤ)

-- A `grpc.RpcError`: what `code()`, `details()` and `trailing_metadata()` return, where they do
-- not raise.
pub record RpcError : Type 0 where
  pub code : Option StatusCode
  pub details : Option Text
  pub trailing_metadata : Option (List (Text × List ℕ))

-- `key.lower()` on ASCII, as gRPC's metadata keys are.
unfoldable pub lower : Text → Text
lower [] = []
lower (c ∷ s) = (if leb b'A' c && leb c b'Z' then c + 32 else c) ∷ lower s

unfoldable pub unpacked : Details → List ℤ
unpacked [] = []
unpacked (none ∷ ds) = unpacked ds
unpacked (some c ∷ ds) = c ∷ unpacked ds

abbrev pub details_bin : Text
details_bin = codes "grpc-status-details-bin"

module _ (parse_status : List ℕ → Option Details) where
  -- The codes of one metadata entry; an entry that does not parse gives none.
  unfoldable pub entry_codes : Text → List ℕ → List ℤ
  unfolding unpacked
  entry_codes key value =
      if not (text_eq (lower key) details_bin)
      then []
      else (elim (parse_status value) [ none ↦ [] | some details ↦ unpacked details ])

  unfoldable pub metadata_codes : List (Text × List ℕ) → List ℤ
  metadata_codes [] = []
  metadata_codes ((key, value) ∷ md) = entry_codes key value ++ metadata_codes md

  unfoldable pub extract_p4_canonical_codes : RpcError → List ℤ
  extract_p4_canonical_codes e = elim e.trailing_metadata [
    | none ↦ []
    | some md ↦ metadata_codes md
  ]

-- The members of `grpc.StatusCode` with their numbers.
abbrev status_codes : List (ℕ × StatusCode)
status_codes =
    (0, ok_status)
    ∷ (1, cancelled)
    ∷ (2, unknown)
    ∷ (3, invalid_argument)
    ∷ (4, deadline_exceeded)
    ∷ (5, not_found)
    ∷ (6, already_exists)
    ∷ (7, permission_denied)
    ∷ (8, resource_exhausted)
    ∷ (9, failed_precondition)
    ∷ (10, aborted)
    ∷ (11, out_of_range_status)
    ∷ (12, unimplemented)
    ∷ (13, internal)
    ∷ (14, unavailable)
    ∷ (15, data_loss)
    ∷ (16, unauthenticated)
    ∷ []

unfoldable pub code_in : ℕ → List (ℕ × StatusCode) → Option StatusCode
code_in n [] = none
code_in n ((m, s) ∷ rest) = if m == n then some s else code_in n rest

unfoldable pub grpc_code_for : ℤ → Option StatusCode
unfolding code_in
grpc_code_for (pos n) = code_in n status_codes
grpc_code_for (negsuc n) = none

abbrev pub is_zero : ℤ → Bool
is_zero (pos n) = n == 0
is_zero (negsuc n) = false

-- The first canonical code that is neither zero nor unknown to grpc.
unfoldable pub first_resolved : List ℤ → Option StatusCode
unfolding grpc_code_for
first_resolved [] = none
first_resolved (c ∷ cs) =
    let rest = first_resolved cs in
    if is_zero c then rest else (elim (grpc_code_for c) [ none ↦ rest | some s ↦ some s ])

-- The outer code, or what an UNKNOWN one stands for.
unfoldable pub resolved_code : StatusCode → List ℤ → StatusCode
resolved_code unknown cs = elim (first_resolved cs) [ none ↦ unknown | some s ↦ s ]
resolved_code code cs = code

unfoldable pub error_of_code : Bool → StatusCode → ClientError
error_of_code pipeline unavailable = connection_error
error_of_code pipeline permission_denied = not_primary
error_of_code pipeline not_found = entry_not_found
error_of_code pipeline already_exists = duplicate_entry
error_of_code true failed_precondition = pipeline_error
error_of_code pipeline _ = p4runtime_error

unfoldable pub translate_rpc_error : (List ℕ → Option Details) → Bool → RpcError → ClientError
translate_rpc_error parse_status pipeline e = elim e.code [
  | none ↦ p4runtime_error
  | some code ↦
      error_of_code pipeline (resolved_code code (extract_p4_canonical_codes parse_status e))
]
