-- ===== src/Control/Client/Translation.antt =====
-- How `_translate_rpc_error` of src/p4net/control/client.py reads the details of an UNKNOWN status.
use p4net.Base.{
  ℕ, ◌≡◌, ◌≢◌, ◌↔◌, ◌⊎◌, refl, sym, ap, subst, ◌∙◌, Bool, true, false, Option, none, some, List, [],
  ◌∷◌, ◌++◌, All, ℤ, Bool-cases, Option-cases, inl, inr,
}
use p4net.Control.Client.RpcErrors.{
  StatusCode, unknown, Details, RpcError, extract_p4_canonical_codes, is_zero, grpc_code_for,
  first_resolved, resolved_code, error_of_code, translate_rpc_error, p4runtime_error,
}

-- A code that says nothing: zero, or no number of a `grpc.StatusCode`.
abbrev pub IsSilent : ℤ → Type 0
IsSilent c = (is_zero c ≡ true) ⊎ (grpc_code_for c ≡ none)

-- The first code that says something stands for the status `s`.
pub record IsFirst (cs : List ℤ) (s : StatusCode) : Type 0 where
  pub before : List ℤ
  pub code : ℤ
  pub after : List ℤ
  pub parts : cs ≡ before ++ (code ∷ after)
  pub silent : All IsSilent before
  pub nonzero : is_zero code ≡ false
  pub stands_for : grpc_code_for code ≡ some s

later-IsFirst :
    (c : ℤ) (cs : List ℤ) (s : StatusCode) → IsSilent c → IsFirst cs s → IsFirst (c ∷ cs) s
later-IsFirst c cs s silent h = record {
  before = c ∷ h.before;
  code = h.code;
  after = h.after;
  parts = ap (λ xs. c ∷ xs) h.parts;
  silent = (silent, h.silent);
  nonzero = h.nonzero;
  stands_for = h.stands_for;
}

first_resolved_sound : (cs : List ℤ) (s : StatusCode) → first_resolved cs ≡ some s → IsFirst cs s
unfolding first_resolved
first_resolved_sound [] s e = cc
first_resolved_sound (c ∷ cs) s e = elim (Bool-cases (is_zero c)) [
  | inl zero ↦ later-IsFirst c cs s (inl zero) (first_resolved_sound cs s (rw zero at e))
  | inr nonzero ↦ elim (Option-cases (grpc_code_for c)) [
    | inl absent ↦
        later-IsFirst c cs s (inr absent) (first_resolved_sound cs s (rw (nonzero, absent) at e))
    | inr (t, found) ↦ record {
      before = [];
      code = c;
      after = cs;
      parts = refl;
      silent = tt;
      nonzero = nonzero;
      stands_for = found ∙ rw (nonzero, found) at e;
    }
  ]
]

first_resolved_of :
    (before : List ℤ) (code : ℤ) (after : List ℤ) (s : StatusCode)
    → All IsSilent before
    → is_zero code ≡ false
    → grpc_code_for code ≡ some s
    → first_resolved (before ++ (code ∷ after)) ≡ some s
unfolding first_resolved
first_resolved_of [] code after s silent nonzero found = rw (nonzero, found) refl
first_resolved_of (c ∷ cs) code after s (inl zero, silent) nonzero found =
    rw zero (first_resolved_of cs code after s silent nonzero found)
first_resolved_of (c ∷ cs) code after s (inr absent, silent) nonzero found =
    elim (Bool-cases (is_zero c)) [
      | inl zero ↦ rw zero (first_resolved_of cs code after s silent nonzero found)
      | inr other ↦ rw (other, absent) (first_resolved_of cs code after s silent nonzero found)
    ]

first_resolved_iff : (cs : List ℤ) (s : StatusCode) → (first_resolved cs ≡ some s) ↔ IsFirst cs s
first_resolved_iff cs s = (
  first_resolved_sound cs s,
  λ h.
      subst (λ xs. first_resolved xs ≡ some s) (sym h.parts)
        (first_resolved_of h.before h.code h.after s h.silent h.nonzero h.stands_for),
)

resolved_code_unknown :
    (code : StatusCode) (cs : List ℤ) (s : StatusCode)
    → code ≡ unknown
    → IsFirst cs s
    → resolved_code code cs ≡ s
unfolding resolved_code
resolved_code_unknown code cs s is_unknown first =
    rw (is_unknown, resolved_code, (first_resolved_iff cs s).1 first) refl

resolved_code_silent :
    (code : StatusCode) (cs : List ℤ)
    → code ≡ unknown
    → ((s : StatusCode) → ¬ IsFirst cs s)
    → resolved_code code cs ≡ unknown
unfolding resolved_code
resolved_code_silent code cs is_unknown silent = elim (Option-cases (first_resolved cs)) [
  | inl absent ↦ rw (is_unknown, resolved_code, absent) refl
  | inr (s, found) ↦ absurd (silent s ((first_resolved_iff cs s).0 found))
]

resolved_code_other :
    (code : StatusCode) (cs : List ℤ) → code ≢ unknown → resolved_code code cs ≡ code
unfolding resolved_code
resolved_code_other unknown cs other = absurd (other refl)
resolved_code_other _ cs other = refl

other_unknown : (pipeline : Bool) → error_of_code pipeline unknown ≡ p4runtime_error
unfolding error_of_code
other_unknown true = refl
other_unknown false = refl

translate_rpc_error_lem :
    (parse : List ℕ → Option Details) (pipeline : Bool) (e : RpcError) (code : StatusCode)
    → e.code ≡ some code
    → translate_rpc_error parse pipeline e
      ≡ error_of_code pipeline (resolved_code code (extract_p4_canonical_codes parse e))
unfolding translate_rpc_error
translate_rpc_error_lem parse pipeline e code found = rw found refl

-- An UNKNOWN status is translated as the status for which the first code of its details stands that
-- says something, whether that comes alone or after silent codes.
pub translate_rpc_error-resolves :
    (parse : List ℕ → Option Details) (pipeline : Bool) (e : RpcError) (s : StatusCode)
    → e.code ≡ some unknown
    → IsFirst (extract_p4_canonical_codes parse e) s
    → translate_rpc_error parse pipeline e ≡ error_of_code pipeline s
translate_rpc_error-resolves parse pipeline e s found first =
    translate_rpc_error_lem parse pipeline e unknown found
    ∙ ap (error_of_code pipeline)
        (resolved_code_unknown unknown (extract_p4_canonical_codes parse e) s refl first)

-- An UNKNOWN status whose details say nothing is a `P4RuntimeError`.
pub translate_rpc_error-silent :
    (parse : List ℕ → Option Details) (pipeline : Bool) (e : RpcError)
    → e.code ≡ some unknown
    → ((s : StatusCode) → ¬ IsFirst (extract_p4_canonical_codes parse e) s)
    → translate_rpc_error parse pipeline e ≡ p4runtime_error
translate_rpc_error-silent parse pipeline e found silent =
    translate_rpc_error_lem parse pipeline e unknown found
    ∙ ap (error_of_code pipeline)
        (resolved_code_silent unknown (extract_p4_canonical_codes parse e) refl silent)
    ∙ other_unknown pipeline

-- Any other status is translated as itself, whatever its details are.
pub translate_rpc_error-other :
    (parse : List ℕ → Option Details) (pipeline : Bool) (e : RpcError) (code : StatusCode)
    → e.code ≡ some code
    → code ≢ unknown
    → translate_rpc_error parse pipeline e ≡ error_of_code pipeline code
translate_rpc_error-other parse pipeline e code found other =
    translate_rpc_error_lem parse pipeline e code found
    ∙ ap (error_of_code pipeline)
        (resolved_code_other code (extract_p4_canonical_codes parse e) other)
