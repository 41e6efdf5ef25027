-- ===== src/Control/Client/Lifecycle/Waiting.antt =====
-- What a caller of `connect` that waits for its event can rely on.
use p4net.Base.{
  ℕ, ◌+◌, ◌≡◌, ◌≢◌, ◌↔◌, ◌⊎◌, ◌<◌, refl, ◌∙◌, true, false, not, ◌&&◌, ==_iff, ==_refl, Option, none,
  some, arith, ℤ, pos, negsuc, Bool-cases, Option-cases, inl, inr, Result, ok, err,
}
use p4net.Control.Client.Lifecycle.{
  StreamError, stream_ended, Connection, member, is_current, wake, torn_down, teardown, open_stream,
  open_failed, is_stale, receive, stream_raised, consumer_exit, accepted, ConnectError,
  no_arbitration, settle_error, settle, IsReachable, Step, opens, fails_to_open, receives, raises,
  exits, tears_down, settles,
}
use p4net.Control.Client.Lifecycle.Invariant.{
  IsConsistent, IsReachable-IsConsistent, live_iff, either, either_first,
}

older-is_stale :
    (n : ℕ) (l : Connection) → IsConsistent l → n + 1 < l.attempts → is_stale n l ≡ true
older-is_stale n l h older = elim (Bool-cases (is_stale n l)) [
  | inl stale ↦ stale
  | inr live ↦ absurd (ground (arith, older, h.last n ((live_iff n l).0 live).1))
]

older-not_current :
    (n : ℕ) (l : Connection) → IsConsistent l → n + 1 < l.attempts → is_current n l.current ≡ false
unfolding is_current
older-not_current n l h older = elim (Option-cases l.current) [
  | inl absent ↦ rw absent refl
  | inr (m, present) ↦ ground (arith, present, older, h.last m present, ==_iff m n)
]

-- Once there was a later attempt, nothing that the thread of an earlier one receives, nor how it
-- ends, nor the failure of its caller, changes the client.
pub older_attempt-harmless :
    (n : ℕ) (l : Connection)
    → IsReachable l
    → n + 1 < l.attempts
    → ((code : ℤ) → receive n code l ≡ l)
      × ((e : StreamError) → stream_raised n e l ≡ l)
      × (consumer_exit n l ≡ l)
      × (teardown (some n) l ≡ l)
      × ((settle n l).0 ≡ l)
unfolding receive stream_raised consumer_exit teardown settle
older_attempt-harmless n l reached older =
    let stale = older-is_stale n l (IsReachable-IsConsistent reached) older in
    let gone = older-not_current n l (IsReachable-IsConsistent reached) older in
    let not_live : is_stale n l ≢ false = λ live. ground (arith, live, stale) in
    (
      λ code. either (λ k. k ≡ l) (is_stale n l) l _ (λ _. refl) (λ live. absurd (not_live live)),
      λ e. either (λ k. k ≡ l) (is_stale n l) l _ (λ _. refl) (λ live. absurd (not_live live)),
      either (λ k. k ≡ l) (is_stale n l) l _ (λ _. refl) (λ live. absurd (not_live live)),
      rw gone refl,
      either_first (λ k. k ≡ l) (not (is_stale n l) && accepted l.stream_error l.arbitration) _ _
          (λ good. ground (arith, good, stale)) (λ _. refl),
    )

-- An attempt still has the client's stream, or its event is set, or there was a later attempt.
unfoldable pub IsAccounted : ℕ → Connection → Connection → Type 0
IsAccounted n before after =
    (after.current ≡ some n)
    ⊎ (member n after.signalled ≡ true)
    ⊎ (after.attempts ≡ before.attempts + 1)

kept : (n : ℕ) (before after : Connection) → after.current ≡ some n → IsAccounted n before after
unfolding IsAccounted
kept n before after here = inl here

later :
    (n : ℕ) (before after : Connection)
    → after.attempts ≡ before.attempts + 1
    → IsAccounted n before after
unfolding IsAccounted
later n before after e = inr (inr e)

torn_down-wakes :
    (n : ℕ) (l : Connection)
    → l.current ≡ some n
    → l.connected ≡ false
    → member n (torn_down l).signalled ≡ true
unfolding torn_down member
torn_down-wakes n l here off = rw (here, off, ==_refl n) refl

teardown-IsAccounted :
    (n : ℕ) (which : Option ℕ) (l : Connection)
    → l.current ≡ some n
    → l.connected ≡ false
    → IsAccounted n l (teardown which l)
unfolding IsAccounted teardown
teardown-IsAccounted n none l here off = inr (inl (torn_down-wakes n l here off))
teardown-IsAccounted n (some m) l here off = elim (Bool-cases (is_current m l.current)) [
  | inl same ↦ rw same (inr (inl (torn_down-wakes n l here off)))
  | inr other ↦ rw other (inl here)
]

torn_down-attempts : (l : Connection) → (torn_down l).attempts ≡ l.attempts
unfolding torn_down
torn_down-attempts l = elim (Option-cases l.current) [
  | inl absent ↦ rw absent refl
  | inr (n, present) ↦ elim (Bool-cases l.connected) [
    | inl on ↦ rw (present, on) refl
    | inr off ↦ rw (present, off) refl
  ]
]

opened_once : (l : Connection) → l.connected ≡ false → (open_stream l).attempts ≡ l.attempts + 1
unfolding open_stream
opened_once l off = rw off refl

exits-IsAccounted :
    (n m : ℕ) (l : Connection)
    → l.current ≡ some n
    → l.connected ≡ false
    → IsAccounted n l (consumer_exit m l)
unfolding consumer_exit IsAccounted
exits-IsAccounted n m l here off =
    either (IsAccounted n l) (is_stale m l) l _ (λ stale. kept n l l here)
      (λ live. teardown-IsAccounted n (some m) (wake m stream_ended l) here off)

-- Whatever thread acts next, an attempt that has the client's stream and is not connected keeps
-- the stream, or its event is set, or a further attempt began.
pub Step-IsAccounted :
    (n : ℕ) {l k : Connection}
    → Step l k
    → l.current ≡ some n
    → l.connected ≡ false
    → IsAccounted n l k
unfolding open_stream open_failed receive stream_raised settle
Step-IsAccounted n {l = l} opens here off =
    either (IsAccounted n l) l.connected l _ (λ on. kept n l l here) (λ _. later n l _ refl)
Step-IsAccounted n {l = l} fails_to_open here off =
    either (IsAccounted n l) l.connected l _ (λ on. kept n l l here)
      (λ _. later n l _ (torn_down-attempts (open_stream l) ∙ opened_once l off))
Step-IsAccounted n {l = l} (receives m code) here off =
    either (IsAccounted n l) (is_stale m l) l _ (λ stale. kept n l l here) (λ live. kept n l _ here)
Step-IsAccounted n {l = l} (raises m e) here off =
    either (IsAccounted n l) (is_stale m l) l _ (λ stale. kept n l l here) (λ live. kept n l _ here)
Step-IsAccounted n {l = l} (exits m) here off = exits-IsAccounted n m l here off
Step-IsAccounted n {l = l} (tears_down which) here off = teardown-IsAccounted n which l here off
Step-IsAccounted n {l = l} (settles m set) here off =
    either_first {A = Result ConnectError (Unit {0})} (IsAccounted n l)
      (not (is_stale m l) && accepted l.stream_error l.arbitration) _ _ (λ good. kept n l _ here)
      (λ bad. kept n l l here)

settle-answers :
    (n : ℕ) (l : Connection)
    → IsConsistent l
    → member n l.signalled ≡ true
    → (settle n l).1 ≢ err no_arbitration
unfolding settle settle_error
settle-answers n l h set e = elim (Bool-cases (is_stale n l)) [
  | inl stale ↦ elim (Option-cases l.stream_error) [
    | inl quiet ↦ ground (arith, rw (stale, quiet) at e)
    | inr (x, loud) ↦ ground (arith, rw (stale, loud) at e)
  ]
  | inr live ↦ elim (Option-cases l.stream_error) [
    | inl quiet ↦ elim (Option-cases l.arbitration) [
      | inl missing ↦ h.cause n ((live_iff n l).0 live).1 set missing quiet
      | inr (code, got) ↦ elim (Bool-cases (accepted none (some code))) [
        | inl zero ↦ ground (arith, rw (live, quiet, got, zero) at e)
        | inr other ↦ ground (arith, rw (live, quiet, got, other) at e)
      ]
    ]
    | inr (x, loud) ↦ ground (arith, rw (live, loud) at e)
  ]
]

accepted_iff :
    (e : Option StreamError) (a : Option ℤ)
    → (accepted e a ≡ true) ↔ ((e ≡ none) × (a ≡ some (pos 0)))
unfolding accepted
accepted_iff (some x) a = ground arith
accepted_iff none none = ground arith
accepted_iff none (some (pos n)) = ground (arith, ==_iff n 0)
accepted_iff none (some (negsuc n)) = ground arith

settle_ok_iff :
    (n : ℕ) (l : Connection)
    → ((settle n l).1 ≡ ok tt)
      ↔ ((is_stale n l ≡ false) × (accepted l.stream_error l.arbitration ≡ true))
unfolding settle
settle_ok_iff n l = elim (Bool-cases (is_stale n l)) [
  | inl stale ↦ rw stale (ground arith)
  | inr live ↦ elim (Bool-cases (accepted l.stream_error l.arbitration)) [
    | inl good ↦ rw (live, good) (ground arith)
    | inr bad ↦ rw (live, bad) (ground arith)
  ]
]

-- A caller whose event is set connects exactly when the client is open on the attempt's own stream,
-- no error came and the arbitration's code is 0. It is never told that the answer is missing.
pub settle-verdict :
    (n : ℕ) (l : Connection)
    → IsReachable l
    → member n l.signalled ≡ true
    → (((settle n l).1 ≡ ok tt) ↔ (
        (l.closed ≡ false)
        × (l.current ≡ some n)
        × (l.stream_error ≡ none)
        × (l.arbitration ≡ some (pos 0))))
      × ((settle n l).1 ≢ err no_arbitration)
settle-verdict n l reached set = (
  ground (arith, settle_ok_iff n l, live_iff n l, accepted_iff l.stream_error l.arbitration),
  settle-answers n l (IsReachable-IsConsistent reached) set,
)
