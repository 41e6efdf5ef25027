-- ===== src/Control/Client/Lifecycle/Invariant.antt =====
-- The invariant of the connection, under every interleaving of its threads.
use p4net.Base.{
  ℕ, ◌+◌, ◌≡◌, ◌≢◌, ◌↔◌, ◌<◌, refl, sym, subst, Bool, true, false, not, ◌&&◌, ==_iff, Option, none,
  some, ◌∷◌, arith, ℤ, if◌then◌else◌, Bool-cases, Option-cases, inl, inr,
}
use p4net.Control.Client.Lifecycle.{
  StreamError, closed_early, stream_ended, Connection, new_connection, member, is_current, or_else,
  wake, torn_down, teardown, open_stream, open_failed, is_stale, receive, stream_raised,
  consumer_exit, accepted, settle, Step, opens, fails_to_open, receives, raises, exits, tears_down,
  settles, IsReachable, starts, steps,
}

-- A client that has a stream is not closed, and the stream is its last one. A connected client has a
-- stream. No event is set before its attempt, and that of the client's stream is set only once there
-- is an answer or an error to report.
pub record IsConsistent (l : Connection) : Type 0 where
  pub last : (n : ℕ) → l.current ≡ some n → n + 1 ≡ l.attempts
  pub open_now : l.closed ≡ true → l.current ≡ none
  pub held : l.connected ≡ true → l.current ≢ none
  pub past : (n : ℕ) → member n l.signalled ≡ true → n < l.attempts
  pub cause :
      (n : ℕ)
      → l.current ≡ some n
      → member n l.signalled ≡ true
      → l.arbitration ≡ none
      → l.stream_error ≢ none

new_connection-IsConsistent : IsConsistent new_connection
unfolding member
new_connection-IsConsistent = record {
  last = λ n e. cc;
  open_now = λ e. cc;
  held = λ e. cc;
  past = λ n e. cc;
  cause = λ n e. cc;
}

torn_down_idle :
    (l : Connection)
    → l.current ≡ none
    → torn_down l ≡ record l { closed = true; connected = false }
unfolding torn_down
torn_down_idle l e = rw e refl

torn_down_on :
    (l : Connection) (n : ℕ)
    → l.current ≡ some n
    → l.connected ≡ true
    → torn_down l ≡ record l { closed = true; connected = false; current = none }
unfolding torn_down
torn_down_on l n e q = rw (e, q) refl

torn_down_off :
    (l : Connection) (n : ℕ)
    → l.current ≡ some n
    → l.connected ≡ false
    → torn_down l
      ≡ record (wake n closed_early l) { closed = true; connected = false; current = none }
unfolding torn_down
torn_down_off l n e q = rw (e, q) refl

-- A state without a stream, where no event is set early.
idle-IsConsistent :
    (l : Connection)
    → l.current ≡ none
    → l.connected ≡ false
    → ((n : ℕ) → member n l.signalled ≡ true → n < l.attempts)
    → IsConsistent l
idle-IsConsistent l idle off past = record {
  last = λ n e. cc;
  open_now = λ e. idle;
  held = λ e. cc;
  past = past;
  cause = λ n e. cc;
}

past-wake :
    (l : Connection) (n m : ℕ)
    → n + 1 ≡ l.attempts
    → (member m l.signalled ≡ true → m < l.attempts)
    → member m (n ∷ l.signalled) ≡ true
    → m < l.attempts
unfolding member
past-wake l n m e h q = ground (arith, e, h, q, ==_iff n m)

torn_down-IsConsistent : (l : Connection) → IsConsistent l → IsConsistent (torn_down l)
unfolding torn_down
torn_down-IsConsistent l h = elim (Option-cases l.current) [
  | inl absent ↦
      subst IsConsistent (sym (torn_down_idle l absent)) (idle-IsConsistent _ absent refl h.past)
  | inr (n, present) ↦ elim (Bool-cases l.connected) [
    | inl on ↦
        subst IsConsistent (sym (torn_down_on l n present on))
          (idle-IsConsistent _ refl refl h.past)
    | inr off ↦
        subst IsConsistent (sym (torn_down_off l n present off))
          (idle-IsConsistent _ refl refl (λ m. past-wake l n m (h.last n present) (h.past m)))
  ]
]

teardown-IsConsistent :
    (which : Option ℕ) (l : Connection) → IsConsistent l → IsConsistent (teardown which l)
unfolding teardown
teardown-IsConsistent none l h = torn_down-IsConsistent l h
teardown-IsConsistent (some n) l h = elim (Bool-cases (is_current n l.current)) [
  | inl here ↦ rw here (torn_down-IsConsistent l h)
  | inr stale ↦ rw stale h
]

abbrev opened : Connection → Connection
opened l = record l {
  attempts = l.attempts + 1;
  current = some l.attempts;
  arbitration = none;
  stream_error = none;
  closed = false;
}

opened-IsConsistent :
    (l : Connection) → IsConsistent l → l.connected ≡ false → IsConsistent (opened l)
opened-IsConsistent l h off = record {
  last = λ n e. ground (arith, e);
  open_now = λ e. cc;
  held = λ e. ground (arith, e, off);
  past = λ n e. ground (arith, h.past n e);
  cause = λ n e set. absurd (ground (arith, e, h.past n set));
}

-- What holds on both branches of a test.
pub either :
    (P : Connection → Type 0) (b : Bool) (l k : Connection)
    → (b ≡ true → P l)
    → (b ≡ false → P k)
    → P (elim b [ true ↦ l | false ↦ k ])
either P true l k h q = h refl
either P false l k h q = q refl

open_stream-IsConsistent : (l : Connection) → IsConsistent l → IsConsistent (open_stream l)
unfolding open_stream
open_stream-IsConsistent l h =
    either IsConsistent l.connected l (opened l) (λ on. h) (opened-IsConsistent l h)

open_failed-IsConsistent : (l : Connection) → IsConsistent l → IsConsistent (open_failed l)
unfolding open_failed
open_failed-IsConsistent l h =
    either IsConsistent l.connected l (torn_down (open_stream l)) (λ on. h)
      (λ off. torn_down-IsConsistent (open_stream l) (open_stream-IsConsistent l h))

pub live_iff :
    (n : ℕ) (l : Connection) → (is_stale n l ≡ false) ↔ ((l.closed ≡ false) × (l.current ≡ some n))
unfolding is_stale is_current
live_iff n l = elim (Option-cases l.current) [
  | inl absent ↦ ground (arith, absent)
  | inr (m, present) ↦ ground (arith, present, ==_iff m n)
]

-- A state with the same stream, of which an event is set for a reason.
signalled-IsConsistent :
    (n : ℕ) (l : Connection) (code : Option ℤ) (e : Option StreamError)
    → IsConsistent l
    → l.current ≡ some n
    → (code ≡ none → e ≢ none)
    → IsConsistent (record l { arbitration = code; stream_error = e; signalled = n ∷ l.signalled })
signalled-IsConsistent n l code e h here reason = record {
  last = h.last;
  open_now = h.open_now;
  held = h.held;
  past = λ m set. past-wake l n m (h.last n here) (h.past m) set;
  cause = λ m is set missing. reason missing;
}

or_else-some : {A : Type 0} (o : Option A) (a : A) → or_else o a ≢ none
or_else-some none a e = cc
or_else-some (some b) a e = cc

receive-IsConsistent :
    (n : ℕ) (code : ℤ) (l : Connection) → IsConsistent l → IsConsistent (receive n code l)
unfolding receive
receive-IsConsistent n code l h =
    either IsConsistent (is_stale n l) l _ (λ stale. h)
      (λ live.
        signalled-IsConsistent n l (some code) l.stream_error h ((live_iff n l).0 live).1 (λ e. cc))

stream_raised-IsConsistent :
    (n : ℕ) (e : StreamError) (l : Connection) → IsConsistent l → IsConsistent (stream_raised n e l)
unfolding stream_raised
stream_raised-IsConsistent n e l h =
    either IsConsistent (is_stale n l) l _ (λ stale. h)
      (λ live. record {
        last = h.last;
        open_now = h.open_now;
        held = h.held;
        past = h.past;
        cause = λ m is set missing q. cc;
      })

consumer_exit-IsConsistent :
    (n : ℕ) (l : Connection) → IsConsistent l → IsConsistent (consumer_exit n l)
unfolding consumer_exit
consumer_exit-IsConsistent n l h =
    either IsConsistent (is_stale n l) l _ (λ stale. h)
      (λ live. teardown-IsConsistent (some n) (wake n stream_ended l) (
        signalled-IsConsistent n l l.arbitration (or_else l.stream_error stream_ended) h
          ((live_iff n l).0 live).1 (λ e. or_else-some l.stream_error stream_ended)))

-- What holds on both branches of a test, by the first component.
pub either_first :
    {A : Type 0} (P : Connection → Type 0) (b : Bool) (l k : Connection × A)
    → (b ≡ true → P l.0)
    → (b ≡ false → P k.0)
    → P (if b then l else k).0
either_first P true l k h q = h refl
either_first P false l k h q = q refl

connected-IsConsistent :
    (n : ℕ) (l : Connection)
    → IsConsistent l
    → l.current ≡ some n
    → IsConsistent (record l { connected = true })
connected-IsConsistent n l h here = record {
  last = h.last;
  open_now = h.open_now;
  held = λ e q. ground (arith, q, here);
  past = h.past;
  cause = h.cause;
}

settle-IsConsistent : (n : ℕ) (l : Connection) → IsConsistent l → IsConsistent (settle n l).0
unfolding settle
settle-IsConsistent n l h =
    either_first IsConsistent (not (is_stale n l) && accepted l.stream_error l.arbitration) _ _
      (λ good. connected-IsConsistent n l h ((live_iff n l).0 (ground (arith, good))).1) (λ bad. h)

Step-IsConsistent : {l k : Connection} → Step l k → IsConsistent l → IsConsistent k
Step-IsConsistent opens h = open_stream-IsConsistent _ h
Step-IsConsistent fails_to_open h = open_failed-IsConsistent _ h
Step-IsConsistent (receives n code) h = receive-IsConsistent n code _ h
Step-IsConsistent (raises n e) h = stream_raised-IsConsistent n e _ h
Step-IsConsistent (exits n) h = consumer_exit-IsConsistent n _ h
Step-IsConsistent (tears_down which) h = teardown-IsConsistent which _ h
Step-IsConsistent (settles n set) h = settle-IsConsistent n _ h

-- Every state that the threads of a client can reach is consistent.
pub IsReachable-IsConsistent : {l : Connection} → IsReachable l → IsConsistent l
IsReachable-IsConsistent starts = new_connection-IsConsistent
IsReachable-IsConsistent (steps before step) =
    Step-IsConsistent step (IsReachable-IsConsistent before)
