-- ===== src/Control/Client/Lifecycle.antt =====
-- The connection of `P4RuntimeClient` in src/p4net/control/client.py: connect, disconnect, the
-- thread that reads the stream, and their interleavings under `_teardown_lock`.
pub mod Invariant
pub mod Waiting
pub mod Examples
use p4net.Base.{
  ℕ, ◌+◌, ◌≡◌, ◌<◌, Bool, true, false, not, ◌&&◌, ◌||◌, ◌==◌, Option, none, some, List, [], ◌∷◌,
  Result, ok, err, ℤ, pos, negsuc, if◌then◌else◌,
}
use p4net.Control.Client.RpcErrors.{
  Details, RpcError, ClientError, connection_error, not_primary, p4runtime_error,
  translate_rpc_error,
}

-- What ended a stream: a teardown before arbitration, the end of the responses, an error of the
-- call, or any other exception.
pub data StreamError : Type 0 where
  closed_early stream_ended broken : StreamError
  rpc_failed : RpcError → StreamError

-- An attempt to connect creates a channel, an event, a queue, a stream and a thread, which one number
-- stands for. `attempts` is how many there were, so the last one is `_stream_event`'s.
pub record Connection : Type 0 where
  pub attempts : ℕ
  -- `_channel`, `_stub`, `_stream_call`, `_stream_thread` and `_outgoing`
  pub current : Option ℕ
  -- The events that are set.
  pub signalled : List ℕ
  -- The status code of `_arbitration`.
  pub arbitration : Option ℤ
  pub stream_error : Option StreamError
  pub connected : Bool
  pub closed : Bool

abbrev pub new_connection : Connection
new_connection = record {
  attempts = 0;
  current = none;
  signalled = [];
  arbitration = none;
  stream_error = none;
  connected = false;
  closed = false;
}

unfoldable pub member : ℕ → List ℕ → Bool
member n [] = false
member n (m ∷ ms) = m == n || member n ms

unfoldable pub is_current : ℕ → Option ℕ → Bool
is_current n none = false
is_current n (some m) = m == n

abbrev pub or_else : {A : Type 0} → Option A → A → Option A
or_else none a = some a
or_else (some b) a = some b

-- The event of the last attempt is set, and waiters learn of an error.
abbrev pub wake : ℕ → StreamError → Connection → Connection
wake n e l = record l { stream_error = or_else l.stream_error e; signalled = n ∷ l.signalled }

-- The state that a teardown leaves behind its lock.
unfoldable pub torn_down : Connection → Connection
torn_down l = elim l.current [
  | none ↦ record l { closed = true; connected = false }
  | some n ↦ elim l.connected [
    | true ↦ record l { closed = true; connected = false; current = none }
    | false ↦ record (wake n closed_early l) { closed = true; connected = false; current = none }
  ]
]

-- `_teardown`: that of an attempt does nothing once another stream is the client's.
unfoldable pub teardown : Option ℕ → Connection → Connection
unfolding torn_down is_current
teardown none l = torn_down l
teardown (some n) l = let after = torn_down l in if is_current n l.current then after else l

-- The part of `connect` under the first lock, where the call of the stub succeeds.
unfoldable pub open_stream : Connection → Connection
open_stream l = elim l.connected [
  | true ↦ l
  | false ↦ record l {
    attempts = l.attempts + 1;
    current = some l.attempts;
    arbitration = none;
    stream_error = none;
    closed = false;
  }
]

-- The same where the call of the stub raises.
unfoldable pub open_failed : Connection → Connection
unfolding open_stream torn_down
open_failed l = elim l.connected [ true ↦ l | false ↦ torn_down (open_stream l) ]

-- `self._closed or stream_call is not self._stream_call`
unfoldable pub is_stale : ℕ → Connection → Bool
unfolding is_current
is_stale n l = l.closed || not (is_current n l.current)

-- The consumer of the stream gets an arbitration response.
unfoldable pub receive : ℕ → ℤ → Connection → Connection
unfolding is_stale
receive n code l = elim (is_stale n l) [
  | true ↦ l
  | false ↦ record l { arbitration = some code; signalled = n ∷ l.signalled }
]

-- The consumer gets an exception: `except`.
unfoldable pub stream_raised : ℕ → StreamError → Connection → Connection
unfolding is_stale
stream_raised n e l = elim (is_stale n l) [ true ↦ l | false ↦ record l { stream_error = some e } ]

-- The consumer ends: `finally`.
unfoldable pub consumer_exit : ℕ → Connection → Connection
unfolding is_stale teardown
consumer_exit n l = elim (is_stale n l) [
  | true ↦ l
  | false ↦ teardown (some n) (wake n stream_ended l)
]

-- How an attempt fails, by the message of the exception.
pub data ConnectError : Type 0 where
  stream_failed : StreamError → ConnectError
  closed_during_arbitration no_arbitration : ConnectError
  other_is_primary : ℤ → ConnectError

unfoldable pub settle_error : Bool → Option StreamError → Option ℤ → ConnectError
settle_error active (some e) arbitration = stream_failed e
settle_error false none arbitration = closed_during_arbitration
settle_error true none none = no_arbitration
settle_error true none (some code) = other_is_primary code

abbrev is_zero : ℤ → Bool
is_zero (pos n) = n == 0
is_zero (negsuc n) = false

unfoldable pub accepted : Option StreamError → Option ℤ → Bool
accepted (some e) arbitration = false
accepted none none = false
accepted none (some code) = is_zero code

-- The part of `connect` under the second lock, after the wait; a teardown of the attempt follows an
-- error.
unfoldable pub settle : ℕ → Connection → Connection × Result ConnectError (Unit {0})
unfolding is_stale accepted settle_error
settle n l =
    if not (is_stale n l) && accepted l.stream_error l.arbitration
    then (record l { connected = true }, ok tt)
    else (l, err (settle_error (not (is_stale n l)) l.stream_error l.arbitration))

-- The exception's class.
unfoldable pub raised : (List ℕ → Option Details) → ConnectError → ClientError
raised parse (stream_failed (rpc_failed e)) = translate_rpc_error parse false e
raised parse (stream_failed closed_early) = connection_error
raised parse (stream_failed stream_ended) = connection_error
raised parse (stream_failed broken) = p4runtime_error
raised parse closed_during_arbitration = connection_error
raised parse no_arbitration = connection_error
raised parse (other_is_primary code) = not_primary

-- What the threads may do next. A teardown comes from `disconnect`, from the beginning of `connect`
-- and from its ends.
pub data Step : Connection → Connection → Type 0 where
  opens : {l : Connection} → Step l (open_stream l)
  fails_to_open : {l : Connection} → Step l (open_failed l)
  receives : {l : Connection} (n : ℕ) (code : ℤ) → Step l (receive n code l)
  raises : {l : Connection} (n : ℕ) (e : StreamError) → Step l (stream_raised n e l)
  exits : {l : Connection} (n : ℕ) → Step l (consumer_exit n l)
  tears_down : {l : Connection} (which : Option ℕ) → Step l (teardown which l)
  settles : {l : Connection} (n : ℕ) → member n l.signalled ≡ true → Step l (settle n l).0

-- The states that a new client can reach.
pub data IsReachable : Connection → Type 0 where
  starts : IsReachable new_connection
  steps : {l k : Connection} → IsReachable l → Step l k → IsReachable k
