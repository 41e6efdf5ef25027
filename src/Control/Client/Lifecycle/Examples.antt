-- ===== src/Control/Client/Lifecycle/Examples.antt =====
-- Runs of the connection: an attempt that succeeds, and one that is torn down for a later one.
use p4net.Base.{◌≡◌, ◌≢◌, ◌↔◌, refl, true, false, none, some, ℤ, pos, ok, err, arith}
use p4net.Control.Client.Lifecycle.{
  Connection, new_connection, StreamError, member, is_current, torn_down, open_stream, teardown,
  is_stale, receive, stream_raised, consumer_exit, accepted, settle_error, settle, no_arbitration,
  opens, receives, exits, tears_down, IsReachable, starts, steps,
}
use p4net.Control.Client.Lifecycle.Invariant.{IsConsistent, IsReachable-IsConsistent}
use p4net.Control.Client.Lifecycle.Waiting.{
  older_attempt-harmless, IsAccounted, Step-IsAccounted, settle-verdict,
}

connection : Unit {0}
unfolding member is_current torn_down open_stream teardown is_stale receive stream_raised
    consumer_exit accepted settle_error settle
connection = tt

abbrev opened : Connection
opened = open_stream new_connection

abbrev answered : Connection
answered = receive 0 (pos 0) opened

abbrev reopened : Connection
reopened = open_stream (teardown none opened)

answered-IsReachable : IsReachable answered
answered-IsReachable = steps (steps starts opens) (receives 0 (pos 0))

reopened-IsReachable : IsReachable reopened
reopened-IsReachable = steps (steps (steps starts opens) (tears_down none)) opens

connects : (settle 0 answered).0.connected ≡ true
unfolding connection
connects = refl

IsReachable-IsConsistent_example : IsConsistent answered
IsReachable-IsConsistent_example = IsReachable-IsConsistent answered-IsReachable

older_attempt-harmless_example :
    ((code : ℤ) → receive 0 code reopened ≡ reopened)
    × ((e : StreamError) → stream_raised 0 e reopened ≡ reopened)
    × (consumer_exit 0 reopened ≡ reopened)
    × (teardown (some 0) reopened ≡ reopened)
    × ((settle 0 reopened).0 ≡ reopened)
unfolding connection
older_attempt-harmless_example =
    older_attempt-harmless 0 reopened reopened-IsReachable (omega arith)

Step-IsAccounted_example : IsAccounted 0 opened (consumer_exit 0 opened)
unfolding connection
Step-IsAccounted_example =
    Step-IsAccounted 0 {l = opened} {k = consumer_exit 0 opened} (exits 0) refl refl

settle-verdict_example :
    (((settle 0 answered).1 ≡ ok tt) ↔ (
      (answered.closed ≡ false)
      × (answered.current ≡ some 0)
      × (answered.stream_error ≡ none)
      × (answered.arbitration ≡ some (pos 0))))
    × ((settle 0 answered).1 ≢ err no_arbitration)
unfolding connection
settle-verdict_example = settle-verdict 0 answered answered-IsReachable refl
