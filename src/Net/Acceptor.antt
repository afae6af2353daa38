-- ===== src/Net/Acceptor.antt =====
-- net/acceptor.rs: the loop that accepts connections and hands them to its subscriptions.
pub mod Laws
use sapvi.Prelude.{List, [], ◌∷◌, Option, none, some}
use sapvi.Error.{NetError, service_stopped, Outcome, ok, err, panic}
use sapvi.System.StoppableTask.{Race, run_task}
use sapvi.System.Subscriber.{Subscriber, notify}

-- `C` is the type of the channels that the accepted streams make.
module _ {C : Type 0} where
  -- What `listener.accept()` gives: a connection, or an error.
  unfoldable pub tick_accept : Option C → Outcome NetError C
  tick_accept (some channel) = ok channel
  tick_accept none = err service_stopped

  -- `run_accept_loop`, on what the listener gives one after the other: the result, once there is one,
  -- and the subscriber.
  unfoldable pub run_accept_loop :
      List (Option C)
      → Subscriber (Outcome NetError C)
      → Outcome (Unit {0}) (Option NetError × Subscriber (Outcome NetError C))
  unfolding tick_accept
  run_accept_loop [] self = ok (none, self)
  run_accept_loop (accepted ∷ more) self = elim (tick_accept accepted) [
    | ok channel ↦ elim (notify (ok channel) self) [
      | ok self ↦ run_accept_loop more self
      | err e ↦ err e
      | panic ↦ panic
    ]
    | err e ↦ ok (some e, self)
    | panic ↦ panic
  ]

  unfoldable pub handle_stop_accept :
      Subscriber (Outcome NetError C)
      → Outcome NetError (Unit {0})
      → Outcome (Unit {0}) (Subscriber (Outcome NetError C))
  handle_stop_accept self (ok u) = panic
  handle_stop_accept self (err e) = notify (err e) self
  handle_stop_accept self panic = panic

  -- `accept`: the loop against the stop signal, and the handler.
  unfoldable pub stop_accept :
      Race (Outcome NetError (Unit {0}))
      → Subscriber (Outcome NetError C)
      → Outcome (Unit {0}) (Subscriber (Outcome NetError C))
  unfolding handle_stop_accept
  stop_accept race self = run_task (handle_stop_accept self) service_stopped race
