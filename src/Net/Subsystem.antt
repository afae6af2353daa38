-- ===== src/Net/Subsystem.antt =====
-- net/message_subscriber.rs: `MessageSubsystem`, the dispatchers by the names of their messages, and
-- what net/channel.rs sets up.
pub mod Laws
use sapvi.Prelude.{
  ℕ, List, [], ◌∷◌, Bool, true, false, Option, none, some, same_bytes, if◌then◌else◌,
}
use sapvi.Error.{NetError, operation_failed, Outcome, ok, err, panic}
use sapvi.Net.Messages.{Message, version, verack, ping, pong, get_addrs, addrs}
use sapvi.Net.Dispatcher.{Dispatcher, Subscription, new, subscribe, trigger, trigger_error}

-- A dispatcher behind `MessageDispatcherInterface`: its messages are of any type.
pub record AnyDispatcher : Type 1 where
  pub Content : Type 0
  pub kind : Message Content
  pub dispatcher : Dispatcher Content

abbrev pub command_of : AnyDispatcher → List ℕ
command_of any = any.kind.name

abbrev pub any : {M : Type 0} → Message M → Dispatcher M → AnyDispatcher
any {M} kind dispatcher = record { Content = M; kind = kind; dispatcher = dispatcher }

abbrev pub MessageSubsystem : Type 1
MessageSubsystem = List AnyDispatcher

-- `get` and `insert` of the map. An operation on a dispatcher that is shared puts it back.
unfoldable pub find : List ℕ → MessageSubsystem → Option AnyDispatcher
find name [] = none
find name (d ∷ dispatchers) =
    let rest = find name dispatchers in if same_bytes name (command_of d) then some d else rest

unfoldable pub put : AnyDispatcher → MessageSubsystem → MessageSubsystem
put dispatcher [] = dispatcher ∷ []
put dispatcher (d ∷ dispatchers) =
    let rest = put dispatcher dispatchers in
    if same_bytes (command_of dispatcher) (command_of d) then dispatcher ∷ dispatchers else d ∷ rest

unfoldable pub add_dispatch : {M : Type 0} → Message M → MessageSubsystem → MessageSubsystem
unfolding put
add_dispatch kind self = put (any kind new) self

-- `subscribe`. A name is given to belong to one type, so that the downcast passes.
unfoldable pub subscribe_msg :
    List ℕ → ℕ → MessageSubsystem → Outcome NetError (Subscription × MessageSubsystem)
unfolding find put
subscribe_msg name random_id self = elim (find name self) [
  | none ↦ err operation_failed
  | some d ↦
      let (sub, dispatcher) = subscribe random_id d.dispatcher in
      ok (sub, put (any d.kind dispatcher) self)
]

unfoldable pub notify_msg : List ℕ → List ℕ → MessageSubsystem → Outcome (Unit {0}) MessageSubsystem
unfolding find put
notify_msg command payload self = elim (find command self) [
  | none ↦ ok self
  | some d ↦ elim (trigger d.kind payload d.dispatcher) [
    | ok dispatcher ↦ ok (put (any d.kind dispatcher) self)
    | err e ↦ err e
    | panic ↦ panic
  ]
]

unfoldable pub trigger_errors : NetError → MessageSubsystem → MessageSubsystem
trigger_errors e [] = []
trigger_errors e (d ∷ dispatchers) =
    any d.kind (trigger_error e d.dispatcher) ∷ trigger_errors e dispatchers

-- `Channel::setup_dispatchers`
unfoldable pub setup_dispatchers : ℕ → MessageSubsystem
unfolding add_dispatch
setup_dispatchers size = add_dispatch (addrs size) (
    add_dispatch get_addrs
      (add_dispatch pong (add_dispatch ping (add_dispatch verack (add_dispatch version [])))))
