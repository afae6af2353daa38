-- ===== src/Net/Channel.antt =====
-- net/channel.rs: a connection. What its calls on other objects do is a log of events.
pub mod Receive
pub mod Stopped
use sapvi.Prelude.{
  ℕ, zero, suc, List, [], ◌∷◌, ◌++◌, Bool, true, false, not, Option, none, some, if◌then◌else◌,
}
use sapvi.Error.{NetError, channel_stopped, IoError, Error, io, Outcome, ok, err, panic}
use sapvi.Stream.{Res}
use sapvi.Net.Messages.{Message}
use sapvi.Net.Subsystem.{notify_msg, setup_dispatchers}
use sapvi.System.Subscriber.{Subscriber, new_subscriber, notify}
use sapvi.Net.Packet.{Packet, send_packet, read_packet}

-- A call on the stop subscriber, on the receive task, or on the message subsystem.
pub data Event : Type 0 where
  stop_notified : NetError → Event
  task_stopped : Event
  error_triggered : NetError → Event
  notified : Packet → Event

-- The flag, the bytes written to the stream, the events so far, and the stop subscriber.
pub record Channel : Type 0 where
  pub stopped : Bool
  pub sent : List ℕ
  pub events : List Event
  pub stop_subscriber : Subscriber NetError

unfoldable pub new : Channel
new = record { stopped = false; sent = []; events = []; stop_subscriber = new_subscriber }

-- What a call returns, with the channel that it leaves.
abbrev pub NetResult {ℓ} : Type ℓ → Type ℓ
NetResult A = Outcome (NetError × Channel) A

log : Channel → List Event → Channel
log self events = record self { events = self.events ++ events }

-- The assertion, the store to the flag, and the three calls, of which the first panics when the
-- receiver of a subscription is dropped.
unfoldable pub stop : Channel → NetResult Channel
unfolding log
stop self = if self.stopped then panic else elim (notify channel_stopped self.stop_subscriber) [
  | ok told ↦ ok (
      log (record self { stopped = false; stop_subscriber = told })
        (stop_notified channel_stopped ∷ task_stopped ∷ error_triggered channel_stopped ∷ []))
  | err e ↦ panic
  | panic ↦ panic
]

stop_with_error : Channel → NetResult Channel
unfolding stop
stop_with_error self = elim (stop self) [
  | ok self ↦ err (channel_stopped, self)
  | err e ↦ err e
  | panic ↦ panic
]

-- `accept` is the TCP stream: the error with which it refuses the bytes, if it does.
module _ (accept : List ℕ → Option IoError) where
  write_stream : Channel → List ℕ → Res Channel
  write_stream self frame = elim (accept frame) [
    | none ↦ ok (record self { sent = self.sent ++ frame })
    | some e ↦ err (io e)
  ]

  module _ {M : Type 0} (kind : Message M) where
    unfoldable pub send_message : Channel → M → Res Channel
    unfolding write_stream
    send_message self message = elim (kind.codec.encode message []) [
      | ok (n, payload) ↦
          elim (send_packet (record { command = kind.name; payload = payload }) []) [
            | ok (u, frame) ↦ write_stream self frame
            | err e ↦ err e
            | panic ↦ panic
          ]
      | err e ↦ err e
      | panic ↦ panic
    ]

    unfoldable pub send : Channel → M → NetResult Channel
    unfolding send_message stop_with_error
    send self message =
        if self.stopped then err (channel_stopped, self) else elim (send_message self message) [
          | ok self ↦ ok self
          | err e ↦ stop_with_error self
          | panic ↦ panic
        ]

-- Whether `notify` of the message subsystem returns: it panics when the decoder of the command's
-- messages does, which does not depend on the subscriptions. `size` is that of an address.
unfoldable pub dispatches : ℕ → Packet → Bool
dispatches size packet = elim (notify_msg packet.command packet.payload (setup_dispatchers size)) [
  | ok subsystem ↦ true
  | err e ↦ false
  | panic ↦ false
]

-- `main_receive_loop` on the bytes that arrive until the stream ends. It returns an error or
-- panics. `none` is no fuel.
unfoldable pub main_receive_loop : ℕ → ℕ → Channel → List ℕ → Option (NetResult Channel)
unfolding stop_with_error log dispatches
main_receive_loop size zero self s = none
main_receive_loop size (suc fuel) self s = elim (read_packet s) [
  | ok (packet, rest) ↦
      let again = main_receive_loop size fuel (log self (notified packet ∷ [])) rest in
      if dispatches size packet then again else some panic
  | err e ↦ some (stop_with_error self)
  | panic ↦ some panic
]

-- `handle_stop`, which the task runs with the result of the loop.
unfoldable pub handle_stop : NetResult Channel → NetResult Channel
unfolding log
handle_stop (ok self) = panic
handle_stop (err (e, self)) = ok (log self (error_triggered e ∷ []))
handle_stop panic = panic
