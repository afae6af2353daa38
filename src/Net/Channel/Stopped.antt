-- ===== src/Net/Channel/Stopped.antt =====
-- The flag `stopped`, and how a message travels from `send` to the other side's receive loop.
use sapvi.Prelude.{
  ℕ, zero, suc, ◌<◌, ◌≡◌, ◌≢◌, refl, sym, ap, ◌∙◌, arith, List, [], ◌∷◌, ◌++◌, length, false, true,
  Bool-cases, Option, none, some, inl, inr, append-nil,
}
use sapvi.Error.{NetError, channel_stopped, IoError, ok, err, Outcome-cases}
use sapvi.Serial.Codec.{IsLawful}
use sapvi.Serial.Vec.Laws.{IsBytes}
use sapvi.Serial.Text.Laws.{IsText}
use sapvi.Net.Messages.{Message}
use sapvi.Net.Packet.{Packet, read_packet}
use sapvi.Net.Packet.Laws.{IsPacket, packet_bytes, send_packet-eq}
use sapvi.Net.Channel.{
  Channel, new, notified, stop, stop_with_error, send, send_message, write_stream,
  main_receive_loop, dispatches, log,
}
use sapvi.Net.Channel.Receive.{stop_events, frames, main_receive_loop-frames}
use sapvi.System.Subscriber.{Subscriber, notify}
use sapvi.Net.Dispatcher.{Dispatcher}
use sapvi.Net.Subsystem.{any, find, setup_dispatchers}
use sapvi.Net.Subsystem.Laws.{notify_msg-find}

-- What can happen to a channel: a message is sent, or fails to be; it is stopped; the receive loop
-- runs to its end on some bytes; or the subscriptions to its stop change.
pub data Step (accept : List ℕ → Option IoError) (self : Channel) : Channel → Type 1 where
  sends :
      {M : Type 0} (kind : Message M) (m : M) (self' : Channel)
      → send accept kind self m ≡ ok self'
      → Step accept self self'
  fails :
      {M : Type 0} (kind : Message M) (m : M) (e : NetError) (self' : Channel)
      → send accept kind self m ≡ err (e, self')
      → Step accept self self'
  stops : (self' : Channel) → stop self ≡ ok self' → Step accept self self'
  ends :
      (size fuel : ℕ) (s : List ℕ) (e : NetError) (self' : Channel)
      → main_receive_loop size fuel self s ≡ some (err (e, self'))
      → Step accept self self'
  subscribes :
      (subscriber : Subscriber NetError)
      → Step accept self (record self { stop_subscriber = subscriber })

pub data Reaches (accept : List ℕ → Option IoError) (self : Channel) : Channel → Type 1 where
  here : Reaches accept self self
  next : (c d : Channel) → Reaches accept self c → Step accept c d → Reaches accept self d

-- `stop` runs on a channel whose flag is not set, and does not set it.
pub stop-open : (self self' : Channel) → stop self ≡ ok self' → self'.stopped ≡ false
unfolding stop log stop_events
stop-open self self' e = elim (Bool-cases self.stopped) [
  | inl down ↦ absurd (ground (arith, down))
  | inr up ↦ elim (Outcome-cases (notify channel_stopped self.stop_subscriber)) [
    | inl (told, e') ↦
        let same : record self {
          stopped = false;
          stop_subscriber = told;
          events = self.events ++ stop_events;
        }
            ≡ self' =
          ground (arith, up, e') in
        ap (λ c. c.stopped) (sym same)
    | inr (inl (x, e')) ↦ absurd (ground (arith, up, e'))
    | inr (inr e') ↦ absurd (ground (arith, up, e'))
  ]
]

stop-fails : (self : Channel) (x : NetError × Channel) → stop self ≢ err x
unfolding stop
stop-fails self x e =
    ground (
      arith,
      Bool-cases self.stopped,
      Outcome-cases (notify channel_stopped self.stop_subscriber),
      e,
    )

stop_with_error-open :
    (self self' : Channel) (e : NetError)
    → stop_with_error self ≡ err (e, self')
    → self'.stopped ≡ false
unfolding stop_with_error
stop_with_error-open self self' e h = elim (Outcome-cases (stop self)) [
  | inl (c, got) ↦ stop-open self self' (ground (arith, got))
  | inr (inl (x, got)) ↦ absurd (stop-fails self x got)
  | inr (inr got) ↦ absurd (ground (arith, got))
]

write_stream-stopped :
    (accept : List ℕ → Option IoError) (self self' : Channel) (frame : List ℕ)
    → write_stream accept self frame ≡ ok self'
    → self'.stopped ≡ self.stopped
unfolding write_stream
write_stream-stopped accept self self' frame e = ground (arith, e)

send_message-stopped :
    {M : Type 0} (accept : List ℕ → Option IoError) (kind : Message M) (self self' : Channel)
    (m : M)
    → send_message accept kind self m ≡ ok self'
    → self'.stopped ≡ self.stopped
unfolding send_message write_stream
send_message-stopped accept kind self self' m e = ground (arith, e)

sends-open :
    {M : Type 0} (accept : List ℕ → Option IoError) (kind : Message M) (self self' : Channel)
    (m : M)
    → self.stopped ≡ false
    → send accept kind self m ≡ ok self'
    → self'.stopped ≡ false
unfolding send stop_with_error
sends-open accept kind self self' m up e = elim (Outcome-cases (send_message accept kind self m)) [
  | inl (c, got) ↦ send_message-stopped accept kind self self' m (ground (arith, up, got)) ∙ up
  | inr (inl (x, got)) ↦ absurd (ground (arith, up, got, Outcome-cases (stop self)))
  | inr (inr got) ↦ absurd (ground (arith, up, got))
]

fails-open :
    {M : Type 0} (accept : List ℕ → Option IoError) (kind : Message M) (self self' : Channel)
    (m : M) (x : NetError)
    → self.stopped ≡ false
    → send accept kind self m ≡ err (x, self')
    → self'.stopped ≡ false
unfolding send
fails-open accept kind self self' m x up e =
    elim (Outcome-cases (send_message accept kind self m)) [
      | inl (c, got) ↦ absurd (ground (arith, up, got))
      | inr (inl (y, got)) ↦ stop_with_error-open self self' x (ground (arith, up, got))
      | inr (inr got) ↦ absurd (ground (arith, up, got))
    ]

ends-open :
    (size fuel : ℕ) (self self' : Channel) (s : List ℕ) (e : NetError)
    → main_receive_loop size fuel self s ≡ some (err (e, self'))
    → self'.stopped ≡ false
unfolding main_receive_loop
ends-open size zero self self' s e h = cc
ends-open size (suc fuel) self self' s e h = elim (Outcome-cases (read_packet s)) [
  | inl ((p, rest), got) ↦ elim (Bool-cases (dispatches size p)) [
    | inl good ↦
        ends-open size fuel (log self (notified p ∷ [])) self' rest e
          (rw (got, good, main_receive_loop) at h)
    | inr bad ↦ absurd (ground (arith, rw (got, bad, main_receive_loop) at h))
  ]
  | inr (inl (x, got)) ↦ stop_with_error-open self self' e (ground (arith, got))
  | inr (inr got) ↦ absurd (ground (arith, got))
]

-- Whatever happens to a new channel, by sending, failing to send, stopping, receiving and
-- subscriptions to its stop, its flag `stopped` is not set: no message is refused for it, not even
-- after the channel was stopped.
pub Reaches-open :
    (accept : List ℕ → Option IoError) (c : Channel) → Reaches accept new c → c.stopped ≡ false
unfolding new
Reaches-open accept c here = refl
Reaches-open accept c (next b d path (sends kind m c' e)) =
    sends-open accept kind b c m (Reaches-open accept b path) e
Reaches-open accept c (next b d path (fails kind m x c' e)) =
    fails-open accept kind b c m x (Reaches-open accept b path) e
Reaches-open accept c (next b d path (stops c' e)) = stop-open b c e
Reaches-open accept c (next b d path (ends size fuel s x c' e)) = ends-open size fuel b c s x e
Reaches-open accept c (next b d path (subscribes s)) = Reaches-open accept b path

send_message-eq :
    {M : Type 0} (kind : Message M) {V : M → Type 0} {w : M → List ℕ} (L : IsLawful V kind.codec w)
    (accept : List ℕ → Option IoError) (self : Channel) (m : M)
    → ((frame : List ℕ) → accept frame ≡ none)
    → IsText kind.name
    → 0 < length kind.name
    → IsBytes (w m)
    → V m
    → send_message accept kind self m
      ≡ ok (record self {
        sent = self.sent ++ packet_bytes (record { command = kind.name; payload = w m });
      })
unfolding send_message write_stream
send_message-eq kind {V} {w} L accept self m takes text named short valid =
    let p : Packet = record { command = kind.name; payload = w m } in
    rw
      (
        L.encodes.at m valid [],
        send_packet-eq p [] (record { command = text; payload = short }) named,
        takes (packet_bytes p),
        send_message,
        write_stream,
      )
      refl

pub send-eq :
    {M : Type 0} (kind : Message M) {V : M → Type 0} {w : M → List ℕ} (L : IsLawful V kind.codec w)
    (accept : List ℕ → Option IoError) (self : Channel) (m : M)
    → ((frame : List ℕ) → accept frame ≡ none)
    → self.stopped ≡ false
    → IsText kind.name
    → 0 < length kind.name
    → IsBytes (w m)
    → V m
    → send accept kind self m
      ≡ ok (record self {
        sent = self.sent ++ packet_bytes (record { command = kind.name; payload = w m });
      })
unfolding send
send-eq kind L accept self m takes up text named short valid =
    ground (arith, up, send_message-eq kind L accept self m takes text named short valid)

-- A payload that the dispatcher of its command decodes is dispatched.
decoded-dispatches :
    {M : Type 0} (kind : Message M) (dispatcher : Dispatcher M) (size : ℕ) (payload rest : List ℕ)
    (m : M)
    → find kind.name (setup_dispatchers size) ≡ some (any kind dispatcher)
    → kind.codec.decode payload ≡ ok (m, rest)
    → dispatches size (record { command = kind.name; payload = payload }) ≡ true
unfolding dispatches
decoded-dispatches kind dispatcher size payload rest m found decoded =
    let (after, told, _) =
      notify_msg-find kind dispatcher (setup_dispatchers size) payload rest m kind.name found
        decoded in
    rw (told, dispatches) refl

-- On a channel that is not stopped and whose stream takes every write, a message of a lawful kind,
-- with a name that is text and not empty and with a wire form that fits a vector, is sent as one
-- frame. On those bytes, the receive loop of another channel that is not stopped notifies its
-- subscribers of one packet, before the stop at the end of the stream, and the packet's payload
-- decodes to the message. The kind is one of those that a channel has dispatchers for, and the
-- stop can be told to its subscribers. Two units of fuel are enough.
pub send-main_receive_loop :
    {M : Type 0} (kind : Message M) {V : M → Type 0} {w : M → List ℕ} (L : IsLawful V kind.codec w)
    (accept : List ℕ → Option IoError) (size : ℕ) (dispatcher : Dispatcher M) (self other : Channel)
    (told : Subscriber NetError) (m : M)
    → ((frame : List ℕ) → accept frame ≡ none)
    → find kind.name (setup_dispatchers size) ≡ some (any kind dispatcher)
    → self.stopped ≡ false
    → other.stopped ≡ false
    → notify channel_stopped other.stop_subscriber ≡ ok told
    → IsText kind.name
    → 0 < length kind.name
    → IsBytes (w m)
    → V m
    → (frame : List ℕ) × (send accept kind self m ≡ ok (record self { sent = self.sent ++ frame }))
      × (main_receive_loop size 2 other frame
          ≡ some (
              err (
                channel_stopped,
                record other {
                  events =
                      other.events
                      ++ (notified (record { command = kind.name; payload = w m }) ∷ stop_events);
                  stop_subscriber = told;
                },
              )))
      × (kind.codec.decode (w m) ≡ ok (m, []))
unfolding frames
send-main_receive_loop kind {V} {w} L accept size dispatcher self other told m takes found up up'
      tell text named short valid =
    let p : Packet = record { command = kind.name; payload = w m } in
    let ok_p : IsPacket p = record { command = text; payload = short } in
    let decoded : kind.codec.decode (w m) ≡ ok (m, []) =
      rw append-nil at (L.decodes.at m valid []) in
    (
      packet_bytes p,
      send-eq kind L accept self m takes up text named short valid,
      ap (main_receive_loop size 2 other) (sym (append-nil (packet_bytes p)))
          ∙ main_receive_loop-frames size other told (p ∷ []) 2 up' tell (ok_p, tt)
              (decoded-dispatches kind dispatcher size (w m) [] m found decoded, tt) (omega arith),
      decoded,
    )
