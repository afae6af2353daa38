-- ===== src/Net/Channel/Receive.antt =====
-- The receive loop hands over the packets that were sent, in order, until the stream ends.
use sapvi.Prelude.{
  ℕ, zero, suc, ◌<◌, ◌≤◌, ◌≡◌, ◌≢◌, refl, ap, subst, ◌∙◌, arith, List, [], ◌∷◌, ◌++◌, length, map,
  false, true, Bool-cases, none, some, All, All-split, append_assoc, length-append, inl, inr,
}
use sapvi.Error.{NetError, channel_stopped, ok, err, io, unexpected_eof, Outcome-cases}
use sapvi.Stream.{IsByte, ◌>>=◌, split_at}
use sapvi.Net.Packet.{Packet, read_packet}
use sapvi.Net.Packet.Laws.{IsPacket, packet_bytes, read_packet-append, read_packet-eq-ok}
use sapvi.System.Subscriber.{Subscriber, notify}
use sapvi.Net.Channel.{
  Channel, Event, notified, stop_notified, task_stopped, error_triggered, stop, main_receive_loop,
  log, stop_with_error, dispatches,
}

-- The frames of packets, one after the other.
unfoldable pub frames : List Packet → List ℕ
frames [] = []
frames (p ∷ ps) = packet_bytes p ++ frames ps

-- The events of a stop.
unfoldable pub stop_events : List Event
stop_events = stop_notified channel_stopped ∷ task_stopped ∷ error_triggered channel_stopped ∷ []

at_end : read_packet [] ≡ err (io unexpected_eof)
unfolding read_packet ◌>>=◌ split_at
at_end = refl

-- A channel that is not stopped gets every packet of the stream in order; at the end of the stream
-- it is stopped and the loop returns that error. The packets are well formed and ones whose
-- dispatch returns, the stop can be told to its subscribers, and a fuel above the number of
-- packets is enough.
pub main_receive_loop-frames :
    (size : ℕ) (self : Channel) (told : Subscriber NetError) (packets : List Packet) (fuel : ℕ)
    → self.stopped ≡ false
    → notify channel_stopped self.stop_subscriber ≡ ok told
    → All IsPacket packets
    → All (λ p. dispatches size p ≡ true) packets
    → length packets < fuel
    → main_receive_loop size fuel self (frames packets)
      ≡ some (
          err (
            channel_stopped,
            record self {
              events = self.events ++ (map (λ p. notified p) packets ++ stop_events);
              stop_subscriber = told;
            },
          ))
unfolding frames stop_events main_receive_loop stop stop_with_error log
main_receive_loop-frames size self told packets zero up tell h d enough = absurd (omega arith)
main_receive_loop-frames size self told [] (suc fuel) up tell h d enough =
    ground (arith, up, tell, at_end)
main_receive_loop-frames size self told (p ∷ ps) (suc fuel) up tell h d enough =
    rw (read_packet-append p (frames ps) h.0, d.0, main_receive_loop)
      (main_receive_loop-frames size (log self (notified p ∷ [])) told ps fuel up tell h.1 d.1
          (omega arith)
        ∙ ap (λ l. some (err (channel_stopped, record self { events = l; stop_subscriber = told })))
            (append_assoc self.events (notified p ∷ []) (map (λ p. notified p) ps ++ stop_events)))

packet_bytes-length : (p : Packet) → 4 ≤ length (packet_bytes p)
unfolding packet_bytes
packet_bytes-length p = omega arith

-- On any finite stream of bytes the receive loop ends: a fuel above their number is enough.
pub main_receive_loop-ends :
    (size fuel : ℕ) (self : Channel) (s : List ℕ)
    → All IsByte s
    → length s < fuel
    → main_receive_loop size fuel self s ≢ none
unfolding main_receive_loop
main_receive_loop-ends size zero self s hs enough e = absurd (omega arith)
main_receive_loop-ends size (suc fuel) self s hs enough e = elim (Outcome-cases (read_packet s)) [
  | inl ((p, rest), got) ↦
      let (valid, split) = read_packet-eq-ok s p rest hs got in
      let shorter : length rest < fuel =
        omega
          (arith, packet_bytes-length p, ap length split, length-append (packet_bytes p) rest) in
      let bytes = (All-split IsByte (packet_bytes p) rest (subst (All IsByte) split hs)).1 in
      elim (Bool-cases (dispatches size p)) [
        | inl good ↦
            main_receive_loop-ends size fuel _ rest bytes shorter
              (rw (got, good, main_receive_loop) at e)
        | inr bad ↦ ground (arith, rw (got, bad, main_receive_loop) at e)
      ]
  | inr (inl (x, got)) ↦ ground (arith, got)
  | inr (inr got) ↦ ground (arith, got)
]
