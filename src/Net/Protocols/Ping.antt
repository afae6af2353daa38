-- ===== src/Net/Protocols/Ping.antt =====
-- A ping is answered.
use sapvi.Prelude.{ℕ, ◌≡◌, refl, arith, List, [], ◌∷◌, ◌++◌, false, same_bytes, Option, none, some}
use sapvi.Error.{NetError, IoError, channel_stopped, ok, err}
use sapvi.Endian.Laws.{le_bytes, length-le_bytes, le_bytes-IsByte}
use sapvi.Serial.Ints.Laws.{IsUint}
use sapvi.Serial.Text.{is_utf8}
use sapvi.Serial.Text.Laws.{IsText}
use sapvi.Serial.Vec.Laws.{IsBytes}
use sapvi.Net.Messages.{ping, pong}
use sapvi.Net.Messages.Laws.{ping-IsLawful, pong-IsLawful}
use sapvi.Net.Packet.Laws.{packet_bytes}
use sapvi.Net.Channel.{Channel, main_receive_loop, notified}
use sapvi.Net.Channel.Receive.{stop_events}
use sapvi.Net.Channel.Stopped.{send-eq, send-main_receive_loop}
use sapvi.Net.Dispatcher.{new}
use sapvi.Net.Subsystem.{any, find, put, add_dispatch, setup_dispatchers}
use sapvi.System.Subscriber.{Subscriber, notify}
use sapvi.Net.Protocols.{ping_round, reply_to_ping}

ping-IsText : IsText ping.name
unfolding is_utf8
ping-IsText = record {
  content = record {
    short = omega arith;
    bytes = (omega arith, (omega arith, (omega arith, (omega arith, tt))));
  };
  utf8 = refl;
}

pong-IsText : IsText pong.name
unfolding is_utf8
pong-IsText = record {
  content = record {
    short = omega arith;
    bytes = (omega arith, (omega arith, (omega arith, (omega arith, tt))));
  };
  utf8 = refl;
}

nonce-IsBytes : (nonce : ℕ) → IsBytes (le_bytes 4 nonce)
nonce-IsBytes nonce = record {
  short = omega (arith, length-le_bytes 4 nonce);
  bytes = le_bytes-IsByte 4 nonce;
}

pong-found : (size : ℕ) → find pong.name (setup_dispatchers size) ≡ some (any pong new)
unfolding find setup_dispatchers add_dispatch put same_bytes
pong-found size = refl

-- A node that replies to a ping sends one frame, which brings the pinging node a pong with the
-- nonce of the ping: then the round of the pinging node passes. Both channels are open, their
-- streams take every write, the stop of the pinging node's channel can be told to its subscribers,
-- and the nonce is below 2^32.
pub ping_round-reply_to_ping :
    (accept : List ℕ → Option IoError) (size : ℕ) (near far : Channel) (told : Subscriber NetError)
    (nonce : ℕ)
    → ((frame : List ℕ) → accept frame ≡ none)
    → near.stopped ≡ false
    → far.stopped ≡ false
    → notify channel_stopped near.stop_subscriber ≡ ok told
    → IsUint 4 nonce
    → (question : List ℕ) × (answer : List ℕ) × (payload : List ℕ) × (reply_to_ping accept
          (ok (record { nonce = nonce }) ∷ [])
          far
        ≡ ok (record far { sent = far.sent ++ answer }))
      × (main_receive_loop size 2 near answer
          ≡ some (
              err (
                channel_stopped,
                record near {
                  events =
                      near.events
                      ++ (notified (record { command = pong.name; payload = payload })
                          ∷ stop_events);
                  stop_subscriber = told;
                },
              )))
      × (pong.codec.decode payload ≡ ok (record { nonce = nonce }, []))
      × (ping_round accept nonce (ok (record { nonce = nonce })) near
          ≡ ok (record near { sent = near.sent ++ question }))
unfolding ping_round reply_to_ping
ping_round-reply_to_ping accept size near far told nonce takes up up' tell small =
    let asked =
      send-eq ping ping-IsLawful accept near (record { nonce = nonce }) takes up ping-IsText
        (omega arith) (nonce-IsBytes nonce) small in
    let (answer, answered, heard, decoded) =
      send-main_receive_loop pong pong-IsLawful accept size new far near told
        (record { nonce = nonce }) takes (pong-found size) up' up tell pong-IsText (omega arith)
        (nonce-IsBytes nonce) small in
    (
      packet_bytes (record { command = ping.name; payload = le_bytes 4 nonce }),
      answer,
      le_bytes 4 nonce,
      rw answered refl,
      heard,
      decoded,
      rw asked (ground arith),
    )
