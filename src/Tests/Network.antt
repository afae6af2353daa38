-- ===== src/Tests/Network.antt =====
-- net/ at concrete messages and channels.
use mathlib.Core.Option.{map as map_option}
use sapvi.Prelude.{
  same_bytes, ℕ, ◌≡◌, ◌≢◌, refl, arith, List, [], ◌∷◌, ◌++◌, get_elem?, map, true, false, Option,
  none, some,
}
use sapvi.Error.{channel_stopped, IoError, ok, err}
use sapvi.Stream.{◌>>=◌, split_at}
use sapvi.Endian.Laws.{le_bytes}
use sapvi.Serial.Vec.Laws.{IsBytes}
use sapvi.Serial.Text.{is_utf8, from_utf8}
use sapvi.Serial.Text.Laws.{IsText}
use sapvi.Serial.Addr.{v4, SocketAddr}
use sapvi.Tests.Bytes.{are_bytes-IsByte}
use sapvi.Net.Async.{decode_async}
use sapvi.Net.Messages.{PingMessage, ping, addrs, decode_ping}
use sapvi.Net.Messages.Laws.{ping-IsLawful}
use sapvi.Net.Packet.{Packet, magic_bytes, read_packet}
use sapvi.Net.Packet.Laws.{IsPacket, packet_bytes, read_packet-eq-ok}
use sapvi.Endian.{slice_to_le}
use sapvi.Serial.Ints.{read_uint}
use sapvi.System.Subscriber.{new_subscriber, notify, send_copies}
use sapvi.Net.Subsystem.{any, find, put, add_dispatch, setup_dispatchers, notify_msg}
use sapvi.Net.Channel.{Channel, dispatches, new, notified, stop, send, main_receive_loop}
use sapvi.Net.Channel.Receive.{
  frames, stop_events, main_receive_loop-frames, main_receive_loop-ends,
}
use sapvi.Net.Channel.Stopped.{stops, here, next, Reaches-open, send-main_receive_loop}
use sapvi.Net.Dispatcher.{new as new_dispatcher, trigger, Dispatcher, trigger_all}
use sapvi.Net.Dispatcher.Delivery.{IsSingle, has_pipe, delivered, trigger_all-pipes}
use sapvi.Net.Hosts.{Hosts, store}

abbrev hello : Packet
hello = record { command = ping.name; payload = 1 ∷ 0 ∷ 0 ∷ 0 ∷ [] }

ping-IsText : IsText ping.name
unfolding is_utf8
ping-IsText = record {
  content = record { short = omega arith; bytes = are_bytes-IsByte ping.name refl };
  utf8 = refl;
}

hello-IsPacket : IsPacket hello
hello-IsPacket = record {
  command = ping-IsText;
  payload = record { short = omega arith; bytes = are_bytes-IsByte (1 ∷ 0 ∷ 0 ∷ 0 ∷ []) refl };
}

abbrev hello_frame : List ℕ
hello_frame = 0xd9 ∷ 0xef ∷ 0xb6 ∷ 0x7d ∷ 4 ∷ 112 ∷ 105 ∷ 110 ∷ 103 ∷ 4 ∷ 1 ∷ 0 ∷ 0 ∷ 0 ∷ []

hello_run : read_packet hello_frame ≡ ok (hello, [])
unfolding read_packet decode_async from_utf8 is_utf8 ◌>>=◌ split_at
hello_run = refl

accepted_example : IsPacket hello × (hello_frame ≡ packet_bytes hello ++ [])
accepted_example =
    read_packet-eq-ok hello_frame hello [] (are_bytes-IsByte hello_frame refl) hello_run

wrong_magic : 0xd9 ∷ 0xef ∷ 0xb6 ∷ 0x7e ∷ [] ≢ magic_bytes
wrong_magic e = ground (arith, e)

abbrev pub fresh_channel : Channel
fresh_channel = record { stopped = false; sent = []; events = []; stop_subscriber = new_subscriber }

abbrev pub takes_all : List ℕ → Option IoError
takes_all frame = none

abbrev pub one_ping : PingMessage
one_ping = record { nonce = 0x01020304 }

nonce-IsBytes : IsBytes (le_bytes 4 0x01020304)
nonce-IsBytes = record { short = omega arith; bytes = are_bytes-IsByte (4 ∷ 3 ∷ 2 ∷ 1 ∷ []) refl }

ping_found : find ping.name (setup_dispatchers 32) ≡ some (any ping new_dispatcher)
unfolding find setup_dispatchers add_dispatch put same_bytes
ping_found = refl

pub untold : notify channel_stopped fresh_channel.stop_subscriber ≡ ok new_subscriber
unfolding notify send_copies new_subscriber
untold = refl

hello_dispatched : dispatches 32 hello ≡ true
unfolding dispatches notify_msg find setup_dispatchers add_dispatch put trigger same_bytes
    decode_ping read_uint slice_to_le ◌>>=◌ split_at
hello_dispatched = refl

send_example :
    (frame : List ℕ) × (send takes_all ping fresh_channel one_ping
      ≡ ok (record fresh_channel { sent = [] ++ frame }))
    × (main_receive_loop 32 2 fresh_channel frame
        ≡ some (
            err (
              channel_stopped,
              record fresh_channel {
                events =
                    []
                    ++ (notified (record { command = ping.name; payload = le_bytes 4 0x01020304 })
                        ∷ stop_events);
                stop_subscriber = new_subscriber;
              },
            )))
    × (ping.codec.decode (le_bytes 4 0x01020304) ≡ ok (one_ping, []))
send_example =
    send-main_receive_loop ping ping-IsLawful takes_all 32 new_dispatcher fresh_channel
      fresh_channel new_subscriber one_ping (λ frame. refl) ping_found refl refl untold ping-IsText
      (omega arith) nonce-IsBytes (omega arith)

receive_example :
    main_receive_loop 32 3 fresh_channel (frames (hello ∷ hello ∷ []))
    ≡ some (
        err (
          channel_stopped,
          record fresh_channel {
            events = [] ++ (map (λ p. notified p) (hello ∷ hello ∷ []) ++ stop_events);
            stop_subscriber = new_subscriber;
          },
        ))
receive_example =
    main_receive_loop-frames 32 fresh_channel new_subscriber (hello ∷ hello ∷ []) 3 refl untold
      (hello-IsPacket, (hello-IsPacket, tt)) (hello_dispatched, (hello_dispatched, tt))
      (omega arith)

abbrev oversized : Packet
oversized = record {
  command = (addrs 32).name;
  payload = 0xff ∷ 255 ∷ 255 ∷ 255 ∷ 255 ∷ 255 ∷ 255 ∷ 255 ∷ 255 ∷ [];
}

ends_example : main_receive_loop 32 15 fresh_channel hello_frame ≢ none
ends_example =
    main_receive_loop-ends 32 15 fresh_channel hello_frame (are_bytes-IsByte hello_frame refl)
      (omega arith)

abbrev stopped_once : Channel
stopped_once = record fresh_channel { events = stop_events }

stop_run : stop new ≡ ok stopped_once
unfolding stop new stop_events notify send_copies new_subscriber
stop_run = refl

open_example : stopped_once.stopped ≡ false
open_example =
    Reaches-open takes_all stopped_once (next new stopped_once here (stops stopped_once stop_run))

abbrev two_subscribers : Dispatcher PingMessage
two_subscribers = record {
  pipes =
      record { closed = false; queue = [] }
      ∷ record { closed = true; queue = [] }
      ∷ record { closed = false; queue = [] }
      ∷ [];
  subs = (77, 0) ∷ (88, 1) ∷ [];
}

two-IsSingle : IsSingle two_subscribers.subs
unfolding IsSingle has_pipe
two-IsSingle = (refl, (refl, tt))

deliver_example :
    get_elem? (trigger_all (ok one_ping) two_subscribers).pipes 0
    ≡ map_option
        (delivered (has_pipe 0 two_subscribers.subs) (ok one_ping))
        (get_elem? two_subscribers.pipes 0)
deliver_example = trigger_all-pipes (ok one_ping) two_subscribers 0 two-IsSingle

-- The closed channel is forgotten.
garbage_run : (trigger_all (ok one_ping) two_subscribers).subs ≡ (77, 0) ∷ []
unfolding trigger_all
garbage_run = refl

abbrev pub address : ℕ → SocketAddr
address port = record { ip = v4 (10 ∷ 0 ∷ 0 ∷ 1 ∷ []); port = port; flowinfo = 0; scope_id = 0 }

abbrev pub known : Hosts
known = record { addrs = address 80 ∷ address 81 ∷ [] }

-- One known address keeps the others of the batch out.
batch_run : store known (address 82 ∷ address 81 ∷ []) ≡ known
unfolding store
batch_run = refl
