-- ===== src/Tests/Subsystem.antt =====
-- net/message_subscriber.rs: the message subsystem of a new channel.
use sapvi.Prelude.{◌≡◌, refl, [], ◌∷◌, some, same_bytes, if◌then◌else◌}
use sapvi.Error.{ok}
use sapvi.Stream.{◌>>=◌, split_at}
use sapvi.Endian.{slice_to_le}
use sapvi.Serial.Ints.{read_uint}
use sapvi.Net.Messages.{ping, pong, decode_ping}
use sapvi.Net.Dispatcher.{new, trigger_all}
use sapvi.Net.Subsystem.{
  MessageSubsystem, any, find, put, add_dispatch, setup_dispatchers, notify_msg,
}
use sapvi.Net.Subsystem.Laws.{notify_msg-find}
use sapvi.Tests.Network.{one_ping}

abbrev subsystem : MessageSubsystem
subsystem = setup_dispatchers 32

ping_there : find ping.name subsystem ≡ some (any ping new)
unfolding find setup_dispatchers add_dispatch put same_bytes
ping_there = refl

one_ping_run : ping.codec.decode (4 ∷ 3 ∷ 2 ∷ 1 ∷ []) ≡ ok (one_ping, [])
unfolding decode_ping read_uint ◌>>=◌ split_at slice_to_le
one_ping_run = refl

notify_example :
    (after : MessageSubsystem) × (notify_msg ping.name (4 ∷ 3 ∷ 2 ∷ 1 ∷ []) subsystem ≡ ok after)
    × (find pong.name after ≡ (
        if same_bytes pong.name ping.name
        then some (any ping (trigger_all (ok one_ping) new))
        else find pong.name subsystem))
notify_example =
    notify_msg-find ping new subsystem (4 ∷ 3 ∷ 2 ∷ 1 ∷ []) [] one_ping pong.name ping_there
      one_ping_run
