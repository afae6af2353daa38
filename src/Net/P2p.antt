-- ===== src/Net/P2p.antt =====
-- net/p2p.rs and net/settings.rs: the addresses that wait for a connection, and the connected
-- channels. The mutexes make each call one step.
pub mod Laws
use sapvi.Prelude.{
  ℕ, List, [], ◌∷◌, length, Bool, true, false, not, ◌||◌, Option, none, some, if◌then◌else◌,
}
use sapvi.Error.{NetError, IoError, Outcome, ok, err, panic}
use sapvi.Serial.Addr.{SocketAddr}
use sapvi.Net.Messages.{Message}
use sapvi.Net.Channel.{Channel, send}
use sapvi.Net.Hosts.{Hosts, same_addr, member}
use sapvi.System.Subscriber.{Subscriber, new_subscriber, notify}

pub record Settings : Type 0 where
  pub inbound : Option SocketAddr
  pub outbound_connections : ℕ
  pub seed_query_timeout_seconds : ℕ
  pub connect_timeout_seconds : ℕ
  pub channel_handshake_seconds : ℕ
  pub channel_heartbeat_seconds : ℕ
  pub external_addr : Option SocketAddr
  pub peers : List SocketAddr
  pub seeds : List SocketAddr

-- `Settings::default`
unfoldable pub default_settings : Settings
default_settings = record {
  inbound = none;
  outbound_connections = 0;
  seed_query_timeout_seconds = 8;
  connect_timeout_seconds = 10;
  channel_handshake_seconds = 4;
  channel_heartbeat_seconds = 10;
  external_addr = none;
  peers = [];
  seeds = [];
}

-- The map from addresses to channels, and its operations.
abbrev pub Channels : Type 0
Channels = List (SocketAddr × Channel)

unfoldable pub contains_key : SocketAddr → Channels → Bool
contains_key addr [] = false
contains_key addr ((a, c) ∷ rest) = same_addr addr a || contains_key addr rest

unfoldable pub insert_channel : SocketAddr → Channel → Channels → Channels
insert_channel addr channel [] = (addr, channel) ∷ []
insert_channel addr channel ((a, c) ∷ rest) =
    let others = insert_channel addr channel rest in
    if same_addr addr a then (addr, channel) ∷ rest else (a, c) ∷ others

unfoldable pub remove_channel : SocketAddr → Channels → Channels
remove_channel addr [] = []
remove_channel addr ((a, c) ∷ rest) =
    let others = remove_channel addr rest in if same_addr addr a then others else (a, c) ∷ others

unfoldable pub without : SocketAddr → List SocketAddr → List SocketAddr
without addr [] = []
without addr (a ∷ rest) =
    let others = without addr rest in if same_addr addr a then others else a ∷ others

-- The subscriber of new channels is told their addresses; the one of stop signals has no caller.
pub record P2p : Type 0 where
  pub pending : List SocketAddr
  pub channels : Channels
  pub channel_subscriber : Subscriber SocketAddr
  pub hosts : Hosts
  pub settings : Settings

unfoldable pub new_p2p : Settings → P2p
new_p2p settings = record {
  pending = [];
  channels = [];
  channel_subscriber = new_subscriber;
  hosts = record { addrs = [] };
  settings = settings;
}

-- `store`, of a channel at its address.
unfoldable pub store_channel : SocketAddr → Channel → P2p → Outcome (Unit {0}) P2p
unfolding insert_channel
store_channel addr channel self = elim (notify addr self.channel_subscriber) [
  | ok subscriber ↦ ok (record self {
    channels = insert_channel addr channel self.channels;
    channel_subscriber = subscriber;
  })
  | err e ↦ err e
  | panic ↦ panic
]

unfoldable pub remove : SocketAddr → P2p → P2p
unfolding remove_channel
remove addr self = record self { channels = remove_channel addr self.channels }

unfoldable pub exists : SocketAddr → P2p → Bool
unfolding contains_key
exists addr self = contains_key addr self.channels

-- Whether the address is new, as the set's `insert` returns it.
unfoldable pub add_pending : SocketAddr → P2p → Bool × P2p
add_pending addr self =
    if member addr self.pending
    then (false, self)
    else (true, record self { pending = addr ∷ self.pending })

unfoldable pub remove_pending : SocketAddr → P2p → P2p
unfolding without
remove_pending addr self = record self { pending = without addr self.pending }

unfoldable pub connections_count : P2p → ℕ
connections_count self = length self.channels

-- `for channel in channels.values() { channel.send(message.clone()).await?; }`: the channels after
-- it, and the error of the first that fails. `accept` is the stream to an address.
module _ (accept : SocketAddr → List ℕ → Option IoError) {M : Type 0} (kind : Message M) where
  keep :
      SocketAddr × Channel
      → Outcome (NetError × Channels) Channels
      → Outcome (NetError × Channels) Channels
  keep entry (ok rest) = ok (entry ∷ rest)
  keep entry (err (e, rest)) = err (e, entry ∷ rest)
  keep entry panic = panic

  unfoldable pub send_each : M → Channels → Outcome (NetError × Channels) Channels
  unfolding keep
  send_each message [] = ok []
  send_each message ((a, channel) ∷ rest) = elim (send (accept a) kind channel message) [
    | ok channel ↦ keep (a, channel) (send_each message rest)
    | err (e, channel) ↦ err (e, (a, channel) ∷ rest)
    | panic ↦ panic
  ]

  unfoldable pub broadcast : M → P2p → Outcome (NetError × P2p) P2p
  unfolding send_each
  broadcast message self = elim (send_each message self.channels) [
    | ok channels ↦ ok (record self { channels = channels })
    | err (e, channels) ↦ err (e, record self { channels = channels })
    | panic ↦ panic
  ]
