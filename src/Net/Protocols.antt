-- ===== src/Net/Protocols.antt =====
-- net/protocols: the ping, address and seed protocols on one channel. A list holds what a
-- subscription receives, one item after the other; while it lasts, the loop goes on.
pub mod Ping
use sapvi.Prelude.{
  ℕ, List, [], ◌∷◌, ◌++◌, Bool, true, false, Option, none, some, ◌==◌, if◌then◌else◌,
}
use sapvi.Error.{NetError, IoError, channel_stopped, operation_failed, Outcome, ok, err, panic}
use sapvi.Serial.Addr.{SocketAddr}
use sapvi.System.StoppableTask.{Race, signalled, finished}
use sapvi.Net.Messages.{
  Message, PingMessage, PongMessage, GetAddrsMessage, AddrsMessage, ping, pong, get_addrs, addrs,
}
use sapvi.Net.Channel.{Channel, NetResult, send, stop}
use sapvi.Net.Dispatcher.{MessageResult}
use sapvi.Net.Hosts.{Hosts, store, load_all, is_empty}

-- What follows a send, with the channel after it.
abbrev sent_then : {A : Type 0} → NetResult Channel → (Channel → NetResult A) → NetResult A
sent_then (ok channel) next = next channel
sent_then (err e) next = err e
sent_then panic next = panic

-- What follows a receive.
abbrev received_then :
    {M S A : Type 0}
    → S
    → MessageResult M
    → (M → Outcome (NetError × S) A)
    → Outcome (NetError × S) A
received_then state (ok m) next = next m
received_then state (err e) next = err (e, state)
received_then state panic next = panic

-- `self.channel.stop().await; return Err(NetError::ChannelStopped)`
unfoldable pub disconnect : Channel → NetResult Channel
disconnect channel = elim (stop channel) [
  | ok channel ↦ err (channel_stopped, channel)
  | err e ↦ err e
  | panic ↦ panic
]

-- `accept` is the TCP stream of the channel.
module _ (accept : List ℕ → Option IoError) where
  -- One round of `run_ping_pong`, with the nonce that is drawn and what the subscription gives.
  unfoldable pub ping_round : ℕ → MessageResult PongMessage → Channel → NetResult Channel
  unfolding disconnect
  ping_round nonce reply channel =
      sent_then (send accept ping channel (record { nonce = nonce })) (λ channel.
        received_then channel reply
          (λ pong_msg. if pong_msg.nonce == nonce then ok channel else disconnect channel))

  unfoldable pub run_ping_pong : List (ℕ × MessageResult PongMessage) → Channel → NetResult Channel
  unfolding ping_round
  run_ping_pong [] channel = ok channel
  run_ping_pong ((nonce, reply) ∷ rounds) channel =
      sent_then (ping_round nonce reply channel) (λ channel. run_ping_pong rounds channel)

  unfoldable pub reply_to_ping : List (MessageResult PingMessage) → Channel → NetResult Channel
  reply_to_ping [] channel = ok channel
  reply_to_ping (item ∷ items) channel = received_then channel item (λ ping_msg.
      sent_then (send accept pong channel (record { nonce = ping_msg.nonce }))
        (λ channel. reply_to_ping items channel))

  -- `ProtocolAddress`: the loops of `handle_receive_addrs` and `handle_receive_get_addrs`.
  unfoldable pub handle_receive_get_addrs :
      ℕ → Hosts → List (MessageResult GetAddrsMessage) → Channel → NetResult Channel
  handle_receive_get_addrs size hosts [] channel = ok channel
  handle_receive_get_addrs size hosts (item ∷ items) channel =
      received_then channel item (λ request.
        sent_then (send accept (addrs size) channel (record { addrs = load_all hosts }))
          (λ channel. handle_receive_get_addrs size hosts items channel))

  -- `ProtocolSeed::send_self_address`
  unfoldable pub send_self_address : ℕ → Option SocketAddr → Channel → NetResult Channel
  send_self_address size none channel = ok channel
  send_self_address size (some addr) channel =
      send accept (addrs size) channel (record { addrs = addr ∷ [] })

  -- `ProtocolSeed::start`
  unfoldable pub start_seed_protocol :
      ℕ
      → Option SocketAddr
      → MessageResult AddrsMessage
      → Hosts
      → Channel
      → NetResult (Hosts × Channel)
  unfolding send_self_address
  start_seed_protocol size external_addr reply hosts channel =
      sent_then (send_self_address size external_addr channel) (λ channel.
        sent_then (send accept get_addrs channel (record {})) (λ channel.
          received_then channel reply (λ addrs_msg. ok (store hosts addrs_msg.addrs, channel))))

unfoldable pub handle_receive_addrs :
    List (MessageResult AddrsMessage) → Hosts → Outcome (NetError × Hosts) Hosts
handle_receive_addrs [] hosts = ok hosts
handle_receive_addrs (item ∷ items) hosts =
    received_then hosts item (λ addrs_msg. handle_receive_addrs items (store hosts addrs_msg.addrs))

-- `SeedSession::start`: whether the seeds have answered in time, and the hosts that are known then.
unfoldable pub start_seed_session :
    List SocketAddr → Race (Unit {0}) → Hosts → Outcome NetError (Unit {0})
start_seed_session [] queried hosts = ok tt
start_seed_session (seed ∷ seeds) signalled hosts = err operation_failed
start_seed_session (seed ∷ seeds) (finished u) hosts =
    if is_empty hosts then err operation_failed else ok tt
