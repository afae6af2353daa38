-- ===== src/Net/Outbound.antt =====
-- net/sessions/outbound_session.rs, session.rs and net/connector.rs: the slots that connect.
pub mod Laws
pub mod Slots
use sapvi.Prelude.{ℕ, List, [], ◌∷◌, ◌++◌, Bool, true, false, Option, none, some, if◌then◌else◌}
use sapvi.Error.{
  NetError, service_stopped, connect_failed, connect_timeout, channel_timeout, Outcome, ok, err,
  panic,
}
use sapvi.Serial.Addr.{SocketAddr}
use sapvi.System.StoppableTask.{Race, signalled, finished}
use sapvi.Net.Channel.{Channel}
use sapvi.Net.Hosts.{same_addr, load_single}
use sapvi.Net.P2p.{P2p, exists, add_pending, remove_pending, store_channel}

-- `is_self_inbound`
unfoldable pub is_self_inbound : SocketAddr → Option SocketAddr → Bool
is_self_inbound addr none = false
is_self_inbound addr (some inbound_addr) = same_addr inbound_addr addr

-- `load_address`, with the choices of `load_single` one after the other: `none` is that they have
-- not led to an address yet.
unfoldable pub load_address : List ℕ → P2p → Option (Outcome (NetError × P2p) (SocketAddr × P2p))
unfolding is_self_inbound
load_address [] p2p = none
load_address (choice ∷ choices) p2p =
    let again = load_address choices p2p in
    elim (load_single choice p2p.hosts) [
      | none ↦ some (err (service_stopped, p2p))
      | some addr ↦
          if is_self_inbound addr p2p.settings.inbound
          then again
          else if exists addr p2p
          then again
          else let (added, p2p) = add_pending addr p2p in
            if added then some (ok (addr, p2p)) else again
    ]

-- `Connector::connect`: the stream, or a refusal, or the timeout.
unfoldable pub connect : Race (Option Channel) → Outcome NetError Channel
connect (finished (some channel)) = ok channel
connect (finished none) = err connect_failed
connect signalled = err connect_timeout

-- `ProtocolVersion::run`: the exchange against the timeout. What the exchange returns is dropped,
-- while its panic unwinds.
unfoldable pub run_version : Race (Outcome NetError (Unit {0})) → Outcome NetError (Unit {0})
run_version (finished (ok u)) = ok tt
run_version (finished (err e)) = ok tt
run_version (finished panic) = panic
run_version signalled = err channel_timeout

-- `register_channel` and `perform_handshake_protocols`.
unfoldable pub register_channel :
    Race (Outcome NetError (Unit {0})) → SocketAddr → Channel → P2p → Outcome (NetError × P2p) P2p
unfolding run_version
register_channel exchange addr channel p2p = elim (run_version exchange) [
  | ok u ↦ elim (store_channel addr channel p2p) [ ok p2p ↦ ok p2p | err e ↦ panic | panic ↦ panic ]
  | err e ↦ err (e, p2p)
  | panic ↦ panic
]

-- One round of `channel_connect_loop`, after `load_address`, up to the wait for the channel's end.
unfoldable pub try_connect :
    Race (Option Channel)
    → Race (Outcome NetError (Unit {0}))
    → SocketAddr
    → P2p
    → Outcome (NetError × P2p) P2p
unfolding connect register_channel
try_connect stream exchange addr p2p = elim (connect stream) [
  | ok channel ↦ elim (register_channel exchange addr channel p2p) [
    | ok p2p ↦ ok (remove_pending addr p2p)
    | err e ↦ err e
    | panic ↦ panic
  ]
  | err e ↦ ok p2p
  | panic ↦ panic
]

-- The next `load_address` and what follows it.
unfoldable pub connect_round :
    List ℕ
    → Race (Option Channel)
    → Race (Outcome NetError (Unit {0}))
    → P2p
    → Option (Outcome (NetError × P2p) P2p)
unfolding load_address try_connect
connect_round choices stream exchange p2p = elim (load_address choices p2p) [
  | none ↦ none
  | some (ok (addr, p2p)) ↦ some (try_connect stream exchange addr p2p)
  | some (err e) ↦ some (err e)
  | some panic ↦ some panic
]
