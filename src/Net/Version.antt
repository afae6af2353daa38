-- ===== src/Net/Version.antt =====
-- net/protocols/protocol_version.rs: the exchange of versions, as the steps of its two tasks.
pub mod Links
pub mod Completes
use sapvi.Prelude.{ℕ, List, [], ◌∷◌, ◌++◌, Bool, true, false, Option, none, some}
use sapvi.Error.{NetError, Outcome, ok, err, panic}

-- What a call on the channel returns, and what waits in a subscription: a message, or the error
-- that the channel was stopped with.
abbrev pub Item : Type 0
Item = Outcome NetError (Unit {0})

-- Where `send_version` stands: before its send, before its receive, or at its end.
pub data Sending : Type 0 where
  starting awaiting_verack : Sending
  sender_ended : Item → Sending

-- Where `recv_version` stands.
pub data Receiving : Type 0 where
  awaiting_version : Receiving
  receiver_ended : Item → Receiving

-- `ProtocolVersion` with its two subscriptions' queues, and the two tasks.
pub record Peer : Type 0 where
  pub sending : Sending
  pub receiving : Receiving
  pub version_sub : List Item
  pub verack_sub : List Item

unfoldable pub new_peer : Peer
new_peer = record {
  sending = starting;
  receiving = awaiting_version;
  version_sub = [];
  verack_sub = [];
}

-- One step of `send_version`, where the channel's send returns `sent`: whether a version went out.
-- `none` is that the task waits.
unfoldable pub send_version : Item → Peer → Option (Peer × Bool)
send_version sent self = elim self.sending [
  | starting ↦ elim sent [
    | ok u ↦ some (record self { sending = awaiting_verack }, true)
    | err e ↦ some (record self { sending = sender_ended (err e) }, false)
    | panic ↦ some (record self { sending = sender_ended panic }, false)
  ]
  | awaiting_verack ↦ elim self.verack_sub [
    | [] ↦ none
    | item ∷ rest ↦ some (record self { sending = sender_ended item; verack_sub = rest }, false)
  ]
  | sender_ended result ↦ none
]

-- One step of `recv_version`: whether a version acknowledgement went out.
unfoldable pub recv_version : Item → Peer → Option (Peer × Bool)
recv_version sent self = elim self.receiving [
  | awaiting_version ↦ elim self.version_sub [
    | [] ↦ none
    | ok u ∷ rest ↦ elim sent [
      | ok u ↦ some (record self { receiving = receiver_ended (ok tt); version_sub = rest }, true)
      | err e ↦ some (record self { receiving = receiver_ended (err e); version_sub = rest }, false)
      | panic ↦ some (record self { receiving = receiver_ended panic; version_sub = rest }, false)
    ]
    | err e ∷ rest ↦
        some (record self { receiving = receiver_ended (err e); version_sub = rest }, false)
    | panic ∷ rest ↦
        some (record self { receiving = receiver_ended panic; version_sub = rest }, false)
  ]
  | receiver_ended result ↦ none
]

-- `exchange_versions`: `send.await.and(recv.await)?`, once both tasks have ended.
both_ended : Item → Item → Item
both_ended (ok u) result = result
both_ended (err e) result = err e
both_ended panic result = panic

unfoldable pub exchange_versions : Peer → Option Item
unfolding both_ended
exchange_versions self = elim self.sending [
  | starting ↦ none
  | awaiting_verack ↦ none
  | sender_ended sent ↦ elim self.receiving [
    | awaiting_version ↦ none
    | receiver_ended received ↦ some (both_ended sent received)
  ]
]
