-- ===== src/Net/Dispatcher.antt =====
-- net/message_subscriber.rs: `MessageDispatcher`, which hands each message of one kind to the
-- subscriptions. The mutexes make each call one step.
pub mod Delivery
use sapvi.Prelude.{
  ℕ, zero, suc, List, [], ◌∷◌, ◌++◌, length, get_elem?, Bool, true, false, Option, none, some, ◌==◌,
  if◌then◌else◌,
}
use sapvi.Error.{NetError, Outcome, ok, err, panic}
use sapvi.Net.Messages.{Message}

abbrev pub MessageResult : Type 0 → Type 0
MessageResult M = Outcome NetError M

-- An unbounded channel: whether its receiver is dropped, and what waits in it.
pub record Pipe (M : Type 0) : Type 0 where
  pub closed : Bool
  pub queue : List (MessageResult M)

-- The channels that were made, by number, and the senders of the map `subs`, by identifier.
pub record Dispatcher (M : Type 0) : Type 0 where
  pub pipes : List (Pipe M)
  pub subs : List (ℕ × ℕ)

-- `MessageSubscription`, with the number of its channel.
pub record Subscription : Type 0 where
  pub id : ℕ
  pub recv_queue : ℕ

-- `insert` and `remove` of the map.
unfoldable pub insert : ℕ → ℕ → List (ℕ × ℕ) → List (ℕ × ℕ)
insert id pipe [] = (id, pipe) ∷ []
insert id pipe ((id', pipe') ∷ subs) =
    let rest = insert id pipe subs in if id == id' then (id, pipe) ∷ subs else (id', pipe') ∷ rest

unfoldable pub remove : ℕ → List (ℕ × ℕ) → List (ℕ × ℕ)
remove id [] = []
remove id ((id', pipe) ∷ subs) =
    let rest = remove id subs in if id == id' then rest else (id', pipe) ∷ rest

collect_garbage : List ℕ → List (ℕ × ℕ) → List (ℕ × ℕ)
unfolding remove
collect_garbage [] subs = subs
collect_garbage (id ∷ ids) subs = collect_garbage ids (remove id subs)

module _ {M : Type 0} where
  unfoldable pub new : Dispatcher M
  new = record { pipes = []; subs = [] }

  -- `random_id` gives the identifier.
  unfoldable pub subscribe : ℕ → Dispatcher M → Subscription × Dispatcher M
  unfolding insert
  subscribe random_id self = (
    record { id = random_id; recv_queue = length self.pipes },
    record {
      pipes = self.pipes ++ record { closed = false; queue = [] } ∷ [];
      subs = insert random_id (length self.pipes) self.subs;
    },
  )

  unfoldable pub unsubscribe : ℕ → Dispatcher M → Dispatcher M
  unfolding remove
  unsubscribe sub_id self = record self { subs = remove sub_id self.subs }

  -- What `send` leaves of a channel. To a closed one it fails.
  unfoldable pub push : MessageResult M → Pipe M → Pipe M
  push message pipe =
      if pipe.closed then pipe else record pipe { queue = pipe.queue ++ message ∷ [] }

  -- `sub.send(message.clone())`
  send_to : List (Pipe M) → ℕ → MessageResult M → List (Pipe M)
  unfolding push
  send_to [] sub message = []
  send_to (pipe ∷ pipes) zero message = push message pipe ∷ pipes
  send_to (pipe ∷ pipes) (suc sub) message = pipe ∷ send_to pipes sub message

  fails : List (Pipe M) → ℕ → Bool
  fails pipes pipe = elim (get_elem? pipes pipe) [ none ↦ true | some p ↦ p.closed ]

  -- `for (sub_id, sub) in &*self.subs.lock().await`: the channels after it, and `garbage_ids`.
  send_all : List (ℕ × ℕ) → List (Pipe M) → MessageResult M → List (Pipe M) × List ℕ
  unfolding send_to fails
  send_all [] pipes message = (pipes, [])
  send_all ((sub_id, sub) ∷ subs) pipes message =
      let rest = send_all subs (send_to pipes sub message) message in
      (rest.0, if fails pipes sub then sub_id ∷ rest.1 else rest.1)

  unfoldable pub trigger_all : MessageResult M → Dispatcher M → Dispatcher M
  unfolding send_all collect_garbage
  trigger_all message self =
      let sent = send_all self.subs self.pipes message in
      record { pipes = sent.0; subs = collect_garbage sent.1 self.subs }

  -- What cannot be decoded is dropped.
  unfoldable pub trigger : Message M → List ℕ → Dispatcher M → Outcome Unit (Dispatcher M)
  unfolding trigger_all
  trigger kind payload self = elim (kind.codec.decode payload) [
    | ok (message, rest) ↦ ok (trigger_all (ok message) self)
    | err e ↦ ok self
    | panic ↦ panic
  ]

  unfoldable pub trigger_error : NetError → Dispatcher M → Dispatcher M
  unfolding trigger_all
  trigger_error e self = trigger_all (err e) self
