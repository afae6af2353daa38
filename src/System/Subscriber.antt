-- ===== src/System/Subscriber.antt =====
-- system/subscriber.rs: `Subscriber`, which sends a copy of each message to every subscription.
pub mod Delivery
use sapvi.Prelude.{
  ℕ, List, [], ◌∷◌, ◌++◌, length, get_elem?, set, Bool, false, Option, none, some, if◌then◌else◌,
  ◌||◌, ◌==◌,
}
use sapvi.Error.{Outcome, ok, err, panic}
use sapvi.Net.Dispatcher.{insert, remove}

-- An unbounded channel: whether its receiver is dropped, and what waits in it.
pub record Queue (T : Type 0) : Type 0 where
  pub closed : Bool
  pub waiting : List T

-- The channels that were made, by number, and the senders of the map `subs`, by identifier.
pub record Subscriber (T : Type 0) : Type 0 where
  pub queues : List (Queue T)
  pub subs : List (ℕ × ℕ)

pub record Subscription : Type 0 where
  pub id : ℕ
  pub recv_queue : ℕ

-- Whether the sender of a channel is still in the map.
unfoldable pub has_sender : ℕ → List (ℕ × ℕ) → Bool
has_sender queue [] = false
has_sender queue ((sub_id, sub) ∷ subs) = queue == sub || has_sender queue subs

module _ {T : Type 0} where
  unfoldable pub new_subscriber : Subscriber T
  new_subscriber = record { queues = []; subs = [] }

  -- `random_id` gives the identifier.
  unfoldable pub subscribe : ℕ → Subscriber T → Subscription × Subscriber T
  subscribe random_id self = (
    record { id = random_id; recv_queue = length self.queues },
    record {
      queues = self.queues ++ record { closed = false; waiting = [] } ∷ [];
      subs = insert random_id (length self.queues) self.subs;
    },
  )

  unfoldable pub unsubscribe : ℕ → Subscriber T → Subscriber T
  unsubscribe sub_id self = record self { subs = remove sub_id self.subs }

  -- `sub.send(message_result.clone())`, which fails on a closed channel.
  unfoldable pub send_copy : T → ℕ → List (Queue T) → Option (List (Queue T))
  send_copy message sub queues = elim (get_elem? queues sub) [
    | none ↦ none
    | some q ↦
        if q.closed
        then none
        else some (set queues sub (record q { waiting = q.waiting ++ message ∷ [] }))
  ]

  -- `for sub in subs.values()`, which panics when a send fails.
  unfoldable pub send_copies :
      T → List (ℕ × ℕ) → List (Queue T) → Outcome (Unit {0}) (List (Queue T))
  unfolding send_copy
  send_copies message [] queues = ok queues
  send_copies message ((sub_id, sub) ∷ subs) queues = elim (send_copy message sub queues) [
    | none ↦ panic
    | some queues ↦ send_copies message subs queues
  ]

  unfoldable pub notify : T → Subscriber T → Outcome (Unit {0}) (Subscriber T)
  unfolding send_copies
  notify message self = elim (send_copies message self.subs self.queues) [
    | ok queues ↦ ok (record self { queues = queues })
    | err e ↦ err e
    | panic ↦ panic
  ]

  -- `Subscription::receive`: the first message that waits. With none waiting it panics if the
  -- sender is dropped, and does not return yet (`none`) otherwise.
  unfoldable pub receive :
      Subscription → Subscriber T → Option (Outcome (Unit {0}) (T × Subscriber T))
  unfolding has_sender
  receive self parent = elim (get_elem? parent.queues self.recv_queue) [
    | none ↦ none
    | some q ↦ elim q.waiting [
      | [] ↦ if has_sender self.recv_queue parent.subs then none else some panic
      | message ∷ rest ↦
          let after : Subscriber T = record parent {
            queues = set parent.queues self.recv_queue (record q { waiting = rest });
          } in
          some (ok (message, after))
    ]
  ]
