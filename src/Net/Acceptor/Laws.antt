-- ===== src/Net/Acceptor/Laws.antt =====
-- The subscriptions get what is accepted, in order.
use mathlib.Core.Option.{map as map_option}
use sapvi.Prelude.{
  ℕ, ◌≡◌, refl, sym, ap, subst, ◌∙◌, List, [], ◌∷◌, ◌++◌, append_assoc, append-nil, map, get_elem?,
  Bool, true, false, Option, none, some, if◌then◌else◌,
}
use sapvi.Error.{NetError, service_stopped, Outcome, ok}
use sapvi.System.Subscriber.{Queue, Subscriber, has_sender}
use sapvi.System.Subscriber.Delivery.{IsSole, IsHeard, received, notify-IsHeard}
use sapvi.Net.Acceptor.{run_accept_loop, tick_accept}

module _ {T : Type 0} where
  -- A queue with messages behind what waits in it, if they go to it.
  abbrev pub extended : Bool → List T → Queue T → Queue T
  extended b messages q = if b then record q { waiting = q.waiting ++ messages } else q

  extended-nil : (b : Bool) (o : Option (Queue T)) → o ≡ map_option (extended b []) o
  extended-nil b none = refl
  extended-nil true (some q) =
      ap (λ w. some (record q { waiting = w })) (sym (append-nil q.waiting))
  extended-nil false (some q) = refl

  extended-cons :
      (b : Bool) (m : T) (ms : List T) (o : Option (Queue T))
      → map_option (extended b ms) (map_option (received b m) o)
        ≡ map_option (extended b (m ∷ ms)) o
  extended-cons b m ms none = refl
  extended-cons true m ms (some q) =
      ap (λ w. some (record q { waiting = w })) (append_assoc q.waiting (m ∷ []) ms)
  extended-cons false m ms (some q) = refl

-- While connections are accepted, the loop goes on, and the queue of every subscription gets the
-- channels in the order of their arrival, after what waits in it, and no other queue changes. When
-- the listener then fails, the loop ends with that the service has stopped. The receivers of all
-- subscriptions are there, and no queue has two subscriptions.
pub run_accept_loop-heard :
    {C : Type 0} (channels : List C) (after : List (Option C))
    (self : Subscriber (Outcome NetError C)) (k : ℕ)
    → IsSole self.subs
    → IsHeard self.subs self.queues
    → (left : Subscriber (Outcome NetError C)) × (run_accept_loop
          (map (λ c. some c) channels ++ none ∷ after)
          self
        ≡ ok (some service_stopped, left))
      × (get_elem? left.queues k
          ≡ map_option
              (extended (has_sender k self.subs) (map (λ c. ok c) channels))
              (get_elem? self.queues k))
unfolding run_accept_loop tick_accept
run_accept_loop-heard [] after self k sole heard =
    (self, refl, extended-nil (has_sender k self.subs) (get_elem? self.queues k))
run_accept_loop-heard (c ∷ channels) after self k sole heard =
    let (next, sent, same, heard', all) = notify-IsHeard (ok c) self sole heard in
    let (left, ran, got) =
      run_accept_loop-heard channels after next k (subst IsSole (sym same) sole)
        (subst (λ s. IsHeard s next.queues) (sym same) heard') in
    (
      left,
      rw (sent, run_accept_loop) ran,
      got
          ∙ ap
              (λ s.
                map_option (extended (has_sender k s) (map (λ c. ok c) channels))
                  (get_elem? next.queues k))
              same
          ∙ ap (map_option (extended (has_sender k self.subs) (map (λ c. ok c) channels))) (all k)
          ∙ extended-cons (has_sender k self.subs) (ok c) (map (λ c. ok c) channels)
              (get_elem? self.queues k),
    )
