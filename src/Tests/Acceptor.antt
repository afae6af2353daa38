-- ===== src/Tests/Acceptor.antt =====
-- net/acceptor.rs: an acceptor with one subscription.
use mathlib.Core.Option.{map as map_option}
use sapvi.Prelude.{ℕ, ◌≡◌, refl, [], ◌∷◌, ◌++◌, map, get_elem?, none, some, false}
use sapvi.Error.{NetError, service_stopped, Outcome, ok}
use sapvi.System.Subscriber.{Subscriber, has_sender}
use sapvi.Net.Acceptor.{run_accept_loop}
use sapvi.Net.Acceptor.Laws.{extended, run_accept_loop-heard}

abbrev subscribed : Subscriber (Outcome NetError ℕ)
subscribed = record { queues = record { closed = false; waiting = [] } ∷ []; subs = (7, 0) ∷ [] }

accept_example :
    (left : Subscriber (Outcome NetError ℕ)) × (run_accept_loop
        (map (λ c. some c) (1 ∷ 2 ∷ []) ++ none ∷ [])
        subscribed
      ≡ ok (some service_stopped, left))
    × (get_elem? left.queues 0
        ≡ map_option
            (extended (has_sender 0 subscribed.subs) (map (λ c. ok c) (1 ∷ 2 ∷ [])))
            (get_elem? subscribed.queues 0))
unfolding has_sender
accept_example =
    run_accept_loop-heard (1 ∷ 2 ∷ []) [] subscribed 0 (refl, tt)
      ((record { closed = false; waiting = [] }, refl, refl), tt)
