-- ===== src/System/Subscriber/Delivery.antt =====
-- A message reaches every subscription once.
use mathlib.Core.Option.{map as map_option}
use sapvi.Prelude.{
  ℕ, zero, suc, ◌≡◌, ◌≢◌, refl, ap, ◌∙◌, arith, List, [], ◌∷◌, ◌++◌, get_elem?, set, All, Bool,
  true, false, ◌==◌, ==_iff, Option, none, some, Bool-cases, inl, inr, if◌then◌else◌,
}
use sapvi.Error.{ok}
use sapvi.System.Subscriber.{Queue, Subscriber, has_sender, send_copy, send_copies, notify}

module _ {A : Type 0} where
  get_elem?-set-same :
      (l : List A) (k : ℕ) (a b : A) → get_elem? l k ≡ some a → get_elem? (set l k b) k ≡ some b
  get_elem?-set-same [] k a b e = cc
  get_elem?-set-same (x ∷ l) zero a b e = refl
  get_elem?-set-same (x ∷ l) (suc k) a b e = get_elem?-set-same l k a b e

  get_elem?-set-other :
      (l : List A) (k h : ℕ) (b : A) → k ≢ h → get_elem? (set l k b) h ≡ get_elem? l h
  get_elem?-set-other [] k h b ne = refl
  get_elem?-set-other (x ∷ l) zero zero b ne = absurd (ne refl)
  get_elem?-set-other (x ∷ l) zero (suc h) b ne = refl
  get_elem?-set-other (x ∷ l) (suc k) zero b ne = refl
  get_elem?-set-other (x ∷ l) (suc k) (suc h) b ne =
      get_elem?-set-other l k h b (λ e. ne (ap suc e))

-- No channel has two senders in the map.
abbrev pub IsSole : List (ℕ × ℕ) → Type 0
IsSole [] = Unit {0}
IsSole ((id, s) ∷ subs) = (has_sender s subs ≡ false) × IsSole subs

module _ {T : Type 0} where
  -- Every sender's channel has a receiver.
  abbrev pub IsHeard : List (ℕ × ℕ) → List (Queue T) → Type 0
  IsHeard subs queues =
      All (λ s. (q : Queue T) × (get_elem? queues s.1 ≡ some q) × (q.closed ≡ false)) subs

  abbrev pub received : Bool → T → Queue T → Queue T
  received b message q = if b then record q { waiting = q.waiting ++ message ∷ [] } else q

  set-IsHeard :
      (subs : List (ℕ × ℕ)) (queues : List (Queue T)) (s : ℕ) (b : Queue T)
      → has_sender s subs ≡ false
      → IsHeard subs queues
      → IsHeard subs (set queues s b)
  unfolding has_sender
  set-IsHeard [] queues s b h k = tt
  set-IsHeard ((id, p) ∷ subs) queues s b h ((q, got, up), k) = (
    (q, get_elem?-set-other queues s p b (λ e. ground (arith, h, e)) ∙ got, up),
    set-IsHeard subs queues s b (ground (arith, h)) k,
  )

  send_copy-heard :
      (message : T) (s : ℕ) (queues : List (Queue T)) (q : Queue T)
      → get_elem? queues s ≡ some q
      → q.closed ≡ false
      → send_copy message s queues
        ≡ some (set queues s (record q { waiting = q.waiting ++ message ∷ [] }))
  unfolding send_copy
  send_copy-heard message s queues q got up = ground (arith, got, up)

  unchanged : (o : Option (Queue T)) (message : T) → o ≡ map_option (received false message) o
  unchanged none message = refl
  unchanged (some q) message = refl

  copies-heard :
      (message : T) (subs : List (ℕ × ℕ)) (queues : List (Queue T))
      → IsSole subs
      → IsHeard subs queues
      → (after : List (Queue T)) × (send_copies message subs queues ≡ ok after)
        × ((k : ℕ)
            → get_elem? after k
              ≡ map_option (received (has_sender k subs) message) (get_elem? queues k))
  unfolding send_copies has_sender
  copies-heard message [] queues h k = (queues, refl, λ i. unchanged (get_elem? queues i) message)
  copies-heard message ((id, s) ∷ subs) queues h ((q, got, up), k) =
      let q' : Queue T = record q { waiting = q.waiting ++ message ∷ [] } in
      let (after, sent, all) =
        copies-heard message subs (set queues s q') h.1 (set-IsHeard subs queues s q' h.0 k) in
      (
        after,
        rw (send_copy-heard message s queues q got up, send_copies) sent,
        λ i. elim (Bool-cases (i == s)) [
          | inl same ↦
              let here : i ≡ s = (==_iff i s).0 same in
              all i ∙ rw (same, here, h.0, get_elem?-set-same queues s q q' got, got) refl
          | inr other ↦
              all i
              ∙ rw (other, get_elem?-set-other queues s i q' (λ e. ground (arith, other, e))) refl
        ],
      )

received-IsHeard :
    {T : Type 0} (b : ℕ → Bool) (message : T) (subs : List (ℕ × ℕ)) (queues after : List (Queue T))
    → ((k : ℕ) → get_elem? after k ≡ map_option (received (b k) message) (get_elem? queues k))
    → IsHeard subs queues
    → IsHeard subs after
received-IsHeard b message [] queues after all h = tt
received-IsHeard b message ((id, s) ∷ subs) queues after all ((q, got, up), h) = (
  (
    received (b s) message q,
    all s ∙ ap (map_option (received (b s) message)) got,
    open_still (b s),
  ),
  received-IsHeard b message subs queues after all h,
)
  where
    open_still : (c : Bool) → (received c message q).closed ≡ false
    open_still true = up
    open_still false = up

-- To send a message to all does not fail. The queue of every subscription gets it once, no other
-- queue changes, and the subscriptions are the same and still heard.
pub notify-IsHeard :
    {T : Type 0} (message : T) (self : Subscriber T)
    → IsSole self.subs
    → IsHeard self.subs self.queues
    → (after : Subscriber T) × (notify message self ≡ ok after)
      × (after.subs ≡ self.subs)
      × IsHeard self.subs after.queues
      × ((k : ℕ)
          → get_elem? after.queues k
            ≡ map_option (received (has_sender k self.subs) message) (get_elem? self.queues k))
unfolding notify
notify-IsHeard message self sole heard =
    let (queues, sent, all) = copies-heard message self.subs self.queues sole heard in
    (
      record self { queues = queues },
      rw (sent, notify) refl,
      refl,
      received-IsHeard (λ k. has_sender k self.subs) message self.subs self.queues queues all heard,
      all,
    )
