-- ===== src/Net/Dispatcher/Delivery.antt =====
-- Every open subscription gets a message once; the closed ones are forgotten.
use mathlib.Core.Option.{map as map_option}
use sapvi.Prelude.{
  ℕ, zero, suc, ◌≡◌, ◌≢◌, refl, sym, ap, ◌∙◌, arith, List, [], ◌∷◌, get_elem?, Bool, false, ◌||◌,
  Option, none, some, Bool-cases, inl, inr, ◌==◌, ==_iff, if◌then◌else◌,
}
use sapvi.Net.Dispatcher.{MessageResult, Pipe, Dispatcher, push, send_to, send_all, trigger_all}

-- Whether a channel has a sender in the map.
unfoldable pub has_pipe : ℕ → List (ℕ × ℕ) → Bool
has_pipe pipe [] = false
has_pipe pipe ((id, p) ∷ subs) = pipe == p || has_pipe pipe subs

-- No channel has two senders in the map.
unfoldable pub IsSingle : List (ℕ × ℕ) → Type 0
IsSingle [] = Unit
IsSingle ((id, p) ∷ subs) = (has_pipe p subs ≡ false) × IsSingle subs

map_option_self : {A : Type 0} (o : Option A) → map_option (λ a. a) o ≡ o
map_option_self none = refl
map_option_self (some a) = refl

module _ {M : Type 0} where
  pub delivered : Bool → MessageResult M → Pipe M → Pipe M
  delivered b message pipe = if b then push message pipe else pipe

  send_to-same :
      (pipes : List (Pipe M)) (h : ℕ) (message : MessageResult M)
      → get_elem? (send_to pipes h message) h ≡ map_option (push message) (get_elem? pipes h)
  unfolding send_to
  send_to-same [] h message = refl
  send_to-same (p ∷ pipes) zero message = refl
  send_to-same (p ∷ pipes) (suc h) message = send_to-same pipes h message

  send_to-other :
      (pipes : List (Pipe M)) (h k : ℕ) (message : MessageResult M)
      → h ≢ k
      → get_elem? (send_to pipes h message) k ≡ get_elem? pipes k
  unfolding send_to
  send_to-other [] h k message ne = refl
  send_to-other (p ∷ pipes) zero zero message ne = absurd (ne refl)
  send_to-other (p ∷ pipes) zero (suc k) message ne = refl
  send_to-other (p ∷ pipes) (suc h) zero message ne = refl
  send_to-other (p ∷ pipes) (suc h) (suc k) message ne =
      send_to-other pipes h k message (λ e. ne (ap suc e))

  send_all-pipes :
      (subs : List (ℕ × ℕ)) (pipes : List (Pipe M)) (message : MessageResult M) (k : ℕ)
      → IsSingle subs
      → get_elem? (send_all subs pipes message).0 k
        ≡ map_option (delivered (has_pipe k subs) message) (get_elem? pipes k)
  unfolding send_all IsSingle has_pipe delivered
  send_all-pipes [] pipes message k h = sym (map_option_self (get_elem? pipes k))
  send_all-pipes ((id, p) ∷ subs) pipes message k h = elim (Bool-cases (k == p)) [
    | inl same ↦
        let here : k ≡ p = (==_iff k p).0 same in
        send_all-pipes subs (send_to pipes p message) message k h.1
        ∙ rw (same, here, h.0)
            (map_option_self (get_elem? (send_to pipes p message) p) ∙ send_to-same pipes p message)
    | inr other ↦
        let apart : p ≢ k = λ e. ground (arith, other, e) in
        send_all-pipes subs (send_to pipes p message) message k h.1
        ∙ rw (other, send_to-other pipes p k message apart) refl
  ]

-- When a message or an error is handed out, the channel of every subscription that is open gets it
-- once, after what waits in it, and no other channel changes. No channel is given to have two
-- subscriptions.
pub trigger_all-pipes :
    {M : Type 0} (message : MessageResult M) (self : Dispatcher M) (k : ℕ)
    → IsSingle self.subs
    → get_elem? (trigger_all message self).pipes k
      ≡ map_option (delivered (has_pipe k self.subs) message) (get_elem? self.pipes k)
unfolding trigger_all
trigger_all-pipes message self k h = send_all-pipes self.subs self.pipes message k h
