-- ===== src/Net/Version/Links.antt =====
-- Two nodes that run the protocol with each other, over streams that deliver what is sent.
use sapvi.Prelude.{
  ℕ, zero, suc, ◌+◌, ◌≡◌, refl, ap, arith, List, [], ◌∷◌, ◌++◌, Bool, true, false, Option, none,
  some, if◌then◌else◌, subst,
}
use sapvi.Error.{ok}
use sapvi.Net.Version.{
  Item, Sending, starting, awaiting_verack, sender_ended, Receiving, awaiting_version,
  receiver_ended, Peer, new_peer, send_version, recv_version,
}

pub record Pair : Type 0 where
  pub left : Peer
  pub right : Peer

-- Which of the four tasks takes a step.
pub data Task : Type 0 where
  left_send left_recv right_send right_recv : Task

-- A message goes into the subscription of the other side.
abbrev pub deliver_version : Bool → Peer → Peer
deliver_version sent p = record p {
  version_sub = if sent then p.version_sub ++ ok tt ∷ [] else p.version_sub;
}

abbrev pub deliver_verack : Bool → Peer → Peer
deliver_verack sent p = record p {
  verack_sub = if sent then p.verack_sub ++ ok tt ∷ [] else p.verack_sub;
}

abbrev pub onto_right : (Bool → Peer → Peer) → Pair → Option (Peer × Bool) → Option Pair
onto_right deliver s none = none
onto_right deliver s (some (p, sent)) = some (record { left = p; right = deliver sent s.right })

abbrev pub onto_left : (Bool → Peer → Peer) → Pair → Option (Peer × Bool) → Option Pair
onto_left deliver s none = none
onto_left deliver s (some (p, sent)) = some (record { left = deliver sent s.left; right = p })

abbrev pub step : Task → Pair → Option Pair
step left_send s = onto_right deliver_version s (send_version (ok tt) s.left)
step left_recv s = onto_right deliver_verack s (recv_version (ok tt) s.left)
step right_send s = onto_left deliver_version s (send_version (ok tt) s.right)
step right_recv s = onto_left deliver_verack s (recv_version (ok tt) s.right)

-- The runs of `n` steps, in any order of the tasks.
pub data Run : ℕ → Pair → Type 0 where
  initial : Run 0 (record { left = new_peer; right = new_peer })
  after : {n : ℕ} {s t : Pair} → Run n s → (task : Task) → step task s ≡ some t → Run (suc n) t

-- How far a version and its acknowledgement have come: the sender, the receiver, and what waits.
abbrev pub IsLink : ℕ → Sending → Receiving → List Item → List Item → Type 0
IsLink zero s r v k = (s ≡ starting) × (r ≡ awaiting_version) × (v ≡ []) × (k ≡ [])
IsLink (suc zero) s r v k =
    (s ≡ awaiting_verack) × (r ≡ awaiting_version) × (v ≡ ok tt ∷ []) × (k ≡ [])
IsLink (suc (suc zero)) s r v k =
    (s ≡ awaiting_verack) × (r ≡ receiver_ended (ok tt)) × (v ≡ []) × (k ≡ ok tt ∷ [])
IsLink (suc (suc (suc zero))) s r v k =
    (s ≡ sender_ended (ok tt)) × (r ≡ receiver_ended (ok tt)) × (v ≡ []) × (k ≡ [])
IsLink (suc (suc (suc (suc n)))) s r v k = ⊥

abbrev pub Link : ℕ → Peer → Peer → Type 0
Link n p q = IsLink n p.sending q.receiving q.version_sub p.verack_sub

-- A step of the sender moves its link on and leaves the other one.
send-Link :
    (i j : ℕ) (p q p' : Peer) (sent : Bool)
    → Link i p q
    → Link j q p
    → send_version (ok tt) p ≡ some (p', sent)
    → Link (suc i) p' (deliver_version sent q) × Link j (deliver_version sent q) p'
unfolding send_version
send-Link zero j p q p' sent h g e =
    let made : Peer × Bool = (record p { sending = awaiting_verack }, true) in
    let got : Peer × Bool = (p', sent) in
    let done : made ≡ got = ground (arith, h.0, e) in
    subst (λ x. Link 1 x.0 (deliver_version x.1 q) × Link j (deliver_version x.1 q) x.0) done
      ((refl, h.1, ap (λ v. v ++ ok tt ∷ []) h.2, h.3), g)
send-Link (suc zero) j p q p' sent h g e = absurd (ground (arith, h, e))
send-Link (suc (suc zero)) j p q p' sent h g e =
    let made : Peer × Bool =
      (record p { sending = sender_ended (ok tt); verack_sub = [] }, false) in
    let got : Peer × Bool = (p', sent) in
    let done : made ≡ got = ground (arith, h.0, h.3, e) in
    subst (λ x. Link 3 x.0 (deliver_version x.1 q) × Link j (deliver_version x.1 q) x.0) done
      ((refl, h.1, h.2, refl), g)
send-Link (suc (suc (suc zero))) j p q p' sent h g e = absurd (ground (arith, h, e))
send-Link (suc (suc (suc (suc i)))) j p q p' sent h g e = absurd h

-- A step of the receiver `q` of the link from `p` moves it on and leaves the other one.
recv-Link :
    (i j : ℕ) (p q q' : Peer) (sent : Bool)
    → Link i p q
    → Link j q p
    → recv_version (ok tt) q ≡ some (q', sent)
    → Link (suc i) (deliver_verack sent p) q' × Link j q' (deliver_verack sent p)
unfolding recv_version
recv-Link zero j p q q' sent h g e = absurd (ground (arith, h, e))
recv-Link (suc zero) j p q q' sent h g e =
    let made : Peer × Bool =
      (record q { receiving = receiver_ended (ok tt); version_sub = [] }, true) in
    let got : Peer × Bool = (q', sent) in
    let done : made ≡ got = ground (arith, h.1, h.2, e) in
    subst (λ x. Link 2 (deliver_verack x.1 p) x.0 × Link j x.0 (deliver_verack x.1 p)) done
      ((h.0, refl, refl, ap (λ k. k ++ ok tt ∷ []) h.3), g)
recv-Link (suc (suc zero)) j p q q' sent h g e = absurd (ground (arith, h, e))
recv-Link (suc (suc (suc zero))) j p q q' sent h g e = absurd (ground (arith, h, e))
recv-Link (suc (suc (suc (suc i)))) j p q q' sent h g e = absurd h

-- Both links of a pair, whose progress adds up to the steps that were taken.
abbrev pub Links : ℕ → Pair → Type 0
Links n s = (i : ℕ) × (j : ℕ) × Link i s.left s.right × Link j s.right s.left × (i + j ≡ n)

onto_right-eq-some :
    (deliver : Bool → Peer → Peer) (s t : Pair) (o : Option (Peer × Bool))
    → onto_right deliver s o ≡ some t
    → (p : Peer) × (sent : Bool) × (o ≡ some (p, sent))
      × (record { left = p; right = deliver sent s.right } ≡ t)
onto_right-eq-some deliver s t none e = cc
onto_right-eq-some deliver s t (some (p, sent)) e = (p, sent, refl, ground (arith, e))

onto_left-eq-some :
    (deliver : Bool → Peer → Peer) (s t : Pair) (o : Option (Peer × Bool))
    → onto_left deliver s o ≡ some t
    → (p : Peer) × (sent : Bool) × (o ≡ some (p, sent))
      × (record { left = deliver sent s.left; right = p } ≡ t)
onto_left-eq-some deliver s t none e = cc
onto_left-eq-some deliver s t (some (p, sent)) e = (p, sent, refl, ground (arith, e))

step-Links : (n : ℕ) (s t : Pair) (task : Task) → Links n s → step task s ≡ some t → Links (suc n) t
step-Links n s t left_send (i, j, a, b, sum) e =
    let (p, sent, polled, at) = onto_right-eq-some deliver_version s t _ e in
    let (a', b') = send-Link i j s.left s.right p sent a b polled in
    subst (Links (suc n)) at (suc i, j, a', b', omega (arith, sum))
step-Links n s t left_recv (i, j, a, b, sum) e =
    let (p, sent, polled, at) = onto_right-eq-some deliver_verack s t _ e in
    let (b', a') = recv-Link j i s.right s.left p sent b a polled in
    subst (Links (suc n)) at (i, suc j, a', b', omega (arith, sum))
step-Links n s t right_send (i, j, a, b, sum) e =
    let (p, sent, polled, at) = onto_left-eq-some deliver_version s t _ e in
    let (b', a') = send-Link j i s.right s.left p sent b a polled in
    subst (Links (suc n)) at (i, suc j, a', b', omega (arith, sum))
step-Links n s t right_recv (i, j, a, b, sum) e =
    let (p, sent, polled, at) = onto_left-eq-some deliver_verack s t _ e in
    let (a', b') = recv-Link i j s.left s.right p sent a b polled in
    subst (Links (suc n)) at (suc i, j, a', b', omega (arith, sum))

pub Run-Links : (n : ℕ) (s : Pair) → Run n s → Links n s
unfolding new_peer
Run-Links n s initial = (0, 0, (refl, refl, refl, refl), (refl, refl, refl, refl), refl)
Run-Links n s (after run task e) = step-Links _ _ s task (Run-Links _ _ run) e
