-- ===== src/Net/Outbound/Laws.antt =====
-- Which address a slot connects to, and what is left when it cannot.
use sapvi.Prelude.{
  ℕ, ◌<◌, ◌≡◌, ◌≢◌, ◌⊎◌, refl, sym, ap, ◌∙◌, arith, List, [], ◌∷◌, ◌++◌, length, All, false, Option,
  none, some, Bool-cases, Option-cases, inl, inr, get_elem?-eq-some, subst,
}
use sapvi.Error.{NetError, Outcome, ok}
use sapvi.Serial.Addr.{SocketAddr}
use sapvi.System.StoppableTask.{Race, signalled, finished}
use sapvi.Net.Channel.{Channel}
use sapvi.Net.Hosts.{load_single, member}
use sapvi.Net.P2p.{P2p, exists, add_pending}
use sapvi.Net.Outbound.{is_self_inbound, load_address, connect, try_connect}

-- An address that a slot may connect to.
pub record IsFree (p2p : P2p) (addr : SocketAddr) : Type 0 where
  pub other : is_self_inbound addr p2p.settings.inbound ≡ false
  pub unconnected : exists addr p2p ≡ false
  pub unlocked : member addr p2p.pending ≡ false

abbrev locked : SocketAddr → P2p → P2p
locked addr p2p = record p2p { pending = addr ∷ p2p.pending }

-- One choice: no address, an address that may not be taken, or one that is.
load_address-step :
    (choice : ℕ) (choices : List ℕ) (p2p : P2p) (addr : SocketAddr)
    → load_single choice p2p.hosts ≡ some addr
    → (IsFree p2p addr × (load_address (choice ∷ choices) p2p ≡ some (ok (addr, locked addr p2p))))
      ⊎ ((IsFree p2p addr → ⊥) × (load_address (choice ∷ choices) p2p ≡ load_address choices p2p))
unfolding load_address add_pending
load_address-step choice choices p2p addr got =
    elim (Bool-cases (is_self_inbound addr p2p.settings.inbound)) [
      | inl own ↦ inr (λ f. ground (arith, own, f.other), ground (arith, got, own))
      | inr other ↦ elim (Bool-cases (exists addr p2p)) [
        | inl old ↦ inr (λ f. ground (arith, old, f.unconnected), ground (arith, got, other, old))
        | inr unconnected ↦ elim (Bool-cases (member addr p2p.pending)) [
          | inl held ↦
              inr (
                λ f. ground (arith, held, f.unlocked),
                ground (arith, got, other, unconnected, held),
              )
          | inr unlocked ↦ inl (
            record { other = other; unconnected = unconnected; unlocked = unlocked },
            ground (arith, got, other, unconnected, unlocked),
          )
        ]
      ]
    ]

known_host :
    (c : ℕ) (p2p : P2p)
    → c < length p2p.hosts.addrs
    → (a : SocketAddr) × (load_single c p2p.hosts ≡ some a)
unfolding load_single
known_host c p2p h = get_elem?-eq-some p2p.hosts.addrs c h

-- An address that a slot takes is one of the known hosts. It was not the node's own, not connected
-- and not pending; it is pending now, and nothing else has changed.
pub load_address-eq-ok :
    (choices : List ℕ) (p2p q : P2p) (addr : SocketAddr)
    → load_address choices p2p ≡ some (ok (addr, q))
    → IsFree p2p addr
      × ((choice : ℕ) × (load_single choice p2p.hosts ≡ some addr))
      × (q ≡ record p2p { pending = addr ∷ p2p.pending })
unfolding load_address
load_address-eq-ok [] p2p q addr e = cc
load_address-eq-ok (choice ∷ choices) p2p q addr e =
    elim (Option-cases (load_single choice p2p.hosts)) [
      | inl empty ↦ absurd (ground (arith, empty))
      | inr (a, got) ↦ elim (load_address-step choice choices p2p a got) [
        | inl (free, taken) ↦
            let same : a ≡ addr = ground (arith, taken) in
            let left : locked a p2p ≡ q = ground (arith, taken) in
            (
              subst (IsFree p2p) same free,
              (choice, got ∙ ap some same),
              sym left ∙ ap (λ x. locked x p2p) same,
            )
        | inr (busy, again) ↦ load_address-eq-ok choices p2p q addr (sym again ∙ e)
      ]
    ]

-- While hosts are known, a slot that chooses a free address, after any other choices, takes an
-- address.
pub load_address-free :
    (before : List ℕ) (choice : ℕ) (after : List ℕ) (p2p : P2p) (addr : SocketAddr)
    → All (λ c. c < length p2p.hosts.addrs) before
    → load_single choice p2p.hosts ≡ some addr
    → IsFree p2p addr
    → (a : SocketAddr) × (q : P2p) × (load_address (before ++ choice ∷ after) p2p
        ≡ some (ok (a, q)))
load_address-free [] choice after p2p addr h got free =
    elim (load_address-step choice after p2p addr got) [
      | inl (f, taken) ↦ (addr, locked addr p2p, taken)
      | inr (busy, again) ↦ absurd (busy free)
    ]
load_address-free (c ∷ before) choice after p2p addr h got free =
    let (a, known) = known_host c p2p h.0 in
    elim (load_address-step c (before ++ choice ∷ after) p2p a known) [
      | inl (f, taken) ↦ (a, locked a p2p, taken)
      | inr (busy, again) ↦
          let (b, q, e) = load_address-free before choice after p2p addr h.1 got free in
          (b, q, again ∙ e)
    ]

pub try_connect-fails :
    (stream : Race (Option Channel)) (exchange : Race (Outcome NetError (Unit {0})))
    (addr : SocketAddr) (p2p : P2p)
    → ((c : Channel) → stream ≢ finished (some c))
    → try_connect stream exchange addr p2p ≡ ok p2p
unfolding try_connect connect
try_connect-fails signalled exchange addr p2p fails = refl
try_connect-fails (finished none) exchange addr p2p fails = refl
try_connect-fails (finished (some c)) exchange addr p2p fails = absurd (fails c refl)
