-- ===== src/Net/Version/Completes.antt =====
-- The exchange of versions ends, with success, in any order of its four tasks.
use sapvi.Prelude.{
  ℕ, zero, suc, ◌+◌, ◌<◌, ◌≤◌, ◌≡◌, ◌⊎◌, inl, inr, refl, ap, arith, [], Bool, true, false, some,
  subst, ltb, Bool-cases,
}
use sapvi.Error.{ok}
use sapvi.Net.Version.{
  awaiting_verack, sender_ended, receiver_ended, Peer, send_version, recv_version,
  exchange_versions,
}
use sapvi.Net.Version.Links.{
  Pair, Task, left_send, left_recv, right_send, right_recv, deliver_version, deliver_verack,
  onto_right, onto_left, step, Run, Link, Run-Links,
}

Link-le : (i : ℕ) (p q : Peer) → Link i p q → i ≤ 3
Link-le zero p q h = omega arith
Link-le (suc zero) p q h = omega arith
Link-le (suc (suc zero)) p q h = omega arith
Link-le (suc (suc (suc zero))) p q h = omega arith
Link-le (suc (suc (suc (suc i)))) p q h = absurd h

-- A link that is not at its end has a task that does not wait.
Link-step :
    (i : ℕ) (p q : Peer)
    → Link i p q
    → i < 3
    → ((x : Peer × Bool) × (send_version (ok tt) p ≡ some x))
      ⊎ ((x : Peer × Bool) × (recv_version (ok tt) q ≡ some x))
unfolding send_version recv_version
Link-step zero p q h lt =
    inl ((record p { sending = awaiting_verack }, true), rw (h.0, send_version) refl)
Link-step (suc zero) p q h lt = inr (
  (record q { receiving = receiver_ended (ok tt); version_sub = [] }, true),
  rw (h.1, h.2, recv_version) refl,
)
Link-step (suc (suc zero)) p q h lt = inl (
  (record p { sending = sender_ended (ok tt); verack_sub = [] }, false),
  rw (h.0, h.3, send_version) refl,
)
Link-step (suc (suc (suc i))) p q h lt = absurd (omega arith)

Link-ends : (p q : Peer) → Link 3 p q → Link 3 q p → exchange_versions p ≡ some (ok tt)
unfolding exchange_versions
Link-ends p q h g = rw (h.0, g.1, exchange_versions) refl

-- If one of two links is not at its end, a task can step.
next :
    (s : Pair) (i j : ℕ)
    → Link i s.left s.right
    → Link j s.right s.left
    → i + j < 6
    → j ≤ 3
    → (task : Task) × (t : Pair) × (step task s ≡ some t)
next s i j a b lt lj = elim (Bool-cases (ltb i 3)) [
  | inl small ↦ elim (Link-step i s.left s.right a (ground (arith, small))) [
    | inl (x, e) ↦ (left_send, _, ap (onto_right deliver_version s) e)
    | inr (x, e) ↦ (right_recv, _, ap (onto_left deliver_verack s) e)
  ]
  | inr big ↦ elim (Link-step j s.right s.left b (ground (arith, lt, big))) [
    | inl (x, e) ↦ (right_send, _, ap (onto_left deliver_version s) e)
    | inr (x, e) ↦ (left_recv, _, ap (onto_right deliver_verack s) e)
  ]
]

-- Two nodes that run the protocol with each other, over channels that deliver what is sent, are
-- done after six steps, in whatever order the four tasks take them: either fewer steps were taken
-- and there is a task that does not wait, or six were and the exchange has succeeded on both sides.
pub exchange_versions-Run :
    (n : ℕ) (s : Pair)
    → Run n s
    → ((n < 6) × (task : Task) × (t : Pair) × (step task s ≡ some t))
      ⊎ ((n ≡ 6)
          × (exchange_versions s.left ≡ some (ok tt))
          × (exchange_versions s.right ≡ some (ok tt)))
exchange_versions-Run n s run =
    let (i, j, a, b, sum) = Run-Links n s run in
    let li = Link-le i s.left s.right a in
    let lj = Link-le j s.right s.left b in
    elim (Bool-cases (ltb n 6)) [
      | inl lt ↦
          let few : n < 6 = ground (arith, lt) in
          let (task, t, stepped) = next s i j a b (omega (arith, sum, few)) lj in
          inl (few, task, t, stepped)
      | inr ge ↦
          let i3 : i ≡ 3 = ground (arith, sum, li, lj, ge) in
          let j3 : j ≡ 3 = ground (arith, sum, li, lj, ge) in
          let a3 : Link 3 s.left s.right = subst (λ k. Link k s.left s.right) i3 a in
          let b3 : Link 3 s.right s.left = subst (λ k. Link k s.right s.left) j3 b in
          inr (
            omega (arith, sum, i3, j3),
            Link-ends s.left s.right a3 b3,
            Link-ends s.right s.left b3 a3,
          )
    ]
