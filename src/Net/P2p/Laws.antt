-- ===== src/Net/P2p/Laws.antt =====
-- The connected channels are a map, and a pending address is a lock.
use sapvi.Prelude.{
  ◌≡◌, refl, ap, arith, List, [], ◌∷◌, Bool, true, false, not, ◌&&◌, ◌||◌, Bool-cases, inl, inr,
  same_bytes-eq, ==_iff, ◌==◌,
}
use sapvi.Serial.Addr.{SocketAddr, IpAddr, v4, v6}
use sapvi.Net.Hosts.{same_addr, same_ip, member}
use sapvi.Net.Hosts.Laws.{same_addr_self}
use sapvi.Net.P2p.{P2p, without, add_pending, remove_pending}

same_ip-eq : (a b : IpAddr) → same_ip a b ≡ true → a ≡ b
unfolding same_ip
same_ip-eq (v4 a) (v4 b) h = ap v4 (same_bytes-eq a b h)
same_ip-eq (v4 a) (v6 b) h = cc
same_ip-eq (v6 a) (v4 b) h = cc
same_ip-eq (v6 a) (v6 b) h = ap v6 (same_bytes-eq a b h)

all_true :
    (p q r s : Bool)
    → (p && (q && (r && s))) ≡ true
    → (p ≡ true) × (q ≡ true) × (r ≡ true) × (s ≡ true)
all_true true true true s h = (refl, refl, refl, h)
all_true true true false s h = cc
all_true true false r s h = cc
all_true false q r s h = cc

pub same_addr-eq : (a b : SocketAddr) → same_addr a b ≡ true → a ≡ b
unfolding same_addr
same_addr-eq a b h =
    let e =
      all_true (same_ip a.ip b.ip) (a.port == b.port) (a.flowinfo == b.flowinfo)
        (a.scope_id == b.scope_id) h in
    let ip = same_ip-eq a.ip b.ip e.0 in
    let port = (==_iff a.port b.port).0 e.1 in
    let flowinfo = (==_iff a.flowinfo b.flowinfo).0 e.2 in
    let scope_id = (==_iff a.scope_id b.scope_id).0 e.3 in cc

pub member-without :
    (b a : SocketAddr) (l : List SocketAddr)
    → member b (without a l) ≡ (not (same_addr b a) && member b l)
unfolding member without
member-without b a [] = ground arith
member-without b a (x ∷ l) = elim (Bool-cases (same_addr a x)) [
  | inl here ↦
      let same : a ≡ x = same_addr-eq a x here in
      ground (arith, here, ap (same_addr b) same, member-without b a l)
  | inr there ↦ elim (Bool-cases (same_addr b a)) [
    | inl equal ↦
        let same : b ≡ a = same_addr-eq b a equal in
        ground (arith, there, equal, ap (λ y. same_addr y x) same, member-without b a l)
    | inr other ↦ ground (arith, there, other, member-without b a l)
  ]
]

-- A pending address is a lock: the first to add it gets it, and no other does until it is removed.
-- To add it and to remove it leaves all other addresses as pending as they were.
pub add_pending-lock :
    (self : P2p) (a b : SocketAddr)
    → let (first, locked) = add_pending a self in
      (first ≡ not (member a self.pending))
      × (member a locked.pending ≡ true)
      × ((add_pending a locked).0 ≡ false)
      × ((add_pending a (remove_pending a locked)).0 ≡ true)
      × (member b locked.pending ≡ (same_addr b a || member b self.pending))
      × (member b (remove_pending a self).pending ≡ (not (same_addr b a) && member b self.pending))
unfolding add_pending remove_pending member without
add_pending-lock self a b = elim (Bool-cases (member a self.pending)) [
  | inl held ↦
      let held_already : member b (add_pending a self).1.pending
          ≡ (same_addr b a || member b self.pending) =
        elim (Bool-cases (same_addr b a)) [
          | inl same ↦
              ground (arith, held, same, ap (λ x. member x self.pending) (same_addr-eq b a same))
          | inr other ↦ ground (arith, held, other)
        ] in
      (
        ground (arith, held),
        ground (arith, held),
        ground (arith, held),
        ground (arith, held, member-without a a self.pending, same_addr_self a),
        held_already,
        member-without b a self.pending,
      )
  | inr free ↦ (
    ground (arith, free),
    ground (arith, free, same_addr_self a),
    ground (arith, free, same_addr_self a),
    ground (arith, free, member-without a a self.pending, same_addr_self a),
    ground (arith, free),
    member-without b a self.pending,
  )
]
