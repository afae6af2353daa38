-- ===== src/Net/Outbound/Slots.antt =====
-- All slots of a node together: an address that could not be connected to is never tried again.
use sapvi.Prelude.{
  ℕ, ◌≡◌, ◌≢◌, refl, sym, ap, ◌∙◌, arith, List, [], ◌∷◌, All, true, false, Option, some, Bool-cases,
  inl, inr,
}
use sapvi.Error.{NetError, Outcome, Outcome-cases, ok}
use sapvi.Serial.Addr.{SocketAddr}
use sapvi.System.StoppableTask.{Race, finished}
use sapvi.System.Subscriber.{notify}
use sapvi.Net.Channel.{Channel}
use sapvi.Net.Hosts.{Hosts, same_addr, member}
use sapvi.Net.Hosts.Laws.{same_addr_self}
use sapvi.Net.P2p.{P2p, add_pending, remove, remove_pending, store_channel}
use sapvi.Net.P2p.Laws.{same_addr-eq, member-without}
use sapvi.Net.Outbound.{load_address, try_connect}
use sapvi.Net.Outbound.Laws.{load_address-eq-ok, try_connect-fails}

-- The node, and the addresses that other slots have taken.
pub record Node : Type 0 where
  pub p2p : P2p
  pub held : List SocketAddr

-- A step of another task: a slot takes an address; a slot releases an address that it has taken; a
-- session registers a channel; a stopped channel is removed; the known hosts change.
pub data Step : Node → Node → Type 0 where
  takes :
      (n : Node) (a : SocketAddr)
      → (add_pending a n.p2p).0 ≡ true
      → Step n (record { p2p = (add_pending a n.p2p).1; held = a ∷ n.held })
  releases :
      (n : Node) (a : SocketAddr)
      → member a n.held ≡ true
      → Step n (record n { p2p = remove_pending a n.p2p })
  registers :
      (n : Node) (a : SocketAddr) (c : Channel) (q : P2p)
      → store_channel a c n.p2p ≡ ok q
      → Step n (record n { p2p = q })
  removes : (n : Node) (a : SocketAddr) → Step n (record n { p2p = remove a n.p2p })
  learns : (n : Node) (h : Hosts) → Step n (record n { p2p = record n.p2p { hosts = h } })

pub data Reaches (n : Node) : Node → Type 0 where
  here : Reaches n n
  next : {m l : Node} → Reaches n m → Step m l → Reaches n l

store_channel-pending :
    (self stored : P2p) (a : SocketAddr) (c : Channel)
    → store_channel a c self ≡ ok stored
    → stored.pending ≡ self.pending
unfolding store_channel
store_channel-pending self stored a c e = elim (Outcome-cases (notify a self.channel_subscriber)) [
  | inl (s, told) ↦ ground (arith, told)
  | inr (inl (x, told)) ↦ absurd (ground (arith, told))
  | inr (inr told) ↦ absurd (ground (arith, told))
]

-- The address is pending, and no other slot has it.
abbrev IsStuck : SocketAddr → Node → Type 0
IsStuck addr n = (member addr n.p2p.pending ≡ true) × (member addr n.held ≡ false)

apart :
    (addr a : SocketAddr) (l : List SocketAddr)
    → member addr l ≡ false
    → member a l ≡ true
    → same_addr addr a ≡ false
apart addr a l out in_ = elim (Bool-cases (same_addr addr a)) [
  | inl same ↦
      let e : addr ≡ a = same_addr-eq addr a same in
      absurd (ground (arith, sym out ∙ ap (λ x. member x l) e ∙ in_))
  | inr other ↦ other
]

Step-IsStuck : (addr : SocketAddr) (n m : Node) → Step n m → IsStuck addr n → IsStuck addr m
unfolding member remove remove_pending add_pending
Step-IsStuck addr n m (takes k a e) (stuck, out) =
    let free : member a k.p2p.pending ≡ false =
      ground (arith, Bool-cases (member a k.p2p.pending), e) in
    let other : same_addr addr a ≡ false = elim (Bool-cases (same_addr addr a)) [
      | inl same ↦
          let eq : addr ≡ a = same_addr-eq addr a same in
          absurd (ground (arith, sym stuck ∙ ap (λ x. member x k.p2p.pending) eq ∙ free))
      | inr differs ↦ differs
    ] in
    (rw free (ground (arith, other, stuck)), ground (arith, other, out))
Step-IsStuck addr n m (releases k a mine) (stuck, out) =
    (member-without addr a k.p2p.pending ∙ ground (arith, apart addr a k.held out mine, stuck), out)
Step-IsStuck addr n m (registers k a c q e) (stuck, out) =
    (ap (member addr) (store_channel-pending k.p2p q a c e) ∙ stuck, out)
Step-IsStuck addr n m (removes k a) (stuck, out) = (stuck, out)
Step-IsStuck addr n m (learns k h) (stuck, out) = (stuck, out)

Reaches-IsStuck : (addr : SocketAddr) (n m : Node) → Reaches n m → IsStuck addr n → IsStuck addr m
Reaches-IsStuck addr n m here h = h
Reaches-IsStuck addr n m (next path step) h =
    Step-IsStuck addr _ _ step (Reaches-IsStuck addr _ _ path h)

-- Addresses that are all pending do not have one that is not.
member-pending :
    (addr : SocketAddr) (pending held : List SocketAddr)
    → member addr pending ≡ false
    → All (λ a. member a pending ≡ true) held
    → member addr held ≡ false
unfolding member
member-pending addr pending [] out h = refl
member-pending addr pending (a ∷ held) out h =
    ground (arith, apart addr a pending out h.0, member-pending addr pending held out h.1)

member-cons : (addr : SocketAddr) (l : List SocketAddr) → member addr (addr ∷ l) ≡ true
unfolding member
member-cons addr l = ground (arith, same_addr_self addr)

-- A slot takes an address, and its connection fails at some later time. Then, whatever the other
-- slots and the other sessions do from the moment it was taken, the address stays pending, and no slot takes it, whatever it chooses: `add_pending` refuses it.
-- What the other slots have taken before is given to be pending.
pub try_connect-pending :
    (choices : List ℕ) (p2p taken q : P2p) (addr : SocketAddr) (held : List SocketAddr)
    (then_ later : Node) (stream : Race (Option Channel))
    (exchange : Race (Outcome NetError (Unit {0}))) (again : List ℕ) (r : P2p)
    → All (λ a. member a p2p.pending ≡ true) held
    → load_address choices p2p ≡ some (ok (addr, taken))
    → Reaches (record { p2p = taken; held = held }) then_
    → ((c : Channel) → stream ≢ finished (some c))
    → try_connect stream exchange addr then_.p2p ≡ ok q
    → Reaches (record then_ { p2p = q }) later
    → (member addr later.p2p.pending ≡ true)
      × ((add_pending addr later.p2p).0 ≡ false)
      × (load_address again later.p2p ≢ some (ok (addr, r)))
unfolding add_pending
try_connect-pending choices p2p taken q addr held then_ later stream exchange again r locked e
      during fails failed path =
    let (free, _, made) = load_address-eq-ok choices p2p taken addr e in
    let pending : member addr taken.pending ≡ true =
      ap (λ x. member addr x.pending) made ∙ member-cons addr p2p.pending in
    let stuck : IsStuck addr then_ =
      Reaches-IsStuck addr _ _ during
        (pending, member-pending addr p2p.pending held free.unlocked locked) in
    let kept : then_.p2p ≡ q =
      ground (arith, sym (try_connect-fails stream exchange addr then_.p2p fails) ∙ failed) in
    let still : IsStuck addr later =
      Reaches-IsStuck addr _ _ path
        (ap (λ x. member addr x.pending) (sym kept) ∙ stuck.0, stuck.1) in
    (
      still.0,
      ground (arith, still.0),
      λ e'.
          let (free', _, _) = load_address-eq-ok again later.p2p r addr e' in
          ground (arith, still.0, free'.unlocked),
    )
