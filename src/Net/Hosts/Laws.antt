-- ===== src/Net/Hosts/Laws.antt =====
-- The list keeps no address twice, and takes a batch whole or not at all.
use sapvi.Prelude.{
  same_bytes_self, ◌≡◌, refl, ap, ◌∙◌, arith, List, [], ◌∷◌, ◌++◌, true, false, ◌||◌, Bool-cases,
  inl, inr, append-nil,
}
use sapvi.Serial.Addr.{IpAddr, v4, v6, SocketAddr}
use sapvi.Net.Hosts.{same_ip, same_addr, member, Hosts, any_member, contains, store, load_all}

same_ip_self : (a : IpAddr) → same_ip a a ≡ true
unfolding same_ip
same_ip_self (v4 octets) = same_bytes_self octets
same_ip_self (v6 octets) = same_bytes_self octets

pub same_addr_self : (a : SocketAddr) → same_addr a a ≡ true
unfolding same_addr
same_addr_self a = ground (arith, same_ip_self a.ip)

-- No address stands twice in the list.
unfoldable pub IsDistinct : List SocketAddr → Type 0
IsDistinct [] = Unit {0}
IsDistinct (x ∷ xs) = (member x xs ≡ false) × IsDistinct xs

pub member-append :
    (x : SocketAddr) (xs ys : List SocketAddr) → member x (xs ++ ys) ≡ (member x xs || member x ys)
unfolding member
member-append x [] ys = refl
member-append x (y ∷ xs) ys = ground (arith, member-append x xs ys)

IsDistinct-append :
    (xs ys : List SocketAddr)
    → IsDistinct xs
    → IsDistinct ys
    → any_member xs ys ≡ false
    → IsDistinct (xs ++ ys)
unfolding IsDistinct any_member
IsDistinct-append [] ys hx hy e = hy
IsDistinct-append (x ∷ xs) ys hx hy e = (
  member-append x xs ys ∙ ground (arith, hx.0, e),
  IsDistinct-append xs ys hx.1 hy (ground (arith, e, Bool-cases (any_member xs ys))),
)

-- A list without repetitions stays so when a batch without repetitions is stored.
pub store-IsDistinct :
    (self : Hosts) (addrs : List SocketAddr)
    → IsDistinct (load_all self)
    → IsDistinct addrs
    → IsDistinct (load_all (store self addrs))
unfolding store load_all contains
store-IsDistinct self addrs hs ha = elim (Bool-cases (any_member self.addrs addrs)) [
  | inl known ↦ rw known hs
  | inr fresh ↦ rw fresh (IsDistinct-append self.addrs addrs hs ha fresh)
]

pub any_member-append :
    (xs ys zs : List SocketAddr) → any_member (xs ++ ys) zs ≡ (any_member xs zs || any_member ys zs)
unfolding any_member
any_member-append [] ys zs = refl
any_member-append (x ∷ xs) ys zs = ground (arith, any_member-append xs ys zs)

pub any_member_self : (y : SocketAddr) (ys : List SocketAddr) → any_member (y ∷ ys) (y ∷ ys) ≡ true
unfolding any_member member
any_member_self y ys = ground (arith, same_addr_self y)

store_nil : (self : Hosts) → store self [] ≡ self
unfolding store
store_nil self = ground (arith, append-nil self.addrs)

-- To store a batch again changes nothing.
pub store-store :
    (self : Hosts) (addrs : List SocketAddr) → store (store self addrs) addrs ≡ store self addrs
unfolding store contains
store-store self [] = ap (λ h. store h []) (store_nil self)
store-store self (y ∷ ys) = elim (Bool-cases (any_member self.addrs (y ∷ ys))) [
  | inl known ↦ ground (arith, known)
  | inr fresh ↦
      ground (arith, fresh, any_member-append self.addrs (y ∷ ys) (y ∷ ys), any_member_self y ys)
]
