-- ===== src/Net/Hosts.antt =====
-- net/hosts.rs: the list of known addresses. A call under the mutex is one step; `store` takes the
-- mutex twice, in `contains` and to extend the list, and here no other call comes in between.
-- Overlap has the calls of several tasks.
pub mod Laws
pub mod Overlap
use sapvi.Prelude.{
  same_bytes, ℕ, List, [], ◌∷◌, ◌++◌, Bool, true, false, not, ◌&&◌, ◌||◌, Option, ◌==◌,
  if◌then◌else◌, get_elem?,
}
use sapvi.Serial.Addr.{IpAddr, v4, v6, SocketAddr}

-- `==` on addresses, which the standard library derives.
unfoldable pub same_ip : IpAddr → IpAddr → Bool
unfolding same_bytes
same_ip (v4 a) (v4 b) = same_bytes a b
same_ip (v4 a) (v6 b) = false
same_ip (v6 a) (v4 b) = false
same_ip (v6 a) (v6 b) = same_bytes a b

unfoldable pub same_addr : SocketAddr → SocketAddr → Bool
unfolding same_ip
same_addr a b =
    same_ip a.ip b.ip
    && (a.port == b.port && (a.flowinfo == b.flowinfo && a.scope_id == b.scope_id))

-- `a_set.contains(item)`
unfoldable pub member : SocketAddr → List SocketAddr → Bool
unfolding same_addr
member x [] = false
member x (y ∷ ys) = same_addr x y || member x ys

pub record Hosts : Type 0 where
  pub addrs : List SocketAddr

unfoldable pub new : Hosts
new = record { addrs = [] }

-- `iter().any(|item| a_set.contains(item))`
unfoldable pub any_member : List SocketAddr → List SocketAddr → Bool
unfolding member
any_member [] set = false
any_member (item ∷ items) set = member item set || any_member items set

unfoldable pub contains : Hosts → List SocketAddr → Bool
unfolding any_member
contains self addrs = any_member self.addrs addrs

-- `self.addrs.lock().await.extend(addrs)`
abbrev pub extend : Hosts → List SocketAddr → Hosts
extend self addrs = record { addrs = self.addrs ++ addrs }

unfoldable pub store : Hosts → List SocketAddr → Hosts
unfolding contains
store self addrs = if not (contains self addrs) then extend self addrs else self

-- `choose(&mut rng)`: the random number generator gives the index.
unfoldable pub load_single : ℕ → Hosts → Option SocketAddr
load_single index self = get_elem? self.addrs index

unfoldable pub load_all : Hosts → List SocketAddr
load_all self = self.addrs

unfoldable pub is_empty : Hosts → Bool
is_empty self = elim self.addrs [ [] ↦ true | _ ∷ _ ↦ false ]
