-- ===== src/Net/Hosts/Overlap.antt =====
-- The calls of `store` from several tasks: what passes between the two times that one takes the
-- mutex.
use sapvi.Prelude.{◌≡◌, ◌≢◌, refl, sym, ◌∙◌, arith, List, [], ◌∷◌, ◌++◌, true, false, Bool-cases}
use sapvi.Serial.Addr.{SocketAddr}
use sapvi.Net.Hosts.{Hosts, any_member, contains, extend, store, load_all}
use sapvi.Net.Hosts.Laws.{
  IsDistinct, member-append, any_member-append, any_member_self, store-IsDistinct,
}

-- The hosts, and the batches of the calls that have passed the test and not extended the list yet.
pub record Pool : Type 0 where
  pub hosts : Hosts
  pub checked : List (List SocketAddr)

-- A call takes the mutex for the test, or for the extension of the list.
pub data Step (s : Pool) : Pool → Type 0 where
  checks :
      (addrs : List SocketAddr)
      → contains s.hosts addrs ≡ false
      → Step s (record s { checked = addrs ∷ s.checked })
  refuses : (addrs : List SocketAddr) → contains s.hosts addrs ≡ true → Step s s
  extends :
      (before : List (List SocketAddr)) (addrs : List SocketAddr) (after : List (List SocketAddr))
      → s.checked ≡ before ++ addrs ∷ after
      → Step s (record { hosts = extend s.hosts addrs; checked = before ++ after })

pub data Reaches (s : Pool) : Pool → Type 0 where
  here : Reaches s s
  next : {t u : Pool} → Reaches s t → Step t u → Reaches s u

append-IsDistinct : (xs ys : List SocketAddr) → IsDistinct (xs ++ ys) → any_member xs ys ≡ false
unfolding IsDistinct any_member
append-IsDistinct [] ys h = any_member-nil ys
  where
    any_member-nil : (l : List SocketAddr) → any_member [] l ≡ false
    any_member-nil l = refl
append-IsDistinct (x ∷ xs) ys h =
    ground (arith, sym (member-append x xs ys) ∙ h.0, append-IsDistinct xs ys h.1)

twice-known :
    (self : Hosts) (y : SocketAddr) (ys : List SocketAddr)
    → any_member (self.addrs ++ (y ∷ ys)) (y ∷ ys) ≡ true
twice-known self y ys =
    any_member-append self.addrs (y ∷ ys) (y ∷ ys)
    ∙ ground (arith, any_member_self y ys, Bool-cases (any_member self.addrs (y ∷ ys)))

-- To store the same new addresses two times, one call after the other, leaves a list without
-- repetitions. But when the calls of several tasks overlap, a list with repetitions can be
-- reached, with no call left unfinished. The list and the batch are given to have no repetitions,
-- and the batch to be new and not empty.
pub store-overlap :
    (self : Hosts) (addrs : List SocketAddr)
    → addrs ≢ []
    → contains self addrs ≡ false
    → IsDistinct (load_all self)
    → IsDistinct addrs
    → IsDistinct (load_all (store (store self addrs) addrs))
      × ((t : Pool) × Reaches (record { hosts = self; checked = [] }) t
          × (t.checked ≡ [])
          × (IsDistinct (load_all t.hosts) → ⊥))
unfolding load_all
store-overlap self [] some_ new hs ha = absurd (some_ refl)
store-overlap self (y ∷ ys) some_ new hs ha = (
  store-IsDistinct (store self (y ∷ ys)) (y ∷ ys) (store-IsDistinct self (y ∷ ys) hs ha) ha,
  (
    record { hosts = extend (extend self (y ∷ ys)) (y ∷ ys); checked = [] },
    next
        (next (next (next here (checks (y ∷ ys) new)) (checks (y ∷ ys) new))
          (extends [] (y ∷ ys) ((y ∷ ys) ∷ []) refl))
        (extends [] (y ∷ ys) [] refl),
    refl,
    λ h.
        let once = append-IsDistinct (self.addrs ++ (y ∷ ys)) (y ∷ ys) h in
        ground (arith, once, twice-known self y ys),
  ),
)
