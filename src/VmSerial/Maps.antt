-- ===== src/VmSerial/Maps.antt =====
-- vm_serial.rs: the maps that decoded entries are collected into.
use sapvi.Prelude.{
  ℕ, ◌≡◌, refl, sym, ap, ◌∙◌, List, [], ◌∷◌, ◌++◌, All, append_assoc, append-nil, Bool, false, ◌||◌,
  ◌==◌, same_bytes,
}
use sapvi.Vm.Types.{VariableIndex}
use sapvi.Contract.{insert_name}

-- `insert` of a `HashMap` with names for keys.
unfoldable pub insert_entry : {T : Type 0} → List ℕ × T → List (List ℕ × T) → List (List ℕ × T)
insert_entry (name, value) entries = insert_name name value entries

-- `into_iter().collect()`, which inserts one entry after the other.
unfoldable pub collect : {E : Type 0} → (E → List E → List E) → List E → List E → List E
collect insert [] made = made
collect insert (entry ∷ entries) made = collect insert entries (insert entry made)

abbrev pub same_name : {T : Type 0} → List ℕ × T → List ℕ × T → Bool
same_name a b = same_bytes a.0 b.0

abbrev pub same_side : List ℕ × VariableIndex → List ℕ × VariableIndex → Bool
same_side a b = same_bytes a.0 b.0 || a.1 == b.1

-- No entry clashes with one before it.
abbrev pub IsApart : {E : Type 0} → (E → E → Bool) → List E → Type 0
IsApart clash [] = Unit {0}
IsApart clash (e ∷ es) = All (λ x. clash x e ≡ false) es × IsApart clash es

module _ {E : Type 0} (clash : E → E → Bool) (insert : E → List E → List E)
    (fresh : (e : E) (made : List E)
      → All (λ x. clash e x ≡ false) made
      → insert e made ≡ made ++ e ∷ []) where
  apart_from-append :
      (made : List E) (e : E) (es : List E)
      → All (λ x. All (λ m. clash x m ≡ false) made) es
      → All (λ x. clash x e ≡ false) es
      → All (λ x. All (λ m. clash x m ≡ false) (made ++ e ∷ [])) es
  apart_from-append made e [] h g = tt
  apart_from-append made e (x ∷ es) h g = (with_last made h.0, apart_from-append made e es h.1 g.1)
    where
      with_last :
          (l : List E) → All (λ m. clash x m ≡ false) l → All (λ m. clash x m ≡ false) (l ++ e ∷ [])
      with_last [] k = (g.0, tt)
      with_last (m ∷ l) k = (k.0, with_last l k.1)

  collect-apart :
      (es made : List E)
      → IsApart clash es
      → All (λ x. All (λ m. clash x m ≡ false) made) es
      → collect insert es made ≡ made ++ es
  unfolding collect
  collect-apart [] made h g = sym (append-nil made)
  collect-apart (e ∷ es) made h g =
      ap (collect insert es) (fresh e made g.0)
      ∙ collect-apart es (made ++ e ∷ []) h.1 (apart_from-append made e es g.1 h.0)
      ∙ append_assoc made (e ∷ []) es

  nothing_made : (es : List E) → All (λ x. All (λ m. clash x m ≡ false) []) es
  nothing_made [] = tt
  nothing_made (e ∷ es) = (tt, nothing_made es)

  pub collected : (es : List E) → IsApart clash es → collect insert es [] ≡ es
  collected es h = collect-apart es [] h (nothing_made es)

insert_entry-fresh :
    {T : Type 0} (e : List ℕ × T) (made : List (List ℕ × T))
    → All (λ x. same_name e x ≡ false) made
    → insert_entry e made ≡ made ++ e ∷ []
unfolding insert_entry insert_name
insert_entry-fresh (name, value) [] h = refl
insert_entry-fresh (name, value) ((key, old) ∷ made) h =
    rw (h.0, insert_entry-fresh (name, value) made h.1) refl

-- Entries with names of their own are collected as they are.
pub collect-names :
    {T : Type 0} (es : List (List ℕ × T)) → IsApart same_name es → collect insert_entry es [] ≡ es
collect-names es h = collected same_name insert_entry insert_entry-fresh es h

-- What the crate bimap documents of `insert`: an entry whose name and index are not in the map is
-- added to it.
pub record IsBiMap
    (insert_pair : List ℕ × VariableIndex
      → List (List ℕ × VariableIndex)
      → List (List ℕ × VariableIndex))
    : Type 0 where
  pub adds :
      (e : List ℕ × VariableIndex) (made : List (List ℕ × VariableIndex))
      → All (λ x. same_side e x ≡ false) made
      → insert_pair e made ≡ made ++ e ∷ []
