-- ===== src/Net/Subsystem/Laws.antt =====
-- A command reaches the dispatcher of its name, and an error reaches all.
use mathlib.Core.Option.{map as map_option}
use sapvi.Prelude.{
  ℕ, ◌≡◌, refl, sym, ap, ◌∙◌, arith, List, [], ◌∷◌, true, false, some, same_bytes, same_bytes-eq,
  same_bytes_self, Bool-cases, inl, inr, if◌then◌else◌,
}
use sapvi.Error.{NetError, ok}
use sapvi.Net.Messages.{Message}
use sapvi.Net.Dispatcher.{Dispatcher, trigger, trigger_all, trigger_error}
use sapvi.Net.Subsystem.{
  AnyDispatcher, any, command_of, MessageSubsystem, find, put, notify_msg, trigger_errors,
}

apart :
    (name a b : List ℕ)
    → same_bytes name b ≡ true
    → same_bytes a b ≡ false
    → same_bytes name a ≡ false
apart name a b here other = elim (Bool-cases (same_bytes name a)) [
  | inl there ↦
      let e : a ≡ b = sym (same_bytes-eq name a there) ∙ same_bytes-eq name b here in
      absurd (ground (arith, ap (same_bytes a) e ∙ other, same_bytes_self a))
  | inr differs ↦ differs
]

find-put :
    (name : List ℕ) (d : AnyDispatcher) (self : MessageSubsystem)
    → find name (put d self) ≡ (if same_bytes name (command_of d) then some d else find name self)
unfolding find put
find-put name d [] = refl
find-put name d (x ∷ self) = elim (Bool-cases (same_bytes (command_of d) (command_of x))) [
  | inl same ↦
      let e : command_of d ≡ command_of x = same_bytes-eq (command_of d) (command_of x) same in
      rw same (elim (Bool-cases (same_bytes name (command_of d))) [
        | inl here ↦ rw here refl
        | inr differs ↦
            let differs' : same_bytes name (command_of x) ≡ false =
              ap (same_bytes name) (sym e) ∙ differs in
            rw (differs, differs') refl
      ])
  | inr other ↦ rw other (elim (Bool-cases (same_bytes name (command_of x))) [
    | inl here ↦ rw (here, apart name (command_of d) (command_of x) here other) refl
    | inr differs ↦ rw differs (find-put name d self)
  ])
]

-- A message that arrives under the name of its kind is handed to the dispatcher of that name, and
-- the dispatchers of all other names stay as they were. The dispatcher is there, and the payload
-- is one that its codec decodes.
pub notify_msg-find :
    {M : Type 0} (kind : Message M) (dispatcher : Dispatcher M) (self : MessageSubsystem)
    (payload rest : List ℕ) (message : M) (name : List ℕ)
    → find kind.name self ≡ some (any kind dispatcher)
    → kind.codec.decode payload ≡ ok (message, rest)
    → (after : MessageSubsystem) × (notify_msg kind.name payload self ≡ ok after)
      × (find name after ≡ (
          if same_bytes name kind.name
          then some (any kind (trigger_all (ok message) dispatcher))
          else find name self))
unfolding notify_msg trigger
notify_msg-find kind dispatcher self payload rest message name found decoded =
    let next = any kind (trigger_all (ok message) dispatcher) in
    (put next self, rw (found, notify_msg, decoded) refl, find-put name next self)

-- An error is handed to the dispatcher of every name.
pub find-trigger_errors :
    (e : NetError) (self : MessageSubsystem) (name : List ℕ)
    → find name (trigger_errors e self)
      ≡ map_option (λ d. any d.kind (trigger_error e d.dispatcher)) (find name self)
unfolding find trigger_errors
find-trigger_errors e [] name = refl
find-trigger_errors e (d ∷ self) name = elim (Bool-cases (same_bytes name (command_of d))) [
  | inl at ↦ rw at refl
  | inr differs ↦ rw differs (find-trigger_errors e self name)
]
