-- ===== src/Limits/Fleet.antt =====
-- The limiter of packages/runtime/src/subagent-limits.ts with the slots that its callers hold: any
-- order of admissions and releases, a release that is repeated included.
use akko.Prelude.{ℕ, String, Option, none, some, List, [], ◌∷◌, get_elem?, set}
use akko.Limits.{
  SubagentLimits, Limiter, Slot, Admission, refused, admitted, new_limiter, admit, release,
}

pub record Fleet : Type 0 where
  pub limiter : Limiter
  pub slots : List Slot

abbrev pub init : SubagentLimits → Fleet
init limits = record { limiter = new_limiter limits; slots = [] }

abbrev pub hold : List Slot → Limiter × Admission → Fleet
hold slots (l, refused r) = record { limiter = l; slots = slots }
hold slots (l, admitted s) = record { limiter = l; slots = s ∷ slots }

unfoldable pub fleet_admit : Fleet → String → ℕ → Option String → Fleet
fleet_admit f parent depth provider = hold f.slots (admit f.limiter parent depth provider)

abbrev pub write_back : ℕ → List Slot → Limiter × Slot → Fleet
write_back i slots (l, s) = record { limiter = l; slots = set slots i s }

-- Slot `i` is released, again perhaps; there is nothing to do where no such slot is held.
unfoldable pub fleet_release : Fleet → ℕ → Fleet
fleet_release f i = elim (get_elem? f.slots i) [
  | none ↦ f
  | some s ↦ write_back i f.slots (release f.limiter s)
]

pub data Step (f : Fleet) : Fleet → Type 0 where
  admits :
      (parent : String) (depth : ℕ) (provider : Option String)
      → Step f (fleet_admit f parent depth provider)
  releases : (i : ℕ) → Step f (fleet_release f i)

pub data Reach (f : Fleet) : Fleet → Type 0 where
  here : Reach f f
  next : {g h : Fleet} → Reach f g → Step g h → Reach f h
