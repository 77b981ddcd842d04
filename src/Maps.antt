-- ===== src/Maps.antt =====
-- Go's `map[string]V` as an association list whose keys differ, and the order of `range` over it.
pub mod Laws
use ack_networkmanager_contr.Prelude.{
  String, ◌≡◌, Option, none, some, List, [], ◌∷◌, ◌==◌, if◌then◌else◌,
}

abbrev pub GoMap {ℓ} : Type ℓ → Type ℓ
GoMap V = List (String × V)

module _ {ℓ} {V : Type ℓ} where
  -- `v, ok := m[k]`
  unfoldable pub get : String → GoMap V → Option V
  get k [] = none
  get k ((j, v) ∷ m) = if j == k then some v else get k m

  -- `m[k] = v`
  unfoldable pub set : String → V → GoMap V → GoMap V
  set k v [] = (k, v) ∷ []
  set k v ((j, w) ∷ m) = if j == k then (k, v) ∷ m else (j, w) ∷ set k v m

  -- `delete(m, k)`
  unfoldable pub delete : String → GoMap V → GoMap V
  delete k [] = []
  delete k ((j, w) ∷ m) = let rest = delete k m in if j == k then rest else (j, w) ∷ rest

  -- No key stands twice.
  abbrev pub NodupKeys : GoMap V → Type ℓ
  NodupKeys [] = Unit
  NodupKeys ((k, _) ∷ m) = (get k m ≡ none) × NodupKeys m

-- The order in which `range` visits a map is the Go runtime's choice.
pub record Range : Type 1 where
  pub over : (V : Type 0) → GoMap V → List (String × V)

-- `range` visits each key of the map once, with its value, and nothing else.
pub record IsRange (R : Range) : Type 1 where
  pub over-get : (V : Type 0) (m : GoMap V) (k : String) → get k (R.over V m) ≡ get k m
  pub over-NodupKeys : (V : Type 0) (m : GoMap V) → NodupKeys m → NodupKeys (R.over V m)
