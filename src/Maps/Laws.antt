-- ===== src/Maps/Laws.antt =====
-- What reads, writes and deletions of a map do to each other.
use ack_networkmanager_contr.Prelude.{
  String, ◌≡◌, refl, none, some, [], ◌∷◌, arith, ◌==◌, eq_iff, eq_refl, if◌then◌else◌,
}
use ack_networkmanager_contr.Maps.{GoMap, get, set, delete, NodupKeys}

module _ {ℓ} {V : Type ℓ} where
  pub get-nil : (j : String) → get {V = V} j [] ≡ none
  unfolding get
  get-nil j = refl

  pub get-cons :
      (j k : String) (v : V) (m : GoMap V)
      → get j ((k, v) ∷ m) ≡ (if k == j then some v else get j m)
  unfolding get
  get-cons j k v m = refl

  pub get-set :
      (j k : String) (v : V) (m : GoMap V)
      → get j (set k v m) ≡ (if k == j then some v else get j m)
  unfolding get set
  get-set j k v [] = refl
  get-set j k v ((i, w) ∷ m) = ground (arith, eq_iff k j, eq_iff i k, eq_iff i j, get-set j k v m)

  pub get-delete :
      (j k : String) (m : GoMap V) → get j (delete k m) ≡ (if k == j then none else get j m)
  unfolding get delete
  get-delete j k [] = ground arith
  get-delete j k ((i, w) ∷ m) = ground (arith, eq_iff k j, eq_iff i k, eq_iff i j, get-delete j k m)

  pub set-NodupKeys : (k : String) (v : V) (m : GoMap V) → NodupKeys m → NodupKeys (set k v m)
  unfolding set
  set-NodupKeys k v [] _ = (get-nil k, tt)
  set-NodupKeys k v ((j, w) ∷ m) (fresh, u) =
      ground (arith, eq_iff j k, eq_iff k j, set-NodupKeys k v m u, get-set j k v m)

  pub delete-NodupKeys : (k : String) (m : GoMap V) → NodupKeys m → NodupKeys (delete k m)
  unfolding delete
  delete-NodupKeys k [] _ = tt
  delete-NodupKeys k ((j, w) ∷ m) (fresh, u) =
      ground (arith, eq_iff j k, delete-NodupKeys k m u, get-delete j k m)

module _ {ℓ} {V : Type ℓ} where
  -- A map in which no key has a value is empty.
  pub eq_nil_of_get : (m : GoMap V) → ((k : String) → get k m ≡ none) → m ≡ []
  eq_nil_of_get [] h = refl
  eq_nil_of_get ((k, v) ∷ m) h = ground (arith, h k, get-cons k k v m, eq_refl k)

pub ruleset map_laws = (get-nil, get-cons, get-set, get-delete)
