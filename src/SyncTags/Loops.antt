-- ===== src/SyncTags/Loops.antt =====
-- The loops of `SyncTags` on tags that all have a key and a value.
use ack_networkmanager_contr.Prelude.{
  contains, String, ◌≡◌, ◌≢◌, refl, Bool, true, not, ◌&&◌, ◌||◌, Option, none, some, List, [], ◌∷◌,
  ◌++◌, arith, or_else, is_nil, done, ◌==◌, eq_iff, eq_refl, if◌then◌else◌,
}
use ack_networkmanager_contr.Maps.{GoMap, get, set, NodupKeys}
use ack_networkmanager_contr.Maps.Laws.{get-nil, get-cons, get-set, set-NodupKeys}
use ack_networkmanager_contr.Types.{Tag}
use ack_networkmanager_contr.Tags.{new_tag}
use ack_networkmanager_contr.Tags.Values.{tag_at}
use ack_networkmanager_contr.Tags.Convert.{IsNormal}
use ack_networkmanager_contr.SyncTags.{key_loop, add_loop, delete_loop, debug_loop}

-- Every tag has a key and a value.
abbrev pub IsFilled : List Tag → Type 0
IsFilled [] = Unit
IsFilled (t ∷ ts) = (k : String) × (v : String) × (t ≡ new_tag (k, v)) × IsFilled ts

pub IsNormal-IsFilled : (ts : List Tag) → IsNormal ts → IsFilled ts
IsNormal-IsFilled [] _ = tt
IsNormal-IsFilled (t ∷ ts) (k, v, e, _, n) = (k, v, e, IsNormal-IsFilled ts n)

-- A value as the map of pointers holds it.
abbrev pub pointer : Option String → Option (Option String)
pointer none = none
pointer (some v) = some (some v)

-- No value of the map is nil.
abbrev pub NoNil : GoMap (Option String) → Type 0
NoNil m = (k : String) → get k m ≢ some none

-- What `toAdd` holds for a key with the existing value and the desired pointer.
abbrev pub addition : Option String → Option (Option String) → Option (Option String)
addition none d = d
addition (some e) (some (some v)) = if e == v then none else some (some v)
addition (some e) _ = none

-- The test of the loop for an existing and a desired value.
abbrev pub differs : Option String → String → Bool
differs none v = true
differs (some e) v = not (e == v)

contains-append :
    (xs ys : List String) (k : String) → contains (xs ++ ys) k ≡ (contains xs k || contains ys k)
contains-append [] ys k = ground arith
contains-append (x ∷ xs) ys k = ground (arith, contains-append xs ys k)

key_loop-IsFilled :
    (ts : List Tag) (m : GoMap (Option String))
    → IsFilled ts
    → (r : GoMap (Option String)) × (key_loop ts m ≡ done r)
      × ((k : String) → get k r ≡ or_else (pointer (tag_at k ts)) (get k m))
      × (NodupKeys m → NodupKeys r)
unfolding key_loop
key_loop-IsFilled [] m _ = (m, refl, λ k. refl, λ u. u)
key_loop-IsFilled (t ∷ ts) m (j, v, e, f) =
    let (r, run, reads, keys) = key_loop-IsFilled ts (set j (some v) m) f in
    (
      r,
      ground arith,
      λ k. ground (arith, reads k, get-set k j (some v) m),
      λ u. keys (set-NodupKeys j (some v) m u),
    )

-- From the empty map the loop reads the tags.
pub key_loop_reads :
    (ts : List Tag)
    → IsFilled ts
    → (r : GoMap (Option String)) × (key_loop ts [] ≡ done r)
      × ((k : String) → get k r ≡ pointer (tag_at k ts))
      × NodupKeys r
key_loop_reads ts f =
    let (r, run, reads, keys) = key_loop-IsFilled ts [] f in
    (r, run, λ k. ground (arith, reads k, get-nil {V = Option String} k), keys tt)

pub add_loop-NoNil :
    (visits : List (String × Option String)) (existing to_add : GoMap (Option String))
    (old : String → Option String)
    → NodupKeys visits
    → NoNil visits
    → ((k : String) → get k existing ≡ pointer (old k))
    → (r : GoMap (Option String)) × (add_loop visits existing to_add ≡ done r)
      × ((k : String) → get k r ≡ or_else (addition (old k) (get k visits)) (get k to_add))
      × (NodupKeys to_add → NodupKeys r)
unfolding add_loop
add_loop-NoNil [] existing to_add old _ _ agree =
    (to_add, refl, λ k. ground (arith, get-nil {V = Option String} k), λ u. u)
add_loop-NoNil ((j, none) ∷ visits) existing to_add old (fresh, u) filled agree =
    absurd (filled j (ground (arith, get-cons {V = Option String} j j none visits, eq_refl j)))
add_loop-NoNil ((j, some v) ∷ visits) existing to_add old (fresh, u) filled agree =
    let next = if differs (old j) v then set j (some v) to_add else to_add in
    let (r, run, reads, keys) =
      add_loop-NoNil visits existing next old u
        (λ k h. ground (arith, filled k, get-cons k j (some v) visits, eq_iff j k)) agree in
    (
      r,
      ground (arith, agree j),
      λ k.
          ground
            (arith, reads k, get-cons k j (some v) visits, get-set k j (some v) to_add, eq_iff j k),
      λ n. keys (ground (arith, set-NodupKeys j (some v) to_add n)),
    )

pub contains-delete_loop :
    (k : String) (visits : List (String × Option String)) (desired : GoMap (Option String))
    (to_delete : List String)
    → contains (delete_loop visits desired to_delete) k
      ≡ (contains to_delete k || (not (is_nil (get k visits)) && is_nil (get k desired)))
unfolding delete_loop
contains-delete_loop k [] desired to_delete = ground (arith, get-nil {V = Option String} k)
contains-delete_loop k ((j, v) ∷ visits) desired to_delete = ground (
  arith,
  eq_iff j k,
  get-cons k j v visits,
  contains-append to_delete (j ∷ []) k,
  contains-delete_loop k visits desired to_delete,
  contains-delete_loop k visits desired (to_delete ++ (j ∷ [])),
)

pub debug_loop-NoNil :
    (visits : List (String × Option String))
    → NodupKeys visits
    → NoNil visits
    → debug_loop visits ≡ done tt
unfolding debug_loop
debug_loop-NoNil [] _ _ = refl
debug_loop-NoNil ((j, none) ∷ visits) _ filled =
    absurd (filled j (ground (arith, get-cons {V = Option String} j j none visits, eq_refl j)))
debug_loop-NoNil ((j, some v) ∷ visits) (fresh, u) filled =
    debug_loop-NoNil visits u
      λ k h. ground (arith, filled k, get-cons k j (some v) visits, eq_iff j k)
