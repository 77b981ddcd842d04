-- ===== src/Tags/Convert.antt =====
-- The tags that `fromACKTags` returns, and their order.
use mathlib.Core.List.{append-nil}
use ack_networkmanager_contr.Prelude.{
  contains, String, ◌≡◌, refl, ap, ◌⊎◌, inl, inr, Bool, true, none, some, List, [], ◌∷◌, ◌++◌, map,
  arith, elements, eq_iff, eq_refl, if◌then◌else◌, Bool-cases, Option-cases, ◌∙◌,
}
use ack_networkmanager_contr.Maps.{GoMap, get, delete, NodupKeys, Range, IsRange}
use ack_networkmanager_contr.Maps.Laws.{get-nil, get-delete, eq_nil_of_get, delete-NodupKeys}
use ack_networkmanager_contr.Types.{Tag}
use ack_networkmanager_contr.Tags.{
  new_tag, take_ordered, convert_to_ordered_ack_tags, from_ack_tags,
}
use ack_networkmanager_contr.Tags.Values.{
  tag_at, tag_keys, tag_at-append, tag_at-new_tag, get-convert, convert-tag_keys,
}

-- Every tag has a key and a value, and no key stands twice.
abbrev pub IsNormal : List Tag → Type 0
IsNormal [] = Unit
IsNormal (t ∷ ts) =
    (k : String) × (v : String) × (t ≡ new_tag (k, v)) × (tag_at k ts ≡ none) × IsNormal ts

-- The tags whose keys pass a test.
abbrev pub keep_tags : (String → Bool) → List Tag → List Tag
keep_tags p [] = []
keep_tags p (t ∷ ts) = elim t.key [
  | none ↦ keep_tags p ts
  | some k ↦ if p k then t ∷ keep_tags p ts else keep_tags p ts
]

get-take_ordered :
    (k : String) (ks : List String) (m : GoMap String)
    → get k (take_ordered ks m).1 ≡ (if contains ks k then none else get k m)
unfolding take_ordered
get-take_ordered k [] m = refl
get-take_ordered k (j ∷ ks) m = ground (
  arith,
  eq_iff j k,
  get-take_ordered k ks m,
  get-take_ordered k ks (delete j m),
  get-delete k j m,
)

tag_at-take_ordered :
    (k : String) (ks : List String) (m : GoMap String)
    → tag_at k (take_ordered ks m).0 ≡ (if contains ks k then get k m else none)
unfolding take_ordered
tag_at-take_ordered k [] m = refl
tag_at-take_ordered k (j ∷ ks) m = ground (
  arith,
  eq_iff j k,
  tag_at-take_ordered k ks m,
  tag_at-take_ordered k ks (delete j m),
  get-delete k j m,
)

take_ordered-nil : (m : GoMap String) → take_ordered [] m ≡ ([], m)
unfolding take_ordered
take_ordered-nil m = refl

take_ordered_of_none :
    (k : String) (ks : List String) (m : GoMap String)
    → get k m ≡ none
    → take_ordered (k ∷ ks) m ≡ take_ordered ks m
unfolding take_ordered
take_ordered_of_none k ks m absent = ground arith

take_ordered_of_some :
    (k v : String) (ks : List String) (m : GoMap String)
    → get k m ≡ some v
    → take_ordered (k ∷ ks) m
      ≡ (new_tag (k, v) ∷ (take_ordered ks (delete k m)).0, (take_ordered ks (delete k m)).1)
unfolding take_ordered
take_ordered_of_some k v ks m present = ground arith

take_ordered-NodupKeys :
    (ks : List String) (m : GoMap String) → NodupKeys m → NodupKeys (take_ordered ks m).1
unfolding take_ordered
take_ordered-NodupKeys [] m u = u
take_ordered-NodupKeys (k ∷ ks) m u = elim (Option-cases (get k m)) [
  | inl absent ↦ rw (take_ordered_of_none k ks m absent) (take_ordered-NodupKeys ks m u)
  | inr (v, present) ↦
      rw (take_ordered_of_some k v ks m present)
        (take_ordered-NodupKeys ks (delete k m) (delete-NodupKeys k m u))
]

take_ordered-IsNormal : (ks : List String) (m : GoMap String) → IsNormal (take_ordered ks m).0
unfolding take_ordered
take_ordered-IsNormal [] m = tt
take_ordered-IsNormal (k ∷ ks) m = elim (Option-cases (get k m)) [
  | inl absent ↦ rw (take_ordered_of_none k ks m absent) (take_ordered-IsNormal ks m)
  | inr (v, present) ↦ rw (take_ordered_of_some k v ks m present) (
    k,
    v,
    refl,
    ground (arith, eq_refl k, tag_at-take_ordered k ks (delete k m), get-delete k k m),
    take_ordered-IsNormal ks (delete k m),
  )
]

new_tag-IsNormal : (m : GoMap String) → NodupKeys m → IsNormal (map new_tag m)
new_tag-IsNormal [] _ = tt
new_tag-IsNormal ((k, v) ∷ m) (fresh, u) =
    (k, v, refl, rw (tag_at-new_tag k m u) fresh, new_tag-IsNormal m u)

IsNormal-append :
    (xs ys : List Tag)
    → IsNormal xs
    → IsNormal ys
    → ((k : String) → (tag_at k xs ≡ none) ⊎ (tag_at k ys ≡ none))
    → IsNormal (xs ++ ys)
IsNormal-append [] ys _ n apart = n
IsNormal-append (t ∷ xs) ys (k, v, e, fresh, m) n apart = (
  k,
  v,
  e,
  ground (arith, tag_at-append k xs ys, apart k, eq_refl k),
  IsNormal-append xs ys m n λ j. ground (arith, apart j),
)

-- From a map that agrees with the kept tags, the loop returns them in their order.
take_ordered-keep_tags :
    (p : String → Bool) (ts : List Tag) (m : GoMap String)
    → IsNormal ts
    → ((k : String) → get k m ≡ (if p k then tag_at k ts else none))
    → take_ordered (tag_keys ts) m ≡ (keep_tags p ts, [])
take_ordered-keep_tags p [] m _ agree =
    rw (eq_nil_of_get m (λ k. ground (arith, agree k))) (take_ordered-nil [])
take_ordered-keep_tags p (t ∷ ts) m (k, v, e, fresh, n) agree = elim (Bool-cases (p k)) [
  | inl kept ↦ ground (
    arith,
    take_ordered_of_some k v (tag_keys ts) m (ground (arith, agree k, eq_refl k)),
    take_ordered-keep_tags p ts (delete k m) n
        λ j. ground (arith, agree j, get-delete j k m, eq_iff k j),
  )
  | inr dropped ↦ ground (
    arith,
    take_ordered_of_none k (tag_keys ts) m (ground (arith, agree k)),
    take_ordered-keep_tags p ts m n λ j. ground (arith, agree j, eq_iff k j),
  )
]

module _ (R : Range) (L : IsRange R) where
  pub tag_at-from_ack_tags :
      (k : String) (m : GoMap String) (order : List String)
      → NodupKeys m
      → tag_at k (elements (from_ack_tags R m order)) ≡ get k m
  unfolding from_ack_tags
  tag_at-from_ack_tags k m order u =
      let rest = (take_ordered order m).1 in
      rw
        (
          tag_at-append k (take_ordered order m).0 (map new_tag (R.over String rest)),
          tag_at-new_tag k (R.over String rest)
              (L.over-NodupKeys String rest (take_ordered-NodupKeys order m u)),
          L.over-get String rest k,
          get-take_ordered k order m,
          tag_at-take_ordered k order m,
        )
        (ground arith)

  pub from_ack_tags-IsNormal :
      (m : GoMap String) (order : List String)
      → NodupKeys m
      → IsNormal (elements (from_ack_tags R m order))
  unfolding from_ack_tags
  from_ack_tags-IsNormal m order u =
      let rest = (take_ordered order m).1 in
      let v = L.over-NodupKeys String rest (take_ordered-NodupKeys order m u) in
      IsNormal-append (take_ordered order m).0 (map new_tag (R.over String rest))
        (take_ordered-IsNormal order m) (new_tag-IsNormal (R.over String rest) v)
        λ k. ground (
          arith,
          tag_at-new_tag k (R.over String rest) v,
          L.over-get String rest k,
          get-take_ordered k order m,
          tag_at-take_ordered k order m,
        )

  over-nil : R.over String [] ≡ []
  over-nil = eq_nil_of_get (R.over String []) λ k. L.over-get String [] k ∙ get-nil k

  -- Kept tags come back in the order of the list.
  pub from_ack_tags-keep_tags :
      (p : String → Bool) (ts : List Tag) (m : GoMap String)
      → IsNormal ts
      → ((k : String) → get k m ≡ (if p k then tag_at k ts else none))
      → from_ack_tags R m (tag_keys ts) ≡ some (keep_tags p ts)
  unfolding from_ack_tags
  from_ack_tags-keep_tags p ts m n agree =
      rw (take_ordered-keep_tags p ts m n agree, over-nil, append-nil)

pub keep_tags_all : (ts : List Tag) → IsNormal ts → keep_tags (λ _. true) ts ≡ ts
keep_tags_all [] _ = refl
keep_tags_all (t ∷ ts) (k, v, e, fresh, n) = ground (arith, keep_tags_all ts n)

module _ (R : Range) (L : IsRange R) where
  -- If `range` visits each entry of a map once, tags that all have a key and a value, with no key
  -- twice, come back as the same list from `convertToOrderedACKTags` and `fromACKTags`.
  pub from_ack_tags-convert :
      (ts : List Tag)
      → IsNormal ts
      → (let (m, order) = convert_to_ordered_ack_tags (some ts) in from_ack_tags R m order)
        ≡ some ts
  from_ack_tags-convert ts n = rw (convert-tag_keys (some ts)) (
      from_ack_tags-keep_tags R L (λ _. true) ts _ n (get-convert (some ts))
      ∙ ap some (keep_tags_all ts n))
