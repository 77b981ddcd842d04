-- ===== src/Tags/Values.antt =====
-- A list of tags read as a map: the value of a key is that of its last tag.
use mathlib.Core.List.{append-nil, append_assoc}
use ack_networkmanager_contr.Prelude.{
  String, ◌≡◌, refl, sym, ◌∙◌, inl, inr, Bool, false, Option, none, some, List, [], ◌∷◌, ◌++◌, map,
  arith, or_else, Slice, elements, ◌==◌, eq_iff, if◌then◌else◌, Option-cases,
}
use ack_networkmanager_contr.Maps.{GoMap, get, set, NodupKeys}
use ack_networkmanager_contr.Maps.Laws.{get-nil, get-set, set-NodupKeys}
use ack_networkmanager_contr.Types.{Tag}
use ack_networkmanager_contr.Tags.{
  value_or_empty, new_tag, convert_loop, convert_to_ordered_ack_tags,
}

abbrev pub has_key : String → Tag → Bool
has_key k t = elim t.key [ none ↦ false | some j ↦ j == k ]

abbrev pub tag_at : String → List Tag → Option String
tag_at k [] = none
tag_at k (t ∷ ts) =
    or_else (tag_at k ts) (if has_key k t then some (value_or_empty t.value) else none)

-- The keys in the order of the list, a repeated key as often as it stands there.
abbrev pub tag_keys : List Tag → List String
tag_keys [] = []
tag_keys (t ∷ ts) = elim t.key [ none ↦ tag_keys ts | some k ↦ k ∷ tag_keys ts ]

pub tag_at-append :
    (k : String) (xs ys : List Tag) → tag_at k (xs ++ ys) ≡ or_else (tag_at k ys) (tag_at k xs)
tag_at-append k [] ys = ground arith
tag_at-append k (t ∷ xs) ys = ground (arith, tag_at-append k xs ys)

pub tag_at-new_tag :
    (k : String) (m : GoMap String) → NodupKeys m → tag_at k (map new_tag m) ≡ get k m
unfolding get
tag_at-new_tag k [] _ = refl
tag_at-new_tag k ((j, v) ∷ m) (fresh, u) = ground (arith, eq_iff j k, tag_at-new_tag k m u)

get-convert_loop :
    (k : String) (ts : List Tag) (result : GoMap String) (order : List String)
    → get k (convert_loop ts result order).0 ≡ or_else (tag_at k ts) (get k result)
unfolding convert_loop
get-convert_loop k [] result order = refl
get-convert_loop k (t ∷ ts) result order = elim (Option-cases t.key) [
  | inl absent ↦ ground (arith, get-convert_loop k ts result order)
  | inr (j, present) ↦ ground (
    arith,
    get-convert_loop k ts (set j (value_or_empty t.value) result) (order ++ (j ∷ [])),
    get-set k j (value_or_empty t.value) result,
  )
]

convert_loop-NodupKeys :
    (ts : List Tag) (result : GoMap String) (order : List String)
    → NodupKeys result
    → NodupKeys (convert_loop ts result order).0
unfolding convert_loop
convert_loop-NodupKeys [] result order u = u
convert_loop-NodupKeys (t ∷ ts) result order u = elim (Option-cases t.key) [
  | inl absent ↦ rw absent (convert_loop-NodupKeys ts result order u)
  | inr (j, present) ↦ rw present (
      convert_loop-NodupKeys ts (set j (value_or_empty t.value) result) (order ++ (j ∷ []))
        (set-NodupKeys j (value_or_empty t.value) result u))
]

convert_loop-tag_keys :
    (ts : List Tag) (result : GoMap String) (order : List String)
    → (convert_loop ts result order).1 ≡ order ++ tag_keys ts
unfolding convert_loop
convert_loop-tag_keys [] result order = sym (append-nil order)
convert_loop-tag_keys (t ∷ ts) result order = elim (Option-cases t.key) [
  | inl absent ↦ rw absent (convert_loop-tag_keys ts result order)
  | inr (j, present) ↦ rw present (
      convert_loop-tag_keys ts (set j (value_or_empty t.value) result) (order ++ (j ∷ []))
      ∙ append_assoc order (j ∷ []) (tag_keys ts))
]

convert-loop :
    (tags : Slice Tag) → convert_to_ordered_ack_tags tags ≡ convert_loop (elements tags) [] []
unfolding convert_to_ordered_ack_tags
convert-loop none = refl
convert-loop (some []) = refl
convert-loop (some (t ∷ ts)) = refl

module _ (tags : Slice Tag) where
  pub get-convert :
      (k : String) → get k (convert_to_ordered_ack_tags tags).0 ≡ tag_at k (elements tags)
  get-convert k =
      rw (convert-loop tags, get-convert_loop k (elements tags) [] [], get-nil k) (ground arith)

  pub convert-NodupKeys : NodupKeys (convert_to_ordered_ack_tags tags).0
  convert-NodupKeys = rw (convert-loop tags) (convert_loop-NodupKeys (elements tags) [] [] tt)

  pub convert-tag_keys : (convert_to_ordered_ack_tags tags).1 ≡ tag_keys (elements tags)
  convert-tag_keys = rw (convert-loop tags) (convert_loop-tag_keys (elements tags) [] [])
