-- ===== src/Tags.antt =====
-- pkg/resource/global_network/tags.go. `acktags.Tags` is Go's `map[string]string`.
pub mod Values
pub mod Convert
pub mod Filter
use text.Mathlib.Text.{starts_with}
use ack_networkmanager_contr.Prelude.{
  String, Bool, false, ◌||◌, contains, Option, none, some, List, [], ◌∷◌, ◌++◌, map, Slice,
  elements, ◌==◌, if◌then◌else◌,
}
use ack_networkmanager_contr.Maps.{GoMap, get, set, delete, Range}
use ack_networkmanager_contr.Types.{Tag}

-- The zero string stands for a nil value.
abbrev pub value_or_empty : Option String → String
value_or_empty none = ""
value_or_empty (some v) = v

-- The loop of `convertToOrderedACKTags`, with `result` and `keyOrder`.
pub convert_loop : List Tag → GoMap String → List String → GoMap String × List String
convert_loop [] result key_order = (result, key_order)
convert_loop (t ∷ ts) result key_order = elim t.key [
  | none ↦ convert_loop ts result key_order
  | some k ↦ convert_loop ts (set k (value_or_empty t.value) result) (key_order ++ (k ∷ []))
]

abbrev convert_elements : List Tag → GoMap String × List String
convert_elements [] = ([], [])
convert_elements (t ∷ ts) = convert_loop (t ∷ ts) [] []

unfoldable pub convert_to_ordered_ack_tags : Slice Tag → GoMap String × List String
unfolding convert_loop set
convert_to_ordered_ack_tags tags = convert_elements (elements tags)

-- `svcapitypes.Tag{Key: &k, Value: &v}`
abbrev pub new_tag : String × String → Tag
new_tag (k, v) = record { key = some k; value = some v }

-- The loop over `keyOrder`: the tags that it appends, and what it leaves in the map.
pub take_ordered : List String → GoMap String → List Tag × GoMap String
take_ordered [] tags = ([], tags)
take_ordered (k ∷ ks) tags = elim (get k tags) [
  | none ↦ take_ordered ks tags
  | some v ↦ let (result, rest) = take_ordered ks (delete k tags) in (new_tag (k, v) ∷ result, rest)
]

-- `strings.HasPrefix(k, "aws:")`
unfoldable pub is_aws_key : String → Bool
is_aws_key k = starts_with k "aws:"

abbrev pub is_ignored : List String → String → Bool
is_ignored system_tags k = is_aws_key k || contains system_tags k

-- The loop of `ignoreSystemTags` over the entries that `range` visits.
pub ignore_loop : List String → List (String × String) → GoMap String → GoMap String
ignore_loop system_tags [] tags = tags
ignore_loop system_tags ((k, _) ∷ visits) tags =
    ignore_loop system_tags visits (if is_ignored system_tags k then delete k tags else tags)

-- The loop of `syncAWSTags`, with the maps `a` and `b`.
pub sync_aws_loop : List (String × String) → GoMap String → GoMap String → GoMap String
sync_aws_loop [] a b = a
sync_aws_loop ((k, _) ∷ visits) a b =
    sync_aws_loop visits (if is_aws_key k then set k (value_or_empty (get k b)) a else a) b

module _ (R : Range) where
  unfoldable pub from_ack_tags : GoMap String → List String → Slice Tag
  unfolding take_ordered get delete
  from_ack_tags tags key_order =
      let (result, rest) = take_ordered key_order tags in
      some (result ++ map new_tag (R.over String rest))

  unfoldable pub ignore_system_tags : GoMap String → List String → GoMap String
  unfolding ignore_loop is_aws_key delete
  ignore_system_tags tags system_tags = ignore_loop system_tags (R.over String tags) tags

  unfoldable pub sync_aws_tags : GoMap String → GoMap String → GoMap String
  unfolding sync_aws_loop is_aws_key set get
  sync_aws_tags a b = sync_aws_loop (R.over String b) a b
