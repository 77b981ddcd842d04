-- ===== src/Tagging/Lists.antt =====
-- The lists of tags that `EnsureTags`, `FilterSystemTags` and `mirrorAWSTags` write.
use ack_networkmanager_contr.Prelude.{
  String, ◌≡◌, refl, ap, ◌∙◌, Bool, false, not, none, some, List, [], ◌∷◌, arith, or_else, Slice,
  elements, eq_iff, eq_refl, if◌then◌else◌,
}
use ack_networkmanager_contr.Maps.{get, NodupKeys, Range, IsRange}
use ack_networkmanager_contr.Types.{Tag, GlobalNetwork}
use ack_networkmanager_contr.External.{TagLibrary, IsTagLibrary}
use ack_networkmanager_contr.Tags.{is_aws_key, is_ignored, convert_to_ordered_ack_tags}
use ack_networkmanager_contr.Tags.Values.{tag_at, get-convert, convert-NodupKeys, convert-tag_keys}
use ack_networkmanager_contr.Tags.Convert.{
  IsNormal, keep_tags, tag_at-from_ack_tags, from_ack_tags-IsNormal, from_ack_tags-keep_tags,
}
use ack_networkmanager_contr.Tags.Filter.{
  get-ignore_system_tags, ignore_system_tags-NodupKeys, get-sync_aws_tags, sync_aws_tags-NodupKeys,
}
use ack_networkmanager_contr.Tagging.{ensured_tags, filtered_tags, mirrored_tags}

-- Dropping keys that the list does not hold changes nothing.
keep_tags_of_absent :
    (p : String → Bool) (ts : List Tag)
    → IsNormal ts
    → ((k : String) → p k ≡ false → tag_at k ts ≡ none)
    → keep_tags p ts ≡ ts
keep_tags_of_absent p [] _ _ = refl
keep_tags_of_absent p (t ∷ ts) (k, v, e, fresh, n) h = ground (
  arith,
  h k,
  eq_refl k,
  keep_tags_of_absent p ts n λ j dropped. ground (arith, h j dropped, eq_iff k j),
)

module _ (R : Range) where
  pub ensured_tags-elements :
      (T : TagLibrary) (ko : GlobalNetwork)
      → some (elements (ensured_tags R T ko)) ≡ ensured_tags R T ko
  unfolding ensured_tags
  ensured_tags-elements T ko = refl

  pub filtered_tags-elements :
      (system_tags : List String) (tags : Slice Tag)
      → some (elements (filtered_tags R system_tags tags)) ≡ filtered_tags R system_tags tags
  unfolding filtered_tags
  filtered_tags-elements system_tags tags = refl

  pub mirrored_tags-elements :
      (desired latest : Slice Tag)
      → some (elements (mirrored_tags R desired latest)) ≡ mirrored_tags R desired latest
  unfolding mirrored_tags
  mirrored_tags-elements desired latest = refl

module _ (R : Range) (L : IsRange R) where
  module _ (T : TagLibrary) (TL : IsTagLibrary T) (ko : GlobalNetwork) where
    default_map-NodupKeys :
        NodupKeys (T.merge (convert_to_ordered_ack_tags ko.spec.tags).0 (T.get_default_tags ko))
    default_map-NodupKeys =
        TL.merge-NodupKeys _ _ (convert-NodupKeys ko.spec.tags) (TL.default-NodupKeys ko)

    -- A key keeps its own value; one that has none gets the controller's default.
    pub tag_at-ensured_tags :
        (k : String)
        → tag_at k (elements (ensured_tags R T ko))
          ≡ or_else (tag_at k (elements ko.spec.tags)) (get k (T.get_default_tags ko))
    unfolding ensured_tags
    tag_at-ensured_tags k =
        tag_at-from_ack_tags R L k _ _ default_map-NodupKeys
        ∙ TL.get-merge k (convert_to_ordered_ack_tags ko.spec.tags).0 (T.get_default_tags ko)
        ∙ rw (get-convert ko.spec.tags k)

    pub ensured_tags-IsNormal : IsNormal (elements (ensured_tags R T ko))
    unfolding ensured_tags
    ensured_tags-IsNormal = from_ack_tags-IsNormal R L _ _ default_map-NodupKeys

  module _ (system_tags : List String) (tags : Slice Tag) where
    pub tag_at-filtered_tags :
        (k : String)
        → tag_at k (elements (filtered_tags R system_tags tags))
          ≡ (if is_ignored system_tags k then none else tag_at k (elements tags))
    unfolding filtered_tags
    tag_at-filtered_tags k =
        tag_at-from_ack_tags R L k _ _
          (ignore_system_tags-NodupKeys R L _ system_tags (convert-NodupKeys tags))
        ∙ get-ignore_system_tags R L k (convert_to_ordered_ack_tags tags).0 system_tags
        ∙ rw (get-convert tags k)

    pub filtered_tags-IsNormal : IsNormal (elements (filtered_tags R system_tags tags))
    unfolding filtered_tags
    filtered_tags-IsNormal =
        from_ack_tags-IsNormal R L _ _
          (ignore_system_tags-NodupKeys R L _ system_tags (convert-NodupKeys tags))

    pub filtered_tags-keep_tags :
        IsNormal (elements tags)
        → filtered_tags R system_tags tags
          ≡ some (keep_tags (λ k. not (is_ignored system_tags k)) (elements tags))
    unfolding filtered_tags
    filtered_tags-keep_tags n = rw (convert-tag_keys tags) (
        from_ack_tags-keep_tags R L (λ k. not (is_ignored system_tags k)) (elements tags) _ n
          λ k.
            get-ignore_system_tags R L k (convert_to_ordered_ack_tags tags).0 system_tags
            ∙ rw (get-convert tags k) (ground arith))

  pub filtered_tags_twice :
      (system_tags : List String) (tags : Slice Tag)
      → filtered_tags R system_tags (filtered_tags R system_tags tags)
        ≡ filtered_tags R system_tags tags
  filtered_tags_twice system_tags tags =
      let f = filtered_tags R system_tags tags in
      filtered_tags-keep_tags system_tags f (filtered_tags-IsNormal system_tags tags)
      ∙ ap some (
          keep_tags_of_absent (λ k. not (is_ignored system_tags k)) (elements f)
            (filtered_tags-IsNormal system_tags tags)
            (λ k dropped. ground (arith, tag_at-filtered_tags system_tags tags k)))
      ∙ filtered_tags-elements R system_tags tags

  module _ (desired latest : Slice Tag) where
    pub tag_at-mirrored_tags :
        (k : String)
        → tag_at k (elements (mirrored_tags R desired latest)) ≡ (
            if is_aws_key k
            then or_else (tag_at k (elements latest)) (tag_at k (elements desired))
            else tag_at k (elements desired))
    unfolding mirrored_tags
    tag_at-mirrored_tags k =
        tag_at-from_ack_tags R L k _ _ (sync_aws_tags-NodupKeys R L _ _ (convert-NodupKeys desired))
        ∙ get-sync_aws_tags R L k _ _
        ∙ rw (get-convert desired k, get-convert latest k)

    pub mirrored_tags-IsNormal : IsNormal (elements (mirrored_tags R desired latest))
    unfolding mirrored_tags
    mirrored_tags-IsNormal =
        from_ack_tags-IsNormal R L _ _ (sync_aws_tags-NodupKeys R L _ _ (convert-NodupKeys desired))
