-- ===== src/Tagging/Laws.antt =====
-- `EnsureTags`, `FilterSystemTags` and `mirrorAWSTags` on resources.
use ack_networkmanager_contr.Prelude.{
  String, ◌≡◌, refl, ap, not, Option, none, some, List, arith, or_else, elements, done,
  if◌then◌else◌, Option-cases, inl, inr,
}
use ack_networkmanager_contr.Maps.{get, Range, IsRange}
use ack_networkmanager_contr.Types.{Tag, GlobalNetwork, Resource}
use ack_networkmanager_contr.External.{TagLibrary, IsTagLibrary}
use ack_networkmanager_contr.Tags.{is_aws_key, is_ignored}
use ack_networkmanager_contr.Tags.Values.{tag_at}
use ack_networkmanager_contr.Tags.Convert.{IsNormal, keep_tags}
use ack_networkmanager_contr.Tagging.{
  set_tags, ensured_tags, ensure_tags, filtered_tags, filter_resource, filter_system_tags,
  mirrored_tags, mirror_aws_tags,
}
use ack_networkmanager_contr.Tagging.Lists.{
  ensured_tags-elements, filtered_tags-elements, mirrored_tags-elements, tag_at-ensured_tags,
  ensured_tags-IsNormal, tag_at-filtered_tags, filtered_tags-IsNormal, filtered_tags-keep_tags,
  filtered_tags_twice, tag_at-mirrored_tags, mirrored_tags-IsNormal,
}

module _ (R : Range) (L : IsRange R) where
  -- `range` visits each entry of a map once, and the resource has `ko`. The merge of `acktags`
  -- keeps the first map's values. `EnsureTags` does not panic and changes the tags alone: each
  -- key that had a value keeps it, each other key takes the controller's default, if there is
  -- one; afterwards every tag has a key and a value and no key stands twice.
  pub ensure_tags_lem :
      (T : TagLibrary) (r : Resource) (ko : GlobalNetwork)
      → IsTagLibrary T
      → r.ko ≡ some ko
      → (tags : List Tag) × (ensure_tags R T r
          ≡ done (record { ko = some (set_tags (some tags) ko) }))
        × IsNormal tags
        × ((k : String)
            → tag_at k tags
              ≡ or_else (tag_at k (elements ko.spec.tags)) (get k (T.get_default_tags ko)))
  unfolding ensure_tags
  ensure_tags_lem T r ko TL e = (
    elements (ensured_tags R T ko),
    rw (e, ensured_tags-elements R T ko),
    ensured_tags-IsNormal R L T TL ko,
    tag_at-ensured_tags R L T TL ko,
  )

  -- `range` visits each entry of a map once, and the resource has `ko`. `FilterSystemTags`
  -- changes the tags alone: a key that starts with "aws:" or is one of the system tags has no tag
  -- any more, each other key keeps its value; afterwards every tag has a key and a value and no
  -- key stands twice.
  pub filter_system_tags_lem :
      (r : Resource) (ko : GlobalNetwork) (system_tags : List String)
      → r.ko ≡ some ko
      → (tags : List Tag) × (filter_system_tags R (some r) system_tags
          ≡ some (record { ko = some (set_tags (some tags) ko) }))
        × IsNormal tags
        × ((k : String)
            → tag_at k tags
              ≡ (if is_ignored system_tags k then none else tag_at k (elements ko.spec.tags)))
  unfolding filter_system_tags
  filter_system_tags_lem r ko system_tags e = (
    elements (filtered_tags R system_tags ko.spec.tags),
    rw (e, filtered_tags-elements R system_tags ko.spec.tags),
    filtered_tags-IsNormal R L system_tags ko.spec.tags,
    tag_at-filtered_tags R L system_tags ko.spec.tags,
  )

  -- `range` visits each entry of a map once, and the resource has `ko`. If every tag has a key
  -- and a value and no key stands twice, `FilterSystemTags` leaves the tags that it keeps in
  -- their order, so that the order of `range` does not matter.
  pub filter_system_tags_order :
      (r : Resource) (ko : GlobalNetwork) (system_tags : List String)
      → r.ko ≡ some ko
      → IsNormal (elements ko.spec.tags)
      → let kept = keep_tags (λ k. not (is_ignored system_tags k)) (elements ko.spec.tags) in
        filter_system_tags R (some r) system_tags
        ≡ some (record { ko = some (set_tags (some kept) ko) })
  unfolding filter_system_tags
  filter_system_tags_order r ko system_tags e n =
      rw (e, filtered_tags-keep_tags R L system_tags ko.spec.tags n)

  filter_resource_twice :
      (r : Resource) (system_tags : List String)
      → filter_resource R system_tags (filter_resource R system_tags r)
        ≡ filter_resource R system_tags r
  unfolding filter_resource
  filter_resource_twice r system_tags = elim (Option-cases r.ko) [
    | inl absent ↦ ground arith
    | inr (ko, e) ↦ ground (arith, filtered_tags_twice R L system_tags ko.spec.tags)
  ]

  -- If `range` visits each entry of a map once, a second call of `FilterSystemTags` with the same
  -- system tags changes nothing, for a resource with any tags, one with no `ko` and no resource.
  pub filter_system_tags_twice :
      (r : Option Resource) (system_tags : List String)
      → filter_system_tags R (filter_system_tags R r system_tags) system_tags
        ≡ filter_system_tags R r system_tags
  unfolding filter_system_tags
  filter_system_tags_twice none system_tags = refl
  filter_system_tags_twice (some r) system_tags = ap some (filter_resource_twice r system_tags)

  -- `range` visits each entry of a map once, and both resources have `ko`. `mirrorAWSTags`
  -- changes the tags of the first alone: a key that starts with "aws:" takes the value of the
  -- second resource, if it has one there, each other key keeps its own; afterwards every tag has
  -- a key and a value and no key stands twice.
  pub mirror_aws_tags_lem :
      (a b : Resource) (ko latest : GlobalNetwork)
      → a.ko ≡ some ko
      → b.ko ≡ some latest
      → (tags : List Tag) × (mirror_aws_tags R (some a) (some b)
          ≡ some (record { ko = some (set_tags (some tags) ko) }))
        × IsNormal tags
        × ((k : String)
            → tag_at k tags ≡ (
                if is_aws_key k
                then or_else
                    (tag_at k (elements latest.spec.tags))
                    (tag_at k (elements ko.spec.tags))
                else tag_at k (elements ko.spec.tags)))
  unfolding mirror_aws_tags
  mirror_aws_tags_lem a b ko latest ea eb = (
    elements (mirrored_tags R ko.spec.tags latest.spec.tags),
    rw (ea, eb, mirrored_tags-elements R ko.spec.tags latest.spec.tags),
    mirrored_tags-IsNormal R L ko.spec.tags latest.spec.tags,
    tag_at-mirrored_tags R L ko.spec.tags latest.spec.tags,
  )
