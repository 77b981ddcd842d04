-- ===== src/Tagging.antt =====
-- `EnsureTags`, `FilterSystemTags` and `mirrorAWSTags` of pkg/resource/global_network/manager.go.
-- Each changes the resource that it is given, and the model returns the changed resource.
pub mod Lists
pub mod Laws
use ack_networkmanager_contr.Prelude.{
  String, Option, none, some, List, Slice, Outcome, done, panic, message,
}
use ack_networkmanager_contr.Maps.{Range}
use ack_networkmanager_contr.Types.{Tag, GlobalNetwork, Resource}
use ack_networkmanager_contr.External.{TagLibrary}
use ack_networkmanager_contr.Tags.{
  convert_to_ordered_ack_tags, from_ack_tags, ignore_system_tags, sync_aws_tags,
}

-- `ko.Spec.Tags = tags`
abbrev pub set_tags : Slice Tag → GlobalNetwork → GlobalNetwork
set_tags tags ko = record ko { spec = record ko.spec { tags = tags } }

module _ (R : Range) where
  unfoldable pub ensured_tags : TagLibrary → GlobalNetwork → Slice Tag
  unfolding convert_to_ordered_ack_tags from_ack_tags
  ensured_tags T ko =
      let default_tags = T.get_default_tags ko in
      let (resource_tags, key_order) = convert_to_ordered_ack_tags ko.spec.tags in
      from_ack_tags R (T.merge resource_tags default_tags) key_order

  -- `EnsureTags`; the error that it returns is always nil.
  unfoldable pub ensure_tags : TagLibrary → Resource → Outcome Resource
  unfolding ensured_tags
  ensure_tags T r = elim r.ko [
    | none ↦
        panic (message "resource manager's EnsureTags method received resource with nil CR object")
    | some ko ↦ done (record { ko = some (set_tags (ensured_tags T ko) ko) })
  ]

  unfoldable pub filtered_tags : List String → Slice Tag → Slice Tag
  unfolding convert_to_ordered_ack_tags from_ack_tags ignore_system_tags
  filtered_tags system_tags existing_tags =
      let (resource_tags, tag_key_order) = convert_to_ordered_ack_tags existing_tags in
      from_ack_tags R (ignore_system_tags R resource_tags system_tags) tag_key_order

  filter_resource : List String → Resource → Resource
  filter_resource system_tags r = elim r.ko [
    | none ↦ r
    | some ko ↦ record { ko = some (set_tags (filtered_tags system_tags ko.spec.tags) ko) }
  ]

  unfoldable pub filter_system_tags : Option Resource → List String → Option Resource
  unfolding filter_resource filtered_tags
  filter_system_tags none system_tags = none
  filter_system_tags (some r) system_tags = some (filter_resource system_tags r)

  unfoldable pub mirrored_tags : Slice Tag → Slice Tag → Slice Tag
  unfolding convert_to_ordered_ack_tags from_ack_tags sync_aws_tags
  mirrored_tags existing_desired_tags existing_latest_tags =
      let (desired_tags, desired_tag_key_order) =
        convert_to_ordered_ack_tags existing_desired_tags in
      let (latest_tags, _) = convert_to_ordered_ack_tags existing_latest_tags in
      from_ack_tags R (sync_aws_tags R desired_tags latest_tags) desired_tag_key_order

  mirror_resource : Resource → Resource → Resource
  mirror_resource a b = elim a.ko [
    | none ↦ a
    | some ko ↦ elim b.ko [
      | none ↦ a
      | some latest ↦ record {
        ko = some (set_tags (mirrored_tags ko.spec.tags latest.spec.tags) ko);
      }
    ]
  ]

  unfoldable pub mirror_aws_tags : Option Resource → Option Resource → Option Resource
  unfolding mirror_resource mirrored_tags
  mirror_aws_tags none b = none
  mirror_aws_tags (some a) none = some a
  mirror_aws_tags (some a) (some b) = some (mirror_resource a b)
