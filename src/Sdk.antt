-- ===== src/Sdk.antt =====
-- pkg/resource/global_network/sdk.go: request payloads, the merging of replies, and the four
-- functions that call AWS.
pub mod Merge
pub mod Find
pub mod Write
pub mod Service
use ack_networkmanager_contr.Prelude.{
  String, Bool, true, false, not, Option, none, some, List, [], ◌∷◌, map, Slice, elements, deref,
  or_else, is_nil, ◌==◌, if◌then◌else◌,
}
use ack_networkmanager_contr.Maps.{Range}
use ack_networkmanager_contr.Types.{
  Tag, GlobalNetwork, ResourceMetadata, empty_metadata, Resource, ResourceManager,
}
use ack_networkmanager_contr.External.{
  Errors, Compare, Client, Reply, replied, failed, SdkTag, SdkGlobalNetwork, DescribeInput,
  DescribeOutput, CreateInput, UpdateInput, DeleteInput, NetworkOutput,
}
use ack_networkmanager_contr.Effects.{M, ◌>>=◌, ◌>>◌, pure, lift, call, record_api_call, error_of}
use ack_networkmanager_contr.Conditions.{metadata_or_empty, set_status_defaults}
use ack_networkmanager_contr.SyncTags.{sync_tags}

-- `f5elem` takes each field that is not nil, so it takes both.
abbrev pub read_tag : SdkTag → Tag
read_tag t = record { key = t.key; value = t.value }

abbrev pub sent_tag : Tag → SdkTag
sent_tag t = record { key = t.key; value = t.value }

-- The branches on `Tags != nil`.
abbrev pub read_tags : Slice SdkTag → Slice Tag
read_tags none = none
read_tags (some ts) = some (map read_tag ts)

abbrev pub sent_tags : Slice Tag → Slice SdkTag
sent_tags none = none
sent_tags (some ts) = some (map sent_tag ts)

-- The branches on `State != ""`.
abbrev pub read_state : String → Option String
read_state s = if s == "" then none else some s

-- `requiredFieldsMissingFromReadManyInput`
unfoldable pub required_fields_missing_from_read_many_input : GlobalNetwork → Bool
required_fields_missing_from_read_many_input ko = is_nil ko.status.global_network_id

unfoldable pub new_list_request_payload : GlobalNetwork → DescribeInput
new_list_request_payload ko = elim ko.status.global_network_id [
  | none ↦ record { global_network_ids = none }
  | some id ↦ record { global_network_ids = some (id ∷ []) }
]

unfoldable pub new_create_request_payload : GlobalNetwork → CreateInput
new_create_request_payload ko = record {
  description = ko.spec.description;
  tags = sent_tags ko.spec.tags;
}

unfoldable pub new_update_request_payload : GlobalNetwork → UpdateInput
new_update_request_payload ko = record {
  description = ko.spec.description;
  global_network_id = ko.status.global_network_id;
}

unfoldable pub new_delete_request_payload : GlobalNetwork → DeleteInput
new_delete_request_payload ko = record { global_network_id = ko.status.global_network_id }

-- The metadata after a read: it is made only for an ARN.
abbrev pub read_metadata : Option String → Option ResourceMetadata → Option ResourceMetadata
read_metadata none m = m
read_metadata (some arn) m = some (record (metadata_or_empty m) { arn = some arn })

-- The metadata after a create or an update: it is always made.
abbrev pub output_metadata : Option String → Option ResourceMetadata → Option ResourceMetadata
output_metadata arn m =
    let m' = metadata_or_empty m in some (record m' { arn = or_else arn m'.arn })

abbrev pub merge :
    (Option String → Option ResourceMetadata → Option ResourceMetadata)
    → SdkGlobalNetwork
    → GlobalNetwork
    → GlobalNetwork
merge metadata elem ko = record ko {
  spec = record { description = elem.description; tags = read_tags elem.tags };
  status = record ko.status {
    ack_resource_metadata = metadata elem.global_network_arn ko.status.ack_resource_metadata;
    created_at = elem.created_at;
    global_network_id = elem.global_network_id;
    state = read_state elem.state;
  };
}

-- The body of the loop in `sdkFind`.
unfoldable pub set_read_fields : SdkGlobalNetwork → GlobalNetwork → GlobalNetwork
set_read_fields = merge read_metadata

-- The assignments of `sdkCreate` from its output, and the same ones of `sdkUpdate`.
unfoldable pub set_output_fields : SdkGlobalNetwork → GlobalNetwork → GlobalNetwork
set_output_fields = merge output_metadata

-- The results of a function that returns a resource and an error.
abbrev pub ResourceResult : Type 0 → Type 0
ResourceResult Err = Option Resource × Option Err

-- `awsErr.ErrorCode() == "ResourceNotFoundException"` on what `errors.As` finds
abbrev pub is_not_found : (E : Errors) → Option E.ApiError → Bool
is_not_found E none = false
is_not_found E (some e) = E.error_code e == "ResourceNotFoundException"

module _ (E : Errors) (C : Client E.Err) (rm : ResourceManager) where
  -- The loop breaks after its first element.
  unfoldable pub found_resource : GlobalNetwork → List SdkGlobalNetwork → ResourceResult E.Err
  found_resource ko [] = (none, some E.not_found)
  found_resource ko (elem ∷ _) =
      (some (record { ko = some (set_status_defaults rm (set_read_fields elem ko)) }), none)

  unfoldable pub read_reply : GlobalNetwork → Reply E.Err DescribeOutput → ResourceResult E.Err
  read_reply ko (failed err) =
      (none, some (if is_not_found E (E.as_api_error err) then E.not_found else err))
  read_reply ko (replied out) = found_resource ko (elements out.global_networks)

  unfoldable pub sdk_find : Resource → M E.Err C.State (ResourceResult E.Err)
  unfolding found_resource read_reply required_fields_missing_from_read_many_input
  sdk_find r = do
    ko ← lift (deref r.ko)
    if required_fields_missing_from_read_many_input ko then pure (none, some E.not_found) else (do
      reply ← call (C.describe_global_networks (new_list_request_payload ko))
      record_api_call "READ_MANY" "DescribeGlobalNetworks" (error_of reply)
      pure (read_reply ko reply))

  -- The end of `sdkCreate` and of `sdkUpdate`, from the reply on.
  unfoldable pub write_reply :
      GlobalNetwork → Reply E.Err NetworkOutput → M E.Err C.State (ResourceResult E.Err)
  write_reply ko (failed err) = pure (none, some err)
  write_reply ko (replied out) = do
    elem ← lift (deref out.global_network)
    pure (some (record { ko = some (set_status_defaults rm (set_output_fields elem ko)) }), none)

  unfoldable pub sdk_create : Resource → M E.Err C.State (ResourceResult E.Err)
  unfolding write_reply
  sdk_create desired = do
    ko ← lift (deref desired.ko)
    reply ← call (C.create_global_network (new_create_request_payload ko))
    record_api_call "CREATE" "CreateGlobalNetwork" (error_of reply)
    write_reply ko reply

  unfoldable pub sdk_delete : Resource → M E.Err C.State (ResourceResult E.Err)
  sdk_delete r = do
    ko ← lift (deref r.ko)
    reply ← call (C.delete_global_network (new_delete_request_payload ko))
    record_api_call "DELETE" "DeleteGlobalNetwork" (error_of reply)
    pure (none, error_of reply)

  module _ (R : Range) (D : Compare) where
    -- `if delta.DifferentAt("Spec.Tags")`, with the error of `syncTags`.
    unfoldable pub tags_step : Resource → Resource → D.Delta → M E.Err C.State (Option E.Err)
    tags_step desired latest delta =
        if D.different_at delta "Spec.Tags"
        then (do
          ko ← lift (deref desired.ko)
          metadata ← lift (deref ko.status.ack_resource_metadata)
          arn ← lift (deref metadata.arn)
          latest_ko ← lift (deref latest.ko)
          sync_tags R C arn ko.spec.tags latest_ko.spec.tags)
        else pure none

    -- The part of `sdkUpdate` behind the hook.
    unfoldable pub update_step : Resource → D.Delta → M E.Err C.State (ResourceResult E.Err)
    update_step desired delta =
        if not (D.different_except delta "Spec.Tags") then pure (some desired, none) else (do
          ko ← lift (deref desired.ko)
          reply ← call (C.update_global_network (new_update_request_payload ko))
          record_api_call "UPDATE" "UpdateGlobalNetwork" (error_of reply)
          write_reply ko reply)

    unfoldable pub sdk_update :
        Resource → Resource → D.Delta → M E.Err C.State (ResourceResult E.Err)
    sdk_update desired latest delta = do
      synced ← tags_step desired latest delta
      elim synced [ some err ↦ pure (none, some err) | none ↦ update_step desired delta ]
