-- ===== src/Sdk/Merge.antt =====
-- A resource after the fields of a reply and the status defaults were set in it.
use ack_networkmanager_contr.Prelude.{◌≡◌, some, arith, elements, or_else, Slice}
use ack_networkmanager_contr.Types.{Condition, GlobalNetwork, ResourceMetadata, ResourceManager}
use ack_networkmanager_contr.External.{SdkGlobalNetwork}
use ack_networkmanager_contr.Conditions.{metadata_or_empty, set_status_defaults}
use ack_networkmanager_contr.Sdk.{read_tags, read_state, set_read_fields, set_output_fields}

abbrev pub metadata_of : GlobalNetwork → ResourceMetadata
metadata_of ko = metadata_or_empty ko.status.ack_resource_metadata

-- `after` holds what the reply says of the network, and what `before` says where the reply cannot:
-- the object's metadata, and identifiers that the reply leaves out.
pub record IsMerged (rm : ResourceManager) (elem : SdkGlobalNetwork) (before after : GlobalNetwork)
    : Type 0 where
  pub description : after.spec.description ≡ elem.description
  pub tags : after.spec.tags ≡ read_tags elem.tags
  pub id : after.status.global_network_id ≡ elem.global_network_id
  pub created_at : after.status.created_at ≡ elem.created_at
  pub state : after.status.state ≡ read_state elem.state
  pub arn : (metadata_of after).arn ≡ or_else elem.global_network_arn (metadata_of before).arn
  pub region : (metadata_of after).region ≡ or_else (metadata_of before).region (some rm.aws_region)
  pub partition :
      (metadata_of after).partition ≡ or_else (metadata_of before).partition (some rm.aws_partition)
  pub owner :
      (metadata_of after).owner_account_id
      ≡ or_else (metadata_of before).owner_account_id (some rm.aws_account_id)
  pub object : after.object_meta ≡ before.object_meta

-- The status defaults, set once more, change nothing.
pub set_status_defaults_twice :
    (rm : ResourceManager) (ko : GlobalNetwork)
    → set_status_defaults rm (set_status_defaults rm ko) ≡ set_status_defaults rm ko
unfolding set_status_defaults
set_status_defaults_twice rm ko = ground arith

pub elements-defaults :
    (rm : ResourceManager) (ko : GlobalNetwork)
    → elements (set_status_defaults rm ko).status.conditions ≡ elements ko.status.conditions
unfolding set_status_defaults
elements-defaults rm ko = ground arith

-- `conditions` in place of the list of a network.
abbrev pub put_conditions : Slice Condition → GlobalNetwork → GlobalNetwork
put_conditions cs ko = record ko { status = record ko.status { conditions = cs } }

module _ (rm : ResourceManager) (elem : SdkGlobalNetwork) (ko : GlobalNetwork) where
  pub read-IsMerged :
      (cs : Slice Condition)
      → IsMerged rm elem ko (put_conditions cs (set_status_defaults rm (set_read_fields elem ko)))
  unfolding set_status_defaults set_read_fields
  read-IsMerged cs = ground arith

  pub output-IsMerged :
      (cs : Slice Condition)
      → IsMerged rm elem ko (put_conditions cs (set_status_defaults rm (set_output_fields elem ko)))
  unfolding set_status_defaults set_output_fields
  output-IsMerged cs = ground arith

  pub conditions-read :
      elements (set_status_defaults rm (set_read_fields elem ko)).status.conditions
      ≡ elements ko.status.conditions
  unfolding set_read_fields
  conditions-read = elements-defaults rm (set_read_fields elem ko)

  pub conditions-output :
      elements (set_status_defaults rm (set_output_fields elem ko)).status.conditions
      ≡ elements ko.status.conditions
  unfolding set_output_fields
  conditions-output = elements-defaults rm (set_output_fields elem ko)
