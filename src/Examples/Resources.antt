-- ===== src/Examples/Resources.antt =====
-- A small cloud with the tags of its networks as its state, and resources.
use ack_networkmanager_contr.Prelude.{
  String, ◌≡◌, refl, ◌&&◌, Option, none, some, List, [], ◌∷◌, map, arith, or_else, elements,
  contains, ◌==◌, if◌then◌else◌,
}
use ack_networkmanager_contr.Maps.{GoMap, get}
use ack_networkmanager_contr.Maps.Laws.{get-nil, get-cons}
use ack_networkmanager_contr.Types.{
  Tag, Condition, terminal, resource_synced, status_true, status_false, ResourceMetadata,
  GlobalNetwork, Resource, ResourceManager,
}
use ack_networkmanager_contr.External.{
  SdkTag, SdkGlobalNetwork, TagInput, UntagInput, DescribeInput, DescribeOutput, NetworkOutput,
  Reply, replied, failed, Client,
}
use ack_networkmanager_contr.Effects.{World}
use ack_networkmanager_contr.Tags.{new_tag}
use ack_networkmanager_contr.SyncTags.{sdk_tag}
use ack_networkmanager_contr.SyncTags.Loops.{IsFilled, IsNormal-IsFilled}
use ack_networkmanager_contr.Tags.Values.{tag_at}
use ack_networkmanager_contr.Tags.Convert.{IsNormal}
use ack_networkmanager_contr.SyncTags.Service.{TagService, joined}
use ack_networkmanager_contr.Reporting.Laws.{IsUnique}
use ack_networkmanager_contr.Examples.{Failure, api}

-- The tags by ARN and key.
abbrev Cloud : Type 0
Cloud = String → String → Option String

abbrev keyed :
    Option String → Option String → Option (Option String) → String → Option (Option String)
keyed none v rest k = rest
keyed (some j) v rest k = if j == k then some v else rest

abbrev tag_value : List SdkTag → String → Option (Option String)
tag_value [] k = none
tag_value (t ∷ ts) k = keyed t.key t.value (tag_value ts k) k

pub tag_value-sdk_tag :
    (m : GoMap (Option String)) (k : String) → tag_value (map sdk_tag m) k ≡ get k m
tag_value-sdk_tag [] k = ground (arith, get-nil {V = Option String} k)
tag_value-sdk_tag ((j, v) ∷ m) k = ground (arith, get-cons k j v m, tag_value-sdk_tag m k)

abbrev tag_call : TagInput → Cloud → Reply Failure (Unit {0}) × Cloud
tag_call i s = elim i.resource_arn [
  | none ↦ (failed (api "ValidationException" "no resource"), s)
  | some arn ↦ (
    replied tt,
    λ b k. if arn == b then or_else (joined (tag_value (elements i.tags) k)) (s b k) else s b k,
  )
]

abbrev untag_call : UntagInput → Cloud → Reply Failure (Unit {0}) × Cloud
untag_call i s = elim i.resource_arn [
  | none ↦ (failed (api "ValidationException" "no resource"), s)
  | some arn ↦
      (replied tt, λ b k. if arn == b && contains (elements i.tag_keys) k then none else s b k)
]

-- The network that the cloud describes.
abbrev pub gn_1 : SdkGlobalNetwork
gn_1 = record {
  created_at = some 7;
  description = some "backbone";
  global_network_arn = some "arn:gn-1";
  global_network_id = some "gn-1";
  state = "AVAILABLE";
  tags = some (record { key = some "aws:stack"; value = some "s" } ∷ []);
}

abbrev pub gn_1_output : NetworkOutput
gn_1_output = record { global_network = some gn_1 }

abbrev describe_call : DescribeInput → Cloud → Reply Failure DescribeOutput × Cloud
describe_call i s =
    if contains (elements i.global_network_ids) "gn-1"
    then (replied (record { global_networks = some (gn_1 ∷ []) }), s)
    else if contains (elements i.global_network_ids) "gn-0"
    then (replied (record { global_networks = none }), s)
    else (failed (api "ResourceNotFoundException" "gone"), s)

-- A network with the description "bad" is refused.
abbrev write_call : Option String → Cloud → Reply Failure NetworkOutput × Cloud
write_call (some d) s =
    if d == "bad"
    then (failed (api "ValidationException" "bad description"), s)
    else (replied gn_1_output, s)
write_call none s = (replied gn_1_output, s)

abbrev pub cloud : Client Failure
cloud = record {
  State = Cloud;
  describe_global_networks = describe_call;
  create_global_network = λ i s. write_call i.description s;
  update_global_network = λ i s. write_call i.description s;
  delete_global_network = λ i s. (failed (api "ConflictException" "in use"), s);
  tag_resource = tag_call;
  untag_resource = untag_call;
}

abbrev pub cloud_tags : TagService cloud
cloud_tags = record {
  tags_of = λ s. s;
  after_tag = λ arn m s u success b k. rw (tag_value-sdk_tag m k);
  after_untag = λ arn ks s success b k. refl;
}

-- "arn:gn-1" has two tags.
abbrev pub two_tags : World Failure cloud.State
two_tags = record {
  aws = λ arn k.
      if arn == "arn:gn-1"
      then (if "team" == k then some "net" else if "old" == k then some "1" else none)
      else none;
  metrics = [];
}

abbrev pub manager : ResourceManager
manager = record {
  aws_account_id = "123456789012";
  aws_region = "us-west-2";
  aws_partition = "aws";
}

abbrev pub network : Option String → Option String → List Tag → List Condition → GlobalNetwork
network id description tags conditions = record {
  object_meta = record {
    name = "backbone";
    namespace = "default";
    deletion_timestamp = none;
    finalizers = some ("other" ∷ []);
    annotations = none;
  };
  spec = record { description = description; tags = some tags };
  status = record {
    ack_resource_metadata = some (record {
      arn = some "arn:gn-1";
      owner_account_id = none;
      region = none;
      partition = none;
    });
    conditions = some conditions;
    created_at = none;
    global_network_id = id;
    state = some "AVAILABLE";
  };
}

abbrev pub of_network : GlobalNetwork → Resource
of_network ko = record { ko = some ko }

abbrev pub was_terminal : List Condition
was_terminal =
    record { type = resource_synced; status = status_true; message = none }
    ∷ record { type = terminal; status = status_false; message = none }
    ∷ []

pub was_terminal-IsUnique : IsUnique was_terminal
was_terminal-IsUnique t = ground arith

-- The tags that the cloud holds, and others.
abbrev pub old_tags : List Tag
old_tags = new_tag ("old", "1") ∷ new_tag ("team", "net") ∷ []

abbrev pub new_tags : List Tag
new_tags = new_tag ("team", "core") ∷ new_tag ("env", "prod") ∷ []

-- Networks: not created yet, created, and latest with the tags that the cloud holds.
abbrev pub uncreated : GlobalNetwork
uncreated = network none (some "backbone") new_tags was_terminal

abbrev pub created : GlobalNetwork
created = network (some "gn-1") (some "backbone") new_tags was_terminal

abbrev pub latest : GlobalNetwork
latest = network (some "gn-1") (some "spine") old_tags was_terminal

-- Networks that the cloud does not know, and networks that it refuses.
abbrev pub lost : GlobalNetwork
lost = network (some "gn-9") (some "backbone") new_tags was_terminal

abbrev pub vanished : GlobalNetwork
vanished = network (some "gn-0") (some "backbone") new_tags was_terminal

abbrev pub refused : GlobalNetwork
refused = network (some "gn-1") (some "bad") new_tags was_terminal

-- A cloud that allows no tagging.
abbrev pub closed_cloud : Client Failure
closed_cloud = record cloud {
  tag_resource = λ i s. (failed (api "AccessDeniedException" "not allowed"), s);
}

abbrev pub arn_1 : ResourceMetadata
arn_1 = record { arn = some "arn:gn-1"; owner_account_id = none; region = none; partition = none }

pub new_tags-IsNormal : IsNormal new_tags
new_tags-IsNormal = ("team", "core", refl, refl, ("env", "prod", refl, refl, tt))

pub old_tags-IsNormal : IsNormal old_tags
old_tags-IsNormal = ("old", "1", refl, refl, ("team", "net", refl, refl, tt))

pub new_tags-IsFilled : IsFilled new_tags
new_tags-IsFilled = IsNormal-IsFilled new_tags new_tags-IsNormal

pub old_tags-IsFilled : IsFilled old_tags
old_tags-IsFilled = IsNormal-IsFilled old_tags old_tags-IsNormal

pub two_tags_agree : (k : String) → two_tags.aws "arn:gn-1" k ≡ tag_at k old_tags
two_tags_agree k = ground arith
