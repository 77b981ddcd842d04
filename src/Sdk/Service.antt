-- ===== src/Sdk/Service.antt =====
-- DescribeGlobalNetworks and UpdateGlobalNetwork as they are documented, beside the calls on tags.
use ack_networkmanager_contr.Prelude.{
  String, ◌≡◌, refl, arith, Option, none, some, List, [], ◌∷◌, map, Slice, elements,
}
use ack_networkmanager_contr.External.{
  Client, replied, SdkGlobalNetwork, DescribeInput, DescribeOutput, NetworkOutput, UpdateInput,
  CreateInput, TagInput, UntagInput,
}
use ack_networkmanager_contr.Types.{Tag}
use ack_networkmanager_contr.Tags.Values.{tag_at}
use ack_networkmanager_contr.SyncTags.Service.{TagService}
use ack_networkmanager_contr.Sdk.{read_tag, sent_tag, read_tags, sent_tags}
use ack_networkmanager_contr.Sdk.Find.{describe_one}

-- What AWS holds of a network, by its identifier. The calls on tags leave descriptions alone, an
-- update leaves tags alone and sets the description that it gives, and the first network of a reply
-- to a question for one network is that network, as AWS holds it.
pub record NetworkService {Err : Type 0} (C : Client Err) (T : TagService C) : Type 0 where
  pub arn_of : String → String
  pub description_of : C.State → String → Option String
  pub description_tagged :
      (i : TagInput) (s : C.State) (id : String)
      → description_of (C.tag_resource i s).1 id ≡ description_of s id
  pub description_untagged :
      (i : UntagInput) (s : C.State) (id : String)
      → description_of (C.untag_resource i s).1 id ≡ description_of s id
  pub after_update :
      (d id : String) (s : C.State) (out : NetworkOutput)
      → let i : UpdateInput = record { description = some d; global_network_id = some id } in
        (C.update_global_network i s).0 ≡ replied out
        → description_of (C.update_global_network i s).1 id ≡ some d
  pub tags_updated :
      (i : UpdateInput) (s : C.State) (arn k : String)
      → T.tags_of (C.update_global_network i s).1 arn k ≡ T.tags_of s arn k
  pub described :
      (id : String) (s : C.State) (out : DescribeOutput) (elem : SdkGlobalNetwork)
      (rest : List SdkGlobalNetwork)
      → (C.describe_global_networks (describe_one id) s).0 ≡ replied out
      → elements out.global_networks ≡ elem ∷ rest
      → (elem.description ≡ description_of s id)
        × ((k : String) → tag_at k (elements (read_tags elem.tags)) ≡ T.tags_of s (arn_of id) k)

-- A question changes nothing.
pub record ReadsOnly {Err : Type 0} (C : Client Err) (T : TagService C) (N : NetworkService C T)
    : Type 0 where
  pub tags_described :
      (i : DescribeInput) (s : C.State) (arn k : String)
      → T.tags_of (C.describe_global_networks i s).1 arn k ≡ T.tags_of s arn k
  pub description_described :
      (i : DescribeInput) (s : C.State) (id : String)
      → N.description_of (C.describe_global_networks i s).1 id ≡ N.description_of s id

-- AWS fails none of these calls for the network `id`, which exists.
pub record Answers {Err : Type 0} (C : Client Err) (id : String) : Type 0 where
  pub tagging : (i : TagInput) (s : C.State) → (C.tag_resource i s).0 ≡ replied tt
  pub untagging : (i : UntagInput) (s : C.State) → (C.untag_resource i s).0 ≡ replied tt
  pub updating :
      (i : UpdateInput) (s : C.State)
      → i.global_network_id ≡ some id
      → (out : NetworkOutput) × (elem : SdkGlobalNetwork) × ((C.update_global_network i s).0
          ≡ replied out)
        × (out.global_network ≡ some elem)
  pub describing :
      (s : C.State)
      → (out : DescribeOutput) × (elem : SdkGlobalNetwork) × (rest : List SdkGlobalNetwork)
        × ((C.describe_global_networks (describe_one id) s).0 ≡ replied out)
        × (elements out.global_networks ≡ elem ∷ rest)

-- The network that CreateGlobalNetwork replies is held with the description and the tags of the
-- request.
pub record CreateService {Err : Type 0} (C : Client Err) (T : TagService C) (N : NetworkService C T)
    : Type 0 where
  pub after_create :
      (i : CreateInput) (s s' : C.State) (out : NetworkOutput) (elem : SdkGlobalNetwork)
      (id : String)
      → C.create_global_network i s ≡ (replied out, s')
      → out.global_network ≡ some elem
      → elem.global_network_id ≡ some id
      → (N.description_of s' id ≡ i.description)
        × ((k : String) → T.tags_of s' (N.arn_of id) k ≡ tag_at k (elements (read_tags i.tags)))

-- Tags that were sent come back as they were.
tag_at-sent : (k : String) (ts : List Tag) → tag_at k (map read_tag (map sent_tag ts)) ≡ tag_at k ts
tag_at-sent k [] = refl
tag_at-sent k (t ∷ ts) = ground (arith, tag_at-sent k ts)

pub tag_at-sent_tags :
    (k : String) (ts : Slice Tag)
    → tag_at k (elements (read_tags (sent_tags ts))) ≡ tag_at k (elements ts)
tag_at-sent_tags k none = refl
tag_at-sent_tags k (some ts) = tag_at-sent k ts
