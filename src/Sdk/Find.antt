-- ===== src/Sdk/Find.antt =====
-- The branches of `sdkFind`.
use ack_networkmanager_contr.Prelude.{
  String, ◌≡◌, refl, ap, is_nil, none, some, List, [], ◌∷◌, done, elements, if◌then◌else◌,
}
use ack_networkmanager_contr.Types.{GlobalNetwork, Resource, ResourceManager}
use ack_networkmanager_contr.External.{
  Errors, Client, Reply, replied, failed, SdkGlobalNetwork, DescribeInput, DescribeOutput,
}
use ack_networkmanager_contr.Effects.{World, after_call, error_of}
use ack_networkmanager_contr.Conditions.{set_status_defaults}
use ack_networkmanager_contr.Sdk.{
  new_list_request_payload, is_not_found, set_read_fields, found_resource, read_reply, sdk_find,
}

-- The input that asks for one network.
abbrev pub describe_one : String → DescribeInput
describe_one id = record { global_network_ids = some (id ∷ []) }

payload_of_id :
    (ko : GlobalNetwork) (id : String)
    → ko.status.global_network_id ≡ some id
    → new_list_request_payload ko ≡ describe_one id
unfolding new_list_request_payload
payload_of_id ko id present = rw present

module _ (E : Errors) (C : Client E.Err) (rm : ResourceManager) (r : Resource) (ko : GlobalNetwork)
    (w : World E.Err C.State) (e : r.ko ≡ some ko) where
  -- With no identifier the resource is not created yet, and AWS is not asked.
  pub sdk_find_uncreated :
      ko.status.global_network_id ≡ none → sdk_find E C rm r w ≡ (done (none, some E.not_found), w)
  unfolding sdk_find
  sdk_find_uncreated absent = rw (e, absent)

  -- With one, AWS is asked for that network alone.
  pub sdk_find_call :
      (id : String) (reply : Reply E.Err DescribeOutput) (s : C.State)
      → ko.status.global_network_id ≡ some id
      → C.describe_global_networks (describe_one id) w.aws ≡ (reply, s)
      → sdk_find E C rm r w ≡ (
        done (read_reply E C rm ko reply),
        after_call "READ_MANY" "DescribeGlobalNetworks" (error_of reply) s w,
      )
  unfolding sdk_find
  sdk_find_call id reply s present replies =
      rw (e, ap is_nil present, payload_of_id ko id present, replies)

module _ (E : Errors) (C : Client E.Err) (rm : ResourceManager) (ko : GlobalNetwork) where
  pub read_reply_failed :
      (err : E.Err)
      → read_reply E C rm ko (failed err)
        ≡ (none, some (if is_not_found E (E.as_api_error err) then E.not_found else err))
  unfolding read_reply
  read_reply_failed err = refl

  pub read_reply_empty :
      (out : DescribeOutput)
      → elements out.global_networks ≡ []
      → read_reply E C rm ko (replied out) ≡ (none, some E.not_found)
  unfolding read_reply found_resource
  read_reply_empty out h = rw h

  pub read_reply_found :
      (out : DescribeOutput) (elem : SdkGlobalNetwork) (rest : List SdkGlobalNetwork)
      → elements out.global_networks ≡ elem ∷ rest
      → read_reply E C rm ko (replied out)
        ≡ (some (record { ko = some (set_status_defaults rm (set_read_fields elem ko)) }), none)
  unfolding read_reply found_resource
  read_reply_found out elem rest h = rw h
