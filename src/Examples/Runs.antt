-- ===== src/Examples/Runs.antt =====
-- Examples of the theorems on the operations of the manager.
use ack_networkmanager_contr.Prelude.{
  Option, String, ◌≡◌, ◌↔◌, refl, Bool, true, none, some, List, [], ◌∷◌, or_else, elements,
  if◌then◌else◌, done,
}
use ack_networkmanager_contr.Types.{Tag, Condition, GlobalNetwork}
use ack_networkmanager_contr.External.{Reply, DescribeOutput, replied, NetworkOutput, failed}
use ack_networkmanager_contr.Effects.{error_of, after_call}
use ack_networkmanager_contr.Examples.{
  Failure, api, failures, failures-IsErrors, in_order, in_order-IsRange, plain_utilities,
  plain_utilities-IsUtilities,
}
use ack_networkmanager_contr.Examples.Resources.{
  cloud, two_tags, manager, of_network, was_terminal-IsUnique, uncreated, created, lost, gn_1,
  gn_1_output,
}
use ack_networkmanager_contr.Tags.{is_aws_key}
use ack_networkmanager_contr.Tags.Values.{tag_at}
use ack_networkmanager_contr.Tags.Convert.{IsNormal}
use ack_networkmanager_contr.Conditions.Report.{IsReport}
use ack_networkmanager_contr.Sdk.{read_tags, new_create_request_payload}
use ack_networkmanager_contr.Sdk.Merge.{IsMerged}
use ack_networkmanager_contr.Sdk.{ResourceResult}
use ack_networkmanager_contr.Tagging.{set_tags}
use ack_networkmanager_contr.Manager.{read_one, create, delete, is_synced}
use ack_networkmanager_contr.Manager.Crud.{Failed, Written, create_lem}
use ack_networkmanager_contr.Manager.Absent.{after_ask, read_error, read_nothing}
use ack_networkmanager_contr.Manager.Read.{read_found}
use ack_networkmanager_contr.Manager.Delete.{Deleted, delete_lem}
use ack_networkmanager_contr.Manager.Sync.{is_synced_lem}

-- AWS does not know the identifier.
abbrev lost_reply : Option (Reply Failure DescribeOutput × cloud.State)
lost_reply = some (failed (api "ResourceNotFoundException" "gone"), two_tags.aws)

read_nothing_example :
    (result : ResourceResult failures.Err) × (read_one failures cloud manager in_order
        (of_network lost)
        two_tags
      ≡ (done (result, (of_network lost)), after_ask lost_reply two_tags))
    × Failed failures manager lost (read_error failures lost_reply) result
read_nothing_example =
    read_nothing failures failures-IsErrors cloud manager in_order (of_network lost) lost two_tags
      refl lost_reply was_terminal-IsUnique refl refl

read_found_example :
    (ko' : GlobalNetwork) × (cs : List Condition) × (tags : List Tag) × (read_one failures cloud
        manager in_order
        (of_network created)
        two_tags
      ≡ (
        done (
          (some (record { ko = some ko' }), none),
          record { ko = some (set_tags (some tags) created) },
        ),
        after_call "READ_MANY" "DescribeGlobalNetworks" none two_tags.aws two_tags,
      ))
    × IsMerged manager gn_1 created ko'
    × (ko'.status.conditions ≡ some cs)
    × IsReport failures none (elements created.status.conditions) cs
    × ((k : String)
        → tag_at k tags ≡ (
            if is_aws_key k
            then or_else
                (tag_at k (elements (read_tags gn_1.tags)))
                (tag_at k (elements created.spec.tags))
            else tag_at k (elements created.spec.tags)))
    × IsNormal tags
read_found_example =
    read_found failures failures-IsErrors cloud manager in_order (of_network created) created
      two_tags refl "gn-1" (record { global_networks = some (gn_1 ∷ []) }) gn_1 [] two_tags.aws
      in_order-IsRange refl refl refl

delete_lem_example :
    (result : ResourceResult failures.Err) × (delete failures cloud manager
        (of_network created)
        two_tags
      ≡ (
        done result,
        after_call "DELETE" "DeleteGlobalNetwork"
            (error_of {Err = Failure} {Out = NetworkOutput}
              (failed (api "ConflictException" "in use")))
            two_tags.aws
            two_tags,
      ))
    × Deleted failures manager created (failed (api "ConflictException" "in use")) result
delete_lem_example =
    delete_lem failures failures-IsErrors cloud manager in_order (of_network created) created
      two_tags refl (failed (api "ConflictException" "in use")) two_tags.aws was_terminal-IsUnique
      refl

create_lem_example :
    (result : ResourceResult failures.Err) × (create failures cloud manager
        (of_network uncreated)
        two_tags
      ≡ (done result, after_call "CREATE" "CreateGlobalNetwork" none two_tags.aws two_tags))
    × Written failures manager uncreated uncreated (replied gn_1_output) result
unfolding new_create_request_payload
create_lem_example =
    create_lem failures failures-IsErrors manager cloud (of_network uncreated) uncreated two_tags
      refl (replied gn_1_output) two_tags.aws was_terminal-IsUnique (λ e. cc) refl

is_synced_lem_example :
    (b : Bool) × (is_synced plain_utilities (of_network created) ≡ done b)
    × ((b ≡ true) ↔ (created.status.state ≡ some "AVAILABLE"))
is_synced_lem_example =
    is_synced_lem plain_utilities plain_utilities-IsUtilities (of_network created) created refl
