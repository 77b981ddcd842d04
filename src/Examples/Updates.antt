-- ===== src/Examples/Updates.antt =====
-- Examples of the theorems on updates.
use ack_networkmanager_contr.Prelude.{
  String, ◌≡◌, ◌⊎◌, refl, none, some, List, [], ◌∷◌, elements, ◌==◌, if◌then◌else◌, done,
}
use ack_networkmanager_contr.Types.{Condition, GlobalNetwork}
use ack_networkmanager_contr.Effects.{World, after_call}
use ack_networkmanager_contr.Examples.{
  Failure, api, failures, failures-IsErrors, in_order, in_order-IsRange, paths, paths-IsCompare,
}
use ack_networkmanager_contr.Examples.Resources.{
  cloud, closed_cloud, cloud_tags, two_tags, manager, of_network, was_terminal-IsUnique, created,
  latest, refused, arn_1, new_tags-IsFilled, old_tags-IsFilled, two_tags_agree,
}
use ack_networkmanager_contr.Tags.Values.{tag_at}
use ack_networkmanager_contr.Conditions.Report.{IsReport, with_conditions, mentions_sync}
use ack_networkmanager_contr.Sdk.{tags_step, new_update_request_payload}
use ack_networkmanager_contr.SyncTags.{sync_tags, apply_changes}
use ack_networkmanager_contr.SyncTags.Service.{Refused}
use ack_networkmanager_contr.Sdk.{ResourceResult}
use ack_networkmanager_contr.Delta.{new_resource_delta}
use ack_networkmanager_contr.Manager.{update}
use ack_networkmanager_contr.External.{failed}
use ack_networkmanager_contr.Manager.Crud.{Written, Failed}
use ack_networkmanager_contr.Manager.Update.{update_lem, update_tags_only, update_unsynced}
use ack_networkmanager_contr.Manager.Converge.{tags_converge}

described_only :
    (ko : GlobalNetwork)
    → tags_step failures cloud manager in_order paths
        (of_network ko)
        (of_network latest)
        ("Spec.Description" ∷ [])
        two_tags
      ≡ (done none, two_tags)
unfolding tags_step
described_only ko = refl

update_lem_example :
    (result : ResourceResult failures.Err) × (update failures cloud manager in_order paths
        (of_network refused)
        (of_network latest)
        ("Spec.Description" ∷ [])
        two_tags
      ≡ (
        done result,
        after_call "UPDATE" "UpdateGlobalNetwork"
            (some (api "ValidationException" "bad description"))
            two_tags.aws
            two_tags,
      ))
    × Written failures manager refused latest
        (failed (api "ValidationException" "bad description"))
        result
unfolding new_update_request_payload
update_lem_example =
    update_lem failures failures-IsErrors cloud manager in_order paths (of_network refused)
      (of_network latest) refused latest ("Spec.Description" ∷ []) two_tags refl refl two_tags
      (failed (api "ValidationException" "bad description")) two_tags.aws was_terminal-IsUnique tt
      (described_only refused) refl refl

abbrev tagged : World Failure cloud.State
tagged =
    (tags_step failures cloud manager in_order paths (of_network created) (of_network latest)
      ("Spec.Tags" ∷ []) two_tags).1

tagged_only :
    tags_step failures cloud manager in_order paths
      (of_network created)
      (of_network latest)
      ("Spec.Tags" ∷ [])
      two_tags
    ≡ (done none, tagged)
unfolding tags_step sync_tags apply_changes
tagged_only = refl

update_tags_only_example :
    (cs : List Condition) × (update failures cloud manager in_order paths
        (of_network created)
        (of_network latest)
        ("Spec.Tags" ∷ [])
        two_tags
      ≡ (
        done (
          some (
              if mentions_sync cs
              then with_conditions manager created cs
              else (of_network created)),
          none,
        ),
        tagged,
      ))
    × IsReport failures none (elements created.status.conditions) cs
update_tags_only_example =
    update_tags_only failures failures-IsErrors cloud manager in_order paths (of_network created)
      (of_network latest) created latest ("Spec.Tags" ∷ []) two_tags refl refl tagged tagged_only
      refl

abbrev denied : World Failure closed_cloud.State
denied =
    (tags_step failures closed_cloud manager in_order paths (of_network created) (of_network latest)
      ("Spec.Tags" ∷ []) two_tags).1

not_tagged :
    tags_step failures closed_cloud manager in_order paths
      (of_network created)
      (of_network latest)
      ("Spec.Tags" ∷ [])
      two_tags
    ≡ (done (some (api "AccessDeniedException" "not allowed")), denied)
unfolding tags_step sync_tags apply_changes
not_tagged = refl

update_unsynced_example :
    (result : ResourceResult failures.Err) × (update failures closed_cloud manager in_order paths
        (of_network created)
        (of_network latest)
        ("Spec.Tags" ∷ [])
        two_tags
      ≡ (done result, denied))
    × Failed failures manager latest (api "AccessDeniedException" "not allowed") result
update_unsynced_example =
    update_unsynced failures failures-IsErrors closed_cloud manager in_order paths
      (of_network created) (of_network latest) created latest ("Spec.Tags" ∷ []) two_tags refl refl
      (api "AccessDeniedException" "not allowed") denied was_terminal-IsUnique not_tagged

tags_converge_example :
    (delta : paths.Delta) × (new_resource_delta paths
        (some (of_network created))
        (some (of_network latest))
      ≡ done delta)
    × (let (r, w') =
          tags_step failures cloud manager in_order paths
            (of_network created)
            (of_network latest)
            delta
            two_tags in
        ((err : failures.Err) × (r ≡ done (some err)) × Refused cloud err)
        ⊎ ((r ≡ done none)
            × ((c k : String)
                → cloud_tags.tags_of w'.aws c k ≡ (
                    if "arn:gn-1" == c
                    then tag_at k (elements created.spec.tags)
                    else cloud_tags.tags_of two_tags.aws c k))))
tags_converge_example =
    tags_converge failures cloud manager in_order paths (of_network created) (of_network latest)
      created latest two_tags refl refl arn_1 "arn:gn-1" cloud_tags in_order-IsRange paths-IsCompare
      refl refl new_tags-IsFilled old_tags-IsFilled two_tags_agree
