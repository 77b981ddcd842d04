-- ===== src/Examples/Tags.antt =====
-- Examples of the theorems on tags, conditions and deltas.
use ack_networkmanager_contr.Prelude.{eq_iff, Bool-cases}
use ack_networkmanager_contr.Prelude.{
  String, ◌≡◌, ◌↔◌, ◌⊎◌, inl, inr, refl, false, none, some, List, [], ◌∷◌, arith, or_else, elements,
  ◌==◌, if◌then◌else◌, done,
}
use ack_networkmanager_contr.Maps.{get}
use ack_networkmanager_contr.Types.{Tag, Condition, GlobalNetwork}
use ack_networkmanager_contr.Examples.{
  Failure, api, failures, failures-IsErrors, in_order, in_order-IsRange, paths, paths-IsCompare,
  one_default, one_default-IsTagLibrary,
}
use ack_networkmanager_contr.Examples.Resources.{
  cloud, cloud_tags, two_tags, manager, network, of_network, was_terminal-IsUnique, old_tags,
  new_tags, created, latest, new_tags-IsFilled, old_tags-IsFilled, two_tags_agree,
  old_tags-IsNormal,
}
use ack_networkmanager_contr.Tags.{
  new_tag, is_aws_key, is_ignored, convert_to_ordered_ack_tags, from_ack_tags,
}
use ack_networkmanager_contr.Tags.Values.{tag_at}
use ack_networkmanager_contr.Tags.Convert.{IsNormal, from_ack_tags-convert}
use ack_networkmanager_contr.Conditions.{is_terminal, update_conditions}
use ack_networkmanager_contr.Conditions.Report.{IsReport, report, with_conditions}
use ack_networkmanager_contr.Conditions.Laws.{update_conditions_lem}
use ack_networkmanager_contr.SyncTags.{sync_tags}
use ack_networkmanager_contr.SyncTags.Service.{Refused}
use ack_networkmanager_contr.SyncTags.Laws.{sync_tags_applies, sync_tags_in_sync}
use ack_networkmanager_contr.Reporting.{on_error}
use ack_networkmanager_contr.Reporting.Laws.{IsUnique, on_error_lem}
use ack_networkmanager_contr.Tagging.{set_tags, ensure_tags, filter_system_tags, mirror_aws_tags}
use ack_networkmanager_contr.Tagging.Laws.{
  ensure_tags_lem, filter_system_tags_lem, filter_system_tags_twice, mirror_aws_tags_lem,
}
use ack_networkmanager_contr.Delta.{new_resource_delta, description_differs}
use ack_networkmanager_contr.Delta.Laws.{new_resource_delta_lem}

sync_tags_applies_example :
    let (r, w') = sync_tags in_order cloud "arn:gn-1" (some new_tags) (some old_tags) two_tags in
    ((err : Failure) × (r ≡ done (some err)) × Refused cloud err)
    ⊎ ((r ≡ done none)
        × ((c k : String)
            → cloud_tags.tags_of w'.aws c k ≡ (
                if "arn:gn-1" == c
                then tag_at k (elements (some new_tags))
                else cloud_tags.tags_of two_tags.aws c k)))
sync_tags_applies_example =
    sync_tags_applies in_order in_order-IsRange cloud cloud_tags "arn:gn-1" (some new_tags)
      (some old_tags) two_tags new_tags-IsFilled old_tags-IsFilled two_tags_agree

turned_tags :
    (k : String)
    → tag_at k old_tags ≡ tag_at k (new_tag ("team", "net") ∷ new_tag ("old", "1") ∷ [])
turned_tags k = elim (Bool-cases ("old" == k)) [
  | inl same ↦ rw (← (eq_iff "old" k).0 same) refl
  | inr other ↦ ground (arith, other)
]

sync_tags_in_sync_example :
    sync_tags in_order cloud "arn:gn-1"
      (some old_tags)
      (some (new_tag ("team", "net") ∷ new_tag ("old", "1") ∷ []))
      two_tags
    ≡ (done none, two_tags)
sync_tags_in_sync_example =
    sync_tags_in_sync in_order in_order-IsRange cloud "arn:gn-1" (some old_tags)
      (some (new_tag ("team", "net") ∷ new_tag ("old", "1") ∷ [])) two_tags old_tags-IsFilled
      ("team", "net", refl, ("old", "1", refl, tt)) turned_tags

from_ack_tags-convert_example :
    (let (m, order) = convert_to_ordered_ack_tags (some old_tags) in from_ack_tags in_order m order)
    ≡ some old_tags
from_ack_tags-convert_example =
    from_ack_tags-convert in_order in_order-IsRange old_tags old_tags-IsNormal

update_conditions_lem_example :
    (cs : List Condition) × (update_conditions failures manager
        (of_network created)
        (some (api "ValidationException" "bad"))
      ≡ done (report manager created cs))
    × IsReport failures
        (some (api "ValidationException" "bad"))
        (elements created.status.conditions)
        cs
update_conditions_lem_example =
    update_conditions_lem failures manager (of_network created) created
      (some (api "ValidationException" "bad")) failures-IsErrors refl

on_error_lem_example :
    (cs : List Condition) × (on_error failures manager
        (some (of_network created))
        (api "ValidationException" "bad")
      ≡ done (
        some (with_conditions manager created cs),
        some (
            if is_terminal failures (api "ValidationException" "bad")
            then failures.terminal_err
            else (api "ValidationException" "bad")),
      ))
    × IsReport failures
        (some (api "ValidationException" "bad"))
        (elements created.status.conditions)
        cs
    × IsUnique cs
on_error_lem_example =
    on_error_lem failures manager (of_network created) created (api "ValidationException" "bad")
      failures-IsErrors refl was_terminal-IsUnique

new_resource_delta_lem_example :
    (delta : paths.Delta) × (new_resource_delta paths
        (some (of_network created))
        (some (of_network latest))
      ≡ done delta)
    × ((paths.different_at delta "Spec.Tags" ≡ false) ↔ (
        (k : String)
        → tag_at k (elements created.spec.tags) ≡ tag_at k (elements latest.spec.tags)))
    × (paths.different_except delta "Spec.Tags"
        ≡ description_differs paths created.spec.description latest.spec.description)
new_resource_delta_lem_example =
    new_resource_delta_lem paths (of_network created) (of_network latest) created latest
      paths-IsCompare refl refl

ensure_tags_lem_example :
    (tags : List Tag) × (ensure_tags in_order one_default (of_network created)
      ≡ done (record { ko = some (set_tags (some tags) created) }))
    × IsNormal tags
    × ((k : String)
        → tag_at k tags
          ≡ or_else
              (tag_at k (elements created.spec.tags))
              (get k (one_default.get_default_tags created)))
ensure_tags_lem_example =
    ensure_tags_lem in_order in_order-IsRange one_default (of_network created) created
      one_default-IsTagLibrary refl

filter_system_tags_lem_example :
    (tags : List Tag) × (filter_system_tags in_order (some (of_network created)) ("team" ∷ [])
      ≡ some (record { ko = some (set_tags (some tags) created) }))
    × IsNormal tags
    × ((k : String)
        → tag_at k tags
          ≡ (if is_ignored ("team" ∷ []) k then none else tag_at k (elements created.spec.tags)))
filter_system_tags_lem_example =
    filter_system_tags_lem in_order in_order-IsRange (of_network created) created ("team" ∷ []) refl

filter_system_tags_twice_example :
    filter_system_tags in_order
      (filter_system_tags in_order (some (of_network created)) ("team" ∷ []))
      ("team" ∷ [])
    ≡ filter_system_tags in_order (some (of_network created)) ("team" ∷ [])
filter_system_tags_twice_example =
    filter_system_tags_twice in_order in_order-IsRange (some (of_network created)) ("team" ∷ [])

abbrev stacked : GlobalNetwork
stacked = network (some "gn-1") none (new_tag ("aws:stack", "s") ∷ old_tags) []

mirror_aws_tags_lem_example :
    (tags : List Tag) × (mirror_aws_tags in_order
        (some (of_network created))
        (some (of_network stacked))
      ≡ some (record { ko = some (set_tags (some tags) created) }))
    × IsNormal tags
    × ((k : String)
        → tag_at k tags ≡ (
            if is_aws_key k
            then or_else
                (tag_at k (elements stacked.spec.tags))
                (tag_at k (elements created.spec.tags))
            else tag_at k (elements created.spec.tags)))
mirror_aws_tags_lem_example =
    mirror_aws_tags_lem in_order in_order-IsRange (of_network created) (of_network stacked) created
      stacked refl refl
