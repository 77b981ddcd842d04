-- ===== src/Manager/Update.antt =====
-- Update: the tags first, then the rest of the network, and which resource is returned.
use ack_networkmanager_contr.Prelude.{
  Option-cases, inl, inr, ◌≡◌, refl, ◌∙◌, true, false, none, some, List, elements, done,
  if◌then◌else◌,
}
use ack_networkmanager_contr.Maps.{Range}
use ack_networkmanager_contr.Types.{Condition, GlobalNetwork, Resource, ResourceManager}
use ack_networkmanager_contr.External.{
  Compare, Errors, IsErrors, Client, Reply, replied, failed, SdkGlobalNetwork, NetworkOutput,
}
use ack_networkmanager_contr.Effects.{World, error_of, after_call}
use ack_networkmanager_contr.Conditions.{set_status_defaults}
use ack_networkmanager_contr.Conditions.Report.{mentions_sync, with_conditions, IsReport}
use ack_networkmanager_contr.Sdk.{
  ResourceResult, new_update_request_payload, sdk_update, tags_step, set_output_fields,
}
use ack_networkmanager_contr.Sdk.Merge.{
  IsMerged, put_conditions, output-IsMerged, conditions-output,
}
use ack_networkmanager_contr.Sdk.Write.{sdk_update_call, sdk_update_unneeded, sdk_update_unsynced}
use ack_networkmanager_contr.Reporting.{finish}
use ack_networkmanager_contr.Reporting.Laws.{IsUnique, on_success_lem}
use ack_networkmanager_contr.Reporting.Success.{on_success_defaults}
use ack_networkmanager_contr.Manager.{guard_ko_lem, update}
use ack_networkmanager_contr.Manager.Crud.{Failed, Written, HasNetwork, finish-Failed}

module _ (E : Errors) (L : IsErrors E) (C : Client E.Err) (rm : ResourceManager) (R : Range)
    (D : Compare) (desired latest : Resource) (ko latest_ko : GlobalNetwork) (delta : D.Delta)
    (w : World E.Err C.State) (e : desired.ko ≡ some ko)
    (e_latest : latest.ko ≡ some latest_ko) where
  update_run :
      (res : ResourceResult E.Err) (w' : World E.Err C.State) (result : ResourceResult E.Err)
      → sdk_update E C rm R D desired latest delta w ≡ (done res, w')
      → finish E rm latest res ≡ done result
      → update E C rm R D desired latest delta w ≡ (done result, w')
  unfolding update
  update_run res w' result run end = rw (
    guard_ko_lem E C rm _ desired ko _ e,
    guard_ko_lem E C rm _ latest latest_ko _ e_latest,
    run,
    end,
  )

  -- Both resources have `ko`, and `ackerr.AWSError` finds the API error that `errors.As` finds.
  -- No type of condition stands twice on the latest one. If the tag step returns an error,
  -- `Update` does nothing at AWS beyond the tag step and returns the latest resource with the
  -- conditions of a report of the error, and the error, `ackerr.Terminal` in place of a terminal
  -- one.
  pub update_unsynced :
      (err : E.Err) (w' : World E.Err C.State)
      → IsUnique (elements latest_ko.status.conditions)
      → tags_step E C rm R D desired latest delta w ≡ (done (some err), w')
      → (result : ResourceResult E.Err) × (update E C rm R D desired latest delta w
          ≡ (done result, w'))
        × Failed E rm latest_ko err result
  update_unsynced err w' u synced =
      let (result, end, F) = finish-Failed E L rm latest latest_ko err e_latest u in
      (
        result,
        update_run (none, some err) w' result
            (sdk_update_unsynced E C rm R D desired latest delta w err w' synced) end,
        F,
      )

  -- Both resources have `ko`, and `ackerr.AWSError` finds the API error that `errors.As` finds.
  -- If the tag step succeeds and the delta has no difference outside Spec.Tags, `Update` does
  -- nothing at AWS beyond the tag step and returns no error and the desired resource: with the
  -- conditions of a report of a success and the status defaults if that report has a terminal,
  -- recoverable or synced condition, else as it is.
  pub update_tags_only :
      (w' : World E.Err C.State)
      → tags_step E C rm R D desired latest delta w ≡ (done none, w')
      → D.different_except delta "Spec.Tags" ≡ false
      → (cs : List Condition) × (update E C rm R D desired latest delta w ≡ (
        done (some (if mentions_sync cs then with_conditions rm ko cs else desired), none),
        w',
      ))
        × IsReport E none (elements ko.status.conditions) cs
  unfolding finish
  update_tags_only w' synced same =
      let (cs, end, P) = on_success_lem E rm desired ko L e in
      (
        cs,
        update_run (some desired, none) w' _
            (sdk_update_unneeded E C rm R D desired latest delta w w' synced same) end,
        P,
      )

  -- Both resources have `ko`, and `ackerr.AWSError` finds the API error that `errors.As` finds.
  -- No type of condition stands twice on the latest one. If the tag step succeeds, the delta has
  -- a difference outside Spec.Tags and UpdateGlobalNetwork fails, `Update` records the call with
  -- its error and returns the latest resource, not the desired one, with the conditions of a
  -- report of the error, and the error, `ackerr.Terminal` in place of a terminal one.
  pub update_failed :
      (w' : World E.Err C.State) (err : E.Err) (s : C.State)
      → IsUnique (elements latest_ko.status.conditions)
      → tags_step E C rm R D desired latest delta w ≡ (done none, w')
      → D.different_except delta "Spec.Tags" ≡ true
      → C.update_global_network (new_update_request_payload ko) w'.aws ≡ (failed err, s)
      → (result : ResourceResult E.Err) × (update E C rm R D desired latest delta w
          ≡ (done result, after_call "UPDATE" "UpdateGlobalNetwork" (some err) s w'))
        × Failed E rm latest_ko err result
  update_failed w' err s u synced differs replies =
      let (result, end, F) = finish-Failed E L rm latest latest_ko err e_latest u in
      (
        result,
        update_run (none, some err) _ result
            (sdk_update_call E C rm R D desired latest delta w ko e w' (failed err) s synced differs
              replies)
            end,
        F,
      )

  -- Both resources have `ko`, and `ackerr.AWSError` finds the API error that `errors.As` finds.
  -- If the tag step succeeds, the delta has a difference outside Spec.Tags and
  -- UpdateGlobalNetwork replies with a network, `Update` records that call behind what the tag
  -- step did. It returns nil as the error, and a copy of the desired resource that holds what the
  -- reply says, keeps the object's metadata and the identifiers that the reply leaves out, and
  -- has the conditions of a report of a success.
  pub update_succeeded :
      (w' : World E.Err C.State) (elem : SdkGlobalNetwork) (out : NetworkOutput) (s : C.State)
      → tags_step E C rm R D desired latest delta w ≡ (done none, w')
      → D.different_except delta "Spec.Tags" ≡ true
      → out.global_network ≡ some elem
      → C.update_global_network (new_update_request_payload ko) w'.aws ≡ (replied out, s)
      → (ko' : GlobalNetwork) × (cs : List Condition) × (update E C rm R D desired latest delta w
          ≡ (
            done (some (record { ko = some ko' }), none),
            after_call "UPDATE" "UpdateGlobalNetwork" none s w',
          ))
        × IsMerged rm elem ko ko'
        × (ko'.status.conditions ≡ some cs)
        × IsReport E none (elements ko.status.conditions) cs
  unfolding finish
  update_succeeded w' elem out s synced differs network replies =
      let merged = set_output_fields elem ko in
      let (cs, end, P) = on_success_defaults E rm merged L in
      (
        put_conditions (some cs) (set_status_defaults rm merged),
        cs,
        update_run (some (record { ko = some (set_status_defaults rm merged) }), none) _ _
            (sdk_update_call E C rm R D desired latest delta w ko e w' (replied out) s synced
                differs replies
              ∙ rw network)
            end,
        output-IsMerged rm elem ko (some cs),
        refl,
        (rw (conditions-output rm elem ko) at P),
      )

  -- Both resources have `ko`, and `ackerr.AWSError` finds the API error that `errors.As` finds.
  -- No type of condition stands twice on the latest one. The tag step succeeds, the delta has a
  -- difference outside Spec.Tags, and the reply to UpdateGlobalNetwork, unless it is an error,
  -- holds a network. `Update` calls UpdateGlobalNetwork once, with the request for the desired
  -- resource, and records it with its error, if any, behind what the tag step did. If AWS
  -- replies, it returns nil as the error, and a copy of the desired resource that holds what the
  -- reply says, keeps the object's metadata and the identifiers that the reply leaves out, and
  -- has the conditions of a report of a success; if AWS fails, the latest resource, not the
  -- desired one, with the conditions of a report of the error, and the error, `ackerr.Terminal`
  -- in place of a terminal one.
  pub update_lem :
      (w' : World E.Err C.State) (reply : Reply E.Err NetworkOutput) (s : C.State)
      → IsUnique (elements latest_ko.status.conditions)
      → HasNetwork reply
      → tags_step E C rm R D desired latest delta w ≡ (done none, w')
      → D.different_except delta "Spec.Tags" ≡ true
      → C.update_global_network (new_update_request_payload ko) w'.aws ≡ (reply, s)
      → (result : ResourceResult E.Err) × (update E C rm R D desired latest delta w
          ≡ (done result, after_call "UPDATE" "UpdateGlobalNetwork" (error_of reply) s w'))
        × Written E rm ko latest_ko reply result
  update_lem w' (failed err) s u h synced differs replies =
      update_failed w' err s u synced differs replies
  update_lem w' (replied out) s u h synced differs replies =
      elim (Option-cases out.global_network) [
        | inl empty ↦ absurd (h empty)
        | inr (elem, network) ↦
            let (ko', cs, run, merged, conditions, P) =
              update_succeeded w' elem out s synced differs network replies in
            (
              (some (record { ko = some ko' }), none),
              run,
              (elem, ko', cs, network, refl, merged, conditions, P),
            )
      ]
