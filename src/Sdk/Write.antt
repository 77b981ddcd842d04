-- ===== src/Sdk/Write.antt =====
-- The branches of `sdkCreate`, `sdkUpdate` and `sdkDelete`.
use ack_networkmanager_contr.Prelude.{
  ◌≡◌, refl, true, false, none, some, arith, done, panic, nil_dereference, Outcome,
}
use ack_networkmanager_contr.Maps.{Range}
use ack_networkmanager_contr.Types.{GlobalNetwork, Resource, ResourceManager}
use ack_networkmanager_contr.External.{
  Errors, Compare, Client, Reply, replied, failed, NetworkOutput,
}
use ack_networkmanager_contr.Effects.{World, after_call, error_of}
use ack_networkmanager_contr.Conditions.{set_status_defaults}
use ack_networkmanager_contr.Sdk.{
  ResourceResult, new_create_request_payload, new_update_request_payload,
  new_delete_request_payload, set_output_fields, write_reply, sdk_create, sdk_delete, sdk_update,
  tags_step, update_step,
}

module _ (E : Errors) (C : Client E.Err) (rm : ResourceManager) where
  -- The results that a reply leads to: none where its output has no network, which is a panic.
  abbrev pub written : GlobalNetwork → Reply E.Err NetworkOutput → Outcome (ResourceResult E.Err)
  written ko (failed err) = done (none, some err)
  written ko (replied out) = elim out.global_network [
    | none ↦ panic nil_dereference
    | some elem ↦
        done
          (some (record { ko = some (set_status_defaults rm (set_output_fields elem ko)) }), none)
  ]

  write_reply_lem :
      (ko : GlobalNetwork) (reply : Reply E.Err NetworkOutput) (w : World E.Err C.State)
      → write_reply E C rm ko reply w ≡ (written ko reply, w)
  unfolding write_reply
  write_reply_lem ko (failed err) w = refl
  write_reply_lem ko (replied out) w = ground arith

  module _ (r : Resource) (ko : GlobalNetwork) (w : World E.Err C.State) (e : r.ko ≡ some ko) where
    pub sdk_create_call :
        (reply : Reply E.Err NetworkOutput) (s : C.State)
        → C.create_global_network (new_create_request_payload ko) w.aws ≡ (reply, s)
        → sdk_create E C rm r w
          ≡ (written ko reply, after_call "CREATE" "CreateGlobalNetwork" (error_of reply) s w)
    unfolding sdk_create
    sdk_create_call reply s replies = rw (e, replies) (write_reply_lem ko reply _)

    pub sdk_delete_call :
        (reply : Reply E.Err NetworkOutput) (s : C.State)
        → C.delete_global_network (new_delete_request_payload ko) w.aws ≡ (reply, s)
        → sdk_delete E C rm r w ≡ (
          done (none, error_of reply),
          after_call "DELETE" "DeleteGlobalNetwork" (error_of reply) s w,
        )
    unfolding sdk_delete
    sdk_delete_call reply s replies = rw (e, replies)

  module _ (R : Range) (D : Compare) (desired latest : Resource) (delta : D.Delta)
      (w : World E.Err C.State) where
    -- An error of the tags ends the update.
    pub sdk_update_unsynced :
        (err : E.Err) (w' : World E.Err C.State)
        → tags_step E C rm R D desired latest delta w ≡ (done (some err), w')
        → sdk_update E C rm R D desired latest delta w ≡ (done (none, some err), w')
    unfolding sdk_update
    sdk_update_unsynced err w' synced = rw synced

    pub sdk_update_unneeded :
        (w' : World E.Err C.State)
        → tags_step E C rm R D desired latest delta w ≡ (done none, w')
        → D.different_except delta "Spec.Tags" ≡ false
        → sdk_update E C rm R D desired latest delta w ≡ (done (some desired, none), w')
    unfolding sdk_update update_step
    sdk_update_unneeded w' synced same = rw (synced, same)

    pub sdk_update_call :
        (ko : GlobalNetwork)
        → desired.ko ≡ some ko
        → (w' : World E.Err C.State) (reply : Reply E.Err NetworkOutput) (s : C.State)
        → tags_step E C rm R D desired latest delta w ≡ (done none, w')
        → D.different_except delta "Spec.Tags" ≡ true
        → C.update_global_network (new_update_request_payload ko) w'.aws ≡ (reply, s)
        → sdk_update E C rm R D desired latest delta w
          ≡ (written ko reply, after_call "UPDATE" "UpdateGlobalNetwork" (error_of reply) s w')
    unfolding sdk_update update_step
    sdk_update_call ko e w' reply s synced differs replies =
        rw (synced, differs, e, replies) (write_reply_lem ko reply _)
