-- ===== src/Manager/Calls.antt =====
-- The calls that each operation records, on every path.
use ack_networkmanager_contr.Prelude.{
  String, Option, none, some, List, [], ◌∷◌, Slice, elements, deref, panic, message, not,
}
use ack_networkmanager_contr.Maps.{Range, GoMap}
use ack_networkmanager_contr.Types.{Tag, GlobalNetwork, Resource, ResourceManager}
use ack_networkmanager_contr.External.{
  Errors, Compare, Client, Reply, replied, failed, NetworkOutput,
}
use ack_networkmanager_contr.Effects.{M, ◌>>=◌, ◌>>◌, pure, lift, call, record_api_call, error_of}
use ack_networkmanager_contr.Effects.Rules.{
  Records, lift_bind-Records, if-Records, one-Grows, same-Grows, Records-bind,
}
use ack_networkmanager_contr.SyncTags.{
  add_tags, remove_tags, add_step, delete_step, apply_changes, sync_tags, debug_loop, key_loop,
  add_loop,
}
use ack_networkmanager_contr.Sdk.{
  sdk_find, write_reply, sdk_create, sdk_delete, tags_step, update_step, sdk_update,
  new_create_request_payload, new_update_request_payload,
}
use ack_networkmanager_contr.Manager.{guard_ko, read_one, create, update, delete}

module _ (R : Range) {Err : Type 0} (C : Client Err) where
  add_tags-Records :
      (arn : String) (tags : GoMap (Option String))
      → Records ("TagResource" ∷ []) (add_tags R C arn tags)
  unfolding add_tags
  add_tags-Records arn tags w = one-Grows _ _ _ w.metrics

  remove_tags-Records :
      (arn : String) (keys : List String)
      → Records ("UntagResource" ∷ []) (remove_tags R C arn keys)
  unfolding remove_tags
  remove_tags-Records arn keys w = one-Grows _ _ _ w.metrics

  add_step-Records :
      (arn : String) (tags : GoMap (Option String))
      → Records ("TagResource" ∷ []) (add_step R C arn tags)
  unfolding add_step
  add_step-Records arn [] w = same-Grows _ w.metrics
  add_step-Records arn (entry ∷ entries) w =
      lift_bind-Records (debug_loop (R.over (Option String) (entry ∷ entries)))
        (λ _. add_tags R C arn (entry ∷ entries)) (λ _. add_tags-Records arn (entry ∷ entries)) w

  delete_step-Records :
      (arn : String) (keys : List String)
      → Records ("UntagResource" ∷ []) (delete_step R C arn keys)
  unfolding delete_step
  delete_step-Records arn [] w = same-Grows _ w.metrics
  delete_step-Records arn (k ∷ ks) w = remove_tags-Records arn (k ∷ ks) w

  apply_changes-Records :
      (arn : String) (tags : GoMap (Option String)) (keys : List String)
      → Records ("TagResource" ∷ "UntagResource" ∷ []) (apply_changes R C arn tags keys)
  unfolding apply_changes
  apply_changes-Records arn tags keys =
      Records-bind (add_step R C arn tags) _ (add_step-Records arn tags) onward
    where
      onward :
          (added : Option Err)
          → Records
              ("UntagResource" ∷ [])
              (elim added [ some err ↦ pure (some err) | none ↦ delete_step R C arn keys ])
      onward none w = delete_step-Records arn keys w
      onward (some err) w = same-Grows _ w.metrics

  sync_tags-Records :
      (arn : String) (a b : Slice Tag)
      → Records ("TagResource" ∷ "UntagResource" ∷ []) (sync_tags R C arn a b)
  unfolding sync_tags
  sync_tags-Records arn a b = lift_bind-Records (key_loop (elements a) []) _ (λ desired.
      lift_bind-Records (key_loop (elements b) []) _ (λ existing.
        lift_bind-Records (add_loop (R.over (Option String) desired) existing []) _
          (λ to_add. apply_changes-Records arn to_add _)))

module _ (E : Errors) (C : Client E.Err) (rm : ResourceManager) where
  guard_ko-Records :
      {A : Type 0} (ids : List String) (text : String) (r : Resource) (rest : M E.Err C.State A)
      → Records ids rest
      → Records ids (guard_ko E C rm text r rest)
  unfolding guard_ko
  guard_ko-Records {A} ids text r rest h = guarded r.ko
    where
      guarded :
          (o : Option GlobalNetwork)
          → Records {Err = E.Err} {State = C.State} ids
              (elim o [ none ↦ lift {A = A} (panic (message text)) | some _ ↦ rest ])
      guarded none w = same-Grows ids w.metrics
      guarded (some ko) w = h w

  sdk_find-Records : (r : Resource) → Records ("DescribeGlobalNetworks" ∷ []) (sdk_find E C rm r)
  unfolding sdk_find
  sdk_find-Records r =
      lift_bind-Records (deref r.ko) _
        (λ ko. if-Records _ _ _ _ (λ w. same-Grows _ w.metrics) (λ w. one-Grows _ _ _ w.metrics))

  write_reply-Records :
      (ko : GlobalNetwork) (reply : Reply E.Err NetworkOutput)
      → Records [] (write_reply E C rm ko reply)
  unfolding write_reply
  write_reply-Records ko (failed err) w = same-Grows _ w.metrics
  write_reply-Records ko (replied out) w =
      lift_bind-Records (deref out.global_network) _ (λ elem w. same-Grows _ w.metrics) w

  sdk_create-Records : (r : Resource) → Records ("CreateGlobalNetwork" ∷ []) (sdk_create E C rm r)
  unfolding sdk_create
  sdk_create-Records r = lift_bind-Records (deref r.ko) _ (λ ko w.
      Records-bind
        (do
          reply ← call (C.create_global_network (new_create_request_payload ko))
          record_api_call "CREATE" "CreateGlobalNetwork" (error_of reply)
          pure reply)
        (write_reply E C rm ko) (λ w. one-Grows _ _ _ w.metrics) (write_reply-Records ko) w)

  sdk_delete-Records : (r : Resource) → Records ("DeleteGlobalNetwork" ∷ []) (sdk_delete E C rm r)
  unfolding sdk_delete
  sdk_delete-Records r = lift_bind-Records (deref r.ko) _ (λ ko w. one-Grows _ _ _ w.metrics)

  module _ (R : Range) (D : Compare) where
    tags_step-Records :
        (desired latest : Resource) (delta : D.Delta)
        → Records ("TagResource" ∷ "UntagResource" ∷ []) (tags_step E C rm R D desired latest delta)
    unfolding tags_step
    tags_step-Records desired latest delta =
        if-Records _ (D.different_at delta "Spec.Tags") _ (pure none)
          (lift_bind-Records (deref desired.ko) _ (λ ko.
            lift_bind-Records (deref ko.status.ack_resource_metadata) _ (λ metadata.
              lift_bind-Records (deref metadata.arn) _ (λ arn.
                lift_bind-Records (deref latest.ko) _
                  (λ latest_ko. sync_tags-Records R C arn ko.spec.tags latest_ko.spec.tags)))))
          (λ w. same-Grows _ w.metrics)

    update_step-Records :
        (desired : Resource) (delta : D.Delta)
        → Records ("UpdateGlobalNetwork" ∷ []) (update_step E C rm R D desired delta)
    unfolding update_step
    update_step-Records desired delta =
        if-Records _ (not (D.different_except delta "Spec.Tags")) (pure (some desired, none)) _
          (λ w. same-Grows _ w.metrics)
          (lift_bind-Records (deref desired.ko) _ (λ ko w.
            Records-bind
              (do
                reply ← call (C.update_global_network (new_update_request_payload ko))
                record_api_call "UPDATE" "UpdateGlobalNetwork" (error_of reply)
                pure reply)
              (write_reply E C rm ko) (λ w. one-Grows _ _ _ w.metrics) (write_reply-Records ko) w))

    sdk_update-Records :
        (desired latest : Resource) (delta : D.Delta)
        → Records
            ("TagResource" ∷ "UntagResource" ∷ "UpdateGlobalNetwork" ∷ [])
            (sdk_update E C rm R D desired latest delta)
    unfolding sdk_update
    sdk_update-Records desired latest delta =
        Records-bind (tags_step E C rm R D desired latest delta) _
          (tags_step-Records desired latest delta) onward
      where
        onward :
            (synced : Option E.Err)
            → Records ("UpdateGlobalNetwork" ∷ []) (elim synced [
              | some err ↦ pure (none, some err)
              | none ↦ update_step E C rm R D desired delta
            ])
        onward none w = update_step-Records desired delta w
        onward (some err) w = same-Grows _ w.metrics

    -- Whatever AWS replies, and also where they panic, the four operations keep what the metrics
    -- hold and record at most: `ReadOne` one DescribeGlobalNetworks, `Create` one
    -- CreateGlobalNetwork, `Delete` one DeleteGlobalNetwork, and `Update` one TagResource, then
    -- one UntagResource, then one UpdateGlobalNetwork, of which any may be missing.
    pub recorded_calls :
        (r desired latest : Resource) (delta : D.Delta)
        → Records ("DescribeGlobalNetworks" ∷ []) (read_one E C rm R r)
          × Records ("CreateGlobalNetwork" ∷ []) (create E C rm r)
          × Records ("DeleteGlobalNetwork" ∷ []) (delete E C rm r)
          × Records
              ("TagResource" ∷ "UntagResource" ∷ "UpdateGlobalNetwork" ∷ [])
              (update E C rm R D desired latest delta)
    unfolding read_one create delete update
    recorded_calls r desired latest delta = (
      guard_ko-Records _ _ r _ (
          Records-bind (sdk_find E C rm r) _ (sdk_find-Records r)
            (λ (observed, err). lift_bind-Records _ _ (λ result w. same-Grows [] w.metrics))),
      guard_ko-Records _ _ r _ (
          Records-bind (sdk_create E C rm r) _ (sdk_create-Records r)
            (λ created w. same-Grows [] w.metrics)),
      guard_ko-Records _ _ r _ (
          Records-bind (sdk_delete E C rm r) _ (sdk_delete-Records r)
            (λ observed w. same-Grows [] w.metrics)),
      guard_ko-Records _ _ desired _ (
          guard_ko-Records _ _ latest _ (
            Records-bind (sdk_update E C rm R D desired latest delta) _
              (sdk_update-Records desired latest delta) (λ updated w. same-Grows [] w.metrics))),
    )
