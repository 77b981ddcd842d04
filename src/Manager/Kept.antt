-- ===== src/Manager/Kept.antt =====
-- What every operation keeps of the resources that it is given.
use ack_networkmanager_contr.Prelude.{
  String, Slice, refl, Bool, true, false, Option, none, some, List, elements, Outcome, done, panic,
  message, [], ◌∷◌, deref, not, if◌then◌else◌,
}
use ack_networkmanager_contr.Maps.{Range}
use ack_networkmanager_contr.Types.{Tag, GlobalNetwork, Resource, ResourceManager}
use ack_networkmanager_contr.External.{
  Errors, IsErrors, Compare, Client, Reply, replied, failed, NetworkOutput, DescribeOutput,
  SdkGlobalNetwork,
}
use ack_networkmanager_contr.Effects.{M, ◌>>=◌, ◌>>◌, pure, lift, call, record_api_call, error_of}
use ack_networkmanager_contr.Effects.Rules.{
  OnDone, Ensures, Ensures-bind, lift_bind-Ensures, any_bind-Ensures,
}
use ack_networkmanager_contr.Conditions.{set_status_defaults}
use ack_networkmanager_contr.Sdk.{
  ResourceResult, set_read_fields, set_output_fields, found_resource, read_reply, sdk_find,
  write_reply, sdk_create, sdk_delete, tags_step, update_step, sdk_update, new_list_request_payload,
  required_fields_missing_from_read_many_input,
}
use ack_networkmanager_contr.Sdk.Merge.{conditions-read, conditions-output}
use ack_networkmanager_contr.Reporting.{finish}
use ack_networkmanager_contr.Manager.{or_self, guard_ko, read_one, create, update, delete}
use ack_networkmanager_contr.Tagging.{set_tags, mirror_aws_tags}
use ack_networkmanager_contr.Reporting.Kept.{IsSound, Holds, MayHold, Returns, finish-Returns}

module _ (E : Errors) (L : IsErrors E) (rm : ResourceManager) (name namespace : String)
    (C : Client E.Err) where
  if-Ensures :
      (b : Bool) (m n : M E.Err C.State (ResourceResult E.Err))
      → Ensures (Returns name namespace) m
      → Ensures (Returns name namespace) n
      → Ensures (Returns name namespace) (if b then m else n)
  if-Ensures true m n h k = h
  if-Ensures false m n h k = k

  guard_ko-Ensures :
      {A : Type 0} (Q : A → Type 0) (text : String) (r : Resource) (rest : M E.Err C.State A)
      → Ensures Q rest
      → Ensures Q (guard_ko E C rm text r rest)
  unfolding guard_ko
  guard_ko-Ensures {A} Q text r rest h = guarded r.ko
    where
      guarded :
          (o : Option GlobalNetwork)
          → Ensures {Err = E.Err} {State = C.State} Q
              (elim o [ none ↦ lift {A = A} (panic (message text)) | some _ ↦ rest ])
      guarded none w = tt
      guarded (some ko) w = h w

  found_resource-Returns :
      (ko : GlobalNetwork) (elems : List SdkGlobalNetwork)
      → IsSound name namespace ko
      → Returns name namespace (found_resource E C rm ko elems)
  unfolding found_resource set_status_defaults set_read_fields
  found_resource-Returns ko [] S = tt
  found_resource-Returns ko (elem ∷ _) S = (
    _,
    refl,
    record {
      same_name = S.same_name;
      same_namespace = S.same_namespace;
      unique = rw (conditions-read rm elem ko) S.unique;
    },
  )

  read_reply-Returns :
      (ko : GlobalNetwork) (reply : Reply E.Err DescribeOutput)
      → IsSound name namespace ko
      → Returns name namespace (read_reply E C rm ko reply)
  unfolding read_reply
  read_reply-Returns ko (failed err) S = tt
  read_reply-Returns ko (replied out) S = found_resource-Returns ko (elements out.global_networks) S

  sdk_find-Ensures :
      (r : Resource) → Holds name namespace r → Ensures (Returns name namespace) (sdk_find E C rm r)
  unfolding sdk_find
  sdk_find-Ensures r (ko, e, S) w = rw e (
      if-Ensures (required_fields_missing_from_read_many_input ko) (pure (none, some E.not_found))
        (do
          reply ← call (C.describe_global_networks (new_list_request_payload ko))
          record_api_call "READ_MANY" "DescribeGlobalNetworks" (error_of reply)
          pure (read_reply E C rm ko reply))
        (λ w. tt)
        (λ w.
          read_reply-Returns ko (C.describe_global_networks (new_list_request_payload ko) w.aws).0
            S)
        w)

  write_reply-Ensures :
      (ko : GlobalNetwork) (reply : Reply E.Err NetworkOutput)
      → IsSound name namespace ko
      → Ensures (Returns name namespace) (write_reply E C rm ko reply)
  unfolding write_reply set_status_defaults set_output_fields
  write_reply-Ensures ko (failed err) S w = tt
  write_reply-Ensures ko (replied out) S w =
      lift_bind-Ensures (Returns name namespace) (deref out.global_network) _
        (λ elem w. (
          _,
          refl,
          record {
            same_name = S.same_name;
            same_namespace = S.same_namespace;
            unique = rw (conditions-output rm elem ko) S.unique;
          },
        ))
        w

  sdk_create-Ensures :
      (r : Resource)
      → Holds name namespace r
      → Ensures (Returns name namespace) (sdk_create E C rm r)
  unfolding sdk_create
  sdk_create-Ensures r (ko, e, S) w = rw e (write_reply-Ensures ko _ S _)

  sdk_delete-Ensures :
      (r : Resource)
      → Holds name namespace r
      → Ensures (Returns name namespace) (sdk_delete E C rm r)
  unfolding sdk_delete
  sdk_delete-Ensures r (ko, e, S) w = rw e tt

  pub create-Ensures :
      (r : Resource) → Holds name namespace r → Ensures (Returns name namespace) (create E C rm r)
  unfolding create
  create-Ensures r h = guard_ko-Ensures (Returns name namespace) _ r _ (
      Ensures-bind (Returns name namespace) (sdk_create E C rm r) _ (sdk_create-Ensures r h)
        (λ created k w. finish-Returns E L rm name namespace r created h k))

  pub delete-Ensures :
      (r : Resource) → Holds name namespace r → Ensures (Returns name namespace) (delete E C rm r)
  unfolding delete
  delete-Ensures r h = guard_ko-Ensures (Returns name namespace) _ r _ (
      Ensures-bind (Returns name namespace) (sdk_delete E C rm r) _ (sdk_delete-Ensures r h)
        (λ observed k w. finish-Returns E L rm name namespace r observed h k))

  module _ (R : Range) (D : Compare) where
    update_step-Ensures :
        (desired : Resource) (delta : D.Delta)
        → Holds name namespace desired
        → Ensures (Returns name namespace) (update_step E C rm R D desired delta)
    unfolding update_step
    update_step-Ensures desired delta (ko, e, S) =
        if-Ensures (not (D.different_except delta "Spec.Tags")) (pure (some desired, none)) _
          (λ w. (ko, e, S)) (λ w. rw e (write_reply-Ensures ko _ S _))

    sdk_update-Ensures :
        (desired latest : Resource) (delta : D.Delta)
        → Holds name namespace desired
        → Ensures (Returns name namespace) (sdk_update E C rm R D desired latest delta)
    unfolding sdk_update
    sdk_update-Ensures desired latest delta h =
        any_bind-Ensures (Returns name namespace) (tags_step E C rm R D desired latest delta) _
          onward
      where
        onward :
            (synced : Option E.Err)
            → Ensures (Returns name namespace) (elim synced [
              | some err ↦ pure (none, some err)
              | none ↦ update_step E C rm R D desired delta
            ])
        onward none = update_step-Ensures desired delta h
        onward (some err) = λ w. tt

    pub update-Ensures :
        (desired latest : Resource) (delta : D.Delta)
        → Holds name namespace desired
        → Holds name namespace latest
        → Ensures (Returns name namespace) (update E C rm R D desired latest delta)
    unfolding update
    update-Ensures desired latest delta h h_latest =
        guard_ko-Ensures (Returns name namespace) _ desired _ (
          guard_ko-Ensures (Returns name namespace) _ latest _ (
            Ensures-bind (Returns name namespace) (sdk_update E C rm R D desired latest delta) _
              (sdk_update-Ensures desired latest delta h)
              (λ updated k w. finish-Returns E L rm name namespace latest updated h_latest k)))

  set_tags-Holds :
      (ko : GlobalNetwork) (tags : Slice Tag)
      → IsSound name namespace ko
      → Holds name namespace (record { ko = some (set_tags tags ko) })
  set_tags-Holds ko tags S = (
    _,
    refl,
    record { same_name = S.same_name; same_namespace = S.same_namespace; unique = S.unique },
  )

  mirror-Holds :
      (R : Range) (r : Resource) (observed : Option Resource)
      → Holds name namespace r
      → MayHold name namespace observed
      → Holds name namespace (or_self r (mirror_aws_tags R (some r) observed))
  unfolding mirror_aws_tags
  mirror-Holds R r none h k = h
  mirror-Holds R r (some seen) (ko, e, S) (ko', e', S') = rw (e, e') (set_tags-Holds ko _ S)

  -- The result of a read is sound, and the given resource is so still.
  abbrev pub Reads : ResourceResult E.Err × Resource → Type 0
  Reads read = Returns name namespace read.0 × Holds name namespace read.1

  pair-Reads :
      (r : Resource) (result : Outcome (ResourceResult E.Err))
      → Holds name namespace r
      → OnDone (Returns name namespace) result
      → Ensures {Err = E.Err} {State = C.State} Reads (lift result >>= λ x. pure (x, r))
  pair-Reads r (done result) h k w = (k, h)
  pair-Reads r (panic e) h k w = tt

  pub read_one-Ensures :
      (R : Range) (r : Resource) → Holds name namespace r → Ensures Reads (read_one E C rm R r)
  unfolding read_one
  read_one-Ensures R r h = guard_ko-Ensures Reads _ r _ (
      Ensures-bind Reads (sdk_find E C rm r) _ (sdk_find-Ensures r h) (λ (observed, err) k.
        let h' = mirror-Holds R r observed h k in
        pair-Reads _ (finish E rm _ (observed, err)) h'
          (finish-Returns E L rm name namespace _ (observed, err) h' k)))
