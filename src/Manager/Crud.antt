-- ===== src/Manager/Crud.antt =====
-- Create, from the reply of AWS to the results and the recorded calls.
use ack_networkmanager_contr.Prelude.{
  ◌≢◌, Option-cases, inl, inr, ◌≡◌, refl, ◌∙◌, none, some, List, elements, done, if◌then◌else◌,
}
use ack_networkmanager_contr.Types.{Condition, GlobalNetwork, Resource, ResourceManager}
use ack_networkmanager_contr.External.{
  Errors, IsErrors, Client, Reply, replied, failed, SdkGlobalNetwork, NetworkOutput,
}
use ack_networkmanager_contr.Effects.{World, error_of, after_call}
use ack_networkmanager_contr.Conditions.{is_terminal, set_status_defaults}
use ack_networkmanager_contr.Conditions.Report.{with_conditions, IsReport}
use ack_networkmanager_contr.Sdk.{
  ResourceResult, new_create_request_payload, set_output_fields, sdk_create,
}
use ack_networkmanager_contr.Sdk.Merge.{
  IsMerged, put_conditions, output-IsMerged, conditions-output,
}
use ack_networkmanager_contr.Sdk.Write.{sdk_create_call}
use ack_networkmanager_contr.Reporting.{finish}
use ack_networkmanager_contr.Reporting.Laws.{IsUnique, on_error_lem}
use ack_networkmanager_contr.Reporting.Success.{on_success_defaults}
use ack_networkmanager_contr.Manager.{guard_ko_lem, create}

-- What an operation returns that fails with `err` on the network `ko`: the terminal error in place
-- of a terminal one, and the network with the failure among its conditions.
abbrev pub Failed :
    (E : Errors) → ResourceManager → GlobalNetwork → E.Err → ResourceResult E.Err → Type 0
Failed E rm ko err result =
    (cs : List Condition) × (result
      ≡ (some (with_conditions rm ko cs), some (if is_terminal E err then E.terminal_err else err)))
    × IsReport E (some err) (elements ko.status.conditions) cs
    × IsUnique cs

-- What an operation returns that writes the network `ko` and reports a failure on `other`, for
-- the reply of AWS.
abbrev pub Written :
    (E : Errors)
    → ResourceManager
    → GlobalNetwork
    → GlobalNetwork
    → Reply E.Err NetworkOutput
    → ResourceResult E.Err
    → Type 0
Written E rm ko other (failed err) result = Failed E rm other err result
Written E rm ko other (replied out) result =
    (elem : SdkGlobalNetwork) × (ko' : GlobalNetwork) × (cs : List Condition) × (out.global_network
      ≡ some elem)
    × (result ≡ (some (record { ko = some ko' }), none))
    × IsMerged rm elem ko ko'
    × (ko'.status.conditions ≡ some cs)
    × IsReport E none (elements ko.status.conditions) cs

-- A reply, unless it is an error, holds a network.
abbrev pub HasNetwork : {Err : Type 0} → Reply Err NetworkOutput → Type 0
HasNetwork (failed err) = Unit
HasNetwork (replied out) = out.global_network ≢ none

module _ (E : Errors) (L : IsErrors E) (rm : ResourceManager) where
  pub finish-Failed :
      (r : Resource) (ko : GlobalNetwork) (err : E.Err)
      → r.ko ≡ some ko
      → IsUnique (elements ko.status.conditions)
      → (result : ResourceResult E.Err) × (finish E rm r (none, some err) ≡ done result)
        × Failed E rm ko err result
  unfolding finish
  finish-Failed r ko err e u =
      let (cs, run, P, u') = on_error_lem E rm r ko err L e u in
      (
        (some (with_conditions rm ko cs), some (if is_terminal E err then E.terminal_err else err)),
        run,
        (cs, refl, P, u'),
      )

  module _ (C : Client E.Err) (r : Resource) (ko : GlobalNetwork) (w : World E.Err C.State)
      (e : r.ko ≡ some ko) where
    create_run :
        {res : ResourceResult E.Err} {w' : World E.Err C.State} {result : ResourceResult E.Err}
        → sdk_create E C rm r w ≡ (done res, w')
        → finish E rm r res ≡ done result
        → create E C rm r w ≡ (done result, w')
    unfolding create
    create_run {res} {w'} {result} run end = rw (guard_ko_lem E C rm _ r ko _ e, run, end)

    -- The resource has `ko`, and `ackerr.AWSError` finds the API error that `errors.As` finds. No
    -- type of condition stands twice. If CreateGlobalNetwork fails for this resource, `Create`
    -- records the call with its error and returns the resource with the conditions of a report of
    -- the error, and the error, `ackerr.Terminal` in place of a terminal one.
    pub create_failed :
        (err : E.Err) (s : C.State)
        → IsUnique (elements ko.status.conditions)
        → C.create_global_network (new_create_request_payload ko) w.aws ≡ (failed err, s)
        → (result : ResourceResult E.Err) × (create E C rm r w
            ≡ (done result, after_call "CREATE" "CreateGlobalNetwork" (some err) s w))
          × Failed E rm ko err result
    create_failed err s u replies =
        let (result, end, F) = finish-Failed r ko err e u in
        (result, create_run (sdk_create_call E C rm r ko w e (failed err) s replies) end, F)

    -- The resource has `ko`, and `ackerr.AWSError` finds the API error that `errors.As` finds. If
    -- CreateGlobalNetwork replies to the request for this resource with a network, `Create` makes
    -- this one call and records it without error. It returns nil as the error, and a copy that
    -- holds what the reply says, keeps the object's metadata and the identifiers that the reply
    -- leaves out, and has the conditions of a report of a success.
    pub create_succeeded :
        (elem : SdkGlobalNetwork) (out : NetworkOutput) (s : C.State)
        → out.global_network ≡ some elem
        → C.create_global_network (new_create_request_payload ko) w.aws ≡ (replied out, s)
        → (ko' : GlobalNetwork) × (cs : List Condition) × (create E C rm r w ≡ (
          done (some (record { ko = some ko' }), none),
          after_call "CREATE" "CreateGlobalNetwork" none s w,
        ))
          × IsMerged rm elem ko ko'
          × (ko'.status.conditions ≡ some cs)
          × IsReport E none (elements ko.status.conditions) cs
    unfolding finish
    create_succeeded elem out s network replies =
        let merged = set_output_fields elem ko in
        let (cs, end, P) = on_success_defaults E rm merged L in
        (
          put_conditions (some cs) (set_status_defaults rm merged),
          cs,
          create_run {res = (some (record { ko = some (set_status_defaults rm merged) }), none)}
              (sdk_create_call E C rm r ko w e (replied out) s replies ∙ rw network) end,
          output-IsMerged rm elem ko (some cs),
          refl,
          (rw (conditions-output rm elem ko) at P),
        )

    -- The resource has `ko`, and `ackerr.AWSError` finds the API error that `errors.As` finds. No
    -- type of condition stands twice. The reply to CreateGlobalNetwork, unless it is an error,
    -- holds a network. `Create` calls CreateGlobalNetwork once, with the request for this
    -- resource, and records it with its error, if any. If AWS replies, it returns nil as the
    -- error, and a copy that holds what the reply says, keeps the object's metadata and the
    -- identifiers that the reply leaves out, and has the conditions of a report of a success; if
    -- AWS fails, the given resource with the conditions of a report of the error, and the error,
    -- `ackerr.Terminal` in place of a terminal one.
    pub create_lem :
        (reply : Reply E.Err NetworkOutput) (s : C.State)
        → IsUnique (elements ko.status.conditions)
        → HasNetwork reply
        → C.create_global_network (new_create_request_payload ko) w.aws ≡ (reply, s)
        → (result : ResourceResult E.Err) × (create E C rm r w
            ≡ (done result, after_call "CREATE" "CreateGlobalNetwork" (error_of reply) s w))
          × Written E rm ko ko reply result
    create_lem (failed err) s u h replies = create_failed err s u replies
    create_lem (replied out) s u h replies = elim (Option-cases out.global_network) [
      | inl empty ↦ absurd (h empty)
      | inr (elem, network) ↦
          let (ko', cs, run, merged, conditions, P) = create_succeeded elem out s network replies in
          (
            (some (record { ko = some ko' }), none),
            run,
            (elem, ko', cs, network, refl, merged, conditions, P),
          )
    ]
