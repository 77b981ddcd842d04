-- ===== src/Manager/Delete.antt =====
-- Delete, from the reply of AWS to the results and the recorded calls.
use ack_networkmanager_contr.Prelude.{◌≡◌, refl, none, some, elements, done}
use ack_networkmanager_contr.Maps.{Range}
use ack_networkmanager_contr.Types.{GlobalNetwork, Resource, ResourceManager}
use ack_networkmanager_contr.External.{
  Errors, IsErrors, Client, Reply, replied, failed, NetworkOutput,
}
use ack_networkmanager_contr.Effects.{World, error_of, after_call}
use ack_networkmanager_contr.Sdk.{ResourceResult, new_delete_request_payload}
use ack_networkmanager_contr.Sdk.Write.{sdk_delete_call}
use ack_networkmanager_contr.Reporting.{finish, on_success}
use ack_networkmanager_contr.Reporting.Laws.{IsUnique}
use ack_networkmanager_contr.Manager.{guard_ko_lem, delete}
use ack_networkmanager_contr.Manager.Crud.{Failed, finish-Failed}

-- The results of a deletion for the reply of AWS.
abbrev pub Deleted :
    (E : Errors)
    → ResourceManager
    → GlobalNetwork
    → Reply E.Err NetworkOutput
    → ResourceResult E.Err
    → Type 0
Deleted E rm ko (replied out) result = result ≡ (none, none)
Deleted E rm ko (failed err) result = Failed E rm ko err result

finish-none :
    (E : Errors) (rm : ResourceManager) (r : Resource)
    → finish E rm r (none, none) ≡ done (none, none)
unfolding finish on_success
finish-none E rm r = refl

module _ (E : Errors) (L : IsErrors E) (C : Client E.Err) (rm : ResourceManager) (R : Range)
    (r : Resource) (ko : GlobalNetwork) (w : World E.Err C.State) (e : r.ko ≡ some ko) where
  -- The resource has `ko`, and `ackerr.AWSError` finds the API error that `errors.As` finds. No
  -- type of condition stands twice. `Delete` calls DeleteGlobalNetwork once and records it with
  -- its error, if any. If AWS replies, it returns no resource and no error; if AWS fails, the
  -- given resource with the conditions of a report of the error, and the error, `ackerr.Terminal`
  -- in place of a terminal one.
  pub delete_lem :
      (reply : Reply E.Err NetworkOutput) (s : C.State)
      → IsUnique (elements ko.status.conditions)
      → C.delete_global_network (new_delete_request_payload ko) w.aws ≡ (reply, s)
      → (result : ResourceResult E.Err) × (delete E C rm r w
          ≡ (done result, after_call "DELETE" "DeleteGlobalNetwork" (error_of reply) s w))
        × Deleted E rm ko reply result
  unfolding delete
  delete_lem (replied out) s u replies = (
    (none, none),
    rw (
      guard_ko_lem E C rm _ r ko _ e,
      sdk_delete_call E C rm r ko w e (replied out) s replies,
      finish-none E rm r,
    ),
    refl,
  )
  delete_lem (failed err) s u replies =
      let (result, end, F) = finish-Failed E L rm r ko err e u in
      (
        result,
        rw (
          guard_ko_lem E C rm _ r ko _ e,
          sdk_delete_call E C rm r ko w e (failed err) s replies,
          end,
        ),
        F,
      )
