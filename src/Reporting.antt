-- ===== src/Reporting.antt =====
-- `onError` and `onSuccess` of pkg/resource/global_network/manager.go, and the end that its four
-- operations share.
pub mod Laws
pub mod Success
pub mod Kept
use ack_networkmanager_contr.Prelude.{
  String, Bool, true, false, not, ◌&&◌, ◌||◌, Option, none, some, List, [], ◌∷◌, elements, Outcome,
  done, panic, message, deref, if◌then◌else◌, ◌>>=◌,
}
use ack_networkmanager_contr.Maps.{Range}
use ack_networkmanager_contr.Types.{
  Condition, terminal, status_true, status_false, is_type, is_true, Resource, ResourceManager,
}
use ack_networkmanager_contr.External.{Errors, Compare, Client, Utilities}
use ack_networkmanager_contr.Effects
use ack_networkmanager_contr.Effects.{M, pure, lift}
use ack_networkmanager_contr.Conditions.{update_conditions}
use ack_networkmanager_contr.Sdk.{ResourceResult, sdk_find, sdk_create, sdk_update, sdk_delete}
use ack_networkmanager_contr.Tagging.{mirror_aws_tags}

-- The loop of `onError`: some terminal condition is true.
pub has_terminal : List Condition → Bool
has_terminal [] = false
has_terminal (c ∷ cs) = (is_type c.type terminal && is_true c.status) || has_terminal cs

module _ (E : Errors) (rm : ResourceManager) where
  -- What `onError` makes of the result of `updateConditions`.
  error_result : Resource → E.Err → Option Resource × Bool → Outcome (ResourceResult E.Err)
  error_result r err (r1, false) = done (some r, some err)
  error_result r err (r1, true) = do
    updated ← deref r1
    ko ← deref updated.ko
    done (r1, some (if has_terminal (elements ko.status.conditions) then E.terminal_err else err))

  unfoldable pub on_error : Option Resource → E.Err → Outcome (ResourceResult E.Err)
  unfolding error_result has_terminal update_conditions
  on_error none err = done (none, some err)
  on_error (some r) err = do result ← update_conditions E rm r (some err); error_result r err result

  success_result : Resource → Option Resource × Bool → ResourceResult E.Err
  success_result r (r1, false) = (some r, none)
  success_result r (r1, true) = (r1, none)

  unfoldable pub on_success : Option Resource → Outcome (ResourceResult E.Err)
  unfolding success_result update_conditions
  on_success none = done (none, none)
  on_success (some r) = do result ← update_conditions E rm r none; done (success_result r result)

  -- The end of each operation: `fallback` is reported where there is no other resource.
  unfoldable pub finish : Resource → ResourceResult E.Err → Outcome (ResourceResult E.Err)
  finish fallback (observed, none) = on_success observed
  finish fallback (some observed, some err) = on_error (some observed) err
  finish fallback (none, some err) = on_error (some fallback) err
