-- ===== src/Reporting/Kept.antt =====
-- What the reports on a resource keep of it.
use ack_networkmanager_contr.Prelude.{
  String, ◌≡◌, refl, Bool, true, false, Option, none, some, List, elements, if◌then◌else◌,
}
use ack_networkmanager_contr.Types.{Condition, GlobalNetwork, Resource, ResourceManager}
use ack_networkmanager_contr.External.{Errors, IsErrors}
use ack_networkmanager_contr.Effects.Rules.{OnDone}
use ack_networkmanager_contr.Conditions.{set_status_defaults}
use ack_networkmanager_contr.Conditions.Report.{with_conditions, mentions_sync}
use ack_networkmanager_contr.Sdk.{ResourceResult}
use ack_networkmanager_contr.Sdk.Merge.{elements-defaults}
use ack_networkmanager_contr.Reporting.{on_error, on_success, finish}
use ack_networkmanager_contr.Reporting.Laws.{
  IsUnique, IsReport-IsUnique, on_error_lem, on_success_lem,
}

-- A network of this name and namespace, in whose conditions no type stands twice.
pub record IsSound (name namespace : String) (ko : GlobalNetwork) : Type 0 where
  pub same_name : ko.object_meta.name ≡ name
  pub same_namespace : ko.object_meta.namespace ≡ namespace
  pub unique : IsUnique (elements ko.status.conditions)

-- A resource with such a network.
abbrev pub Holds : String → String → Resource → Type 0
Holds name namespace r = (ko : GlobalNetwork) × (r.ko ≡ some ko) × IsSound name namespace ko

-- A pointer to such a resource, or nil.
abbrev pub MayHold : String → String → Option Resource → Type 0
MayHold name namespace none = Unit
MayHold name namespace (some r) = Holds name namespace r

-- The results of an operation: such a resource, or none.
abbrev pub Returns : {Err : Type 0} → String → String → ResourceResult Err → Type 0
Returns name namespace result = MayHold name namespace result.0

module _ (E : Errors) (L : IsErrors E) (rm : ResourceManager) (name namespace : String) where
  defaults-IsSound :
      (ko : GlobalNetwork)
      → IsSound name namespace ko
      → IsSound name namespace (set_status_defaults rm ko)
  unfolding set_status_defaults
  defaults-IsSound ko S = record {
    same_name = S.same_name;
    same_namespace = S.same_namespace;
    unique = rw (elements-defaults rm ko) S.unique;
  }

  with_conditions-Holds :
      (ko : GlobalNetwork) (cs : List Condition)
      → IsSound name namespace ko
      → IsUnique cs
      → Holds name namespace (with_conditions rm ko cs)
  unfolding set_status_defaults
  with_conditions-Holds ko cs S u =
      (_, refl, record { same_name = S.same_name; same_namespace = S.same_namespace; unique = u })

  on_error-Returns :
      (r : Resource) (err : E.Err)
      → Holds name namespace r
      → OnDone (Returns name namespace) (on_error E rm (some r) err)
  on_error-Returns r err (ko, e, S) =
      let (cs, run, P, u) = on_error_lem E rm r ko err L e S.unique in
      rw run (with_conditions-Holds ko cs S u)

  if-Holds :
      (b : Bool) (r s : Resource)
      → Holds name namespace r
      → Holds name namespace s
      → Holds name namespace (if b then r else s)
  if-Holds true r s h k = h
  if-Holds false r s h k = k

  on_success-Returns :
      (observed : Option Resource)
      → MayHold name namespace observed
      → OnDone (Returns name namespace) (on_success E rm observed)
  unfolding on_success
  on_success-Returns none h = tt
  on_success-Returns (some r) (ko, e, S) =
      let (cs, run, P) = on_success_lem E rm r ko L e in
      rw run (
        if-Holds (mentions_sync cs) (with_conditions rm ko cs) r
          (with_conditions-Holds ko cs S (IsReport-IsUnique E none _ cs P S.unique)) (ko, e, S))

  pub finish-Returns :
      (r : Resource) (result : ResourceResult E.Err)
      → Holds name namespace r
      → Returns name namespace result
      → OnDone (Returns name namespace) (finish E rm r result)
  unfolding finish
  finish-Returns r (observed, none) h k = on_success-Returns observed k
  finish-Returns r (some observed, some err) h k = on_error-Returns observed err k
  finish-Returns r (none, some err) h k = on_error-Returns r err h
