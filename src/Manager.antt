-- ===== src/Manager.antt =====
-- pkg/resource/global_network/manager.go, but for its functions on tags (Tagging) and on errors
-- (Reporting), and references.go. `concreteResource` is a cast that a resource of this kind passes.
pub mod Crud
pub mod Read
pub mod Absent
pub mod Delete
pub mod Update
pub mod Sync
pub mod Converge
pub mod Calls
pub mod Kept
pub mod History
pub mod Invariant
pub mod Reconcile
pub mod Round
pub mod Total
pub mod Removal
pub mod Creation
use Prim.Native.String.{◌++◌ as ◌<>◌}
use ack_networkmanager_contr.Prelude.{
  ℕ, String, ◌≡◌, Bool, true, false, not, Option, none, some, List, [], ◌∷◌, Outcome, done, panic,
  message, deref, if◌then◌else◌,
}
use ack_networkmanager_contr.Maps.{Range}
use ack_networkmanager_contr.Types.{
  status_true, status_false, GlobalNetwork, Resource, ResourceManager,
}
use ack_networkmanager_contr.External.{Errors, Compare, Client, Utilities}
use ack_networkmanager_contr.Effects.{M, ◌>>=◌, pure, lift}
use ack_networkmanager_contr.Sdk.{ResourceResult, sdk_find, sdk_create, sdk_update, sdk_delete}
use ack_networkmanager_contr.Reporting.{finish}
use ack_networkmanager_contr.Tagging.{mirror_aws_tags}

abbrev pub or_self : Resource → Option Resource → Resource
or_self r none = r
or_self r (some r') = r'

-- `lateInitializeFieldNames`
abbrev pub late_initialize_field_names : List String
late_initialize_field_names = []

pub incomplete_late_initialization : Resource → Bool
incomplete_late_initialization res = false

pub late_initialize_from_read_one_output : Option Resource → Resource → Resource
late_initialize_from_read_one_output observed latest = latest

module _ (E : Errors) (C : Client E.Err) (rm : ResourceManager) where
  -- The guard at the head of an operation: it panics on a resource with no `ko`.
  unfoldable pub guard_ko : {A : Type 0} → String → Resource → M E.Err C.State A → M E.Err C.State A
  guard_ko text r rest = elim r.ko [ none ↦ lift (panic (message text)) | some _ ↦ rest ]

  pub guard_ko_lem :
      {A : Type 0} (text : String) (r : Resource) (ko : GlobalNetwork) (rest : M E.Err C.State A)
      → r.ko ≡ some ko
      → guard_ko text r rest ≡ rest
  unfolding guard_ko
  guard_ko_lem text r ko rest e = rw e

  -- `ReadOne`; beside the results, the given resource, whose tags it may have changed.
  unfoldable pub read_one : Range → Resource → M E.Err C.State (ResourceResult E.Err × Resource)
  read_one R r =
      guard_ko "resource manager's ReadOne() method received resource with nil CR object" r (do
        (observed, err) ← sdk_find E C rm r
        let r' = or_self r (mirror_aws_tags R (some r) observed)
        result ← lift (finish E rm r' (observed, err))
        pure (result, r'))

  unfoldable pub create : Resource → M E.Err C.State (ResourceResult E.Err)
  create r =
      guard_ko "resource manager's Create() method received resource with nil CR object" r
        (do created ← sdk_create E C rm r; lift (finish E rm r created))

  -- `desired.ko == nil || latest.ko == nil` panics; an error is reported on `latest`.
  unfoldable pub update :
      Range → (D : Compare) → Resource → Resource → D.Delta → M E.Err C.State (ResourceResult E.Err)
  update R D desired latest delta =
      let text : String =
        "resource manager's Update() method received resource with nil CR object" in
      guard_ko text desired (
        guard_ko text latest (do
          updated ← sdk_update E C rm R D desired latest delta
          lift (finish E rm latest updated)))

  unfoldable pub delete : Resource → M E.Err C.State (ResourceResult E.Err)
  delete r =
      guard_ko "resource manager's Update() method received resource with nil CR object" r
        (do observed ← sdk_delete E C rm r; lift (finish E rm r observed))

  -- `LateInitialize` for a list of field names. The copy is the resource that is read.
  unfoldable pub late_initialize_fields :
      Range → Utilities → List String → Resource → M E.Err C.State (Option Resource × Option E.Err)
  late_initialize_fields R U [] latest = pure (some latest, none)
  late_initialize_fields R U (name ∷ names) latest = do
    ((observed, err), latest_copy) ← read_one R latest
    elim err [
      | some err ↦
          (let failed =
              U.set_late_initialized latest_copy status_false
                (some "Unable to complete Read operation required for late initialization")
                (some "Late Initialization Failure") in
            pure (some (U.set_synced failed status_false none none), some err))
      | none ↦
          (let initialized = late_initialize_from_read_one_output observed latest_copy in
            if incomplete_late_initialization initialized
            then (let delayed =
                  U.set_late_initialized initialized status_false
                    (some "Late initialization did not complete, requeuing with delay of 5 seconds")
                    (some "Delayed Late Initialization") in
                pure (some (U.set_synced delayed status_false none none), some (E.needed_after 5)))
            else pure (
              some (
                  U.set_late_initialized initialized status_true
                    (some "Late initialization successful")
                    (some "Late initialization successful")),
              none,
            ))
    ]

  unfoldable pub late_initialize :
      Range → Utilities → Resource → M E.Err C.State (Option Resource × Option E.Err)
  late_initialize R U latest = late_initialize_fields R U late_initialize_field_names latest

-- `ARNFromName`
unfoldable pub arn_from_name : ResourceManager → String → String
arn_from_name rm name =
    "arn:" <> rm.aws_partition <> ":networkmanager:" <> rm.aws_region <> ":" <> rm.aws_account_id
    <> ":" <> name

-- `IsSynced`; the error that it returns is always nil.
unfoldable pub is_synced : Utilities → Resource → Outcome Bool
is_synced U r = elim r.ko [
  | none ↦
      panic (message "resource manager's IsSynced() method received resource with nil CR object")
  | some ko ↦ elim ko.status.state [
    | none ↦ done false
    | some state ↦ done (if not (U.in_strings state ("AVAILABLE" ∷ [])) then false else true)
  ]
]

-- references.go: `ClearResolvedReferences` copies, and there are no references to resolve.
unfoldable pub clear_resolved_references : Resource → Resource
clear_resolved_references res = record { ko = res.ko }

unfoldable pub resolve_references : {Err : Type 0} → Resource → Resource × Bool × Option Err
resolve_references res = (res, false, none)

unfoldable pub validate_reference_fields : {Err : Type 0} → GlobalNetwork → Option Err
validate_reference_fields ko = none
