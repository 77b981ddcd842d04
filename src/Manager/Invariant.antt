-- ===== src/Manager/Invariant.antt =====
-- What holds of every resource that comes out of a sequence of operations.
use ack_networkmanager_contr.Prelude.{String, ◌≡◌, refl, Outcome, done}
use ack_networkmanager_contr.Types.{GlobalNetworkSpec, Resource}
use ack_networkmanager_contr.External.{IsErrors}
use ack_networkmanager_contr.Effects.Rules.{OnDone, Ensures}
use ack_networkmanager_contr.Reporting.Kept.{MayHold, Holds, Returns}
use ack_networkmanager_contr.Resource.Kept.{
  changed-Holds, ensure_tags-Holds, filter_system_tags-MayHold, mark_managed-Holds,
  mark_unmanaged-Holds, mark_adopted-Holds, set_identifiers-Holds, populate-Holds, set_status-Holds,
  replace_conditions-Holds,
}
use ack_networkmanager_contr.Manager.{
  late_initialize, late_initialize_fields, clear_resolved_references,
}
use ack_networkmanager_contr.Manager.Kept.{
  Reads, read_one-Ensures, create-Ensures, update-Ensures, delete-Ensures,
}
use ack_networkmanager_contr.Manager.History.{edit_spec, Context, Run, Gives, Derived}

edit_spec-Holds :
    (name namespace : String) (spec : GlobalNetworkSpec) (r : Resource)
    → Holds name namespace r
    → OnDone (Holds name namespace) (edit_spec spec r)
edit_spec-Holds name namespace spec r (ko, e, S) =
    rw e (changed-Holds name namespace ko _ S refl refl refl)

clear-Holds :
    (name namespace : String) (r : Resource)
    → Holds name namespace r
    → Holds name namespace (clear_resolved_references r)
unfolding clear_resolved_references
clear-Holds name namespace r h = h

late_initialize-Ensures :
    (X : Context) (name namespace : String) (r : Resource)
    → Holds name namespace r
    → Ensures
        (λ result. MayHold name namespace result.0)
        (late_initialize X.errors X.client X.manager X.range X.utilities r)
unfolding late_initialize late_initialize_fields
late_initialize-Ensures X name namespace r h w = h

module _ (X : Context) where
  gives_lem : {A : Type 0} (P : A → Type 0) {m : Run X A} {a : A} → Ensures P m → Gives X m a → P a
  gives_lem P h g = rw g.runs at (h g.world)

  done_lem : {A : Type 0} (P : A → Type 0) {o : Outcome A} {a : A} → OnDone P o → o ≡ done a → P a
  done_lem P h e = rw e at h

  -- `ackerr.AWSError` finds the API error that `errors.As` finds. Where the first resource has a
  -- network in whose conditions no type stands twice, so has each resource that comes out of it
  -- by any sequence of `ReadOne`, `Create`, `Update`, `Delete`, `EnsureTags`, `FilterSystemTags`,
  -- `LateInitialize`, `ClearResolvedReferences`, the marks, the identifiers, a status of such a
  -- resource, conditions without a type twice and edits of the spec, whatever AWS replies, and it
  -- has the same name and namespace.
  pub derived-Holds :
      (name namespace : String) {first r : Resource}
      → IsErrors X.errors
      → Holds name namespace first
      → Derived X first r
      → Holds name namespace r
  derived-Holds name namespace {first} L h derived = kept derived
    where
      P : Resource → Type 0
      P = Holds name namespace

      kept : {s : Resource} → Derived X first s → P s
      kept Derived.given = h
      kept (Derived.read d run) =
          (gives_lem (Reads X.errors L X.manager name namespace X.client)
            (read_one-Ensures X.errors L X.manager name namespace X.client X.range _ (kept d))
            run).0
      kept (Derived.read_changes d run) =
          (gives_lem (Reads X.errors L X.manager name namespace X.client)
            (read_one-Ensures X.errors L X.manager name namespace X.client X.range _ (kept d))
            run).1
      kept (Derived.created d run) =
          gives_lem (Returns name namespace)
            (create-Ensures X.errors L X.manager name namespace X.client _ (kept d)) run
      kept (Derived.updated delta d l run) =
          gives_lem (Returns name namespace)
            (update-Ensures X.errors L X.manager name namespace X.client X.range X.compare _ _ delta
              (kept d) (kept l))
            run
      kept (Derived.deleted d run) =
          gives_lem (Returns name namespace)
            (delete-Ensures X.errors L X.manager name namespace X.client _ (kept d)) run
      kept (Derived.tagged d run) =
          done_lem P (ensure_tags-Holds name namespace _ (kept d) X.range X.tag_library) run
      kept (Derived.filtered system_tags d run) =
          rw run at (filter_system_tags-MayHold name namespace _ (kept d) X.range system_tags)
      kept (Derived.managed d run) =
          done_lem P (mark_managed-Holds name namespace _ (kept d) X.finalizers) run
      kept (Derived.unmanaged d run) =
          done_lem P (mark_unmanaged-Holds name namespace _ (kept d) X.finalizers) run
      kept (Derived.adopted d run) =
          done_lem P (mark_adopted-Holds name namespace _ (kept d) X.annotation_adopted) run
      kept (Derived.identified id d run) =
          done_lem (λ result. P result.1)
            (set_identifiers-Holds name namespace _ (kept d) X.errors id) run
      kept (Derived.populated fields d run) =
          done_lem (λ result. P result.1) (populate-Holds name namespace _ (kept d) X.errors fields)
            run
      kept (Derived.with_status d l run) =
          done_lem P (set_status-Holds name namespace _ (kept l) _ (kept d)) run
      kept (Derived.with_conditions cs u d run) =
          done_lem P (replace_conditions-Holds name namespace _ (kept d) _ u) run
      kept (Derived.initialized d run) =
          gives_lem (λ result. MayHold name namespace result.0)
            (late_initialize-Ensures X name namespace _ (kept d)) run
      kept (Derived.resolved {r = t} d) = clear-Holds name namespace t (kept d)
      kept (Derived.edited spec d run) =
          done_lem P (edit_spec-Holds name namespace spec _ (kept d)) run
