-- ===== src/Reporting/Success.antt =====
-- `onSuccess` on a resource whose status has its defaults.
use mathlib.Core.List.{append-nil}
use ack_networkmanager_contr.Prelude.{
  ◌≡◌, refl, sym, ◌∙◌, false, none, some, List, arith, elements, done, Bool-cases, inl, inr,
}
use ack_networkmanager_contr.Types.{
  Condition, ConditionType, terminal, recoverable, resource_synced, late_initialized, other,
  GlobalNetwork, ResourceManager,
}
use ack_networkmanager_contr.External.{Errors, IsErrors}
use ack_networkmanager_contr.Conditions.{set_status_defaults}
use ack_networkmanager_contr.Conditions.Views.{last_of, types}
use ack_networkmanager_contr.Conditions.Report.{reported_condition, mentions_sync, IsReport}
use ack_networkmanager_contr.Sdk.Merge.{put_conditions, set_status_defaults_twice}
use ack_networkmanager_contr.Reporting.{on_success}
use ack_networkmanager_contr.Reporting.Laws.{on_success_lem}

-- Where no condition of the three types stands, a success has nothing to report.
unmentioned-IsReport :
    (E : Errors) (old cs : List Condition)
    → IsReport E none old cs
    → mentions_sync cs ≡ false
    → IsReport E none old old
unmentioned-IsReport E old cs P h = record { reads = reads; keeps = sym (append-nil (types old)) }
  where
    reads : (t : ConditionType) → last_of t old ≡ reported_condition E none t (last_of t old)
    reads terminal = ground (arith, P.reads terminal)
    reads recoverable = ground (arith, P.reads recoverable)
    reads resource_synced = refl
    reads late_initialized = refl
    reads (other s) = refl

elements-some :
    (rm : ResourceManager) (ko : GlobalNetwork)
    → put_conditions
        (some (elements (set_status_defaults rm ko).status.conditions))
        (set_status_defaults rm ko)
      ≡ set_status_defaults rm ko
unfolding set_status_defaults
elements-some rm ko = ground arith

-- The conditions alone change.
pub on_success_defaults :
    (E : Errors) (rm : ResourceManager) (ko : GlobalNetwork)
    → IsErrors E
    → let ko' = set_status_defaults rm ko in
      (cs : List Condition) × (on_success E rm (some (record { ko = some ko' }))
        ≡ done (some (record { ko = some (put_conditions (some cs) ko') }), none))
      × IsReport E none (elements ko'.status.conditions) cs
on_success_defaults E rm ko L =
    let ko' = set_status_defaults rm ko in
    let old = elements ko'.status.conditions in
    let (cs, run, P) = on_success_lem E rm (record { ko = some ko' }) ko' L refl in
    elim (Bool-cases (mentions_sync cs)) [
      | inl h ↦ (cs, run ∙ rw (h, set_status_defaults_twice rm ko), P)
      | inr h ↦ (old, run ∙ rw (h, elements-some rm ko), unmentioned-IsReport E old cs P h)
    ]
