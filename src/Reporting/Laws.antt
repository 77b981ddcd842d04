-- ===== src/Reporting/Laws.antt =====
-- Which error an operation returns, and which conditions its resource then has.
use ack_networkmanager_contr.Prelude.{
  ℕ, ◌+◌, ◌≤◌, ◌≡◌, refl, ap, ◌∙◌, Bool, true, false, Option, none, some, List, [], ◌∷◌, ◌++◌,
  arith, is_nil, elements, done, if◌then◌else◌,
}
use ack_networkmanager_contr.Types.{
  Condition, ConditionType, terminal, recoverable, resource_synced, late_initialized, other,
  is_type, is_true, GlobalNetwork, Resource, ResourceManager,
}
use ack_networkmanager_contr.External.{Errors, IsErrors}
use ack_networkmanager_contr.Conditions.{is_terminal, update_conditions}
use ack_networkmanager_contr.Conditions.Views.{last_of, types}
use ack_networkmanager_contr.Conditions.Report.{
  reported_condition, appended_types, mentions_sync, with_conditions, IsReport,
}
use ack_networkmanager_contr.Conditions.Laws.{update_conditions_lem}
use ack_networkmanager_contr.Reporting.{
  has_terminal, error_result, on_error, success_result, on_success,
}

-- How often a type stands in a list of types.
abbrev pub count : ConditionType → List ConditionType → ℕ
count t [] = 0
count t (u ∷ us) = (if is_type u t then 1 else 0) + count t us

-- No type of condition stands twice.
abbrev pub IsUnique : List Condition → Type 0
IsUnique cs = (t : ConditionType) → count t (types cs) ≤ 1

count-append :
    (t : ConditionType) (xs ys : List ConditionType) → count t (xs ++ ys) ≡ count t xs + count t ys
count-append t [] ys = omega arith
count-append t (x ∷ xs) ys = omega (arith, count-append t xs ys)

count_of_absent :
    (t : ConditionType) (cs : List Condition)
    → is_nil (last_of t cs) ≡ true
    → count t (types cs) ≡ 0
count_of_absent t [] h = refl
count_of_absent t (c ∷ cs) h = ground (arith, count_of_absent t cs)

count_appended :
    (E : Errors) (err : Option E.Err) (t : ConditionType) (old : List Condition)
    → count t (types old) ≤ 1
    → count t (types old) + count t (appended_types E err old) ≤ 1
count_appended E none t old h = omega arith
count_appended E (some err) terminal old h = ground (arith, count_of_absent terminal old)
count_appended E (some err) recoverable old h = ground (arith, count_of_absent recoverable old)
count_appended E (some err) resource_synced old h = ground arith
count_appended E (some err) late_initialized old h = ground arith
count_appended E (some err) (other s) old h = ground arith

-- A report keeps the types unique.
pub IsReport-IsUnique :
    (E : Errors) (err : Option E.Err) (old cs : List Condition)
    → IsReport E err old cs
    → IsUnique old
    → IsUnique cs
IsReport-IsUnique E err old cs P u t =
    rw (P.keeps, count-append t (types old) (appended_types E err old))
      (count_appended E err t old (u t))

abbrev is_true_condition : Option Condition → Bool
is_true_condition none = false
is_true_condition (some c) = is_true c.status

has_terminal_of_count :
    (cs : List Condition) → count terminal (types cs) ≡ 0 → has_terminal cs ≡ false
unfolding has_terminal
has_terminal_of_count [] h = refl
has_terminal_of_count (c ∷ cs) h = ground (arith, has_terminal_of_count cs)

last_of-count :
    (t : ConditionType) (cs : List Condition) → count t (types cs) ≡ 0 → last_of t cs ≡ none
last_of-count t [] h = refl
last_of-count t (c ∷ cs) h = ground (arith, last_of-count t cs)

-- With one terminal condition at most, the loop reads that one.
has_terminal_lem :
    (cs : List Condition)
    → count terminal (types cs) ≤ 1
    → has_terminal cs ≡ is_true_condition (last_of terminal cs)
unfolding has_terminal
has_terminal_lem [] h = refl
has_terminal_lem (c ∷ cs) h =
    ground (arith, has_terminal_lem cs, has_terminal_of_count cs, last_of-count terminal cs)

mentions_sync_of_error :
    (E : Errors) (err : E.Err) (old cs : List Condition)
    → IsReport E (some err) old cs
    → mentions_sync cs ≡ true
mentions_sync_of_error E err old cs P = ground (arith, P.reads terminal, P.reads recoverable)

has_terminal_of_error :
    (E : Errors) (err : E.Err) (old cs : List Condition)
    → IsReport E (some err) old cs
    → IsUnique cs
    → has_terminal cs ≡ is_terminal E err
has_terminal_of_error E err old cs P u =
    has_terminal_lem cs (u terminal) ∙ rw (P.reads terminal) (true_reported (last_of terminal old))
  where
    true_reported :
        (c : Option Condition)
        → is_true_condition (reported_condition E (some err) terminal c) ≡ is_terminal E err
    true_reported c = ground arith

on_error_run :
    (E : Errors) (rm : ResourceManager) (r : Resource) (err : E.Err)
    {result : Option Resource × Bool}
    → update_conditions E rm r (some err) ≡ done result
    → on_error E rm (some r) err ≡ error_result E rm r err result
unfolding on_error
on_error_run E rm r err run = rw run

on_success_run :
    (E : Errors) (rm : ResourceManager) (r : Resource) {result : Option Resource × Bool}
    → update_conditions E rm r none ≡ done result
    → on_success E rm (some r) ≡ done (success_result E rm r result)
unfolding on_success
on_success_run E rm r run = rw run

error_result_lem :
    (E : Errors) (rm : ResourceManager) (r : Resource) (ko : GlobalNetwork) (err : E.Err)
    (cs : List Condition)
    → error_result E rm r err (some (with_conditions rm ko cs), true)
      ≡ done
          (some (with_conditions rm ko cs), some (if has_terminal cs then E.terminal_err else err))
unfolding error_result
error_result_lem E rm r ko err cs = refl

-- If `ackerr.AWSError` finds the API error that `errors.As` finds, and no type of condition
-- stands twice, `onError` on a resource with `ko` returns the resource with the conditions of a
-- report of the error, and in place of a terminal error `ackerr.Terminal`, any other error as it
-- is. No type stands twice afterwards.
pub on_error_lem :
    (E : Errors) (rm : ResourceManager) (r : Resource) (ko : GlobalNetwork) (err : E.Err)
    → IsErrors E
    → r.ko ≡ some ko
    → IsUnique (elements ko.status.conditions)
    → (cs : List Condition) × (on_error E rm (some r) err
        ≡ done (
          some (with_conditions rm ko cs),
          some (if is_terminal E err then E.terminal_err else err),
        ))
      × IsReport E (some err) (elements ko.status.conditions) cs
      × IsUnique cs
on_error_lem E rm r ko err L e u =
    let old = elements ko.status.conditions in
    let (cs, run, P) = update_conditions_lem E rm r ko (some err) L e in
    let u' = IsReport-IsUnique E (some err) old cs P u in
    (
      cs,
      on_error_run E rm r err (
            run
            ∙ ap (λ b. done (if b then (some (with_conditions rm ko cs), true) else (none, false)))
                (mentions_sync_of_error E err old cs P))
          ∙ error_result_lem E rm r ko err cs
          ∙ rw (has_terminal_of_error E err old cs P u'),
      P,
      u',
    )

success_result_if :
    (E : Errors) (rm : ResourceManager) (r x : Resource) (b : Bool)
    → success_result E rm r (if b then (some x, true) else (none, false))
      ≡ (some (if b then x else r), none)
unfolding success_result
success_result_if E rm r x true = refl
success_result_if E rm r x false = refl

pub on_success_lem :
    (E : Errors) (rm : ResourceManager) (r : Resource) (ko : GlobalNetwork)
    → IsErrors E
    → r.ko ≡ some ko
    → (cs : List Condition) × (on_success E rm (some r)
        ≡ done (some (if mentions_sync cs then with_conditions rm ko cs else r), none))
      × IsReport E none (elements ko.status.conditions) cs
on_success_lem E rm r ko L e =
    let (cs, run, P) = update_conditions_lem E rm r ko none L e in
    (
      cs,
      on_success_run E rm r run
          ∙ ap done (success_result_if E rm r (with_conditions rm ko cs) (mentions_sync cs)),
      P,
    )
