-- ===== src/Conditions/Report.antt =====
-- The specification of `updateConditions`: the condition of each type after a report.
use ack_networkmanager_contr.Prelude.{
  String, ◌≡◌, Bool, true, false, not, ◌||◌, Option, none, some, List, [], ◌∷◌, ◌++◌, is_nil,
  if◌then◌else◌,
}
use ack_networkmanager_contr.Types.{
  Condition, ConditionType, terminal, recoverable, resource_synced, status_true, status_false,
  GlobalNetwork, Resource, ResourceManager,
}
use ack_networkmanager_contr.External.{Errors}
use ack_networkmanager_contr.Conditions.{
  set_status_defaults, assign, is_terminal_value, is_terminal, recoverable_message,
}
use ack_networkmanager_contr.Conditions.Views.{last_of, written, types, or_new}

-- The message of a terminal error.
abbrev pub api_text_or_empty : (E : Errors) → Option E.ApiError → String
api_text_or_empty E none = ""
api_text_or_empty E (some e) = E.api_text e

abbrev pub terminal_text : (E : Errors) → E.Err → String
terminal_text E err =
    if is_terminal_value E err then E.text err else api_text_or_empty E (E.aws_error err)

-- The specification: the condition of type `t` after a report of `err`.
module _ (E : Errors) where
  abbrev reported_terminal : Option E.Err → Option Condition → Option Condition
  reported_terminal none old = written status_false none old
  reported_terminal (some err) old =
      if is_terminal E err
      then some (assign status_true (some (terminal_text E err)) (or_new terminal old))
      else written status_false none old

  abbrev reported_recoverable : Option E.Err → Option Condition → Option Condition
  reported_recoverable none old = written status_false none old
  reported_recoverable (some err) old =
      if is_terminal E err
      then old
      else some (assign status_true (some (recoverable_message E err)) (or_new recoverable old))

  abbrev pub reported_condition : Option E.Err → ConditionType → Option Condition → Option Condition
  reported_condition err terminal old = reported_terminal err old
  reported_condition err recoverable old = reported_recoverable err old
  reported_condition err _ old = old

  -- The types that are appended.
  abbrev pub appended_types : Option E.Err → List Condition → List ConditionType
  appended_types none old = []
  appended_types (some err) old =
      if is_terminal E err
      then (if is_nil (last_of terminal old) then terminal ∷ [] else [])
      else (if is_nil (last_of recoverable old) then recoverable ∷ [] else [])

-- A condition of one of the three types stands in the list.
abbrev pub mentions_sync : List Condition → Bool
mentions_sync cs =
    not (is_nil (last_of terminal cs))
    || not (is_nil (last_of recoverable cs))
    || not (is_nil (last_of resource_synced cs))

abbrev pub with_conditions : ResourceManager → GlobalNetwork → List Condition → Resource
with_conditions rm ko cs =
    let ko' = set_status_defaults rm ko in
    record { ko = some (record ko' { status = record ko'.status { conditions = some cs } }) }

abbrev pub report : ResourceManager → GlobalNetwork → List Condition → Option Resource × Bool
report rm ko cs =
    if mentions_sync cs then (some (with_conditions rm ko cs), true) else (none, false)

-- What holds of the conditions that a report of `err` leaves.
pub record IsReport (E : Errors) (err : Option E.Err) (old cs : List Condition) : Type 0 where
  pub reads : (t : ConditionType) → last_of t cs ≡ reported_condition E err t (last_of t old)
  pub keeps : types cs ≡ types old ++ appended_types E err old
