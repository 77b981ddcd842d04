-- ===== src/Conditions/Rewrite.antt =====
-- The two branches of `updateConditions` that rewrite the conditions, case by case.
use ack_networkmanager_contr.Prelude.{
  ◌≡◌, refl, sym, ◌∙◌, true, false, Option, none, some, List, [], ◌∷◌, ◌++◌, arith, is_nil, done,
  if◌then◌else◌, Bool-cases, inl, inr,
}
use mathlib.Core.List.{append-nil}
use ack_networkmanager_contr.Types.{
  Condition, ConditionType, terminal, recoverable, resource_synced, late_initialized, other,
  status_true, status_false, is_type,
}
use ack_networkmanager_contr.External.{Errors, IsErrors}
use ack_networkmanager_contr.Conditions.{
  Pointers, find_conditions, no_pointers, assign, write_if, write_or_append, set_or_appended,
  any_condition, terminal_aws_error, is_terminal, terminal_message, recoverable_message,
  rewrite_conditions,
}
use ack_networkmanager_contr.Conditions.Views.{
  last_of, last_index, written, types, or_new, is_nil-last_index, last_of-write_if, types-write_if,
  last_index-write_if, last_of-write_or_append, types-write_or_append, find_conditions_lem,
}
use ack_networkmanager_contr.Conditions.Report.{
  terminal_text, reported_condition, mentions_sync, IsReport,
}

abbrev pointers : List Condition → Pointers
pointers cs = record {
  terminal_condition = last_index terminal cs;
  recoverable_condition = last_index recoverable cs;
  sync_condition = last_index resource_synced cs;
}

module _ (E : Errors) (L : IsErrors E) (old : List Condition) where
  -- The conditions once a terminal condition is cleared.
  abbrev cleared : List Condition
  cleared = write_if (last_index terminal old) status_false none old

  recoverable_index : last_index recoverable cleared ≡ last_index recoverable old
  recoverable_index =
      last_index-write_if terminal status_false none old recoverable (last_index terminal old)

  last_of-cleared :
      (t : ConditionType)
      → last_of t cleared
        ≡ (if is_type terminal t then written status_false none (last_of t old) else last_of t old)
  last_of-cleared = last_of-write_if terminal status_false none old

  abbrev all_cleared : List Condition
  all_cleared = write_if (last_index recoverable old) status_false none cleared

  last_of-all_cleared :
      (t : ConditionType)
      → last_of t all_cleared ≡ (
          if is_type recoverable t
          then written status_false none (last_of t cleared)
          else last_of t cleared)
  last_of-all_cleared t =
      rw recoverable_index at (last_of-write_if recoverable status_false none cleared t)

  reads_none :
      (t : ConditionType) → last_of t all_cleared ≡ reported_condition E none t (last_of t old)
  reads_none terminal = ground (arith, last_of-all_cleared terminal, last_of-cleared terminal)
  reads_none recoverable =
      ground (arith, last_of-all_cleared recoverable, last_of-cleared recoverable)
  reads_none resource_synced =
      ground (arith, last_of-all_cleared resource_synced, last_of-cleared resource_synced)
  reads_none late_initialized =
      ground (arith, last_of-all_cleared late_initialized, last_of-cleared late_initialized)
  reads_none (other s) = ground (arith, last_of-all_cleared (other s), last_of-cleared (other s))

  rewrite_none :
      (cs : List Condition) × (p : Pointers) × (rewrite_conditions E none (pointers old) old
        ≡ done (cs, p))
      × IsReport E none old cs
      × (any_condition p ≡ mentions_sync cs)
  unfolding rewrite_conditions
  rewrite_none = (
    all_cleared,
    pointers old,
    refl,
    record {
      reads = reads_none;
      keeps =
          types-write_if recoverable status_false none cleared (last_index recoverable old)
          ∙ types-write_if terminal status_false none old (last_index terminal old)
          ∙ sym (append-nil (types old));
    },
    ground (
      arith,
      reads_none terminal,
      reads_none recoverable,
      reads_none resource_synced,
      is_nil-last_index terminal old,
      is_nil-last_index recoverable old,
      is_nil-last_index resource_synced old,
    ),
  )

  -- A terminal error always has a message.
  terminal_message_lem :
      (err : E.Err) → is_terminal E err ≡ true → terminal_message E err ≡ done (terminal_text E err)
  unfolding terminal_aws_error
  terminal_message_lem err h = ground (arith, L.aws_error_as err)

  module _ (err : E.Err) where
    abbrev terminal_list : List Condition
    terminal_list =
        write_or_append terminal (last_index terminal old) status_true (some (terminal_text E err))
          old

    last_of-terminal_list :
        (t : ConditionType)
        → last_of t terminal_list ≡ (
            if is_type terminal t
            then some
                (assign status_true (some (terminal_text E err)) (or_new terminal (last_of t old)))
            else last_of t old)
    last_of-terminal_list =
        last_of-write_or_append terminal status_true (some (terminal_text E err)) old

    reads_terminal :
        is_terminal E err ≡ true
        → (t : ConditionType)
        → last_of t terminal_list ≡ reported_condition E (some err) t (last_of t old)
    reads_terminal h terminal = ground (arith, last_of-terminal_list terminal)
    reads_terminal h recoverable = ground (arith, last_of-terminal_list recoverable)
    reads_terminal h resource_synced = ground (arith, last_of-terminal_list resource_synced)
    reads_terminal h late_initialized = ground (arith, last_of-terminal_list late_initialized)
    reads_terminal h (other s) = ground (arith, last_of-terminal_list (other s))

    rewrite_terminal :
        is_terminal E err ≡ true
        → (cs : List Condition) × (p : Pointers) × (rewrite_conditions E
              (some err)
              (pointers old)
              old
            ≡ done (cs, p))
          × IsReport E (some err) old cs
          × (any_condition p ≡ mentions_sync cs)
    unfolding rewrite_conditions
    rewrite_terminal h = (
      terminal_list,
      record (pointers old) { terminal_condition = set_or_appended (last_index terminal old) old },
      rw (h, terminal_message_lem err h),
      record {
        reads = reads_terminal h;
        keeps = rw h (types-write_or_append terminal status_true (some (terminal_text E err)) old);
      },
      ground (arith, reads_terminal h terminal),
    )

    abbrev recoverable_list : List Condition
    recoverable_list =
        write_or_append recoverable (last_index recoverable old) status_true
          (some (recoverable_message E err)) cleared

    last_of-recoverable_list :
        (t : ConditionType)
        → last_of t recoverable_list ≡ (
            if is_type recoverable t
            then some (
                assign status_true
                  (some (recoverable_message E err))
                  (or_new recoverable (last_of t cleared)))
            else last_of t cleared)
    last_of-recoverable_list t = rw recoverable_index at (
        last_of-write_or_append recoverable status_true (some (recoverable_message E err)) cleared
          t)

    reads_recoverable :
        is_terminal E err ≡ false
        → (t : ConditionType)
        → last_of t recoverable_list ≡ reported_condition E (some err) t (last_of t old)
    reads_recoverable h terminal =
        ground (arith, last_of-recoverable_list terminal, last_of-cleared terminal)
    reads_recoverable h recoverable =
        ground (arith, last_of-recoverable_list recoverable, last_of-cleared recoverable)
    reads_recoverable h resource_synced =
        ground (arith, last_of-recoverable_list resource_synced, last_of-cleared resource_synced)
    reads_recoverable h late_initialized =
        ground (arith, last_of-recoverable_list late_initialized, last_of-cleared late_initialized)
    reads_recoverable h (other s) =
        ground (arith, last_of-recoverable_list (other s), last_of-cleared (other s))

    types-recoverable_list :
        types recoverable_list
        ≡ types old ++ (if is_nil (last_of recoverable old) then recoverable ∷ [] else [])
    types-recoverable_list =
        rw recoverable_index at
          (types-write_or_append recoverable status_true (some (recoverable_message E err)) cleared)
        ∙ rw (
          last_of-cleared recoverable,
          types-write_if terminal status_false none old (last_index terminal old),
        )

    rewrite_recoverable :
        is_terminal E err ≡ false
        → (cs : List Condition) × (p : Pointers) × (rewrite_conditions E
              (some err)
              (pointers old)
              old
            ≡ done (cs, p))
          × IsReport E (some err) old cs
          × (any_condition p ≡ mentions_sync cs)
    unfolding rewrite_conditions
    rewrite_recoverable h = (
      recoverable_list,
      record (pointers old) {
        recoverable_condition = set_or_appended (last_index recoverable old) cleared;
      },
      rw h,
      record { reads = reads_recoverable h; keeps = rw h types-recoverable_list },
      ground (arith, reads_recoverable h recoverable),
    )

  rewrite_conditions_lem :
      (err : Option E.Err)
      → (cs : List Condition) × (p : Pointers) × (rewrite_conditions E err (pointers old) old
          ≡ done (cs, p))
        × IsReport E err old cs
        × (any_condition p ≡ mentions_sync cs)
  rewrite_conditions_lem none = rewrite_none
  rewrite_conditions_lem (some err) = elim (Bool-cases (is_terminal E err)) [
    | inl h ↦ rewrite_terminal err h
    | inr h ↦ rewrite_recoverable err h
  ]

-- The loop and the two branches, with what they say of the conditions.
pub find_and_rewrite :
    (E : Errors) (old : List Condition) (err : Option E.Err)
    → IsErrors E
    → (cs : List Condition) × (p : Pointers) × (rewrite_conditions E err
          (find_conditions 0 old no_pointers)
          old
        ≡ done (cs, p))
      × IsReport E err old cs
      × (any_condition p ≡ mentions_sync cs)
find_and_rewrite E old err L = rw (find_conditions_lem old) (rewrite_conditions_lem E L old err)
