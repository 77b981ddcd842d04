-- ===== src/Conditions/Memory/Refine.antt =====
-- The run over memory follows the one over the list of conditions.
use ack_networkmanager_contr.Prelude.{
  length, ℕ, String, ◌≡◌, refl, ap, ◌∙◌, Option, none, some, List, ◌++◌, arith, elements, Outcome,
  done, panic, Bool-cases, inl, inr, ◌>>=◌,
}
use ack_networkmanager_contr.Types.{
  Condition, terminal, recoverable, status_true, status_false, GlobalNetwork, Resource,
  ResourceManager,
}
use ack_networkmanager_contr.External.{Errors, IsErrors}
use ack_networkmanager_contr.Conditions.{
  write_at, Pointers, no_pointers, find_conditions, write_if, write_or_append, set_or_appended,
  any_condition, is_terminal, terminal_message, recoverable_message, rewrite_conditions,
  update_conditions,
}
use ack_networkmanager_contr.Conditions.Report.{report, mentions_sync}
use ack_networkmanager_contr.Conditions.Rewrite.{find_and_rewrite}
use ack_networkmanager_contr.Conditions.Laws.{update_conditions_run}
use ack_networkmanager_contr.Conditions.Memory.{
  Store, load_all, made_or_old, rewrite_in_memory, update_in_memory,
}
use ack_networkmanager_contr.Conditions.Memory.Shift.{
  addresses, shift, shift_pointers, load_all-append, load_all-addresses, copy_loop_lem,
  find_loop_lem, write_if_behind, length-write_if, made_or_old_lem,
}

-- The outcome over memory for one over the list: the conditions stand behind `s`.
abbrev behind : Store → Outcome (List Condition × Pointers) → Outcome (List ℕ × Pointers × Store)
behind s (panic e) = panic e
behind s (done (cs, p)) =
    done (addresses (length s) (length cs), shift_pointers (length s) p, s ++ cs)

-- The write to a condition that is new or old.
terminal_behind :
    (p : Pointers) (s cs : List Condition) (m : Option String)
    → let (a, bs, s') =
        made_or_old terminal
          (shift (length s) p.terminal_condition)
          (addresses (length s) (length cs))
          (s ++ cs) in
      done (
        bs,
        record (shift_pointers (length s) p) { terminal_condition = some a },
        write_at a status_true m s',
      )
      ≡ behind s (
          done (
            write_or_append terminal p.terminal_condition status_true m cs,
            record p { terminal_condition = set_or_appended p.terminal_condition cs },
          ))
terminal_behind p s cs m =
    let (bs, a, s') = made_or_old_lem terminal p.terminal_condition status_true m s cs in
    ground (arith, bs, a, s')

recoverable_behind :
    (p : Pointers) (s cs : List Condition) (m : Option String)
    → let (a, bs, s') =
        made_or_old recoverable
          (shift (length s) p.recoverable_condition)
          (addresses (length s) (length cs))
          (s ++ cs) in
      done (
        bs,
        record (shift_pointers (length s) p) { recoverable_condition = some a },
        write_at a status_true m s',
      )
      ≡ behind s (
          done (
            write_or_append recoverable p.recoverable_condition status_true m cs,
            record p { recoverable_condition = set_or_appended p.recoverable_condition cs },
          ))
recoverable_behind p s cs m =
    let (bs, a, s') = made_or_old_lem recoverable p.recoverable_condition status_true m s cs in
    ground (arith, bs, a, s')

module _ (E : Errors) where
  terminal_branch :
      (p : Pointers) (s cs : List Condition) (text : Outcome String)
      → (text >>= λ text.
          (let (a, bs, s') =
              made_or_old terminal
                (shift (length s) p.terminal_condition)
                (addresses (length s) (length cs))
                (s ++ cs) in
            done (
              bs,
              record (shift_pointers (length s) p) { terminal_condition = some a },
              write_at a status_true (some text) s',
            )))
        ≡ behind s (
            text >>= λ text. done (
              write_or_append terminal p.terminal_condition status_true (some text) cs,
              record p { terminal_condition = set_or_appended p.terminal_condition cs },
            ))
  terminal_branch p s cs (panic e) = refl
  terminal_branch p s cs (done text) = terminal_behind p s cs (some text)

  rewrite_behind :
      (err : Option E.Err) (p : Pointers) (s cs : List Condition)
      → rewrite_in_memory E err
          (shift_pointers (length s) p)
          (addresses (length s) (length cs))
          (s ++ cs)
        ≡ behind s (rewrite_conditions E err p cs)
  unfolding rewrite_in_memory rewrite_conditions
  rewrite_behind none p s cs =
      let once = write_if p.terminal_condition status_false none cs in
      rw
        (
          write_if_behind s cs p.terminal_condition status_false none,
          write_if_behind s once p.recoverable_condition status_false none,
          length-write_if p.recoverable_condition status_false none once,
          length-write_if p.terminal_condition status_false none cs,
        )
        refl
  rewrite_behind (some err) p s cs = elim (Bool-cases (is_terminal E err)) [
    | inl h ↦ rw h (terminal_branch p s cs (terminal_message E err))
    | inr h ↦
        rw (h, write_if_behind s cs p.terminal_condition status_false none)
          (rw (length-write_if p.terminal_condition status_false none cs) at (
            recoverable_behind p s (write_if p.terminal_condition status_false none cs)
              (some (recoverable_message E err))))
  ]

  update_behind :
      (err : Option E.Err) (ps : List ℕ) (s cs : List Condition)
      → load_all ps s ≡ done cs
      → update_in_memory E err ps s
        ≡ behind s (rewrite_conditions E err (find_conditions 0 cs no_pointers) cs)
  unfolding update_in_memory
  update_behind err ps s cs e =
      rw (copy_loop_lem ps s e, find_loop_lem (length s) 0 s cs no_pointers (omega arith))
        (rewrite_behind err (find_conditions 0 cs no_pointers) s cs)

any-shift : (n : ℕ) (p : Pointers) → any_condition (shift_pointers n p) ≡ any_condition p
any-shift n p = ground arith

-- If `ackerr.AWSError` finds the API error that `errors.As` finds, and pointers, of which several
-- may be the same, hold the conditions of a resource with `ko`, then `updateConditions`, run over
-- the memory with its deep copy, its three pointers and the writes through them, does not panic:
-- the pointers of its result hold the list of conditions that `update_conditions` gives without
-- memory, it says that it updated exactly where that does, and the given pointers still hold the
-- conditions that they held.
pub update_in_memory_refines :
    (E : Errors) (rm : ResourceManager) (r : Resource) (ko : GlobalNetwork) (err : Option E.Err)
    (ps : List ℕ) (s : Store)
    → IsErrors E
    → r.ko ≡ some ko
    → load_all ps s ≡ done (elements ko.status.conditions)
    → (cs : List Condition) × (bs : List ℕ) × (p : Pointers) × (s' : Store) × (update_in_memory E
          err ps s
        ≡ done (bs, p, s'))
      × (update_conditions E rm r err ≡ done (report rm ko cs))
      × (any_condition p ≡ mentions_sync cs)
      × (load_all bs s' ≡ done cs)
      × (load_all ps s' ≡ done (elements ko.status.conditions))
update_in_memory_refines E rm r ko err ps s L e held =
    let old = elements ko.status.conditions in
    let (cs, p, run, reported, any) = find_and_rewrite E old err L in
    (
      cs,
      addresses (length s) (length cs),
      shift_pointers (length s) p,
      s ++ cs,
      update_behind E err ps s old held ∙ ap (behind s) run,
      update_conditions_run E rm r ko err cs p e run any,
      any-shift (length s) p ∙ any,
      load_all-addresses s cs,
      load_all-append ps s cs held,
    )
