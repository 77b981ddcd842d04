-- ===== src/Conditions/Memory.antt =====
-- `updateConditions` over memory: the conditions of the resource are pointers, its deep copy makes
-- new ones, and the three variables and the writes go through pointers. A pointer is the place of a
-- condition in the store.
pub mod Shift
pub mod Refine
use ack_networkmanager_contr.Prelude.{
  length, ℕ, zero, suc, Option, none, some, List, [], ◌∷◌, ◌++◌, Outcome, done, panic,
  nil_dereference, ◌>>=◌, if◌then◌else◌,
}
use ack_networkmanager_contr.Types.{
  Condition, ConditionType, terminal, recoverable, status_true, status_false,
}
use ack_networkmanager_contr.External.{Errors}
use ack_networkmanager_contr.Conditions.{
  Pointers, note, no_pointers, write_at, write_if, new_condition, is_terminal, terminal_message,
  recoverable_message, terminal_aws_error,
}

abbrev pub Store : Type 0
Store = List Condition

-- `*p`
unfoldable pub load : ℕ → Store → Outcome Condition
load a [] = panic nil_dereference
load zero (c ∷ s) = done c
load (suc a) (c ∷ s) = load a s

unfoldable pub load_all : List ℕ → Store → Outcome (List Condition)
load_all [] s = done []
load_all (a ∷ ps) s = do c ← load a s; cs ← load_all ps s; done (c ∷ cs)

-- The loop of `DeepCopy` over the conditions: a new condition for each pointer.
pub copy_loop : List ℕ → Store → Outcome (List ℕ × Store)
copy_loop [] s = done ([], s)
copy_loop (a ∷ ps) s = do
  c ← load a s
  (bs, s') ← copy_loop ps (s ++ (c ∷ []))
  done (length s ∷ bs, s')

-- The loop that fills the three variables.
pub find_loop : List ℕ → Store → Pointers → Outcome Pointers
find_loop [] s p = done p
find_loop (a ∷ ps) s p = do c ← load a s; find_loop ps s (note a c p)

-- A nil pointer is set to a new condition, which is appended to the slice.
abbrev pub made_or_old : ConditionType → Option ℕ → List ℕ → Store → ℕ × List ℕ × Store
made_or_old t none ps s = (length s, ps ++ (length s ∷ []), s ++ (new_condition t ∷ []))
made_or_old t (some a) ps s = (a, ps, s)

module _ (E : Errors) where
  -- The two branches.
  pub rewrite_in_memory :
      Option E.Err → Pointers → List ℕ → Store → Outcome (List ℕ × Pointers × Store)
  unfolding terminal_aws_error write_at
  rewrite_in_memory none p ps s = done (
    ps,
    p,
    write_if p.recoverable_condition status_false none
        (write_if p.terminal_condition status_false none s),
  )
  rewrite_in_memory (some err) p ps s =
      if is_terminal E err
      then (do
        text ← terminal_message E err
        let (a, ps', s') = made_or_old terminal p.terminal_condition ps s
        done (ps', record p { terminal_condition = some a }, write_at a status_true (some text) s'))
      else (let (a, ps', s') =
            made_or_old recoverable p.recoverable_condition ps
              (write_if p.terminal_condition status_false none s) in
          done (
            ps',
            record p { recoverable_condition = some a },
            write_at a status_true (some (recoverable_message E err)) s',
          ))

  pub update_in_memory : Option E.Err → List ℕ → Store → Outcome (List ℕ × Pointers × Store)
  update_in_memory err ps s = do
    (bs, s') ← copy_loop ps s
    p ← find_loop bs s' no_pointers
    rewrite_in_memory err p bs s'
