-- ===== src/Conditions/Laws.antt =====
-- The conditions that `updateConditions` leaves.
use ack_networkmanager_contr.Prelude.{
  ◌≡◌, refl, Option, none, some, List, [], elements, done, Slice, or_else,
}
use ack_networkmanager_contr.Types.{Condition, GlobalNetwork, Resource, ResourceManager}
use ack_networkmanager_contr.External.{Errors, IsErrors}
use ack_networkmanager_contr.Conditions.{
  Pointers, find_conditions, no_pointers, any_condition, rewrite_conditions, update_conditions,
}
use ack_networkmanager_contr.Conditions.Report.{mentions_sync, report, IsReport}
use ack_networkmanager_contr.Conditions.Rewrite.{find_and_rewrite}

elements-or_empty : (s : Slice Condition) → elements (or_else s (some [])) ≡ elements s
elements-or_empty none = refl
elements-or_empty (some cs) = refl

pub update_conditions_run :
    (E : Errors) (rm : ResourceManager) (r : Resource) (ko : GlobalNetwork) (err : Option E.Err)
    (cs : List Condition) (p : Pointers)
    → r.ko ≡ some ko
    → rewrite_conditions E err
        (find_conditions 0 (elements ko.status.conditions) no_pointers)
        (elements ko.status.conditions)
      ≡ done (cs, p)
    → any_condition p ≡ mentions_sync cs
    → update_conditions E rm r err ≡ done (report rm ko cs)
unfolding update_conditions
update_conditions_run E rm r ko err cs p e run any =
    rw (e, elements-or_empty ko.status.conditions, run, any)

-- If `ackerr.AWSError` finds the API error that `errors.As` finds, `updateConditions` on a
-- resource with `ko` does not panic, whatever the error. It returns a copy with the status
-- defaults and a new list of conditions, and true, exactly if that list has a terminal,
-- recoverable or synced condition; else nil and false. The last condition of each type is the one
-- of the specification `reported_condition`: a terminal error sets Terminal to true with its
-- text, any other outcome sets a Terminal condition to false and clears its message; an error
-- that is not terminal sets Recoverable to true with its text, a success sets a Recoverable
-- condition to false and clears its message; the rest stays. Nothing is removed or reordered, and
-- at most the one condition that was missing is appended.
pub update_conditions_lem :
    (E : Errors) (rm : ResourceManager) (r : Resource) (ko : GlobalNetwork) (err : Option E.Err)
    → IsErrors E
    → r.ko ≡ some ko
    → (cs : List Condition) × (update_conditions E rm r err ≡ done (report rm ko cs))
      × IsReport E err (elements ko.status.conditions) cs
update_conditions_lem E rm r ko err L e =
    let (cs, p, run, reported, any) = find_and_rewrite E (elements ko.status.conditions) err L in
    (cs, update_conditions_run E rm r ko err cs p e run any, reported)
