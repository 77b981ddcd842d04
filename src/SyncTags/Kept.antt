-- ===== src/SyncTags/Kept.antt =====
-- What holds of AWS behind a call of `SyncTags` if TagResource and UntagResource keep it.
use ack_networkmanager_contr.Prelude.{String, Option, none, some, List, [], ◌∷◌, Slice, elements}
use ack_networkmanager_contr.Maps.{Range, GoMap}
use ack_networkmanager_contr.Types.{Tag}
use ack_networkmanager_contr.External.{Client, TagInput, UntagInput}
use ack_networkmanager_contr.Effects.{pure}
use ack_networkmanager_contr.Effects.Rules.{Preserves, Preserves-bind, lift_bind-Preserves}
use ack_networkmanager_contr.SyncTags.{
  debug_loop, key_loop, add_loop, add_tags, remove_tags, add_step, delete_step, apply_changes,
  sync_tags,
}

module _ (R : Range) {Err : Type 0} (C : Client Err) (Q : C.State → Type 0)
    (tagging : (i : TagInput) (s : C.State) → Q s → Q (C.tag_resource i s).1)
    (untagging : (i : UntagInput) (s : C.State) → Q s → Q (C.untag_resource i s).1) where
  add_tags-Preserves :
      (arn : String) (tags : GoMap (Option String)) → Preserves Q (add_tags R C arn tags)
  unfolding add_tags
  add_tags-Preserves arn tags w q = tagging _ w.aws q

  remove_tags-Preserves :
      (arn : String) (keys : List String) → Preserves Q (remove_tags R C arn keys)
  unfolding remove_tags
  remove_tags-Preserves arn keys w q = untagging _ w.aws q

  add_step-Preserves :
      (arn : String) (tags : GoMap (Option String)) → Preserves Q (add_step R C arn tags)
  unfolding add_step
  add_step-Preserves arn [] w q = q
  add_step-Preserves arn (entry ∷ entries) w q =
      lift_bind-Preserves Q (debug_loop (R.over (Option String) (entry ∷ entries)))
        (λ _. add_tags R C arn (entry ∷ entries)) (λ _. add_tags-Preserves arn (entry ∷ entries)) w
        q

  delete_step-Preserves :
      (arn : String) (keys : List String) → Preserves Q (delete_step R C arn keys)
  unfolding delete_step
  delete_step-Preserves arn [] w q = q
  delete_step-Preserves arn (k ∷ ks) w q = remove_tags-Preserves arn (k ∷ ks) w q

  apply_changes-Preserves :
      (arn : String) (tags : GoMap (Option String)) (keys : List String)
      → Preserves Q (apply_changes R C arn tags keys)
  unfolding apply_changes
  apply_changes-Preserves arn tags keys =
      Preserves-bind Q (add_step R C arn tags) _ (add_step-Preserves arn tags) onward
    where
      onward :
          (added : Option Err)
          → Preserves Q
              (elim added [ some err ↦ pure (some err) | none ↦ delete_step R C arn keys ])
      onward none w q = delete_step-Preserves arn keys w q
      onward (some err) w q = q

  pub sync_tags-Preserves : (arn : String) (a b : Slice Tag) → Preserves Q (sync_tags R C arn a b)
  unfolding sync_tags
  sync_tags-Preserves arn a b = lift_bind-Preserves Q (key_loop (elements a) []) _ (λ desired.
      lift_bind-Preserves Q (key_loop (elements b) []) _ (λ existing.
        lift_bind-Preserves Q (add_loop (R.over (Option String) desired) existing []) _
          (λ to_add. apply_changes-Preserves arn to_add _)))
