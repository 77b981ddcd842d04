-- ===== src/SyncTags/Total.antt =====
-- Termination of `SyncTags`.
use ack_networkmanager_contr.Prelude.{
  String, ◌≡◌, refl, ◌∙◌, sym, arith, Option, none, some, List, [], ◌∷◌, Slice, elements,
  Option-cases, inl, inr, done,
}
use ack_networkmanager_contr.Maps.{GoMap, NodupKeys, Range, IsRange}
use ack_networkmanager_contr.Types.{Tag}
use ack_networkmanager_contr.External.{Client}
use ack_networkmanager_contr.Effects.{World, error_of}
use ack_networkmanager_contr.SyncTags.{add_step, delete_step, apply_changes, sync_tags}
use ack_networkmanager_contr.SyncTags.Loops.{IsFilled, NoNil, debug_loop-NoNil}
use ack_networkmanager_contr.SyncTags.Service.{tag_input}
use ack_networkmanager_contr.SyncTags.Laws.{sync_tags-Plan}

module _ (R : Range) (L : IsRange R) {Err : Type 0} (C : Client Err) where
  add_step-done :
      (arn : String) (m : GoMap (Option String)) (w : World Err C.State)
      → NodupKeys m
      → NoNil m
      → (err : Option Err) × ((add_step R C arn m w).0 ≡ done err)
  unfolding add_step
  add_step-done arn [] w u filled = (none, refl)
  add_step-done arn (e ∷ m) w u filled =
      let visits = R.over (Option String) (e ∷ m) in
      (
        error_of (C.tag_resource (tag_input arn visits) w.aws).0,
        rw (
            debug_loop-NoNil visits (L.over-NodupKeys (Option String) (e ∷ m) u)
              (λ k h. filled k (sym (L.over-get (Option String) (e ∷ m) k) ∙ h))),
      )

  delete_step-done :
      (arn : String) (ks : List String) (w : World Err C.State)
      → (err : Option Err) × ((delete_step R C arn ks w).0 ≡ done err)
  unfolding delete_step
  delete_step-done arn [] w = (none, refl)
  delete_step-done arn (k ∷ ks) w = (_, refl)

  apply_changes-done :
      (arn : String) (m : GoMap (Option String)) (ks : List String) (w : World Err C.State)
      → NodupKeys m
      → NoNil m
      → (err : Option Err) × ((apply_changes R C arn m ks w).0 ≡ done err)
  unfolding apply_changes
  apply_changes-done arn m ks w u filled =
      let (added, e) = add_step-done arn m w u filled in
      elim (Option-cases added) [
        | inl fine ↦
            (let (deleted, e') = delete_step-done arn ks (add_step R C arn m w).1 in
              (deleted, rw (e, fine) e'))
        | inr (err, failed) ↦ (some err, rw (e, failed))
      ]

  pub sync_tags-done :
      (arn : String) (a b : Slice Tag) (w : World Err C.State)
      → IsFilled (elements a)
      → IsFilled (elements b)
      → (err : Option Err) × ((sync_tags R C arn a b w).0 ≡ done err)
  sync_tags-done arn a b w fa fb =
      let (to_add, to_delete, P) = sync_tags-Plan R L C arn a b fa fb in
      rw (P.runs w)
        (apply_changes-done arn to_add to_delete w P.keys (λ k h. ground (arith, P.adds k)))
