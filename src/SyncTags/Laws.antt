-- ===== src/SyncTags/Laws.antt =====
-- A call of `SyncTags`: its plan, and the tags at AWS behind it.
use ack_networkmanager_contr.Prelude.{
  contains, String, ◌≡◌, refl, sym, ap, ◌∙◌, ◌⊎◌, inl, inr, not, ◌&&◌, Option, none, some, List, [],
  ◌∷◌, arith, or_else, is_nil, Slice, elements, done, ◌==◌, eq_iff, if◌then◌else◌,
}
use ack_networkmanager_contr.Maps.{GoMap, get, NodupKeys, Range, IsRange}
use ack_networkmanager_contr.Maps.Laws.{get-nil, eq_nil_of_get}
use ack_networkmanager_contr.Types.{Tag}
use ack_networkmanager_contr.External.{Client}
use ack_networkmanager_contr.Effects.{World, error_of}
use ack_networkmanager_contr.Tags.Values.{tag_at}
use ack_networkmanager_contr.SyncTags.{delete_loop, add_step, delete_step, sync_tags, apply_changes}
use ack_networkmanager_contr.SyncTags.Loops.{
  IsFilled, pointer, NoNil, addition, key_loop_reads, add_loop-NoNil, contains-delete_loop,
  debug_loop-NoNil,
}
use ack_networkmanager_contr.SyncTags.Service.{
  joined, tag_input, untag_input, TagService, Refused, TagFailed, UntagFailed, Reply-cases,
  unchanged, contains_eq_nil, settle_at,
}

-- The loops of a run: it applies `to_add` and `to_delete`, which hold the differences.
pub record Plan (R : Range) {Err : Type 0} (C : Client Err) (arn : String) (a b : Slice Tag)
    (to_add : GoMap (Option String)) (to_delete : List String) : Type 0 where
  pub runs :
      (w : World Err C.State) → sync_tags R C arn a b w ≡ apply_changes R C arn to_add to_delete w
  pub adds :
      (k : String)
      → get k to_add ≡ addition (tag_at k (elements b)) (pointer (tag_at k (elements a)))
  pub keys : NodupKeys to_add
  pub deletes :
      (k : String)
      → contains to_delete k
        ≡ (not (is_nil (tag_at k (elements b))) && is_nil (tag_at k (elements a)))

module _ (R : Range) (L : IsRange R) {Err : Type 0} (C : Client Err) where
  pub sync_tags-Plan :
      (arn : String) (a b : Slice Tag)
      → IsFilled (elements a)
      → IsFilled (elements b)
      → (to_add : GoMap (Option String)) × (to_delete : List String) × Plan R C arn a b to_add
          to_delete
  unfolding sync_tags
  sync_tags-Plan arn a b fa fb =
      let (desired, run_a, reads_a, keys_a) = key_loop_reads (elements a) fa in
      let (existing, run_b, reads_b, keys_b) = key_loop_reads (elements b) fb in
      let (to_add, run_add, reads_add, keys_add) =
        add_loop-NoNil (R.over (Option String) desired) existing [] (λ k. tag_at k (elements b))
          (L.over-NodupKeys (Option String) desired keys_a)
          (λ k h. ground (arith, reads_a k, L.over-get (Option String) desired k)) reads_b in
      (
        to_add,
        delete_loop (R.over (Option String) existing) desired [],
        record {
          runs = λ w. rw (run_a, run_b, run_add);
          adds = λ k. ground (
            arith,
            reads_add k,
            reads_a k,
            L.over-get (Option String) desired k,
            get-nil {V = Option String} k,
          );
          keys = keys_add tt;
          deletes = λ k. ground (
            arith,
            contains-delete_loop k (R.over (Option String) existing) desired [],
            reads_a k,
            reads_b k,
            L.over-get (Option String) existing k,
          );
        },
      )

  pub add_step_lem :
      (T : TagService C) (arn : String) (m : GoMap (Option String)) (w : World Err C.State)
      → NodupKeys m
      → NoNil m
      → let (r, w') = add_step R C arn m w in
        ((err : Err) × (r ≡ done (some err)) × TagFailed C w.aws w'.aws err)
        ⊎ ((r ≡ done none)
            × ((b k : String)
                → T.tags_of w'.aws b k ≡ (
                    if arn == b
                    then or_else (joined (get k m)) (T.tags_of w.aws b k)
                    else T.tags_of w.aws b k)))
  unfolding add_step
  add_step_lem T arn [] w _ _ = inr (refl, λ b k. ground (arith, get-nil {V = Option String} k))
  add_step_lem T arn (e ∷ m) w u filled =
      let visits = R.over (Option String) (e ∷ m) in
      let v = L.over-NodupKeys (Option String) (e ∷ m) u in
      rw
        (debug_loop-NoNil visits v
          (λ k h. filled k (sym (L.over-get (Option String) (e ∷ m) k) ∙ h)))
        (elim (Reply-cases (C.tag_resource (tag_input arn visits) w.aws).0) [
          | inl (_, success) ↦ inr (
            ap (λ r. done (error_of r)) success,
            λ b k.
                rw (← L.over-get (Option String) (e ∷ m) k)
                  (T.after_tag arn visits w.aws v success b k),
          )
          | inr (err, failure) ↦ inl (err, ap (λ r. done (error_of r)) failure, (_, failure, refl))
        ])

  pub delete_step_lem :
      (T : TagService C) (arn : String) (ks : List String) (w : World Err C.State)
      → let (r, w') = delete_step R C arn ks w in
        ((err : Err) × (r ≡ done (some err)) × UntagFailed C w.aws w'.aws err)
        ⊎ ((r ≡ done none)
            × ((b k : String)
                → T.tags_of w'.aws b k
                  ≡ (if arn == b && contains ks k then none else T.tags_of w.aws b k)))
  unfolding delete_step
  delete_step_lem T arn [] w = inr (refl, λ b k. ground arith)
  delete_step_lem T arn (j ∷ ks) w =
      elim (Reply-cases (C.untag_resource (untag_input arn (j ∷ ks)) w.aws).0) [
        | inl (_, success) ↦
            inr (ap (λ r. done (error_of r)) success, T.after_untag arn (j ∷ ks) w.aws success)
        | inr (err, failure) ↦ inl (err, ap (λ r. done (error_of r)) failure, (_, failure, refl))
      ]

  apply_changes_lem :
      (T : TagService C) (arn : String) (a b : Slice Tag) (to_add : GoMap (Option String))
      (to_delete : List String) (w : World Err C.State)
      → Plan R C arn a b to_add to_delete
      → ((k : String) → T.tags_of w.aws arn k ≡ tag_at k (elements b))
      → let (r, w') = apply_changes R C arn to_add to_delete w in
        ((err : Err) × (r ≡ done (some err)) × Refused C err)
        ⊎ ((r ≡ done none)
            × ((c k : String)
                → T.tags_of w'.aws c k
                  ≡ (if arn == c then tag_at k (elements a) else T.tags_of w.aws c k)))
  unfolding apply_changes
  apply_changes_lem T arn a b to_add to_delete w P agree =
      elim (add_step_lem T arn to_add w P.keys λ k h. ground (arith, P.adds k)) [
        | inl (err, e, (i, failure, _)) ↦ inl (err, rw e, inl (i, _, failure))
        | inr (e, tagged) ↦
            rw e (elim (delete_step_lem T arn to_delete (add_step R C arn to_add w).1) [
              | inl (err, e', (i, failure, _)) ↦ inl (err, e', inr (i, _, failure))
              | inr (e', untagged) ↦ inr (
                e',
                λ c k.
                    settle_at (arn == c) (tag_at k (elements a)) (untagged c k) (tagged c k)
                      (P.adds k) (P.deletes k) (λ same. rw (← (eq_iff arn c).0 same) (agree k)),
              )
            ])
      ]

  -- Where every desired tag and every existing tag has a key and a value, and AWS holds the
  -- existing tags under the ARN, `SyncTags` does not panic: either it returns an error with which
  -- AWS fails some call of TagResource or of UntagResource, or it returns nil, and then AWS holds
  -- exactly the desired tags under that ARN and the same tags as before under every other one.
  pub sync_tags_applies :
      (T : TagService C) (arn : String) (a b : Slice Tag) (w : World Err C.State)
      → IsFilled (elements a)
      → IsFilled (elements b)
      → ((k : String) → T.tags_of w.aws arn k ≡ tag_at k (elements b))
      → let (r, w') = sync_tags R C arn a b w in
        ((err : Err) × (r ≡ done (some err)) × Refused C err)
        ⊎ ((r ≡ done none)
            × ((c k : String)
                → T.tags_of w'.aws c k
                  ≡ (if arn == c then tag_at k (elements a) else T.tags_of w.aws c k)))
  sync_tags_applies T arn a b w fa fb agree =
      let (to_add, to_delete, P) = sync_tags-Plan arn a b fa fb in
      rw (P.runs w) (apply_changes_lem T arn a b to_add to_delete w P agree)

  -- Where desired and existing tags all have a key and a value and agree on every key, in
  -- whatever order they are listed, `SyncTags` returns nil, calls neither AWS nor the metrics,
  -- and so changes nothing.
  pub sync_tags_in_sync :
      (arn : String) (a b : Slice Tag) (w : World Err C.State)
      → IsFilled (elements a)
      → IsFilled (elements b)
      → ((k : String) → tag_at k (elements a) ≡ tag_at k (elements b))
      → sync_tags R C arn a b w ≡ (done none, w)
  unfolding apply_changes
  sync_tags_in_sync arn a b w fa fb same =
      let (to_add, to_delete, P) = sync_tags-Plan arn a b fa fb in
      let no_add : to_add ≡ [] =
        eq_nil_of_get to_add λ k. P.adds k ∙ rw (same k) (unchanged (tag_at k (elements b))) in
      let no_delete : to_delete ≡ [] =
        contains_eq_nil to_delete λ k. P.deletes k ∙ rw (same k) (ground arith) in
      rw (P.runs w, no_add, no_delete)
