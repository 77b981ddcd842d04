-- ===== src/SyncTags/Interrupted.antt =====
-- A call of `SyncTags` that AWS makes fail half-way, and a later call.
use ack_networkmanager_contr.Prelude.{
  Bool, true, false, String, ◌≡◌, refl, ◌∙◌, ◌⊎◌, inl, inr, Option, none, some, List, arith,
  or_else, Slice, elements, done, ◌==◌, eq_iff, if◌then◌else◌,
}
use ack_networkmanager_contr.Maps.{GoMap, Range, IsRange}
use ack_networkmanager_contr.Types.{Tag}
use ack_networkmanager_contr.External.{Client, failed, TagInput, UntagInput}
use ack_networkmanager_contr.Effects.{World}
use ack_networkmanager_contr.Tags.Values.{tag_at}
use ack_networkmanager_contr.SyncTags.{add_step, sync_tags, apply_changes}
use ack_networkmanager_contr.SyncTags.Loops.{IsFilled, pointer, addition}
use ack_networkmanager_contr.SyncTags.Service.{joined, TagService}
use ack_networkmanager_contr.SyncTags.Laws.{Plan, sync_tags-Plan, add_step_lem, delete_step_lem}

-- A call of TagResource or of UntagResource that fails leaves all tags as they are.
pub record IsAtomic {Err : Type 0} (C : Client Err) (T : TagService C) : Type 0 where
  pub tag_failed :
      (i : TagInput) (s : C.State) (err : Err)
      → (C.tag_resource i s).0 ≡ failed err
      → (b k : String) → T.tags_of (C.tag_resource i s).1 b k ≡ T.tags_of s b k
  pub untag_failed :
      (i : UntagInput) (s : C.State) (err : Err)
      → (C.untag_resource i s).0 ≡ failed err
      → (b k : String) → T.tags_of (C.untag_resource i s).1 b k ≡ T.tags_of s b k

-- What is added and what was there, for one key.
added : (a b : Option String) → or_else (joined (addition b (pointer a))) b ≡ or_else a b
added none none = refl
added none (some e) = refl
added (some v) none = refl
added (some v) (some e) = ground (arith, eq_iff e v)

added_at :
    (same : Bool) (a : Option String) {b old tagged : Option String} {add : Option (Option String)}
    → tagged ≡ (if same then or_else (joined add) old else old)
    → add ≡ addition b (pointer a)
    → (same ≡ true → old ≡ b)
    → tagged ≡ (if same then or_else a old else old)
added_at true a {b} t d h = ground (arith, added a b, h refl)
added_at false a t d h = t

module _ (R : Range) (L : IsRange R) {Err : Type 0} (C : Client Err) (T : TagService C)
    (A : IsAtomic C T) where
  apply_changes_interrupted :
      (arn : String) (a b : Slice Tag) (to_add : GoMap (Option String)) (to_delete : List String)
      (w : World Err C.State)
      → Plan R C arn a b to_add to_delete
      → ((k : String) → T.tags_of w.aws arn k ≡ tag_at k (elements b))
      → let (r, w') = apply_changes R C arn to_add to_delete w in
        (r ≡ done none)
        ⊎ ((err : Err) × (r ≡ done (some err))
            × (((c k : String) → T.tags_of w'.aws c k ≡ T.tags_of w.aws c k)
                ⊎ ((c k : String)
                    → T.tags_of w'.aws c k ≡ (
                        if arn == c
                        then or_else (tag_at k (elements a)) (T.tags_of w.aws c k)
                        else T.tags_of w.aws c k))))
  unfolding apply_changes
  apply_changes_interrupted arn a b to_add to_delete w P agree =
      elim (add_step_lem R L C T arn to_add w P.keys λ k h. ground (arith, P.adds k)) [
        | inl (err, e, (i, failure, state)) ↦
            inr (err, rw e, inl λ c k. rw (e, state) (A.tag_failed i w.aws err failure c k))
        | inr (e, tagged) ↦
            rw e (elim (delete_step_lem R L C T arn to_delete (add_step R C arn to_add w).1) [
              | inl (err, e', (i, failure, state)) ↦ inr (
                err,
                e',
                inr λ c k.
                    rw state (A.untag_failed i _ err failure c k)
                    ∙ added_at (arn == c) (tag_at k (elements a)) (tagged c k) (P.adds k)
                        (λ same. rw (← (eq_iff arn c).0 same) (agree k)),
              )
              | inr (e', untagged) ↦ inl e'
            ])
      ]

  -- Calls of TagResource and UntagResource that fail leave all tags as they are. Where every
  -- desired tag and every existing tag has a key and a value, and AWS holds the existing tags
  -- under the ARN, `SyncTags` either returns nil, or returns an error, and then AWS holds either
  -- the same tags as before, or under that ARN each desired tag with its value and each other
  -- key's old value, and the same tags as before under every other ARN. So a call that fails
  -- half-way loses no tag.
  pub sync_tags_interrupted :
      (arn : String) (a b : Slice Tag) (w : World Err C.State)
      → IsFilled (elements a)
      → IsFilled (elements b)
      → ((k : String) → T.tags_of w.aws arn k ≡ tag_at k (elements b))
      → let (r, w') = sync_tags R C arn a b w in
        (r ≡ done none)
        ⊎ ((err : Err) × (r ≡ done (some err))
            × (((c k : String) → T.tags_of w'.aws c k ≡ T.tags_of w.aws c k)
                ⊎ ((c k : String)
                    → T.tags_of w'.aws c k ≡ (
                        if arn == c
                        then or_else (tag_at k (elements a)) (T.tags_of w.aws c k)
                        else T.tags_of w.aws c k))))
  sync_tags_interrupted arn a b w fa fb agree =
      let (to_add, to_delete, P) = sync_tags-Plan R L C arn a b fa fb in
      rw (P.runs w) (apply_changes_interrupted arn a b to_add to_delete w P agree)
