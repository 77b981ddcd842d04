-- ===== src/Manager/Converge.antt =====
-- The tags of a network at AWS after the tag step of an update that follows the computed delta.
use ack_networkmanager_contr.Prelude.{
  String, ◌≡◌, ◌↔◌, refl, ap, eq_iff, sym, ◌∙◌, true, false, none, some, elements, done, Bool-cases,
  ◌⊎◌, inl, inr, ◌==◌, if◌then◌else◌,
}
use ack_networkmanager_contr.Maps.{Range, IsRange}
use ack_networkmanager_contr.Types.{GlobalNetwork, Resource, ResourceMetadata, ResourceManager}
use ack_networkmanager_contr.External.{Errors, Client, Compare, IsCompare}
use ack_networkmanager_contr.Effects.{World}
use ack_networkmanager_contr.Tags.Values.{tag_at}
use ack_networkmanager_contr.Delta.{new_resource_delta}
use ack_networkmanager_contr.Delta.Laws.{new_resource_delta_lem}
use ack_networkmanager_contr.SyncTags.{sync_tags}
use ack_networkmanager_contr.SyncTags.Loops.{IsFilled}
use ack_networkmanager_contr.SyncTags.Service.{TagService, Refused}
use ack_networkmanager_contr.SyncTags.Laws.{sync_tags_applies}
use ack_networkmanager_contr.Sdk.{tags_step}

same_at :
    {A : Type 0} (f : String → A) (arn c : String) {v : A}
    → f arn ≡ v
    → f c ≡ (if arn == c then v else f c)
same_at f arn c e = elim (Bool-cases (arn == c)) [
  | inl h ↦ rw h (ap f (sym ((eq_iff arn c).0 h)) ∙ e)
  | inr h ↦ rw h
]

module _ (E : Errors) (C : Client E.Err) (rm : ResourceManager) (R : Range) (D : Compare)
    (desired latest : Resource) (ko latest_ko : GlobalNetwork) (w : World E.Err C.State)
    (e : desired.ko ≡ some ko) (e_latest : latest.ko ≡ some latest_ko) where
  tags_step_equal :
      (delta : D.Delta)
      → D.different_at delta "Spec.Tags" ≡ false
      → tags_step E C rm R D desired latest delta w ≡ (done none, w)
  unfolding tags_step
  tags_step_equal delta same = rw same

  tags_step_run :
      (metadata : ResourceMetadata) (arn : String) (delta : D.Delta)
      → ko.status.ack_resource_metadata ≡ some metadata
      → metadata.arn ≡ some arn
      → D.different_at delta "Spec.Tags" ≡ true
      → tags_step E C rm R D desired latest delta w
        ≡ sync_tags R C arn ko.spec.tags latest_ko.spec.tags w
  unfolding tags_step
  tags_step_run metadata arn delta em ea differs = rw (differs, e, em, ea, e_latest)

  -- The same for any delta that is not different at Spec.Tags exactly if the tags agree.
  pub tags_step_lem :
      (metadata : ResourceMetadata) (arn : String) (T : TagService C) (delta : D.Delta)
      → IsRange R
      → ((D.different_at delta "Spec.Tags" ≡ false) ↔ (
          (k : String)
          → tag_at k (elements ko.spec.tags) ≡ tag_at k (elements latest_ko.spec.tags)))
      → ko.status.ack_resource_metadata ≡ some metadata
      → metadata.arn ≡ some arn
      → IsFilled (elements ko.spec.tags)
      → IsFilled (elements latest_ko.spec.tags)
      → ((k : String) → T.tags_of w.aws arn k ≡ tag_at k (elements latest_ko.spec.tags))
      → let (r, w') = tags_step E C rm R D desired latest delta w in
        ((err : E.Err) × (r ≡ done (some err)) × Refused C err)
        ⊎ ((r ≡ done none)
            × ((c k : String)
                → T.tags_of w'.aws c k
                  ≡ (if arn == c then tag_at k (elements ko.spec.tags) else T.tags_of w.aws c k)))
  tags_step_lem metadata arn T delta L same_tags em ea fa fb agree =
      elim (Bool-cases (D.different_at delta "Spec.Tags")) [
        | inl differs ↦
            rw (tags_step_run metadata arn delta em ea differs)
              (sync_tags_applies R L C T arn ko.spec.tags latest_ko.spec.tags w fa fb agree)
        | inr same ↦ rw (tags_step_equal delta same) (
            inr (
              refl,
              λ c k. same_at (λ b. T.tags_of w.aws b k) arn c (agree k ∙ sym (same_tags.0 same k)),
            ))
      ]

  -- For two resources with tags that have keys and values, where the desired one has an ARN and
  -- AWS holds the latest tags under it, `newResourceDelta` gives a delta, and the tag step of
  -- `sdkUpdate` on this delta either returns an error with which AWS fails some call of
  -- TagResource or of UntagResource, or succeeds and AWS then holds exactly the desired tags
  -- under the ARN, and the same tags as before under others.
  pub tags_converge :
      (metadata : ResourceMetadata) (arn : String) (T : TagService C)
      → IsRange R
      → IsCompare D
      → ko.status.ack_resource_metadata ≡ some metadata
      → metadata.arn ≡ some arn
      → IsFilled (elements ko.spec.tags)
      → IsFilled (elements latest_ko.spec.tags)
      → ((k : String) → T.tags_of w.aws arn k ≡ tag_at k (elements latest_ko.spec.tags))
      → (delta : D.Delta) × (new_resource_delta D (some desired) (some latest) ≡ done delta)
        × (let (r, w') = tags_step E C rm R D desired latest delta w in
            ((err : E.Err) × (r ≡ done (some err)) × Refused C err)
            ⊎ ((r ≡ done none)
                × ((c k : String)
                    → T.tags_of w'.aws c k ≡ (
                        if arn == c
                        then tag_at k (elements ko.spec.tags)
                        else T.tags_of w.aws c k))))
  tags_converge metadata arn T L DL em ea fa fb agree =
      let (delta, run, same_tags, _) =
        new_resource_delta_lem D desired latest ko latest_ko DL e e_latest in
      (delta, run, tags_step_lem metadata arn T delta L same_tags em ea fa fb agree)
