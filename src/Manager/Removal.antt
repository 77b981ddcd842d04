-- ===== src/Manager/Removal.antt =====
-- An update that is to remove the description.
use ack_networkmanager_contr.Prelude.{
  String, ◌≡◌, refl, ap, ◌∙◌, pair_of, true, none, some, elements, done, inl, inr, eq_refl,
}
use ack_networkmanager_contr.Maps.{Range, IsRange}
use ack_networkmanager_contr.Types.{GlobalNetwork, Resource, ResourceMetadata, ResourceManager}
use ack_networkmanager_contr.External.{Errors, IsErrors, Client, Compare, IsCompare, UpdateInput}
use ack_networkmanager_contr.Effects.{World}
use ack_networkmanager_contr.Tags.Values.{tag_at}
use ack_networkmanager_contr.Delta.{description_differs, new_resource_delta}
use ack_networkmanager_contr.Delta.Laws.{new_resource_delta_lem}
use ack_networkmanager_contr.SyncTags.Loops.{IsFilled}
use ack_networkmanager_contr.SyncTags.Service.{TagService}
use ack_networkmanager_contr.Sdk.{tags_step}
use ack_networkmanager_contr.Sdk.Service.{NetworkService, Answers}
use ack_networkmanager_contr.Manager.{update}
use ack_networkmanager_contr.Manager.Update.{update_succeeded}
use ack_networkmanager_contr.Manager.Converge.{tags_step_lem}
use ack_networkmanager_contr.Manager.Reconcile.{
  Finds, unrefused, read_agreeing, payload_lem, tags_step-Preserves,
}

module _ (E : Errors) (L : IsErrors E) (C : Client E.Err) (rm : ResourceManager) (R : Range)
    (RL : IsRange R) (D : Compare) (DL : IsCompare D) (T : TagService C) (N : NetworkService C T)
    (keeps : (i : UpdateInput) (s : C.State) (id : String)
      → i.description ≡ none
      → N.description_of (C.update_global_network i s).1 id ≡ N.description_of s id) where
  -- All of this is under the documented behaviour of the libraries and of AWS, where AWS fails no
  -- call for the network and an update that gives no description leaves it as it is. The desired
  -- resource has an identifier, its ARN and no description, the latest one has a description,
  -- which `ackcompare` finds different from none; both have tags with keys and values, and AWS
  -- holds the tags and the description of the latest one. Then `Update` returns a resource and no
  -- error, AWS still has the description, and a `ReadOne` after that finds the same difference
  -- again.
  pub removal_unsettled :
      (desired latest : Resource) (ko latest_ko : GlobalNetwork) (id : String)
      (metadata : ResourceMetadata) (d : String) (w : World E.Err C.State)
      → Answers C id
      → desired.ko ≡ some ko
      → latest.ko ≡ some latest_ko
      → ko.status.global_network_id ≡ some id
      → ko.status.ack_resource_metadata ≡ some metadata
      → metadata.arn ≡ some (N.arn_of id)
      → ko.spec.description ≡ none
      → latest_ko.spec.description ≡ some d
      → D.has_nil_difference none (some d) ≡ true
      → IsFilled (elements ko.spec.tags)
      → IsFilled (elements latest_ko.spec.tags)
      → ((k : String) → T.tags_of w.aws (N.arn_of id) k ≡ tag_at k (elements latest_ko.spec.tags))
      → N.description_of w.aws id ≡ some d
      → (delta : D.Delta) × (r : Resource) × (w' : World E.Err C.State) × (new_resource_delta D
            (some desired)
            (some latest)
          ≡ done delta)
        × (update E C rm R D desired latest delta w ≡ (done (some r, none), w'))
        × (N.description_of w'.aws id ≡ some d)
        × Finds E C rm R D desired w' true
  removal_unsettled desired latest ko latest_ko id metadata d w A e e_latest e_id em ea e_d e_l
        differs fa fb agree description =
      let (delta, computed, same_tags, except) =
        new_resource_delta_lem D desired latest ko latest_ko DL e e_latest in
      let different : description_differs D ko.spec.description (some d) ≡ true =
        rw (e_d, differs) in
      elim (tags_step_lem E C rm R D desired latest ko latest_ko w e e_latest metadata (N.arn_of id)
        T delta RL same_tags em ea fa fb agree) [
          | inl (err, _, refused) ↦ absurd (unrefused C id err A refused)
          | inr (synced, tagged) ↦
              (let w' = (tags_step E C rm R D desired latest delta w).1 in
                let input : UpdateInput = record {
                  description = none;
                  global_network_id = some id;
                } in
                let (out, elem, replies, network) = A.updating input w'.aws refl in
                let (ko', cs, run, _, _, _) =
                  update_succeeded E L C rm R D desired latest ko latest_ko delta w e e_latest w'
                    elem out (C.update_global_network input w'.aws).1 (pair_of synced)
                    (except ∙ ap (description_differs D ko.spec.description) e_l ∙ different)
                    network
                    (ap (λ i. C.update_global_network i w'.aws)
                        (payload_lem E L C rm R RL D DL T N desired ko id A e e_id none e_d)
                      ∙ pair_of replies) in
                let left : N.description_of (C.update_global_network input w'.aws).1 id ≡ some d =
                  keeps input w'.aws id refl
                  ∙ tags_step-Preserves E L C rm R RL D DL T N desired ko id A e e_id latest delta
                      (some d) w description in
                (
                  delta,
                  record { ko = some ko' },
                  _,
                  computed,
                  run,
                  left,
                  read_agreeing E L C rm R RL D DL T N desired ko id A e e_id _ true
                      (λ k.
                        N.tags_updated input w'.aws (N.arn_of id) k
                        ∙ tagged (N.arn_of id) k
                        ∙ rw (eq_refl (N.arn_of id)))
                      (rw left different),
                ))
        ]
