-- ===== src/Manager/Reconcile.antt =====
-- An update and the read behind it, where AWS fails no call: the read finds no difference.
use ack_networkmanager_contr.Prelude.{
  String, ◌≡◌, refl, sym, ap, ◌∙◌, pair_of, Bool, false, arith, Option, none, some, elements,
  or_else, done, Bool-cases, inl, inr, deref, eq_refl, if◌then◌else◌,
}
use ack_networkmanager_contr.Maps.{Range, IsRange}
use ack_networkmanager_contr.Types.{GlobalNetwork, Resource, ResourceMetadata, ResourceManager}
use ack_networkmanager_contr.External.{Errors, IsErrors, Client, Compare, IsCompare, UpdateInput}
use ack_networkmanager_contr.Effects.{World, pure}
use ack_networkmanager_contr.Effects.Rules.{Preserves, if-Preserves, lift_bind-Preserves}
use ack_networkmanager_contr.Tags.{is_aws_key}
use ack_networkmanager_contr.Tags.Values.{tag_at}
use ack_networkmanager_contr.Delta.{description_differs, new_resource_delta}
use ack_networkmanager_contr.Delta.Laws.{new_resource_delta_lem}
use ack_networkmanager_contr.SyncTags.Loops.{IsFilled}
use ack_networkmanager_contr.SyncTags.Service.{TagService, Refused}
use ack_networkmanager_contr.SyncTags.Kept.{sync_tags-Preserves}
use ack_networkmanager_contr.Sdk.{tags_step, new_update_request_payload}
use ack_networkmanager_contr.Sdk.Service.{NetworkService, Answers}
use ack_networkmanager_contr.Tagging.{set_tags}
use ack_networkmanager_contr.Manager.{read_one, update}
use ack_networkmanager_contr.Manager.Read.{read_found}
use ack_networkmanager_contr.Manager.Update.{update_tags_only, update_succeeded}
use ack_networkmanager_contr.Manager.Converge.{tags_step_lem}

-- A read in `w` of the resource finds what has the same tags, and another description exactly if
-- `differs`.
abbrev pub Finds :
    (E : Errors) (C : Client E.Err) (rm : ResourceManager) (R : Range) (D : Compare)
    → Resource
    → World E.Err C.State
    → Bool
    → Type 0
Finds E C rm R D desired w differs =
    (observed desired' : Resource) × (w' : World E.Err C.State) × (delta : D.Delta) × (read_one E C
        rm R desired w
      ≡ (done ((some observed, none), desired'), w'))
    × (new_resource_delta D (some desired') (some observed) ≡ done delta)
    × (D.different_at delta "Spec.Tags" ≡ false)
    × (D.different_except delta "Spec.Tags" ≡ differs)

pub unrefused :
    {Err : Type 0} (C : Client Err) (id : String) (err : Err) → Answers C id → Refused C err → ⊥
unrefused C id err A (inl (i, s, e)) = ground (arith, A.tagging i s)
unrefused C id err A (inr (i, s, e)) = ground (arith, A.untagging i s)

read_back :
    (same : Bool) (own read : Option String)
    → read ≡ own
    → (if same then or_else read own else own) ≡ read
read_back same own read e = ground arith

module _ (E : Errors) (L : IsErrors E) (C : Client E.Err) (rm : ResourceManager) (R : Range)
    (RL : IsRange R) (D : Compare) (DL : IsCompare D) (T : TagService C) (N : NetworkService C T)
    (desired : Resource) (ko : GlobalNetwork) (id : String) (A : Answers C id)
    (e : desired.ko ≡ some ko) (e_id : ko.status.global_network_id ≡ some id) where
  pub read_agreeing :
      (w : World E.Err C.State) (differs : Bool)
      → ((k : String) → T.tags_of w.aws (N.arn_of id) k ≡ tag_at k (elements ko.spec.tags))
      → description_differs D ko.spec.description (N.description_of w.aws id) ≡ differs
      → Finds E C rm R D desired w differs
  read_agreeing w differs tags_agree same =
      let (out, elem, rest, replies, found) = A.describing w.aws in
      let (description, read_tags_agree) = N.described id w.aws out elem rest replies found in
      let (ko', cs, tags, run, merged, _, _, reads, _) =
        read_found E L C rm R desired ko w e id out elem rest _ RL e_id (pair_of replies) found in
      let (delta, computed, same_tags, except) =
        new_resource_delta_lem D (record { ko = some (set_tags (some tags) ko) })
          (record { ko = some ko' }) (set_tags (some tags) ko) ko' DL refl refl in
      (
        record { ko = some ko' },
        record { ko = some (set_tags (some tags) ko) },
        _,
        delta,
        run,
        computed,
        same_tags.1 (λ k.
            reads k
            ∙ read_back (is_aws_key k) _ _ (read_tags_agree k ∙ tags_agree k)
            ∙ ap (λ ts. tag_at k (elements ts)) (sym merged.tags)),
        except ∙ rw (merged.description, description) same,
      )

  pub payload_lem :
      (d : Option String)
      → ko.spec.description ≡ d
      → new_update_request_payload ko ≡ record { description = d; global_network_id = some id }
  unfolding new_update_request_payload
  payload_lem d e_d = rw (e_d, e_id)

  same_description : (d : String) → description_differs D (some d) (some d) ≡ false
  same_description d = rw (DL.nil_difference_of_values d d, eq_refl d)

  -- The differences in the description after the tag step are those before it.
  pub tags_step-Preserves :
      (latest : Resource) (delta : D.Delta) (b : Option String)
      → Preserves (λ s. N.description_of s id ≡ b) (tags_step E C rm R D desired latest delta)
  unfolding tags_step
  tags_step-Preserves latest delta b =
      let Q : C.State → Type 0 = λ s. N.description_of s id ≡ b in
      if-Preserves Q (D.different_at delta "Spec.Tags") _ (pure none)
        (lift_bind-Preserves Q (deref desired.ko) _ (λ ko.
          lift_bind-Preserves Q (deref ko.status.ack_resource_metadata) _ (λ metadata.
            lift_bind-Preserves Q (deref metadata.arn) _ (λ arn.
              lift_bind-Preserves Q (deref latest.ko) _ (λ latest_ko.
                sync_tags-Preserves R C Q (λ i s q. N.description_tagged i s id ∙ q)
                  (λ i s q. N.description_untagged i s id ∙ q) arn ko.spec.tags
                  latest_ko.spec.tags)))))
        (λ w q. q)

  module _ (latest : Resource) (latest_ko : GlobalNetwork)
      (e_latest : latest.ko ≡ some latest_ko) where
    -- The update behind the tag step.
    update_agreeing :
        (d : String) (delta : D.Delta) (w w' : World E.Err C.State)
        → ko.spec.description ≡ some d
        → D.different_except delta "Spec.Tags"
          ≡ description_differs D ko.spec.description latest_ko.spec.description
        → tags_step E C rm R D desired latest delta w ≡ (done none, w')
        → ((k : String) → T.tags_of w'.aws (N.arn_of id) k ≡ tag_at k (elements ko.spec.tags))
        → N.description_of w'.aws id ≡ latest_ko.spec.description
        → (r : Resource) × (w'' : World E.Err C.State) × (update E C rm R D desired latest delta w
            ≡ (done (some r, none), w''))
          × Finds E C rm R D desired w'' false
    update_agreeing d delta w w' e_d except synced tags_agree description =
        elim (Bool-cases (D.different_except delta "Spec.Tags")) [
          | inl differs ↦
              (let input : UpdateInput = record {
                description = some d;
                global_network_id = some id;
              } in
                let (out, elem, replies, network) = A.updating input w'.aws refl in
                let (ko', cs, run, _, _, _) =
                  update_succeeded E L C rm R D desired latest ko latest_ko delta w e e_latest w'
                    elem out (C.update_global_network input w'.aws).1 synced differs network
                    (ap (λ i. C.update_global_network i w'.aws) (payload_lem (some d) e_d)
                      ∙ pair_of replies) in
                (
                  record { ko = some ko' },
                  _,
                  run,
                  read_agreeing _ false
                      (λ k. N.tags_updated input w'.aws (N.arn_of id) k ∙ tags_agree k)
                      (rw (e_d, N.after_update d id w'.aws out replies) (same_description d)),
                ))
          | inr same ↦
              (let (cs, run, _) =
                  update_tags_only E L C rm R D desired latest ko latest_ko delta w e e_latest w'
                    synced same in
                (
                  _,
                  w',
                  run,
                  read_agreeing w' false tags_agree (
                      ap (description_differs D ko.spec.description) description
                      ∙ sym except
                      ∙ same),
                ))
        ]

    -- All of this is under the documented behaviour of the libraries and of AWS, where AWS fails
    -- no call for the network. The desired resource has an identifier, its ARN and a description,
    -- both resources have tags with keys and values, and AWS holds the tags and the description
    -- of the latest one. Then `newResourceDelta` gives a delta, `Update` with it returns a
    -- resource and no error, and `ReadOne` of the desired resource after that returns a resource
    -- and no error, between which and the desired one, as the read left it, `newResourceDelta`
    -- finds no difference.
    pub update_settles :
        (metadata : ResourceMetadata) (d : String) (w : World E.Err C.State)
        → ko.status.ack_resource_metadata ≡ some metadata
        → metadata.arn ≡ some (N.arn_of id)
        → ko.spec.description ≡ some d
        → IsFilled (elements ko.spec.tags)
        → IsFilled (elements latest_ko.spec.tags)
        → ((k : String) → T.tags_of w.aws (N.arn_of id) k ≡ tag_at k (elements latest_ko.spec.tags))
        → N.description_of w.aws id ≡ latest_ko.spec.description
        → (delta : D.Delta) × (r : Resource) × (w' : World E.Err C.State) × (new_resource_delta D
              (some desired)
              (some latest)
            ≡ done delta)
          × (update E C rm R D desired latest delta w ≡ (done (some r, none), w'))
          × Finds E C rm R D desired w' false
    update_settles metadata d w em ea e_d fa fb agree description =
        let (delta, computed, same_tags, except) =
          new_resource_delta_lem D desired latest ko latest_ko DL e e_latest in
        elim (tags_step_lem E C rm R D desired latest ko latest_ko w e e_latest metadata
          (N.arn_of id) T delta RL same_tags em ea fa fb agree) [
            | inl (err, _, refused) ↦ absurd (unrefused C id err A refused)
            | inr (synced, tagged) ↦
                (let (r, w', run, finds) =
                    update_agreeing d delta w _ e_d except (pair_of synced)
                      (λ k. tagged (N.arn_of id) k ∙ rw (eq_refl (N.arn_of id)))
                      (tags_step-Preserves latest delta latest_ko.spec.description w description) in
                  (delta, r, w', computed, run, finds))
          ]
