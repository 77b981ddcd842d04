-- ===== src/Manager/Creation.antt =====
-- A creation and the read behind it.
use ack_networkmanager_contr.Prelude.{
  String, ◌≡◌, refl, ap, ◌∙◌, sym, false, none, some, List, ◌∷◌, elements, done, eq_refl,
}
use ack_networkmanager_contr.Maps.{Range, IsRange}
use ack_networkmanager_contr.Types.{GlobalNetwork, Resource, ResourceManager}
use ack_networkmanager_contr.External.{
  Errors, IsErrors, Client, Compare, IsCompare, replied, SdkGlobalNetwork, NetworkOutput,
  DescribeOutput,
}
use ack_networkmanager_contr.Effects.{World}
use ack_networkmanager_contr.Tags.Values.{tag_at}
use ack_networkmanager_contr.Delta.{new_resource_delta}
use ack_networkmanager_contr.Delta.Laws.{new_resource_delta_lem}
use ack_networkmanager_contr.SyncTags.Service.{TagService}
use ack_networkmanager_contr.Sdk.{new_create_request_payload}
use ack_networkmanager_contr.Sdk.Find.{describe_one}
use ack_networkmanager_contr.Sdk.Service.{NetworkService, CreateService, tag_at-sent_tags}
use ack_networkmanager_contr.Manager.{read_one, create}
use ack_networkmanager_contr.Manager.Crud.{create_succeeded}
use ack_networkmanager_contr.Manager.Read.{read_found}

module _ (E : Errors) (L : IsErrors E) (C : Client E.Err) (rm : ResourceManager) (R : Range)
    (RL : IsRange R) (D : Compare) (DL : IsCompare D) (T : TagService C) (N : NetworkService C T)
    (K : CreateService C T N) where
  -- All of this is under the documented behaviour of the libraries and of AWS. The desired
  -- resource has a description. CreateGlobalNetwork replies to the request for it with a network
  -- that has an identifier, and DescribeGlobalNetworks for that identifier then replies with at
  -- least one network. Then `Create` of the desired resource returns a resource and no error,
  -- `ReadOne` of that one a resource and no error, and between the desired resource and what was
  -- read `newResourceDelta` finds no difference.
  pub create_settles :
      (desired : Resource) (ko : GlobalNetwork) (d id : String) (w : World E.Err C.State)
      (out : NetworkOutput) (elem : SdkGlobalNetwork) (s s' : C.State) (seen : DescribeOutput)
      (first : SdkGlobalNetwork) (rest : List SdkGlobalNetwork)
      → desired.ko ≡ some ko
      → ko.spec.description ≡ some d
      → C.create_global_network (new_create_request_payload ko) w.aws ≡ (replied out, s)
      → out.global_network ≡ some elem
      → elem.global_network_id ≡ some id
      → C.describe_global_networks (describe_one id) s ≡ (replied seen, s')
      → elements seen.global_networks ≡ first ∷ rest
      → (r r' observed : Resource) × (w' w'' : World E.Err C.State) × (delta : D.Delta) × (create E
            C rm desired w
          ≡ (done (some r, none), w'))
        × (read_one E C rm R r w' ≡ (done ((some observed, none), r'), w''))
        × (new_resource_delta D (some desired) (some observed) ≡ done delta)
        × (D.different_at delta "Spec.Tags" ≡ false)
        × (D.different_except delta "Spec.Tags" ≡ false)
  unfolding new_create_request_payload
  create_settles desired ko d id w out elem s s' seen first rest e e_d creates network e_id
        describes found =
      let (description, tags_held) = K.after_create _ w.aws s out elem id creates network e_id in
      let (description_read, tags_read) =
        N.described id s seen first rest (ap (λ p. p.0) describes) found in
      let (ko', cs, run, merged, _, _) =
        create_succeeded E L rm C desired ko w e elem out s network creates in
      let (ko'', cs'', tags, run'', merged'', _, _, _, _) =
        read_found E L C rm R (record { ko = some ko' }) ko' _ refl id seen first rest s' RL
          (merged.id ∙ e_id) describes found in
      let (delta, computed, same_tags, except) =
        new_resource_delta_lem D desired (record { ko = some ko'' }) ko ko'' DL e refl in
      (
        record { ko = some ko' },
        _,
        record { ko = some ko'' },
        _,
        _,
        delta,
        run,
        run'',
        computed,
        same_tags.1 (λ k. sym (
            ap (λ ts. tag_at k (elements ts)) merged''.tags
            ∙ tags_read k
            ∙ tags_held k
            ∙ tag_at-sent_tags k ko.spec.tags)),
        except
            ∙ rw (
              merged''.description,
              description_read,
              description,
              e_d,
              DL.nil_difference_of_values d d,
              eq_refl d,
            ),
      )
