-- ===== src/Manager/Round.antt =====
-- A round of the reconciler: a read, an update with what it found, and the next read.
use ack_networkmanager_contr.Prelude.{
  String, ◌≡◌, refl, sym, ap, ◌∙◌, pair_of, false, none, some, List, ◌∷◌, elements, done,
}
use ack_networkmanager_contr.Maps.{Range, IsRange}
use ack_networkmanager_contr.Types.{GlobalNetwork, Resource, ResourceMetadata, ResourceManager}
use ack_networkmanager_contr.External.{
  Errors, IsErrors, Client, Compare, IsCompare, replied, SdkGlobalNetwork, DescribeOutput,
}
use ack_networkmanager_contr.Effects.{World, after_call}
use ack_networkmanager_contr.Tags.Values.{tag_at}
use ack_networkmanager_contr.Delta.{new_resource_delta}
use ack_networkmanager_contr.SyncTags.Loops.{IsFilled, IsNormal-IsFilled}
use ack_networkmanager_contr.SyncTags.Service.{TagService}
use ack_networkmanager_contr.Sdk.{read_tags}
use ack_networkmanager_contr.Sdk.Find.{describe_one}
use ack_networkmanager_contr.Sdk.Service.{NetworkService, ReadsOnly, Answers}
use ack_networkmanager_contr.Tagging.{set_tags}
use ack_networkmanager_contr.Manager.{read_one, update}
use ack_networkmanager_contr.Manager.Read.{read_found}
use ack_networkmanager_contr.Manager.Reconcile.{Finds, update_settles}

module _ (E : Errors) (L : IsErrors E) (C : Client E.Err) (rm : ResourceManager) (R : Range)
    (RL : IsRange R) (D : Compare) (DL : IsCompare D) (T : TagService C) (N : NetworkService C T)
    (O : ReadsOnly C T N) (desired : Resource) (ko : GlobalNetwork) (id : String) (A : Answers C id)
    (e : desired.ko ≡ some ko) (e_id : ko.status.global_network_id ≡ some id) where
  -- All of this is under the documented behaviour of the libraries and of AWS, where AWS fails no
  -- call for the network and a question changes nothing. The desired resource has an identifier,
  -- its ARN and a description, and the network that AWS describes for the identifier has tags
  -- with keys and values. Then whatever AWS holds of this network, `ReadOne` returns it and no
  -- error, `newResourceDelta` of the desired resource, as the read left it, and of what was read
  -- gives a delta, `Update` with it returns a resource and no error, and the next `ReadOne` of
  -- the desired resource returns a resource and no error, between which and the desired one, as
  -- that read left it, `newResourceDelta` finds no difference.
  pub round_settles :
      (metadata : ResourceMetadata) (d : String) (out : DescribeOutput) (elem : SdkGlobalNetwork)
      (rest : List SdkGlobalNetwork) (w : World E.Err C.State)
      → ko.status.ack_resource_metadata ≡ some metadata
      → metadata.arn ≡ some (N.arn_of id)
      → ko.spec.description ≡ some d
      → (C.describe_global_networks (describe_one id) w.aws).0 ≡ replied out
      → elements out.global_networks ≡ elem ∷ rest
      → IsFilled (elements (read_tags elem.tags))
      → (latest desired' r : Resource) × (w' w'' : World E.Err C.State) × (delta : D.Delta)
        × (read_one E C rm R desired w ≡ (done ((some latest, none), desired'), w'))
        × (new_resource_delta D (some desired') (some latest) ≡ done delta)
        × (update E C rm R D desired' latest delta w' ≡ (done (some r, none), w''))
        × Finds E C rm R D desired' w'' false
  round_settles metadata d out elem rest w em ea e_d replies found filled =
      let s = (C.describe_global_networks (describe_one id) w.aws).1 in
      let w' : World E.Err C.State = after_call "READ_MANY" "DescribeGlobalNetworks" none s w in
      let (description, tags_agree) = N.described id w.aws out elem rest replies found in
      let (ko', cs, tags, run, merged, _, _, reads, normal) =
        read_found E L C rm R desired ko w e id out elem rest s RL e_id (pair_of replies) found in
      let (delta, r, w'', computed, updated, finds) =
        update_settles E L C rm R RL D DL T N (record { ko = some (set_tags (some tags) ko) })
          (set_tags (some tags) ko) id A refl e_id (record { ko = some ko' }) ko' refl metadata d w'
          em ea e_d (IsNormal-IsFilled tags normal) (rw (sym merged.tags) at filled)
          (λ k.
            O.tags_described (describe_one id) w.aws (N.arn_of id) k
            ∙ sym (tags_agree k)
            ∙ ap (λ ts. tag_at k (elements ts)) (sym merged.tags))
          (O.description_described (describe_one id) w.aws id
            ∙ sym description
            ∙ sym merged.description) in
      (
        record { ko = some ko' },
        record { ko = some (set_tags (some tags) ko) },
        r,
        w',
        w'',
        delta,
        run,
        computed,
        updated,
        finds,
      )
