-- ===== src/Manager/Total.antt =====
-- Termination of the operations.
use ack_networkmanager_contr.Prelude.{
  String, ◌≡◌, refl, ap, ◌∙◌, ◌⊎◌, inl, inr, pair_of, Bool-cases, Option-cases, Option, none, some,
  List, [], ◌∷◌, elements, done,
}
use ack_networkmanager_contr.Maps.{Range, IsRange}
use ack_networkmanager_contr.Types.{GlobalNetwork, Resource, ResourceMetadata, ResourceManager}
use ack_networkmanager_contr.External.{
  Errors, IsErrors, Client, Compare, replied, SdkGlobalNetwork, CreateInput, UpdateInput,
  NetworkOutput,
}
use ack_networkmanager_contr.Effects.{World, M}
use ack_networkmanager_contr.SyncTags.Loops.{IsFilled}
use ack_networkmanager_contr.SyncTags.Service.{Reply-cases}
use ack_networkmanager_contr.SyncTags.Total.{sync_tags-done}
use ack_networkmanager_contr.Sdk.{
  tags_step, new_create_request_payload, new_update_request_payload, new_delete_request_payload,
}
use ack_networkmanager_contr.Sdk.Find.{describe_one}
use ack_networkmanager_contr.Reporting.Laws.{IsUnique}
use ack_networkmanager_contr.Manager.{read_one, create, update, delete}
use ack_networkmanager_contr.Manager.Crud.{create_failed, create_succeeded}
use ack_networkmanager_contr.Manager.Absent.{read_uncreated, read_failed, read_missing}
use ack_networkmanager_contr.Manager.Read.{read_found}
use ack_networkmanager_contr.Manager.Delete.{delete_lem}
use ack_networkmanager_contr.Manager.Update.{
  update_unsynced, update_tags_only, update_failed, update_succeeded,
}

-- The replies to a create and to an update hold a network.
pub record Complete {Err : Type 0} (C : Client Err) : Type 0 where
  pub created :
      (i : CreateInput) (s : C.State) (out : NetworkOutput)
      → (C.create_global_network i s).0 ≡ replied out
      → (elem : SdkGlobalNetwork) × (out.global_network ≡ some elem)
  pub updated :
      (i : UpdateInput) (s : C.State) (out : NetworkOutput)
      → (C.update_global_network i s).0 ≡ replied out
      → (elem : SdkGlobalNetwork) × (out.global_network ≡ some elem)

-- The code comes to its end in this world, without a panic.
abbrev pub ReturnsFrom : {Err State A : Type 0} → M Err State A → World Err State → Type 0
ReturnsFrom {Err} {State} {A} m w = (a : A) × (w' : World Err State) × (m w ≡ (done a, w'))

List-cases : {A : Type 0} (xs : List A) → (xs ≡ []) ⊎ ((x : A) × (ys : List A) × (xs ≡ x ∷ ys))
List-cases [] = inl refl
List-cases (x ∷ xs) = inr (x, xs, refl)

module _ (E : Errors) (L : IsErrors E) (C : Client E.Err) (rm : ResourceManager) (R : Range)
    (RL : IsRange R) (r : Resource) (ko : GlobalNetwork) (w : World E.Err C.State)
    (e : r.ko ≡ some ko) (u : IsUnique (elements ko.status.conditions)) where
  read_one_of_id :
      (id : String) → ko.status.global_network_id ≡ some id → ReturnsFrom (read_one E C rm R r) w
  read_one_of_id id present =
      elim (Reply-cases (C.describe_global_networks (describe_one id) w.aws).0) [
        | inl (out, success) ↦ elim (List-cases (elements out.global_networks)) [
          | inl empty ↦ (
            _,
            _,
            (read_missing E L C rm R r ko w e id out _ u present (pair_of success) empty).1,
          )
          | inr (elem, rest, found) ↦ (
            _,
            _,
            (read_found E L C rm R r ko w e id out elem rest _ RL present (pair_of success)
                found).3,
          )
        ]
        | inr (err, failure) ↦
            (_, _, (read_failed E L C rm R r ko w e id err _ u present (pair_of failure)).1)
      ]

  read_one-ReturnsFrom : ReturnsFrom (read_one E C rm R r) w
  read_one-ReturnsFrom = elim (Option-cases ko.status.global_network_id) [
    | inl absent ↦ (_, _, (read_uncreated E L C rm R r ko w e u absent).1)
    | inr (id, present) ↦ read_one_of_id id present
  ]

  delete-ReturnsFrom : ReturnsFrom (delete E C rm r) w
  delete-ReturnsFrom = (
    _,
    _,
    (delete_lem E L C rm R r ko w e
        (C.delete_global_network (new_delete_request_payload ko) w.aws).0 _ u refl).1,
  )

  create-ReturnsFrom : Complete C → ReturnsFrom (create E C rm r) w
  create-ReturnsFrom K =
      elim (Reply-cases (C.create_global_network (new_create_request_payload ko) w.aws).0) [
        | inl (out, success) ↦
            (let (elem, network) = K.created _ w.aws out success in
              (_, _, (create_succeeded E L rm C r ko w e elem out _ network (pair_of success)).2))
        | inr (err, failure) ↦ (_, _, (create_failed E L rm C r ko w e err _ u (pair_of failure)).1)
      ]

module _ (E : Errors) (L : IsErrors E) (C : Client E.Err) (rm : ResourceManager) (R : Range)
    (RL : IsRange R) (D : Compare) (K : Complete C) (desired latest : Resource)
    (ko latest_ko : GlobalNetwork) (delta : D.Delta) (metadata : ResourceMetadata) (arn : String)
    (w : World E.Err C.State) (e : desired.ko ≡ some ko)
    (e_latest : latest.ko ≡ some latest_ko) where
  tags_step-done :
      ko.status.ack_resource_metadata ≡ some metadata
      → metadata.arn ≡ some arn
      → IsFilled (elements ko.spec.tags)
      → IsFilled (elements latest_ko.spec.tags)
      → (err : Option E.Err) × ((tags_step E C rm R D desired latest delta w).0 ≡ done err)
  unfolding tags_step
  tags_step-done em ea fa fb = elim (Bool-cases (D.different_at delta "Spec.Tags")) [
    | inl differs ↦
        (let (err, run) = sync_tags-done R RL C arn ko.spec.tags latest_ko.spec.tags w fa fb in
          (err, rw (differs, e, em, ea, e_latest) run))
    | inr same ↦ (none, rw same)
  ]

  update-ReturnsFrom :
      (w' : World E.Err C.State)
      → tags_step E C rm R D desired latest delta w ≡ (done none, w')
      → IsUnique (elements latest_ko.status.conditions)
      → ReturnsFrom (update E C rm R D desired latest delta) w
  update-ReturnsFrom w' synced u_latest = elim (Bool-cases (D.different_except delta "Spec.Tags")) [
    | inl differs ↦
        elim (Reply-cases (C.update_global_network (new_update_request_payload ko) w'.aws).0) [
          | inl (out, success) ↦
              (let (elem, network) = K.updated _ w'.aws out success in
                (
                  _,
                  _,
                  (update_succeeded E L C rm R D desired latest ko latest_ko delta w e e_latest w'
                      elem out _ synced differs network (pair_of success)).2,
                ))
          | inr (err, failure) ↦ (
            _,
            _,
            (update_failed E L C rm R D desired latest ko latest_ko delta w e e_latest w' err _
                u_latest synced differs (pair_of failure)).1,
          )
        ]
    | inr same ↦ (
      _,
      _,
      (update_tags_only E L C rm R D desired latest ko latest_ko delta w e e_latest w' synced
          same).1,
    )
  ]

  -- `ackerr.AWSError` finds the API error that `errors.As` finds, `range` visits each entry of a
  -- map once, and the replies to a create and to an update hold a network. Both resources have
  -- `ko`, no type of condition stands twice on either, all tags have keys and values, and the
  -- desired one has an ARN. Then `ReadOne`, `Create`, `Update` with any delta and `Delete`
  -- return, with or without an error and whatever AWS replies: none of them panics.
  pub operations_return :
      ko.status.ack_resource_metadata ≡ some metadata
      → metadata.arn ≡ some arn
      → IsFilled (elements ko.spec.tags)
      → IsFilled (elements latest_ko.spec.tags)
      → IsUnique (elements ko.status.conditions)
      → IsUnique (elements latest_ko.status.conditions)
      → ReturnsFrom (read_one E C rm R desired) w
        × ReturnsFrom (create E C rm desired) w
        × ReturnsFrom (update E C rm R D desired latest delta) w
        × ReturnsFrom (delete E C rm desired) w
  operations_return em ea fa fb u u_latest = (
    read_one-ReturnsFrom E L C rm R RL desired ko w e u,
    create-ReturnsFrom E L C rm R RL desired ko w e u K,
    (let (err, run) = tags_step-done em ea fa fb in
        elim (Option-cases err) [
          | inl fine ↦ update-ReturnsFrom _ (pair_of (run ∙ ap done fine)) u_latest
          | inr (error, stopped) ↦ (
            _,
            _,
            (update_unsynced E L C rm R D desired latest ko latest_ko delta w e e_latest error _
                u_latest (pair_of (run ∙ ap done stopped))).1,
          )
        ]),
    delete-ReturnsFrom E L C rm R RL desired ko w e u,
  )
