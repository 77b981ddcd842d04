-- ===== src/Examples/Settled.antt =====
-- Examples of the theorems on an update and on the read after it.
use ack_networkmanager_contr.Manager.Creation.{create_settles}
use ack_networkmanager_contr.Sdk.{new_create_request_payload}
use ack_networkmanager_contr.Examples.Steady.{made, steady_creation}
use ack_networkmanager_contr.Examples.Resources.{uncreated}
use ack_networkmanager_contr.Prelude.{◌≡◌, refl, sym, ap, true, false, none, some, [], ◌∷◌, done}
use ack_networkmanager_contr.Types.{GlobalNetwork, Resource}
use ack_networkmanager_contr.External.{UpdateInput}
use ack_networkmanager_contr.Effects.{World}
use ack_networkmanager_contr.Examples.{
  Failure, failures, failures-IsErrors, in_order, in_order-IsRange, paths, paths-IsCompare,
}
use ack_networkmanager_contr.Examples.Resources.{
  manager, of_network, network, new_tags, was_terminal, was_terminal-IsUnique, created, latest,
  arn_1, new_tags-IsFilled, old_tags-IsFilled,
}
use ack_networkmanager_contr.Delta.{new_resource_delta}
use ack_networkmanager_contr.Manager.{read_one, create, update, delete}
use ack_networkmanager_contr.Manager.Removal.{removal_unsettled}
use ack_networkmanager_contr.Manager.Total.{Complete, ReturnsFrom, operations_return}
use ack_networkmanager_contr.Manager.Reconcile.{Finds}
use ack_networkmanager_contr.Manager.Round.{round_settles}
use ack_networkmanager_contr.Examples.Steady.{
  Store, updated, steady, steady_tags, steady_networks, steady-ReadsOnly, steady-Answers, spine,
  held, written_network,
}

-- The tags of the network come back from AWS with keys and values.
round_settles_example :
    (observed desired' r : Resource) × (w' w'' : World Failure steady.State) × (delta : paths.Delta)
    × (read_one failures steady manager in_order (of_network created) spine
        ≡ (done ((some observed, none), desired'), w'))
    × (new_resource_delta paths (some desired') (some observed) ≡ done delta)
    × (update failures steady manager in_order paths desired' observed delta w'
        ≡ (done (some r, none), w''))
    × Finds failures steady manager in_order paths desired' w'' false
round_settles_example =
    round_settles failures failures-IsErrors steady manager in_order in_order-IsRange paths
      paths-IsCompare steady_tags steady_networks steady-ReadsOnly (of_network created) created
      "gn-1" steady-Answers refl refl arn_1 "backbone"
      (record { global_networks = some (held spine.aws ∷ []) }) (held spine.aws) [] spine refl refl
      refl refl refl old_tags-IsFilled

steady-Complete : Complete steady
steady-Complete = record {
  created = λ i s out success. (held (made i s), sym (ap written_network success));
  updated = λ i s out success. (held (updated i s), sym (ap written_network success));
}

operations_return_example :
    ReturnsFrom (read_one failures steady manager in_order (of_network created)) spine
    × ReturnsFrom (create failures steady manager (of_network created)) spine
    × ReturnsFrom
        (update failures steady manager in_order paths
          (of_network created)
          (of_network latest)
          ("Spec.Tags" ∷ []))
        spine
    × ReturnsFrom (delete failures steady manager (of_network created)) spine
operations_return_example =
    operations_return failures failures-IsErrors steady manager in_order in_order-IsRange paths
      steady-Complete (of_network created) (of_network latest) created latest ("Spec.Tags" ∷ [])
      arn_1 "arn:gn-1" spine refl refl refl refl new_tags-IsFilled old_tags-IsFilled
      was_terminal-IsUnique was_terminal-IsUnique

-- A network without a description.
abbrev plain : GlobalNetwork
plain = network (some "gn-1") none new_tags was_terminal

updated-description :
    (i : UpdateInput) (s : Store) → i.description ≡ none → (updated i s).description ≡ s.description
updated-description i s e = rw e

removal_unsettled_example :
    (delta : paths.Delta) × (r : Resource) × (w' : World Failure steady.State) × (new_resource_delta
        paths
        (some (of_network plain))
        (some (of_network latest))
      ≡ done delta)
    × (update failures steady manager in_order paths
          (of_network plain)
          (of_network latest)
          delta
          spine
        ≡ (done (some r, none), w'))
    × (steady_networks.description_of w'.aws "gn-1" ≡ some "spine")
    × Finds failures steady manager in_order paths (of_network plain) w' true
removal_unsettled_example =
    removal_unsettled failures failures-IsErrors steady manager in_order in_order-IsRange paths
      paths-IsCompare steady_tags steady_networks (λ i s id. updated-description i s)
      (of_network plain) (of_network latest) plain latest "gn-1" arn_1 "spine" spine steady-Answers
      refl refl refl refl refl refl refl refl new_tags-IsFilled old_tags-IsFilled (λ k. refl) refl

create_settles_example :
    (r r' observed : Resource) × (w' w'' : World Failure steady.State) × (delta : paths.Delta)
    × (create failures steady manager (of_network uncreated) spine ≡ (done (some r, none), w'))
    × (read_one failures steady manager in_order r w' ≡ (done ((some observed, none), r'), w''))
    × (new_resource_delta paths (some (of_network uncreated)) (some observed) ≡ done delta)
    × (paths.different_at delta "Spec.Tags" ≡ false)
    × (paths.different_except delta "Spec.Tags" ≡ false)
unfolding new_create_request_payload
create_settles_example =
    let s = made (new_create_request_payload uncreated) spine.aws in
    create_settles failures failures-IsErrors steady manager in_order in_order-IsRange paths
      paths-IsCompare steady_tags steady_networks steady_creation (of_network uncreated) uncreated
      "backbone" "gn-1" spine (record { global_network = some (held s) }) (held s) s s
      (record { global_networks = some (held s ∷ []) }) (held s) [] refl refl refl refl refl refl
      refl
