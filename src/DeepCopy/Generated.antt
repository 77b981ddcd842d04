-- ===== src/DeepCopy/Generated.antt =====
-- What the generated copies of all types share.
use mathlib.Core.Path.{subst}
use ack_networkmanager_contr.Prelude.{
  length, ℕ, zero, suc, ◌≡◌, Option, none, some, List, [], ◌∷◌, done,
}
use ack_networkmanager_contr.DeepCopy.{Kind, pointer, Value, Heap, Mem, write_all}
use ack_networkmanager_contr.DeepCopy.Trees.{
  Tree, Reads, Copies, copy_new-Copies, deep_copy_object-Copies,
}
use ack_networkmanager_contr.DeepCopy.Laws.{AllFrom, AllBelow, Copies-apart}
use ack_networkmanager_contr.DeepCopy.Shapes.{LibraryKinds, global_network, global_network_list}
use ack_networkmanager_contr.DeepCopy.Instances.{LibraryCopies}
use ack_networkmanager_contr.DeepCopy.Instances.Resources.{
  global_network_deep_copy, global_network_list_deep_copy,
}
use ack_networkmanager_contr.DeepCopy.Covered.{IsDeep}
use ack_networkmanager_contr.DeepCopy.Covered.Resources.{
  tag_deep_copy_into-Copies, global_network_spec_deep_copy_into-Copies,
  global_network_status_deep_copy_into-Copies, global_network_deep_copy_into-Copies,
  global_network_list_deep_copy_into-Copies,
}
use ack_networkmanager_contr.DeepCopy.Covered.CoreNetworks.{
  core_network_deep_copy_into-Copies, core_network_change_deep_copy_into-Copies,
  core_network_change_event_deep_copy_into-Copies,
  core_network_change_event_values_deep_copy_into-Copies,
  core_network_change_values_deep_copy_into-Copies,
  core_network_network_function_group_deep_copy_into-Copies,
  core_network_network_function_group_identifier_deep_copy_into-Copies,
  core_network_policy_deep_copy_into-Copies, core_network_policy_version_deep_copy_into-Copies,
  core_network_routing_information_deep_copy_into-Copies,
  core_network_segment_deep_copy_into-Copies,
  core_network_segment_edge_identifier_deep_copy_into-Copies,
  core_network_summary_deep_copy_into-Copies,
}
use ack_networkmanager_contr.DeepCopy.Covered.Attachments.{
  attachment_deep_copy_into-Copies,
  attachment_routing_policy_association_summary_deep_copy_into-Copies,
  connect_peer_deep_copy_into-Copies, connect_peer_association_deep_copy_into-Copies,
  connect_peer_summary_deep_copy_into-Copies, customer_gateway_association_deep_copy_into-Copies,
  edge_override_deep_copy_into-Copies, network_function_group_deep_copy_into-Copies,
  peering_deep_copy_into-Copies, proposed_network_function_group_change_deep_copy_into-Copies,
  proposed_segment_change_deep_copy_into-Copies, relationship_deep_copy_into-Copies,
  transit_gateway_connect_peer_association_deep_copy_into-Copies,
  transit_gateway_registration_deep_copy_into-Copies,
  transit_gateway_registration_state_reason_deep_copy_into-Copies,
}
use ack_networkmanager_contr.DeepCopy.Covered.Routes.{
  network_resource_deep_copy_into-Copies, network_resource_count_deep_copy_into-Copies,
  network_resource_summary_deep_copy_into-Copies, network_route_deep_copy_into-Copies,
  network_route_destination_deep_copy_into-Copies, network_telemetry_deep_copy_into-Copies,
  path_component_deep_copy_into-Copies, prefix_list_association_deep_copy_into-Copies,
  route_analysis_deep_copy_into-Copies, routing_information_next_hop_deep_copy_into-Copies,
}
use ack_networkmanager_contr.DeepCopy.Covered.Sites.{
  aws_location_deep_copy_into-Copies, connection_deep_copy_into-Copies,
  connection_health_deep_copy_into-Copies, device_deep_copy_into-Copies,
  global_network_sdk_deep_copy_into-Copies, link_deep_copy_into-Copies,
  link_association_deep_copy_into-Copies, location_deep_copy_into-Copies,
  site_deep_copy_into-Copies,
}
use ack_networkmanager_contr.DeepCopy.Table.{generated, row}

-- Each function of the table copies what a pointer to its type reaches.
infixr 20 ◌◂◌
data AllCopy : List (Kind × (Value → Mem)) → Type 0 where
  nil : AllCopy []
  ◌◂◌ :
      {k : Kind} {f : Value → Mem} {rs : List (Kind × (Value → Mem))}
      → Copies (pointer k) f
      → AllCopy rs
      → AllCopy ((k, f) ∷ rs)

generated-AllCopy : (L : LibraryKinds) (C : LibraryCopies) → IsDeep L C → AllCopy (generated L C)
generated-AllCopy L C D =
    copy_new-Copies _ _ tag_deep_copy_into-Copies
    ◂ copy_new-Copies _ _ global_network_spec_deep_copy_into-Copies
    ◂ copy_new-Copies _ _ (global_network_status_deep_copy_into-Copies L C D)
    ◂ copy_new-Copies _ _ (global_network_deep_copy_into-Copies L C D)
    ◂ deep_copy_object-Copies (pointer (global_network L)) (global_network_deep_copy C)
        (copy_new-Copies _ _ (global_network_deep_copy_into-Copies L C D))
    ◂ copy_new-Copies _ _ (global_network_list_deep_copy_into-Copies L C D)
    ◂ deep_copy_object-Copies (pointer (global_network_list L)) (global_network_list_deep_copy C)
        (copy_new-Copies _ _ (global_network_list_deep_copy_into-Copies L C D))
    ◂ copy_new-Copies _ _ (core_network_deep_copy_into-Copies L C D)
    ◂ copy_new-Copies _ _ core_network_change_deep_copy_into-Copies
    ◂ copy_new-Copies _ _ (core_network_change_event_deep_copy_into-Copies L C D)
    ◂ copy_new-Copies _ _ core_network_change_event_values_deep_copy_into-Copies
    ◂ copy_new-Copies _ _ core_network_change_values_deep_copy_into-Copies
    ◂ copy_new-Copies _ _ core_network_network_function_group_deep_copy_into-Copies
    ◂ copy_new-Copies _ _ core_network_network_function_group_identifier_deep_copy_into-Copies
    ◂ copy_new-Copies _ _ (core_network_policy_deep_copy_into-Copies L C D)
    ◂ copy_new-Copies _ _ (core_network_policy_version_deep_copy_into-Copies L C D)
    ◂ copy_new-Copies _ _ core_network_routing_information_deep_copy_into-Copies
    ◂ copy_new-Copies _ _ core_network_segment_deep_copy_into-Copies
    ◂ copy_new-Copies _ _ core_network_segment_edge_identifier_deep_copy_into-Copies
    ◂ copy_new-Copies _ _ core_network_summary_deep_copy_into-Copies
    ◂ copy_new-Copies _ _ (attachment_deep_copy_into-Copies L C D)
    ◂ copy_new-Copies _ _ attachment_routing_policy_association_summary_deep_copy_into-Copies
    ◂ copy_new-Copies _ _ (connect_peer_deep_copy_into-Copies L C D)
    ◂ copy_new-Copies _ _ connect_peer_association_deep_copy_into-Copies
    ◂ copy_new-Copies _ _ (connect_peer_summary_deep_copy_into-Copies L C D)
    ◂ copy_new-Copies _ _ customer_gateway_association_deep_copy_into-Copies
    ◂ copy_new-Copies _ _ edge_override_deep_copy_into-Copies
    ◂ copy_new-Copies _ _ network_function_group_deep_copy_into-Copies
    ◂ copy_new-Copies _ _ (peering_deep_copy_into-Copies L C D)
    ◂ copy_new-Copies _ _ proposed_network_function_group_change_deep_copy_into-Copies
    ◂ copy_new-Copies _ _ proposed_segment_change_deep_copy_into-Copies
    ◂ copy_new-Copies _ _ relationship_deep_copy_into-Copies
    ◂ copy_new-Copies _ _ transit_gateway_connect_peer_association_deep_copy_into-Copies
    ◂ copy_new-Copies _ _ transit_gateway_registration_deep_copy_into-Copies
    ◂ copy_new-Copies _ _ transit_gateway_registration_state_reason_deep_copy_into-Copies
    ◂ copy_new-Copies _ _ (network_resource_deep_copy_into-Copies L C D)
    ◂ copy_new-Copies _ _ network_resource_count_deep_copy_into-Copies
    ◂ copy_new-Copies _ _ network_resource_summary_deep_copy_into-Copies
    ◂ copy_new-Copies _ _ network_route_deep_copy_into-Copies
    ◂ copy_new-Copies _ _ network_route_destination_deep_copy_into-Copies
    ◂ copy_new-Copies _ _ network_telemetry_deep_copy_into-Copies
    ◂ copy_new-Copies _ _ path_component_deep_copy_into-Copies
    ◂ copy_new-Copies _ _ prefix_list_association_deep_copy_into-Copies
    ◂ copy_new-Copies _ _ (route_analysis_deep_copy_into-Copies L C D)
    ◂ copy_new-Copies _ _ routing_information_next_hop_deep_copy_into-Copies
    ◂ copy_new-Copies _ _ aws_location_deep_copy_into-Copies
    ◂ copy_new-Copies _ _ (connection_deep_copy_into-Copies L C D)
    ◂ copy_new-Copies _ _ (connection_health_deep_copy_into-Copies L C D)
    ◂ copy_new-Copies _ _ (device_deep_copy_into-Copies L C D)
    ◂ copy_new-Copies _ _ (global_network_sdk_deep_copy_into-Copies L C D)
    ◂ copy_new-Copies _ _ (link_deep_copy_into-Copies L C D)
    ◂ copy_new-Copies _ _ link_association_deep_copy_into-Copies
    ◂ copy_new-Copies _ _ location_deep_copy_into-Copies
    ◂ copy_new-Copies _ _ (site_deep_copy_into-Copies L C D)
    ◂ nil

-- A row, if there is one, copies deeply.
abbrev RowCopies : Option (Kind × (Value → Mem)) → Type 0
RowCopies none = Unit
RowCopies (some (k, f)) = Copies (pointer k) f

row-RowCopies : {rs : List (Kind × (Value → Mem))} (i : ℕ) → AllCopy rs → RowCopies (row rs i)
row-RowCopies i nil = tt
row-RowCopies zero (copies ◂ all) = copies
row-RowCopies (suc i) (copies ◂ all) = row-RowCopies i all

-- The functions of other repositories that the generated code calls copy their own types deeply.
-- For each struct type of apis/v1alpha1 and each value of it in memory, reached by a pointer that
-- may be nil, the generated `DeepCopy`, or `DeepCopyObject` where the type has one, does not
-- panic, and it returns a pointer such that, whatever is written to new cells afterwards, the
-- original still reads as before, and whatever is written to the old cells, the copy still reads
-- as the original did.
pub generated_apart :
    (L : LibraryKinds) (C : LibraryCopies) (i : ℕ) (k : Kind) (f : Value → Mem) (v : Value)
    (t : Tree) (h : Heap) (ws os : List (ℕ × Value))
    → IsDeep L C
    → row (generated L C) i ≡ some (k, f)
    → Reads 0 h (pointer k) v t
    → AllFrom (length h) ws
    → AllBelow (length h) os
    → (v' : Value) × (h' : Heap) × (f v h ≡ done (v', h'))
      × Reads 0 (write_all ws h') (pointer k) v t
      × Reads (length h) (write_all os h') (pointer k) v' t
generated_apart L C i k f v t h ws os D e r from below =
    Copies-apart (pointer k) f v t h ws os
      (subst RowCopies e (row-RowCopies i (generated-AllCopy L C D))) r from below
