-- ===== src/DeepCopy/Instances/Attachments.antt =====
-- The types of attachments, peers and gateways.
use ack_networkmanager_contr.Prelude.{[], ◌∷◌}
use ack_networkmanager_contr.DeepCopy.{
  Value, Mem, pure, if_not_nil, copy_new, copy_slice, deep_copy_into,
}
use ack_networkmanager_contr.DeepCopy.Instances.{LibraryCopies}
use ack_networkmanager_contr.DeepCopy.Instances.Resources.{tag_deep_copy_into}

abbrev pub attachment_deep_copy_into : LibraryCopies → Value → Mem
attachment_deep_copy_into C = deep_copy_into (
    ("CreatedAt", if_not_nil C.time_deep_copy)
    ∷ ("SegmentName", copy_new pure)
    ∷ ("Tags", copy_slice (copy_new tag_deep_copy_into))
    ∷ ("UpdatedAt", if_not_nil C.time_deep_copy)
    ∷ [])

abbrev pub attachment_deep_copy : LibraryCopies → Value → Mem
attachment_deep_copy C = copy_new (attachment_deep_copy_into C)

abbrev pub attachment_routing_policy_association_summary_deep_copy_into : Value → Mem
attachment_routing_policy_association_summary_deep_copy_into =
    deep_copy_into (("RoutingPolicyLabel", copy_new pure) ∷ [])

abbrev pub attachment_routing_policy_association_summary_deep_copy : Value → Mem
attachment_routing_policy_association_summary_deep_copy =
    copy_new attachment_routing_policy_association_summary_deep_copy_into

abbrev pub connect_peer_deep_copy_into : LibraryCopies → Value → Mem
connect_peer_deep_copy_into C = deep_copy_into (
    ("CreatedAt", if_not_nil C.time_deep_copy)
    ∷ ("Tags", copy_slice (copy_new tag_deep_copy_into))
    ∷ [])

abbrev pub connect_peer_deep_copy : LibraryCopies → Value → Mem
connect_peer_deep_copy C = copy_new (connect_peer_deep_copy_into C)

abbrev pub connect_peer_association_deep_copy_into : Value → Mem
connect_peer_association_deep_copy_into = deep_copy_into (("GlobalNetworkID", copy_new pure) ∷ [])

abbrev pub connect_peer_association_deep_copy : Value → Mem
connect_peer_association_deep_copy = copy_new connect_peer_association_deep_copy_into

abbrev pub connect_peer_summary_deep_copy_into : LibraryCopies → Value → Mem
connect_peer_summary_deep_copy_into C = deep_copy_into (
    ("CreatedAt", if_not_nil C.time_deep_copy)
    ∷ ("Tags", copy_slice (copy_new tag_deep_copy_into))
    ∷ [])

abbrev pub connect_peer_summary_deep_copy : LibraryCopies → Value → Mem
connect_peer_summary_deep_copy C = copy_new (connect_peer_summary_deep_copy_into C)

abbrev pub customer_gateway_association_deep_copy_into : Value → Mem
customer_gateway_association_deep_copy_into =
    deep_copy_into (("GlobalNetworkID", copy_new pure) ∷ [])

abbrev pub customer_gateway_association_deep_copy : Value → Mem
customer_gateway_association_deep_copy = copy_new customer_gateway_association_deep_copy_into

abbrev pub edge_override_deep_copy_into : Value → Mem
edge_override_deep_copy_into = deep_copy_into (("UseEdge", copy_new pure) ∷ [])

abbrev pub edge_override_deep_copy : Value → Mem
edge_override_deep_copy = copy_new edge_override_deep_copy_into

abbrev pub network_function_group_deep_copy_into : Value → Mem
network_function_group_deep_copy_into = deep_copy_into (("Name", copy_new pure) ∷ [])

abbrev pub network_function_group_deep_copy : Value → Mem
network_function_group_deep_copy = copy_new network_function_group_deep_copy_into

abbrev pub peering_deep_copy_into : LibraryCopies → Value → Mem
peering_deep_copy_into C = deep_copy_into (
    ("CreatedAt", if_not_nil C.time_deep_copy)
    ∷ ("Tags", copy_slice (copy_new tag_deep_copy_into))
    ∷ [])

abbrev pub peering_deep_copy : LibraryCopies → Value → Mem
peering_deep_copy C = copy_new (peering_deep_copy_into C)

abbrev pub proposed_network_function_group_change_deep_copy_into : Value → Mem
proposed_network_function_group_change_deep_copy_into = deep_copy_into (
    ("NetworkFunctionGroupName", copy_new pure)
    ∷ ("Tags", copy_slice (copy_new tag_deep_copy_into))
    ∷ [])

abbrev pub proposed_network_function_group_change_deep_copy : Value → Mem
proposed_network_function_group_change_deep_copy =
    copy_new proposed_network_function_group_change_deep_copy_into

abbrev pub proposed_segment_change_deep_copy_into : Value → Mem
proposed_segment_change_deep_copy_into =
    deep_copy_into
      (("SegmentName", copy_new pure) ∷ ("Tags", copy_slice (copy_new tag_deep_copy_into)) ∷ [])

abbrev pub proposed_segment_change_deep_copy : Value → Mem
proposed_segment_change_deep_copy = copy_new proposed_segment_change_deep_copy_into

abbrev pub relationship_deep_copy_into : Value → Mem
relationship_deep_copy_into = deep_copy_into (("From", copy_new pure) ∷ ("To", copy_new pure) ∷ [])

abbrev pub relationship_deep_copy : Value → Mem
relationship_deep_copy = copy_new relationship_deep_copy_into

abbrev pub transit_gateway_connect_peer_association_deep_copy_into : Value → Mem
transit_gateway_connect_peer_association_deep_copy_into =
    deep_copy_into (("GlobalNetworkID", copy_new pure) ∷ [])

abbrev pub transit_gateway_connect_peer_association_deep_copy : Value → Mem
transit_gateway_connect_peer_association_deep_copy =
    copy_new transit_gateway_connect_peer_association_deep_copy_into

abbrev pub transit_gateway_registration_deep_copy_into : Value → Mem
transit_gateway_registration_deep_copy_into =
    deep_copy_into (("GlobalNetworkID", copy_new pure) ∷ [])

abbrev pub transit_gateway_registration_deep_copy : Value → Mem
transit_gateway_registration_deep_copy = copy_new transit_gateway_registration_deep_copy_into

abbrev pub transit_gateway_registration_state_reason_deep_copy_into : Value → Mem
transit_gateway_registration_state_reason_deep_copy_into =
    deep_copy_into (("Message", copy_new pure) ∷ [])

abbrev pub transit_gateway_registration_state_reason_deep_copy : Value → Mem
transit_gateway_registration_state_reason_deep_copy =
    copy_new transit_gateway_registration_state_reason_deep_copy_into
