-- ===== src/DeepCopy/Instances/CoreNetworks.antt =====
-- The types of core networks.
use ack_networkmanager_contr.Prelude.{[], ◌∷◌}
use ack_networkmanager_contr.DeepCopy.{
  Value, Mem, pure, if_not_nil, copy_new, copy_slice, deep_copy_into,
}
use ack_networkmanager_contr.DeepCopy.Instances.{LibraryCopies}
use ack_networkmanager_contr.DeepCopy.Instances.Resources.{tag_deep_copy_into}

abbrev pub core_network_deep_copy_into : LibraryCopies → Value → Mem
core_network_deep_copy_into C = deep_copy_into (
    ("CreatedAt", if_not_nil C.time_deep_copy)
    ∷ ("Description", copy_new pure)
    ∷ ("GlobalNetworkID", copy_new pure)
    ∷ ("Tags", copy_slice (copy_new tag_deep_copy_into))
    ∷ [])

abbrev pub core_network_deep_copy : LibraryCopies → Value → Mem
core_network_deep_copy C = copy_new (core_network_deep_copy_into C)

abbrev pub core_network_change_deep_copy_into : Value → Mem
core_network_change_deep_copy_into =
    deep_copy_into (("Identifier", copy_new pure) ∷ ("IdentifierPath", copy_new pure) ∷ [])

abbrev pub core_network_change_deep_copy : Value → Mem
core_network_change_deep_copy = copy_new core_network_change_deep_copy_into

abbrev pub core_network_change_event_deep_copy_into : LibraryCopies → Value → Mem
core_network_change_event_deep_copy_into C =
    deep_copy_into
      (("EventTime", if_not_nil C.time_deep_copy) ∷ ("IdentifierPath", copy_new pure) ∷ [])

abbrev pub core_network_change_event_deep_copy : LibraryCopies → Value → Mem
core_network_change_event_deep_copy C = copy_new (core_network_change_event_deep_copy_into C)

abbrev pub core_network_change_event_values_deep_copy_into : Value → Mem
core_network_change_event_values_deep_copy_into = deep_copy_into (
    ("CIDR", copy_new pure)
    ∷ ("NetworkFunctionGroupName", copy_new pure)
    ∷ ("SegmentName", copy_new pure)
    ∷ [])

abbrev pub core_network_change_event_values_deep_copy : Value → Mem
core_network_change_event_values_deep_copy =
    copy_new core_network_change_event_values_deep_copy_into

abbrev pub core_network_change_values_deep_copy_into : Value → Mem
core_network_change_values_deep_copy_into = deep_copy_into (
    ("AttachmentID", copy_new pure)
    ∷ ("CIDR", copy_new pure)
    ∷ ("DestinationIdentifier", copy_new pure)
    ∷ ("NetworkFunctionGroupName", copy_new pure)
    ∷ ("SegmentName", copy_new pure)
    ∷ [])

abbrev pub core_network_change_values_deep_copy : Value → Mem
core_network_change_values_deep_copy = copy_new core_network_change_values_deep_copy_into

abbrev pub core_network_network_function_group_deep_copy_into : Value → Mem
core_network_network_function_group_deep_copy_into = deep_copy_into (("Name", copy_new pure) ∷ [])

abbrev pub core_network_network_function_group_deep_copy : Value → Mem
core_network_network_function_group_deep_copy =
    copy_new core_network_network_function_group_deep_copy_into

abbrev pub core_network_network_function_group_identifier_deep_copy_into : Value → Mem
core_network_network_function_group_identifier_deep_copy_into =
    deep_copy_into (("NetworkFunctionGroupName", copy_new pure) ∷ [])

abbrev pub core_network_network_function_group_identifier_deep_copy : Value → Mem
core_network_network_function_group_identifier_deep_copy =
    copy_new core_network_network_function_group_identifier_deep_copy_into

abbrev pub core_network_policy_deep_copy_into : LibraryCopies → Value → Mem
core_network_policy_deep_copy_into C =
    deep_copy_into
      (("CreatedAt", if_not_nil C.time_deep_copy) ∷ ("Description", copy_new pure) ∷ [])

abbrev pub core_network_policy_deep_copy : LibraryCopies → Value → Mem
core_network_policy_deep_copy C = copy_new (core_network_policy_deep_copy_into C)

abbrev pub core_network_policy_version_deep_copy_into : LibraryCopies → Value → Mem
core_network_policy_version_deep_copy_into C =
    deep_copy_into
      (("CreatedAt", if_not_nil C.time_deep_copy) ∷ ("Description", copy_new pure) ∷ [])

abbrev pub core_network_policy_version_deep_copy : LibraryCopies → Value → Mem
core_network_policy_version_deep_copy C = copy_new (core_network_policy_version_deep_copy_into C)

abbrev pub core_network_routing_information_deep_copy_into : Value → Mem
core_network_routing_information_deep_copy_into =
    deep_copy_into
      (("LocalPreference", copy_new pure) ∷ ("Med", copy_new pure) ∷ ("Prefix", copy_new pure) ∷ [])

abbrev pub core_network_routing_information_deep_copy : Value → Mem
core_network_routing_information_deep_copy =
    copy_new core_network_routing_information_deep_copy_into

abbrev pub core_network_segment_deep_copy_into : Value → Mem
core_network_segment_deep_copy_into = deep_copy_into (("Name", copy_new pure) ∷ [])

abbrev pub core_network_segment_deep_copy : Value → Mem
core_network_segment_deep_copy = copy_new core_network_segment_deep_copy_into

abbrev pub core_network_segment_edge_identifier_deep_copy_into : Value → Mem
core_network_segment_edge_identifier_deep_copy_into =
    deep_copy_into (("SegmentName", copy_new pure) ∷ [])

abbrev pub core_network_segment_edge_identifier_deep_copy : Value → Mem
core_network_segment_edge_identifier_deep_copy =
    copy_new core_network_segment_edge_identifier_deep_copy_into

abbrev pub core_network_summary_deep_copy_into : Value → Mem
core_network_summary_deep_copy_into = deep_copy_into (
    ("Description", copy_new pure)
    ∷ ("GlobalNetworkID", copy_new pure)
    ∷ ("Tags", copy_slice (copy_new tag_deep_copy_into))
    ∷ [])

abbrev pub core_network_summary_deep_copy : Value → Mem
core_network_summary_deep_copy = copy_new core_network_summary_deep_copy_into
