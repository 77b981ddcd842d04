-- ===== src/DeepCopy/Instances/Routes.antt =====
-- The types of routes and of the resources of a network.
use ack_networkmanager_contr.Prelude.{[], ◌∷◌}
use ack_networkmanager_contr.DeepCopy.{
  Value, Mem, pure, if_not_nil, copy_new, copy_slice, deep_copy_into,
}
use ack_networkmanager_contr.DeepCopy.Instances.{LibraryCopies}
use ack_networkmanager_contr.DeepCopy.Instances.Resources.{tag_deep_copy_into}

abbrev pub network_resource_deep_copy_into : LibraryCopies → Value → Mem
network_resource_deep_copy_into C = deep_copy_into (
    ("Definition", copy_new pure)
    ∷ ("DefinitionTimestamp", if_not_nil C.time_deep_copy)
    ∷ ("ResourceID", copy_new pure)
    ∷ ("ResourceType", copy_new pure)
    ∷ ("Tags", copy_slice (copy_new tag_deep_copy_into))
    ∷ [])

abbrev pub network_resource_deep_copy : LibraryCopies → Value → Mem
network_resource_deep_copy C = copy_new (network_resource_deep_copy_into C)

abbrev pub network_resource_count_deep_copy_into : Value → Mem
network_resource_count_deep_copy_into = deep_copy_into (("ResourceType", copy_new pure) ∷ [])

abbrev pub network_resource_count_deep_copy : Value → Mem
network_resource_count_deep_copy = copy_new network_resource_count_deep_copy_into

abbrev pub network_resource_summary_deep_copy_into : Value → Mem
network_resource_summary_deep_copy_into = deep_copy_into (
    ("Definition", copy_new pure)
    ∷ ("NameTag", copy_new pure)
    ∷ ("ResourceType", copy_new pure)
    ∷ [])

abbrev pub network_resource_summary_deep_copy : Value → Mem
network_resource_summary_deep_copy = copy_new network_resource_summary_deep_copy_into

abbrev pub network_route_deep_copy_into : Value → Mem
network_route_deep_copy_into =
    deep_copy_into (("DestinationCIDRBlock", copy_new pure) ∷ ("PrefixListID", copy_new pure) ∷ [])

abbrev pub network_route_deep_copy : Value → Mem
network_route_deep_copy = copy_new network_route_deep_copy_into

abbrev pub network_route_destination_deep_copy_into : Value → Mem
network_route_destination_deep_copy_into = deep_copy_into (
    ("NetworkFunctionGroupName", copy_new pure)
    ∷ ("ResourceID", copy_new pure)
    ∷ ("ResourceType", copy_new pure)
    ∷ ("SegmentName", copy_new pure)
    ∷ [])

abbrev pub network_route_destination_deep_copy : Value → Mem
network_route_destination_deep_copy = copy_new network_route_destination_deep_copy_into

abbrev pub network_telemetry_deep_copy_into : Value → Mem
network_telemetry_deep_copy_into = deep_copy_into (
    ("Address", copy_new pure)
    ∷ ("ResourceID", copy_new pure)
    ∷ ("ResourceType", copy_new pure)
    ∷ [])

abbrev pub network_telemetry_deep_copy : Value → Mem
network_telemetry_deep_copy = copy_new network_telemetry_deep_copy_into

abbrev pub path_component_deep_copy_into : Value → Mem
path_component_deep_copy_into = deep_copy_into (("DestinationCIDRBlock", copy_new pure) ∷ [])

abbrev pub path_component_deep_copy : Value → Mem
path_component_deep_copy = copy_new path_component_deep_copy_into

abbrev pub prefix_list_association_deep_copy_into : Value → Mem
prefix_list_association_deep_copy_into = deep_copy_into (("PrefixListAlias", copy_new pure) ∷ [])

abbrev pub prefix_list_association_deep_copy : Value → Mem
prefix_list_association_deep_copy = copy_new prefix_list_association_deep_copy_into

abbrev pub route_analysis_deep_copy_into : LibraryCopies → Value → Mem
route_analysis_deep_copy_into C = deep_copy_into (
    ("GlobalNetworkID", copy_new pure)
    ∷ ("RouteAnalysisID", copy_new pure)
    ∷ ("StartTimestamp", if_not_nil C.time_deep_copy)
    ∷ [])

abbrev pub route_analysis_deep_copy : LibraryCopies → Value → Mem
route_analysis_deep_copy C = copy_new (route_analysis_deep_copy_into C)

abbrev pub routing_information_next_hop_deep_copy_into : Value → Mem
routing_information_next_hop_deep_copy_into = deep_copy_into (
    ("CoreNetworkAttachmentID", copy_new pure)
    ∷ ("ResourceID", copy_new pure)
    ∷ ("ResourceType", copy_new pure)
    ∷ ("SegmentName", copy_new pure)
    ∷ [])

abbrev pub routing_information_next_hop_deep_copy : Value → Mem
routing_information_next_hop_deep_copy = copy_new routing_information_next_hop_deep_copy_into
