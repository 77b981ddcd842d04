-- ===== src/DeepCopy/Table.antt =====
-- The generated copies of all types.
use ack_networkmanager_contr.Prelude.{ℕ, zero, suc, Option, none, some, List, [], ◌∷◌}
use ack_networkmanager_contr.DeepCopy.{Kind, Value, Mem}
use ack_networkmanager_contr.DeepCopy.Shapes.{
  LibraryKinds, tag, global_network_spec, global_network_status, global_network,
  global_network_list, core_network, core_network_change, core_network_change_event,
  core_network_change_event_values, core_network_change_values, core_network_network_function_group,
  core_network_network_function_group_identifier, core_network_policy, core_network_policy_version,
  core_network_routing_information, core_network_segment, core_network_segment_edge_identifier,
  core_network_summary, attachment, attachment_routing_policy_association_summary, connect_peer,
  connect_peer_association, connect_peer_summary, customer_gateway_association, edge_override,
  network_function_group, peering, proposed_network_function_group_change, proposed_segment_change,
  relationship, transit_gateway_connect_peer_association, transit_gateway_registration,
  transit_gateway_registration_state_reason, network_resource, network_resource_count,
  network_resource_summary, network_route, network_route_destination, network_telemetry,
  path_component, prefix_list_association, route_analysis, routing_information_next_hop,
  aws_location, connection, connection_health, device, global_network_sdk, link, link_association,
  location, site,
}
use ack_networkmanager_contr.DeepCopy.Instances.{LibraryCopies}
use ack_networkmanager_contr.DeepCopy.Instances.Resources.{
  tag_deep_copy, global_network_spec_deep_copy, global_network_status_deep_copy,
  global_network_deep_copy, global_network_deep_copy_object, global_network_list_deep_copy,
  global_network_list_deep_copy_object,
}
use ack_networkmanager_contr.DeepCopy.Instances.CoreNetworks.{
  core_network_deep_copy, core_network_change_deep_copy, core_network_change_event_deep_copy,
  core_network_change_event_values_deep_copy, core_network_change_values_deep_copy,
  core_network_network_function_group_deep_copy,
  core_network_network_function_group_identifier_deep_copy, core_network_policy_deep_copy,
  core_network_policy_version_deep_copy, core_network_routing_information_deep_copy,
  core_network_segment_deep_copy, core_network_segment_edge_identifier_deep_copy,
  core_network_summary_deep_copy,
}
use ack_networkmanager_contr.DeepCopy.Instances.Attachments.{
  attachment_deep_copy, attachment_routing_policy_association_summary_deep_copy,
  connect_peer_deep_copy, connect_peer_association_deep_copy, connect_peer_summary_deep_copy,
  customer_gateway_association_deep_copy, edge_override_deep_copy, network_function_group_deep_copy,
  peering_deep_copy, proposed_network_function_group_change_deep_copy,
  proposed_segment_change_deep_copy, relationship_deep_copy,
  transit_gateway_connect_peer_association_deep_copy, transit_gateway_registration_deep_copy,
  transit_gateway_registration_state_reason_deep_copy,
}
use ack_networkmanager_contr.DeepCopy.Instances.Routes.{
  network_resource_deep_copy, network_resource_count_deep_copy, network_resource_summary_deep_copy,
  network_route_deep_copy, network_route_destination_deep_copy, network_telemetry_deep_copy,
  path_component_deep_copy, prefix_list_association_deep_copy, route_analysis_deep_copy,
  routing_information_next_hop_deep_copy,
}
use ack_networkmanager_contr.DeepCopy.Instances.Sites.{
  aws_location_deep_copy, connection_deep_copy, connection_health_deep_copy, device_deep_copy,
  global_network_sdk_deep_copy, link_deep_copy, link_association_deep_copy, location_deep_copy,
  site_deep_copy,
}

-- Each struct type with its `DeepCopy`, and with its `DeepCopyObject` where it has one.
abbrev pub generated : LibraryKinds → LibraryCopies → List (Kind × (Value → Mem))
generated L C =
    (tag, tag_deep_copy)
    ∷ (global_network_spec, global_network_spec_deep_copy)
    ∷ (global_network_status L, global_network_status_deep_copy C)
    ∷ (global_network L, global_network_deep_copy C)
    ∷ (global_network L, global_network_deep_copy_object C)
    ∷ (global_network_list L, global_network_list_deep_copy C)
    ∷ (global_network_list L, global_network_list_deep_copy_object C)
    ∷ (core_network, core_network_deep_copy C)
    ∷ (core_network_change, core_network_change_deep_copy)
    ∷ (core_network_change_event, core_network_change_event_deep_copy C)
    ∷ (core_network_change_event_values, core_network_change_event_values_deep_copy)
    ∷ (core_network_change_values, core_network_change_values_deep_copy)
    ∷ (core_network_network_function_group, core_network_network_function_group_deep_copy)
    ∷ (
      core_network_network_function_group_identifier,
      core_network_network_function_group_identifier_deep_copy,
    )
    ∷ (core_network_policy, core_network_policy_deep_copy C)
    ∷ (core_network_policy_version, core_network_policy_version_deep_copy C)
    ∷ (core_network_routing_information, core_network_routing_information_deep_copy)
    ∷ (core_network_segment, core_network_segment_deep_copy)
    ∷ (core_network_segment_edge_identifier, core_network_segment_edge_identifier_deep_copy)
    ∷ (core_network_summary, core_network_summary_deep_copy)
    ∷ (attachment, attachment_deep_copy C)
    ∷ (
      attachment_routing_policy_association_summary,
      attachment_routing_policy_association_summary_deep_copy,
    )
    ∷ (connect_peer, connect_peer_deep_copy C)
    ∷ (connect_peer_association, connect_peer_association_deep_copy)
    ∷ (connect_peer_summary, connect_peer_summary_deep_copy C)
    ∷ (customer_gateway_association, customer_gateway_association_deep_copy)
    ∷ (edge_override, edge_override_deep_copy)
    ∷ (network_function_group, network_function_group_deep_copy)
    ∷ (peering, peering_deep_copy C)
    ∷ (proposed_network_function_group_change, proposed_network_function_group_change_deep_copy)
    ∷ (proposed_segment_change, proposed_segment_change_deep_copy)
    ∷ (relationship, relationship_deep_copy)
    ∷ (transit_gateway_connect_peer_association, transit_gateway_connect_peer_association_deep_copy)
    ∷ (transit_gateway_registration, transit_gateway_registration_deep_copy)
    ∷ (
      transit_gateway_registration_state_reason,
      transit_gateway_registration_state_reason_deep_copy,
    )
    ∷ (network_resource, network_resource_deep_copy C)
    ∷ (network_resource_count, network_resource_count_deep_copy)
    ∷ (network_resource_summary, network_resource_summary_deep_copy)
    ∷ (network_route, network_route_deep_copy)
    ∷ (network_route_destination, network_route_destination_deep_copy)
    ∷ (network_telemetry, network_telemetry_deep_copy)
    ∷ (path_component, path_component_deep_copy)
    ∷ (prefix_list_association, prefix_list_association_deep_copy)
    ∷ (route_analysis, route_analysis_deep_copy C)
    ∷ (routing_information_next_hop, routing_information_next_hop_deep_copy)
    ∷ (aws_location, aws_location_deep_copy)
    ∷ (connection, connection_deep_copy C)
    ∷ (connection_health, connection_health_deep_copy C)
    ∷ (device, device_deep_copy C)
    ∷ (global_network_sdk, global_network_sdk_deep_copy C)
    ∷ (link, link_deep_copy C)
    ∷ (link_association, link_association_deep_copy)
    ∷ (location, location_deep_copy)
    ∷ (site, site_deep_copy C)
    ∷ []

abbrev pub row : List (Kind × (Value → Mem)) → ℕ → Option (Kind × (Value → Mem))
row [] i = none
row (r ∷ rs) zero = some r
row (r ∷ rs) (suc i) = row rs i
