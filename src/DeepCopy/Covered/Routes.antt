-- ===== src/DeepCopy/Covered/Routes.antt =====
-- The types of routes and of the resources of a network.
use ack_networkmanager_contr.Prelude.{refl}
use ack_networkmanager_contr.DeepCopy.Trees.{Copies}
use ack_networkmanager_contr.DeepCopy.Bodies.{finished, assigned, deep_copy_into-Copies}
use ack_networkmanager_contr.DeepCopy.Shapes.{
  LibraryKinds, network_resource, network_resource_count, network_resource_summary, network_route,
  network_route_destination, network_telemetry, path_component, prefix_list_association,
  route_analysis, routing_information_next_hop,
}
use ack_networkmanager_contr.DeepCopy.Instances.{LibraryCopies}
use ack_networkmanager_contr.DeepCopy.Instances.Routes.{
  network_resource_deep_copy_into, network_resource_count_deep_copy_into,
  network_resource_summary_deep_copy_into, network_route_deep_copy_into,
  network_route_destination_deep_copy_into, network_telemetry_deep_copy_into,
  path_component_deep_copy_into, prefix_list_association_deep_copy_into,
  route_analysis_deep_copy_into, routing_information_next_hop_deep_copy_into,
}
use ack_networkmanager_contr.DeepCopy.Covered.{IsDeep, string-Copies, time-Copies}
use ack_networkmanager_contr.DeepCopy.Covered.Resources.{tags-Copies}

pub network_resource_deep_copy_into-Copies :
    (L : LibraryKinds) (C : LibraryCopies)
    → IsDeep L C
    → Copies network_resource (network_resource_deep_copy_into C)
network_resource_deep_copy_into-Copies L C D = deep_copy_into-Copies (
    assigned string-Copies
      (assigned (time-Copies L C D)
        (assigned string-Copies (assigned string-Copies (assigned tags-Copies finished refl) refl)
          refl)
        refl)
      refl)

pub network_resource_count_deep_copy_into-Copies :
    Copies network_resource_count network_resource_count_deep_copy_into
network_resource_count_deep_copy_into-Copies =
    deep_copy_into-Copies (assigned string-Copies finished refl)

pub network_resource_summary_deep_copy_into-Copies :
    Copies network_resource_summary network_resource_summary_deep_copy_into
network_resource_summary_deep_copy_into-Copies = deep_copy_into-Copies (
    assigned string-Copies (assigned string-Copies (assigned string-Copies finished refl) refl)
      refl)

pub network_route_deep_copy_into-Copies : Copies network_route network_route_deep_copy_into
network_route_deep_copy_into-Copies =
    deep_copy_into-Copies (assigned string-Copies (assigned string-Copies finished refl) refl)

pub network_route_destination_deep_copy_into-Copies :
    Copies network_route_destination network_route_destination_deep_copy_into
network_route_destination_deep_copy_into-Copies = deep_copy_into-Copies (
    assigned string-Copies
      (assigned string-Copies (assigned string-Copies (assigned string-Copies finished refl) refl)
        refl)
      refl)

pub network_telemetry_deep_copy_into-Copies :
    Copies network_telemetry network_telemetry_deep_copy_into
network_telemetry_deep_copy_into-Copies = deep_copy_into-Copies (
    assigned string-Copies (assigned string-Copies (assigned string-Copies finished refl) refl)
      refl)

pub path_component_deep_copy_into-Copies : Copies path_component path_component_deep_copy_into
path_component_deep_copy_into-Copies = deep_copy_into-Copies (assigned string-Copies finished refl)

pub prefix_list_association_deep_copy_into-Copies :
    Copies prefix_list_association prefix_list_association_deep_copy_into
prefix_list_association_deep_copy_into-Copies =
    deep_copy_into-Copies (assigned string-Copies finished refl)

pub route_analysis_deep_copy_into-Copies :
    (L : LibraryKinds) (C : LibraryCopies)
    → IsDeep L C
    → Copies route_analysis (route_analysis_deep_copy_into C)
route_analysis_deep_copy_into-Copies L C D = deep_copy_into-Copies (
    assigned string-Copies
      (assigned string-Copies (assigned (time-Copies L C D) finished refl) refl) refl)

pub routing_information_next_hop_deep_copy_into-Copies :
    Copies routing_information_next_hop routing_information_next_hop_deep_copy_into
routing_information_next_hop_deep_copy_into-Copies = deep_copy_into-Copies (
    assigned string-Copies
      (assigned string-Copies (assigned string-Copies (assigned string-Copies finished refl) refl)
        refl)
      refl)
