-- ===== src/DeepCopy/Covered/CoreNetworks.antt =====
-- The types of core networks.
use ack_networkmanager_contr.Prelude.{refl}
use ack_networkmanager_contr.DeepCopy.Trees.{Copies}
use ack_networkmanager_contr.DeepCopy.Bodies.{finished, assigned, deep_copy_into-Copies}
use ack_networkmanager_contr.DeepCopy.Shapes.{
  LibraryKinds, core_network, core_network_change, core_network_change_event,
  core_network_change_event_values, core_network_change_values, core_network_network_function_group,
  core_network_network_function_group_identifier, core_network_policy, core_network_policy_version,
  core_network_routing_information, core_network_segment, core_network_segment_edge_identifier,
  core_network_summary,
}
use ack_networkmanager_contr.DeepCopy.Instances.{LibraryCopies}
use ack_networkmanager_contr.DeepCopy.Instances.CoreNetworks.{
  core_network_deep_copy_into, core_network_change_deep_copy_into,
  core_network_change_event_deep_copy_into, core_network_change_event_values_deep_copy_into,
  core_network_change_values_deep_copy_into, core_network_network_function_group_deep_copy_into,
  core_network_network_function_group_identifier_deep_copy_into, core_network_policy_deep_copy_into,
  core_network_policy_version_deep_copy_into, core_network_routing_information_deep_copy_into,
  core_network_segment_deep_copy_into, core_network_segment_edge_identifier_deep_copy_into,
  core_network_summary_deep_copy_into,
}
use ack_networkmanager_contr.DeepCopy.Covered.{IsDeep, string-Copies, time-Copies}
use ack_networkmanager_contr.DeepCopy.Covered.Resources.{tags-Copies}

pub core_network_deep_copy_into-Copies :
    (L : LibraryKinds) (C : LibraryCopies)
    → IsDeep L C
    → Copies core_network (core_network_deep_copy_into C)
core_network_deep_copy_into-Copies L C D = deep_copy_into-Copies (
    assigned (time-Copies L C D)
      (assigned string-Copies (assigned string-Copies (assigned tags-Copies finished refl) refl)
        refl)
      refl)

pub core_network_change_deep_copy_into-Copies :
    Copies core_network_change core_network_change_deep_copy_into
core_network_change_deep_copy_into-Copies =
    deep_copy_into-Copies (assigned string-Copies (assigned string-Copies finished refl) refl)

pub core_network_change_event_deep_copy_into-Copies :
    (L : LibraryKinds) (C : LibraryCopies)
    → IsDeep L C
    → Copies core_network_change_event (core_network_change_event_deep_copy_into C)
core_network_change_event_deep_copy_into-Copies L C D =
    deep_copy_into-Copies (assigned (time-Copies L C D) (assigned string-Copies finished refl) refl)

pub core_network_change_event_values_deep_copy_into-Copies :
    Copies core_network_change_event_values core_network_change_event_values_deep_copy_into
core_network_change_event_values_deep_copy_into-Copies = deep_copy_into-Copies (
    assigned string-Copies (assigned string-Copies (assigned string-Copies finished refl) refl)
      refl)

pub core_network_change_values_deep_copy_into-Copies :
    Copies core_network_change_values core_network_change_values_deep_copy_into
core_network_change_values_deep_copy_into-Copies = deep_copy_into-Copies (
    assigned string-Copies
      (assigned string-Copies
        (assigned string-Copies (assigned string-Copies (assigned string-Copies finished refl) refl)
          refl)
        refl)
      refl)

pub core_network_network_function_group_deep_copy_into-Copies :
    Copies core_network_network_function_group core_network_network_function_group_deep_copy_into
core_network_network_function_group_deep_copy_into-Copies =
    deep_copy_into-Copies (assigned string-Copies finished refl)

pub core_network_network_function_group_identifier_deep_copy_into-Copies :
    Copies core_network_network_function_group_identifier
      core_network_network_function_group_identifier_deep_copy_into
core_network_network_function_group_identifier_deep_copy_into-Copies =
    deep_copy_into-Copies (assigned string-Copies finished refl)

pub core_network_policy_deep_copy_into-Copies :
    (L : LibraryKinds) (C : LibraryCopies)
    → IsDeep L C
    → Copies core_network_policy (core_network_policy_deep_copy_into C)
core_network_policy_deep_copy_into-Copies L C D =
    deep_copy_into-Copies (assigned (time-Copies L C D) (assigned string-Copies finished refl) refl)

pub core_network_policy_version_deep_copy_into-Copies :
    (L : LibraryKinds) (C : LibraryCopies)
    → IsDeep L C
    → Copies core_network_policy_version (core_network_policy_version_deep_copy_into C)
core_network_policy_version_deep_copy_into-Copies L C D =
    deep_copy_into-Copies (assigned (time-Copies L C D) (assigned string-Copies finished refl) refl)

pub core_network_routing_information_deep_copy_into-Copies :
    Copies core_network_routing_information core_network_routing_information_deep_copy_into
core_network_routing_information_deep_copy_into-Copies = deep_copy_into-Copies (
    assigned string-Copies (assigned string-Copies (assigned string-Copies finished refl) refl)
      refl)

pub core_network_segment_deep_copy_into-Copies :
    Copies core_network_segment core_network_segment_deep_copy_into
core_network_segment_deep_copy_into-Copies =
    deep_copy_into-Copies (assigned string-Copies finished refl)

pub core_network_segment_edge_identifier_deep_copy_into-Copies :
    Copies core_network_segment_edge_identifier core_network_segment_edge_identifier_deep_copy_into
core_network_segment_edge_identifier_deep_copy_into-Copies =
    deep_copy_into-Copies (assigned string-Copies finished refl)

pub core_network_summary_deep_copy_into-Copies :
    Copies core_network_summary core_network_summary_deep_copy_into
core_network_summary_deep_copy_into-Copies =
    deep_copy_into-Copies (
      assigned string-Copies (assigned string-Copies (assigned tags-Copies finished refl) refl)
        refl)
