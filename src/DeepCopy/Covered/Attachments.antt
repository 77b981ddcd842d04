-- ===== src/DeepCopy/Covered/Attachments.antt =====
-- The types of attachments, peers and gateways.
use ack_networkmanager_contr.Prelude.{refl}
use ack_networkmanager_contr.DeepCopy.Trees.{Copies}
use ack_networkmanager_contr.DeepCopy.Bodies.{finished, assigned, deep_copy_into-Copies}
use ack_networkmanager_contr.DeepCopy.Shapes.{
  LibraryKinds, attachment, attachment_routing_policy_association_summary, connect_peer,
  connect_peer_association, connect_peer_summary, customer_gateway_association, edge_override,
  network_function_group, peering, proposed_network_function_group_change, proposed_segment_change,
  relationship, transit_gateway_connect_peer_association, transit_gateway_registration,
  transit_gateway_registration_state_reason,
}
use ack_networkmanager_contr.DeepCopy.Instances.{LibraryCopies}
use ack_networkmanager_contr.DeepCopy.Instances.Attachments.{
  attachment_deep_copy_into, attachment_routing_policy_association_summary_deep_copy_into,
  connect_peer_deep_copy_into, connect_peer_association_deep_copy_into,
  connect_peer_summary_deep_copy_into, customer_gateway_association_deep_copy_into,
  edge_override_deep_copy_into, network_function_group_deep_copy_into, peering_deep_copy_into,
  proposed_network_function_group_change_deep_copy_into, proposed_segment_change_deep_copy_into,
  relationship_deep_copy_into, transit_gateway_connect_peer_association_deep_copy_into,
  transit_gateway_registration_deep_copy_into,
  transit_gateway_registration_state_reason_deep_copy_into,
}
use ack_networkmanager_contr.DeepCopy.Covered.{IsDeep, string-Copies, time-Copies}
use ack_networkmanager_contr.DeepCopy.Covered.Resources.{tags-Copies}

pub attachment_deep_copy_into-Copies :
    (L : LibraryKinds) (C : LibraryCopies)
    → IsDeep L C
    → Copies attachment (attachment_deep_copy_into C)
attachment_deep_copy_into-Copies L C D = deep_copy_into-Copies (
    assigned (time-Copies L C D)
      (assigned string-Copies
        (assigned tags-Copies (assigned (time-Copies L C D) finished refl) refl) refl)
      refl)

pub attachment_routing_policy_association_summary_deep_copy_into-Copies :
    Copies attachment_routing_policy_association_summary
      attachment_routing_policy_association_summary_deep_copy_into
attachment_routing_policy_association_summary_deep_copy_into-Copies =
    deep_copy_into-Copies (assigned string-Copies finished refl)

pub connect_peer_deep_copy_into-Copies :
    (L : LibraryKinds) (C : LibraryCopies)
    → IsDeep L C
    → Copies connect_peer (connect_peer_deep_copy_into C)
connect_peer_deep_copy_into-Copies L C D =
    deep_copy_into-Copies (assigned (time-Copies L C D) (assigned tags-Copies finished refl) refl)

pub connect_peer_association_deep_copy_into-Copies :
    Copies connect_peer_association connect_peer_association_deep_copy_into
connect_peer_association_deep_copy_into-Copies =
    deep_copy_into-Copies (assigned string-Copies finished refl)

pub connect_peer_summary_deep_copy_into-Copies :
    (L : LibraryKinds) (C : LibraryCopies)
    → IsDeep L C
    → Copies connect_peer_summary (connect_peer_summary_deep_copy_into C)
connect_peer_summary_deep_copy_into-Copies L C D =
    deep_copy_into-Copies (assigned (time-Copies L C D) (assigned tags-Copies finished refl) refl)

pub customer_gateway_association_deep_copy_into-Copies :
    Copies customer_gateway_association customer_gateway_association_deep_copy_into
customer_gateway_association_deep_copy_into-Copies =
    deep_copy_into-Copies (assigned string-Copies finished refl)

pub edge_override_deep_copy_into-Copies : Copies edge_override edge_override_deep_copy_into
edge_override_deep_copy_into-Copies = deep_copy_into-Copies (assigned string-Copies finished refl)

pub network_function_group_deep_copy_into-Copies :
    Copies network_function_group network_function_group_deep_copy_into
network_function_group_deep_copy_into-Copies =
    deep_copy_into-Copies (assigned string-Copies finished refl)

pub peering_deep_copy_into-Copies :
    (L : LibraryKinds) (C : LibraryCopies) → IsDeep L C → Copies peering (peering_deep_copy_into C)
peering_deep_copy_into-Copies L C D =
    deep_copy_into-Copies (assigned (time-Copies L C D) (assigned tags-Copies finished refl) refl)

pub proposed_network_function_group_change_deep_copy_into-Copies :
    Copies proposed_network_function_group_change
      proposed_network_function_group_change_deep_copy_into
proposed_network_function_group_change_deep_copy_into-Copies =
    deep_copy_into-Copies (assigned string-Copies (assigned tags-Copies finished refl) refl)

pub proposed_segment_change_deep_copy_into-Copies :
    Copies proposed_segment_change proposed_segment_change_deep_copy_into
proposed_segment_change_deep_copy_into-Copies =
    deep_copy_into-Copies (assigned string-Copies (assigned tags-Copies finished refl) refl)

pub relationship_deep_copy_into-Copies : Copies relationship relationship_deep_copy_into
relationship_deep_copy_into-Copies =
    deep_copy_into-Copies (assigned string-Copies (assigned string-Copies finished refl) refl)

pub transit_gateway_connect_peer_association_deep_copy_into-Copies :
    Copies transit_gateway_connect_peer_association
      transit_gateway_connect_peer_association_deep_copy_into
transit_gateway_connect_peer_association_deep_copy_into-Copies =
    deep_copy_into-Copies (assigned string-Copies finished refl)

pub transit_gateway_registration_deep_copy_into-Copies :
    Copies transit_gateway_registration transit_gateway_registration_deep_copy_into
transit_gateway_registration_deep_copy_into-Copies =
    deep_copy_into-Copies (assigned string-Copies finished refl)

pub transit_gateway_registration_state_reason_deep_copy_into-Copies :
    Copies transit_gateway_registration_state_reason
      transit_gateway_registration_state_reason_deep_copy_into
transit_gateway_registration_state_reason_deep_copy_into-Copies =
    deep_copy_into-Copies (assigned string-Copies finished refl)
