-- ===== src/DeepCopy/Covered/Sites.antt =====
-- The types of networks, sites, devices and links.
use ack_networkmanager_contr.Prelude.{refl}
use ack_networkmanager_contr.DeepCopy.Trees.{Copies}
use ack_networkmanager_contr.DeepCopy.Bodies.{finished, assigned, deep_copy_into-Copies}
use ack_networkmanager_contr.DeepCopy.Shapes.{
  LibraryKinds, aws_location, connection, connection_health, device, global_network_sdk, link,
  link_association, location, site,
}
use ack_networkmanager_contr.DeepCopy.Instances.{LibraryCopies}
use ack_networkmanager_contr.DeepCopy.Instances.Sites.{
  aws_location_deep_copy_into, connection_deep_copy_into, connection_health_deep_copy_into,
  device_deep_copy_into, global_network_sdk_deep_copy_into, link_deep_copy_into,
  link_association_deep_copy_into, location_deep_copy_into, site_deep_copy_into,
}
use ack_networkmanager_contr.DeepCopy.Covered.{IsDeep, string-Copies, time-Copies}
use ack_networkmanager_contr.DeepCopy.Covered.Resources.{tags-Copies}

pub aws_location_deep_copy_into-Copies : Copies aws_location aws_location_deep_copy_into
aws_location_deep_copy_into-Copies = deep_copy_into-Copies (assigned string-Copies finished refl)

pub connection_deep_copy_into-Copies :
    (L : LibraryKinds) (C : LibraryCopies)
    → IsDeep L C
    → Copies connection (connection_deep_copy_into C)
connection_deep_copy_into-Copies L C D = deep_copy_into-Copies (
    assigned (time-Copies L C D)
      (assigned string-Copies (assigned string-Copies (assigned tags-Copies finished refl) refl)
        refl)
      refl)

pub connection_health_deep_copy_into-Copies :
    (L : LibraryKinds) (C : LibraryCopies)
    → IsDeep L C
    → Copies connection_health (connection_health_deep_copy_into C)
connection_health_deep_copy_into-Copies L C D =
    deep_copy_into-Copies (assigned (time-Copies L C D) finished refl)

pub device_deep_copy_into-Copies :
    (L : LibraryKinds) (C : LibraryCopies) → IsDeep L C → Copies device (device_deep_copy_into C)
device_deep_copy_into-Copies L C D = deep_copy_into-Copies (
    assigned (time-Copies L C D)
      (assigned string-Copies
        (assigned string-Copies
          (assigned string-Copies
            (assigned string-Copies
              (assigned tags-Copies
                (assigned string-Copies (assigned string-Copies finished refl) refl) refl)
              refl)
            refl)
          refl)
        refl)
      refl)

pub global_network_sdk_deep_copy_into-Copies :
    (L : LibraryKinds) (C : LibraryCopies)
    → IsDeep L C
    → Copies global_network_sdk (global_network_sdk_deep_copy_into C)
global_network_sdk_deep_copy_into-Copies L C D = deep_copy_into-Copies (
    assigned (time-Copies L C D)
      (assigned string-Copies
        (assigned string-Copies
          (assigned string-Copies (assigned string-Copies (assigned tags-Copies finished refl) refl)
            refl)
          refl)
        refl)
      refl)

pub link_deep_copy_into-Copies :
    (L : LibraryKinds) (C : LibraryCopies) → IsDeep L C → Copies link (link_deep_copy_into C)
link_deep_copy_into-Copies L C D = deep_copy_into-Copies (
    assigned (time-Copies L C D)
      (assigned string-Copies
        (assigned string-Copies
          (assigned string-Copies (assigned tags-Copies (assigned string-Copies finished refl) refl)
            refl)
          refl)
        refl)
      refl)

pub link_association_deep_copy_into-Copies : Copies link_association link_association_deep_copy_into
link_association_deep_copy_into-Copies =
    deep_copy_into-Copies (assigned string-Copies finished refl)

pub location_deep_copy_into-Copies : Copies location location_deep_copy_into
location_deep_copy_into-Copies = deep_copy_into-Copies (
    assigned string-Copies (assigned string-Copies (assigned string-Copies finished refl) refl)
      refl)

pub site_deep_copy_into-Copies :
    (L : LibraryKinds) (C : LibraryCopies) → IsDeep L C → Copies site (site_deep_copy_into C)
site_deep_copy_into-Copies L C D = deep_copy_into-Copies (
    assigned (time-Copies L C D)
      (assigned string-Copies (assigned string-Copies (assigned tags-Copies finished refl) refl)
        refl)
      refl)
