-- ===== src/DeepCopy/Instances/Sites.antt =====
-- The types of networks, sites, devices and links.
use ack_networkmanager_contr.Prelude.{[], ◌∷◌}
use ack_networkmanager_contr.DeepCopy.{
  Value, Mem, pure, if_not_nil, copy_new, copy_slice, deep_copy_into,
}
use ack_networkmanager_contr.DeepCopy.Instances.{LibraryCopies}
use ack_networkmanager_contr.DeepCopy.Instances.Resources.{tag_deep_copy_into}

abbrev pub aws_location_deep_copy_into : Value → Mem
aws_location_deep_copy_into = deep_copy_into (("Zone", copy_new pure) ∷ [])

abbrev pub aws_location_deep_copy : Value → Mem
aws_location_deep_copy = copy_new aws_location_deep_copy_into

abbrev pub connection_deep_copy_into : LibraryCopies → Value → Mem
connection_deep_copy_into C = deep_copy_into (
    ("CreatedAt", if_not_nil C.time_deep_copy)
    ∷ ("Description", copy_new pure)
    ∷ ("GlobalNetworkID", copy_new pure)
    ∷ ("Tags", copy_slice (copy_new tag_deep_copy_into))
    ∷ [])

abbrev pub connection_deep_copy : LibraryCopies → Value → Mem
connection_deep_copy C = copy_new (connection_deep_copy_into C)

abbrev pub connection_health_deep_copy_into : LibraryCopies → Value → Mem
connection_health_deep_copy_into C =
    deep_copy_into (("Timestamp", if_not_nil C.time_deep_copy) ∷ [])

abbrev pub connection_health_deep_copy : LibraryCopies → Value → Mem
connection_health_deep_copy C = copy_new (connection_health_deep_copy_into C)

abbrev pub device_deep_copy_into : LibraryCopies → Value → Mem
device_deep_copy_into C = deep_copy_into (
    ("CreatedAt", if_not_nil C.time_deep_copy)
    ∷ ("Description", copy_new pure)
    ∷ ("GlobalNetworkID", copy_new pure)
    ∷ ("Model", copy_new pure)
    ∷ ("SerialNumber", copy_new pure)
    ∷ ("Tags", copy_slice (copy_new tag_deep_copy_into))
    ∷ ("Type", copy_new pure)
    ∷ ("Vendor", copy_new pure)
    ∷ [])

abbrev pub device_deep_copy : LibraryCopies → Value → Mem
device_deep_copy C = copy_new (device_deep_copy_into C)

abbrev pub global_network_sdk_deep_copy_into : LibraryCopies → Value → Mem
global_network_sdk_deep_copy_into C = deep_copy_into (
    ("CreatedAt", if_not_nil C.time_deep_copy)
    ∷ ("Description", copy_new pure)
    ∷ ("GlobalNetworkARN", copy_new pure)
    ∷ ("GlobalNetworkID", copy_new pure)
    ∷ ("State", copy_new pure)
    ∷ ("Tags", copy_slice (copy_new tag_deep_copy_into))
    ∷ [])

abbrev pub global_network_sdk_deep_copy : LibraryCopies → Value → Mem
global_network_sdk_deep_copy C = copy_new (global_network_sdk_deep_copy_into C)

abbrev pub link_deep_copy_into : LibraryCopies → Value → Mem
link_deep_copy_into C = deep_copy_into (
    ("CreatedAt", if_not_nil C.time_deep_copy)
    ∷ ("Description", copy_new pure)
    ∷ ("GlobalNetworkID", copy_new pure)
    ∷ ("Provider", copy_new pure)
    ∷ ("Tags", copy_slice (copy_new tag_deep_copy_into))
    ∷ ("Type", copy_new pure)
    ∷ [])

abbrev pub link_deep_copy : LibraryCopies → Value → Mem
link_deep_copy C = copy_new (link_deep_copy_into C)

abbrev pub link_association_deep_copy_into : Value → Mem
link_association_deep_copy_into = deep_copy_into (("GlobalNetworkID", copy_new pure) ∷ [])

abbrev pub link_association_deep_copy : Value → Mem
link_association_deep_copy = copy_new link_association_deep_copy_into

abbrev pub location_deep_copy_into : Value → Mem
location_deep_copy_into =
    deep_copy_into
      (("Address", copy_new pure) ∷ ("Latitude", copy_new pure) ∷ ("Longitude", copy_new pure) ∷ [])

abbrev pub location_deep_copy : Value → Mem
location_deep_copy = copy_new location_deep_copy_into

abbrev pub site_deep_copy_into : LibraryCopies → Value → Mem
site_deep_copy_into C = deep_copy_into (
    ("CreatedAt", if_not_nil C.time_deep_copy)
    ∷ ("Description", copy_new pure)
    ∷ ("GlobalNetworkID", copy_new pure)
    ∷ ("Tags", copy_slice (copy_new tag_deep_copy_into))
    ∷ [])

abbrev pub site_deep_copy : LibraryCopies → Value → Mem
site_deep_copy C = copy_new (site_deep_copy_into C)
