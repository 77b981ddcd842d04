-- ===== src/DeepCopy/Instances/Resources.antt =====
-- The types of GlobalNetwork and of Tag.
use ack_networkmanager_contr.Prelude.{[], ◌∷◌}
use ack_networkmanager_contr.DeepCopy.{
  Value, Mem, pure, if_not_nil, copy_new, copy_slice, deep_copy_into, deep_copy_object,
}
use ack_networkmanager_contr.DeepCopy.Instances.{LibraryCopies}

abbrev pub tag_deep_copy_into : Value → Mem
tag_deep_copy_into = deep_copy_into (("Key", copy_new pure) ∷ ("Value", copy_new pure) ∷ [])

abbrev pub tag_deep_copy : Value → Mem
tag_deep_copy = copy_new tag_deep_copy_into

abbrev pub global_network_spec_deep_copy_into : Value → Mem
global_network_spec_deep_copy_into =
    deep_copy_into
      (("Description", copy_new pure) ∷ ("Tags", copy_slice (copy_new tag_deep_copy_into)) ∷ [])

abbrev pub global_network_spec_deep_copy : Value → Mem
global_network_spec_deep_copy = copy_new global_network_spec_deep_copy_into

abbrev pub global_network_status_deep_copy_into : LibraryCopies → Value → Mem
global_network_status_deep_copy_into C = deep_copy_into (
    ("ACKResourceMetadata", copy_new C.resource_metadata_deep_copy_into)
    ∷ ("Conditions", copy_slice (copy_new C.condition_deep_copy_into))
    ∷ ("CreatedAt", if_not_nil C.time_deep_copy)
    ∷ ("GlobalNetworkID", copy_new pure)
    ∷ ("State", copy_new pure)
    ∷ [])

abbrev pub global_network_status_deep_copy : LibraryCopies → Value → Mem
global_network_status_deep_copy C = copy_new (global_network_status_deep_copy_into C)

abbrev pub global_network_deep_copy_into : LibraryCopies → Value → Mem
global_network_deep_copy_into C = deep_copy_into (
    ("TypeMeta", pure)
    ∷ ("ObjectMeta", C.object_meta_deep_copy_into)
    ∷ ("Spec", global_network_spec_deep_copy_into)
    ∷ ("Status", global_network_status_deep_copy_into C)
    ∷ [])

abbrev pub global_network_deep_copy : LibraryCopies → Value → Mem
global_network_deep_copy C = copy_new (global_network_deep_copy_into C)

abbrev pub global_network_deep_copy_object : LibraryCopies → Value → Mem
global_network_deep_copy_object C = deep_copy_object (global_network_deep_copy C)

abbrev pub global_network_list_deep_copy_into : LibraryCopies → Value → Mem
global_network_list_deep_copy_into C = deep_copy_into (
    ("TypeMeta", pure)
    ∷ ("ListMeta", C.list_meta_deep_copy_into)
    ∷ ("Items", copy_slice (global_network_deep_copy_into C))
    ∷ [])

abbrev pub global_network_list_deep_copy : LibraryCopies → Value → Mem
global_network_list_deep_copy C = copy_new (global_network_list_deep_copy_into C)

abbrev pub global_network_list_deep_copy_object : LibraryCopies → Value → Mem
global_network_list_deep_copy_object C = deep_copy_object (global_network_list_deep_copy C)
