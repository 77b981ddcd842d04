-- ===== src/DeepCopy/Covered/Resources.antt =====
-- The types of GlobalNetwork and of Tag.
use ack_networkmanager_contr.Prelude.{refl}
use ack_networkmanager_contr.DeepCopy.{pointer, slice, copy_new, copy_slice}
use ack_networkmanager_contr.DeepCopy.Trees.{
  Copies, pure-Copies, copy_new-Copies, copy_slice-Copies,
}
use ack_networkmanager_contr.DeepCopy.Bodies.{finished, assigned, deep_copy_into-Copies}
use ack_networkmanager_contr.DeepCopy.Shapes.{
  LibraryKinds, tag, global_network_spec, global_network_status, global_network,
  global_network_list,
}
use ack_networkmanager_contr.DeepCopy.Instances.{LibraryCopies}
use ack_networkmanager_contr.DeepCopy.Instances.Resources.{
  tag_deep_copy_into, global_network_spec_deep_copy_into, global_network_status_deep_copy_into,
  global_network_deep_copy_into, global_network_list_deep_copy_into,
}
use ack_networkmanager_contr.DeepCopy.Covered.{IsDeep, string-Copies, time-Copies}

pub tag_deep_copy_into-Copies : Copies tag tag_deep_copy_into
tag_deep_copy_into-Copies =
    deep_copy_into-Copies (assigned string-Copies (assigned string-Copies finished refl) refl)

-- A `[]*Tag`.
pub tags-Copies : Copies (slice (pointer tag)) (copy_slice (copy_new tag_deep_copy_into))
tags-Copies =
    copy_slice-Copies (pointer tag) (copy_new tag_deep_copy_into)
      (copy_new-Copies tag tag_deep_copy_into tag_deep_copy_into-Copies)

pub global_network_spec_deep_copy_into-Copies :
    Copies global_network_spec global_network_spec_deep_copy_into
global_network_spec_deep_copy_into-Copies =
    deep_copy_into-Copies (assigned string-Copies (assigned tags-Copies finished refl) refl)

pub global_network_status_deep_copy_into-Copies :
    (L : LibraryKinds) (C : LibraryCopies)
    → IsDeep L C
    → Copies (global_network_status L) (global_network_status_deep_copy_into C)
global_network_status_deep_copy_into-Copies L C D = deep_copy_into-Copies (
    assigned
      (copy_new-Copies L.resource_metadata C.resource_metadata_deep_copy_into D.resource_metadata)
      (assigned
        (copy_slice-Copies (pointer L.condition) (copy_new C.condition_deep_copy_into)
          (copy_new-Copies L.condition C.condition_deep_copy_into D.condition))
        (assigned (time-Copies L C D)
          (assigned string-Copies (assigned string-Copies finished refl) refl) refl)
        refl)
      refl)

pub global_network_deep_copy_into-Copies :
    (L : LibraryKinds) (C : LibraryCopies)
    → IsDeep L C
    → Copies (global_network L) (global_network_deep_copy_into C)
global_network_deep_copy_into-Copies L C D = deep_copy_into-Copies (
    assigned pure-Copies
      (assigned D.object_meta
        (assigned global_network_spec_deep_copy_into-Copies
          (assigned (global_network_status_deep_copy_into-Copies L C D) finished refl) refl)
        refl)
      refl)

pub global_network_list_deep_copy_into-Copies :
    (L : LibraryKinds) (C : LibraryCopies)
    → IsDeep L C
    → Copies (global_network_list L) (global_network_list_deep_copy_into C)
global_network_list_deep_copy_into-Copies L C D = deep_copy_into-Copies (
    assigned pure-Copies
      (assigned D.list_meta
        (assigned
          (copy_slice-Copies (global_network L) (global_network_deep_copy_into C)
            (global_network_deep_copy_into-Copies L C D))
          finished refl)
        refl)
      refl)
