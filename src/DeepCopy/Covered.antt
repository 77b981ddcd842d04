-- ===== src/DeepCopy/Covered.antt =====
-- Each `DeepCopyInto` against the fields of its type, by the parts of the API.
pub mod Resources
pub mod CoreNetworks
pub mod Attachments
pub mod Routes
pub mod Sites
use ack_networkmanager_contr.DeepCopy.{scalar, pointer, pure, if_not_nil, copy_new}
use ack_networkmanager_contr.DeepCopy.Trees.{
  Copies, pure-Copies, if_not_nil-Copies, copy_new-Copies,
}
use ack_networkmanager_contr.DeepCopy.Shapes.{LibraryKinds}
use ack_networkmanager_contr.DeepCopy.Instances.{LibraryCopies}

-- The types of other repositories are copied deeply.
pub record IsDeep (L : LibraryKinds) (C : LibraryCopies) : Type 0 where
  pub time : Copies (pointer scalar) C.time_deep_copy
  pub object_meta : Copies L.object_meta C.object_meta_deep_copy_into
  pub list_meta : Copies L.list_meta C.list_meta_deep_copy_into
  pub resource_metadata : Copies L.resource_metadata C.resource_metadata_deep_copy_into
  pub condition : Copies L.condition C.condition_deep_copy_into

-- A `*string`.
pub string-Copies : Copies (pointer scalar) (copy_new pure)
string-Copies = copy_new-Copies scalar pure pure-Copies

-- A `*metav1.Time`.
pub time-Copies :
    (L : LibraryKinds) (C : LibraryCopies)
    → IsDeep L C
    → Copies (pointer scalar) (if_not_nil C.time_deep_copy)
time-Copies L C D = if_not_nil-Copies scalar C.time_deep_copy D.time
