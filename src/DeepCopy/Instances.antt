-- ===== src/DeepCopy/Instances.antt =====
-- The functions of zz_generated.deepcopy.go: `DeepCopyInto` of each struct type by its statements,
-- and `DeepCopy`. The files below have them by the parts of the API.
pub mod Resources
pub mod CoreNetworks
pub mod Attachments
pub mod Routes
pub mod Sites
use ack_networkmanager_contr.DeepCopy.{Value, Mem}

-- The copies of the types of other repositories: `DeepCopy` of metav1.Time, and `DeepCopyInto` of
-- the others.
pub record LibraryCopies : Type 0 where
  pub time_deep_copy : Value → Mem
  pub object_meta_deep_copy_into : Value → Mem
  pub list_meta_deep_copy_into : Value → Mem
  pub resource_metadata_deep_copy_into : Value → Mem
  pub condition_deep_copy_into : Value → Mem
