-- ===== src/Types.antt =====
-- The custom resource: apis/v1alpha1/global_network.go, `Tag` of apis/v1alpha1/types.go, and
-- `resource` of pkg/resource/global_network/resource.go.
-- A pointer that is only copied and read is its value, or `none` for nil. A time is an instant.
-- Of the ACK runtime's and Kubernetes' structs the fields stand here that this program uses.
use ack_networkmanager_contr.Prelude.{ℕ, String, Bool, true, false, Option, none, Slice, ◌==◌}
use ack_networkmanager_contr.Maps.{GoMap}

pub record Tag : Type 0 where
  pub key : Option String
  pub value : Option String

pub record GlobalNetworkSpec : Type 0 where
  pub description : Option String
  pub tags : Slice Tag

-- `ackv1alpha1.ResourceMetadata`
pub record ResourceMetadata : Type 0 where
  pub arn : Option String
  pub owner_account_id : Option String
  pub region : Option String
  pub partition : Option String

-- The condition types that the program names are different strings; `other` is any further one.
pub data ConditionType : Type 0 where
  terminal recoverable resource_synced late_initialized : ConditionType
  other : String → ConditionType

-- `corev1.ConditionStatus`; `unset` is the zero value of a new condition.
pub data ConditionStatus : Type 0 where
  status_true status_false unknown unset : ConditionStatus

pub record Condition : Type 0 where
  pub type : ConditionType
  pub status : ConditionStatus
  pub message : Option String

pub record GlobalNetworkStatus : Type 0 where
  pub ack_resource_metadata : Option ResourceMetadata
  pub conditions : Slice Condition
  pub created_at : Option ℕ
  pub global_network_id : Option String
  pub state : Option String

-- `metav1.ObjectMeta`
pub record ObjectMeta : Type 0 where
  pub name : String
  pub namespace : String
  pub deletion_timestamp : Option ℕ
  pub finalizers : Slice String
  pub annotations : Option (GoMap String)

pub record GlobalNetwork : Type 0 where
  pub object_meta : ObjectMeta
  pub spec : GlobalNetworkSpec
  pub status : GlobalNetworkStatus

-- `resource`, the wrapper around the pointer `ko`.
pub record Resource : Type 0 where
  pub ko : Option GlobalNetwork

-- `condition.Type == t`
abbrev pub is_type : ConditionType → ConditionType → Bool
is_type terminal terminal = true
is_type recoverable recoverable = true
is_type resource_synced resource_synced = true
is_type late_initialized late_initialized = true
is_type (other s) (other t) = s == t
is_type _ _ = false

abbrev pub is_true : ConditionStatus → Bool
is_true status_true = true
is_true _ = false

-- Literals of the structs that the program creates.
abbrev pub empty_metadata : ResourceMetadata
empty_metadata = record { arn = none; owner_account_id = none; region = none; partition = none }

-- `resourceManager`: the configuration that its operations read. The clients are parameters.
pub record ResourceManager : Type 0 where
  pub aws_account_id : String
  pub aws_region : String
  pub aws_partition : String
