-- ===== src/Resource.antt =====
-- pkg/resource/global_network/resource.go and identifiers.go. A method that changes its receiver
-- returns it; each follows the pointer `ko`, and panics where it is nil.
pub mod Laws
pub mod Kept
use ack_networkmanager_contr.Prelude.{
  ℕ, String, Bool, not, Option, none, some, List, Slice, Outcome, done, deref, ◌==◌, if◌then◌else◌,
  ◌>>=◌,
}
use ack_networkmanager_contr.Maps.{GoMap, get}
use ack_networkmanager_contr.Types.{
  Condition, ResourceMetadata, GlobalNetwork, GlobalNetworkStatus, ObjectMeta, Resource,
}
use ack_networkmanager_contr.External.{Errors}

-- `resourceIdentifiers`
pub record ResourceIdentifiers : Type 0 where
  pub meta : Option ResourceMetadata

unfoldable pub identifiers : Resource → Outcome ResourceIdentifiers
identifiers r = do ko ← deref r.ko; done (record { meta = ko.status.ack_resource_metadata })

-- The four methods: a field of the metadata, nil if there is none.
abbrev field : (ResourceMetadata → Option String) → ResourceIdentifiers → Option String
field f ri = elim ri.meta [ none ↦ none | some m ↦ f m ]

unfoldable pub arn : ResourceIdentifiers → Option String
arn = field (λ m. m.arn)

unfoldable pub owner_account_id : ResourceIdentifiers → Option String
owner_account_id = field (λ m. m.owner_account_id)

unfoldable pub region : ResourceIdentifiers → Option String
region = field (λ m. m.region)

unfoldable pub partition : ResourceIdentifiers → Option String
partition = field (λ m. m.partition)

-- `is_zero` is `metav1.Time.IsZero`, which takes a nil pointer too.
unfoldable pub is_being_deleted : (Option ℕ → Bool) → Resource → Outcome Bool
is_being_deleted is_zero r = do
  ko ← deref r.ko
  done (not (is_zero ko.object_meta.deletion_timestamp))

-- The pointer in an interface, which is never nil itself.
abbrev pub runtime_object : Resource → Option GlobalNetwork
runtime_object r = r.ko

unfoldable pub meta_object : Resource → Outcome ObjectMeta
meta_object r = do ko ← deref r.ko; done ko.object_meta

unfoldable pub conditions : Resource → Outcome (Slice Condition)
conditions r = do ko ← deref r.ko; done ko.status.conditions

-- A change of what `ko` points to.
abbrev with_ko : (GlobalNetwork → GlobalNetwork) → Resource → Outcome Resource
with_ko f r = do ko ← deref r.ko; done (record { ko = some (f ko) })

abbrev with_id : String → GlobalNetwork → GlobalNetwork
with_id id ko = record ko { status = record ko.status { global_network_id = some id } }

unfoldable pub replace_conditions : Slice Condition → Resource → Outcome Resource
replace_conditions cs = with_ko (λ ko. record ko { status = record ko.status { conditions = cs } })

unfoldable pub set_object_meta : ObjectMeta → Resource → Outcome Resource
set_object_meta meta = with_ko (λ ko. record ko { object_meta = meta })

unfoldable pub set_status : Resource → Resource → Outcome Resource
set_status desired r = do
  other ← deref desired.ko
  with_ko (λ ko. record ko { status = other.status }) r

module _ (E : Errors) where
  -- `name_or_id` is `identifier.NameOrID`; the results are the error and the receiver.
  unfoldable pub set_identifiers : String → Resource → Outcome (Option E.Err × Resource)
  set_identifiers name_or_id r =
      if name_or_id == ""
      then done (some E.missing_name_identifier, r)
      else do r' ← with_ko (with_id name_or_id) r; done (none, r')

  unfoldable pub populate_resource_from_annotation :
      GoMap String → Resource → Outcome (Option E.Err × Resource)
  populate_resource_from_annotation fields r = elim (get "globalNetworkID" fields) [
    | none ↦
        done (some (E.new_terminal_error (E.errorf "required field missing: globalNetworkID")), r)
    | some f0 ↦ do r' ← with_ko (with_id f0) r; done (none, r')
  ]

-- `DeepCopy` copies a nil pointer to nil.
unfoldable pub deep_copy : Resource → Resource
deep_copy r = record { ko = r.ko }
