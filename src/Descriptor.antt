-- ===== src/Descriptor.antt =====
-- pkg/resource/global_network/descriptor.go. `RuntimeObject` returns the pointer `ko` in an
-- interface, which is not nil even if `ko` is, so the guards of the source pass; the methods of the
-- object then follow the pointer.
pub mod Laws
use ack_networkmanager_contr.Prelude.{
  String, Bool, true, false, Option, none, some, List, [], ◌∷◌, Slice, elements, Outcome, done,
  deref, ◌==◌, if◌then◌else◌, ◌>>=◌,
}
use ack_networkmanager_contr.Maps.{GoMap, set}
use ack_networkmanager_contr.Types.{GlobalNetwork, ObjectMeta, Resource}
use ack_networkmanager_contr.External.{Compare, Finalizers}
use ack_networkmanager_contr.Delta.{new_resource_delta}

abbrev pub finalizer_string : String
finalizer_string = "finalizers.networkmanager.services.k8s.aws/GlobalNetwork"

-- `containsFinalizer`, over `obj.GetFinalizers()`
pub contains_finalizer : List String → String → Bool
contains_finalizer [] finalizer = false
contains_finalizer (e ∷ f) finalizer =
    let rest = contains_finalizer f finalizer in if e == finalizer then true else rest

unfoldable pub is_managed : Resource → Outcome Bool
unfolding contains_finalizer
is_managed res = do
  obj ← deref res.ko
  done (contains_finalizer (elements obj.object_meta.finalizers) finalizer_string)

abbrev pub set_meta : (ObjectMeta → ObjectMeta) → GlobalNetwork → GlobalNetwork
set_meta f ko = record ko { object_meta = f ko.object_meta }

module _ (F : Finalizers) where
  unfoldable pub mark_managed : Resource → Outcome Resource
  mark_managed res = do
    obj ← deref res.ko
    done (record {
      ko = some (
          set_meta (λ m. record m { finalizers = F.add_finalizer m.finalizers finalizer_string })
            obj);
    })

  unfoldable pub mark_unmanaged : Resource → Outcome Resource
  mark_unmanaged res = do
    obj ← deref res.ko
    done (record {
      ko = some (
          set_meta (λ m. record m { finalizers = F.remove_finalizer m.finalizers finalizer_string })
            obj);
    })

-- `annotation_adopted` is `ackv1alpha1.AnnotationAdopted`.
unfoldable pub mark_adopted : String → Resource → Outcome Resource
unfolding set
mark_adopted annotation_adopted res = do
  obj ← deref res.ko
  let curr = elements obj.object_meta.annotations
  done (record {
    ko =
        some (
          set_meta (λ m. record m { annotations = some (set annotation_adopted "true" curr) }) obj);
  })

-- `ResourceFromRuntimeObject`
unfoldable pub resource_from_runtime_object : Option GlobalNetwork → Resource
resource_from_runtime_object obj = record { ko = obj }

-- `Delta`
unfoldable pub delta : (C : Compare) → Option Resource → Option Resource → Outcome C.Delta
delta C a b = new_resource_delta C a b

-- `schema.GroupVersion`, `schema.GroupVersionKind` and `metav1.GroupKind`
pub record GroupVersion : Type 0 where
  pub group : String
  pub version : String

pub record GroupVersionKind : Type 0 where
  pub group : String
  pub version : String
  pub kind : String

pub record GroupKind : Type 0 where
  pub group : String
  pub kind : String

-- `WithKind`
abbrev pub with_kind : GroupVersion → String → GroupVersionKind
with_kind gv kind = record { group = gv.group; version = gv.version; kind = kind }

abbrev pub group_version : GroupVersion
group_version = record { group = "networkmanager.services.k8s.aws"; version = "v1alpha1" }

abbrev pub group_kind : GroupKind
group_kind = record { group = "networkmanager.services.k8s.aws"; kind = "GlobalNetwork" }

-- The method `GroupVersionKind`.
abbrev pub group_version_kind : GroupVersionKind
group_version_kind = with_kind group_version group_kind.kind

-- `EmptyRuntimeObject`
abbrev pub empty_runtime_object : GlobalNetwork
empty_runtime_object = record {
  object_meta = record {
    name = "";
    namespace = "";
    deletion_timestamp = none;
    finalizers = none;
    annotations = none;
  };
  spec = record { description = none; tags = none };
  status = record {
    ack_resource_metadata = none;
    conditions = none;
    created_at = none;
    global_network_id = none;
    state = none;
  };
}
