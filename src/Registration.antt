-- ===== src/Registration.antt =====
-- What the packages register when the program is loaded, in the order in which Go runs their
-- initialisers: the kinds of the API (apis/v1alpha1/groupversion_info.go and global_network.go), the
-- factory (pkg/resource/registry.go and manager_factory.go), the scheme (cmd/controller/main.go).
use ack_networkmanager_contr.Prelude.{String, Bool, List, [], ◌∷◌, map}
use ack_networkmanager_contr.Descriptor.{
  GroupVersion, GroupVersionKind, group_version, group_version_kind,
}
use ack_networkmanager_contr.Factory.{Factory, new_resource_manager_factory}

-- The types that the package registers, and their names, by which a scheme knows them.
pub data Object : Type 0 where
  global_network : Object
  global_network_list : Object

abbrev pub type_name : Object → String
type_name global_network = "GlobalNetwork"
type_name global_network_list = "GlobalNetworkList"

-- The schemes of apimachinery and the builders of controller-runtime.
pub record Schemes : Type 1 where
  pub Scheme : Type 0
  pub Builder : Type 0
  pub new_scheme : Scheme
  pub new_builder : GroupVersion → Builder
  -- `Register`, for types with these names.
  pub register : List String → Builder → Builder
  pub add_to_scheme : Builder → Scheme → Scheme
  -- `clientgoscheme.AddToScheme` and `ackv1alpha1.AddToScheme`
  pub add_client_go : Scheme → Scheme
  pub add_ack_core : Scheme → Scheme
  pub recognizes : Scheme → GroupVersionKind → Bool

-- The registry of the ACK runtime.
pub record Registries : Type 1 where
  pub Registry : Type 0
  pub new_registry : Registry
  pub register_resource_manager_factory : Factory → Registry → Registry
  pub get_resource_manager_factories : Registry → List Factory

abbrev pub registered_names : List String
registered_names = map type_name (global_network ∷ global_network_list ∷ [])

-- `SchemeBuilder`, with the types that the `init` of global_network.go registers.
abbrev pub scheme_builder : (S : Schemes) → S.Builder
scheme_builder S =
    S.register (map type_name (global_network ∷ global_network_list ∷ []))
      (S.new_builder group_version)

-- The `init` of main.go; it drops the errors.
abbrev pub init_scheme : (S : Schemes) → S.Scheme
init_scheme S = S.add_ack_core (S.add_to_scheme (scheme_builder S) (S.add_client_go S.new_scheme))

abbrev pub register_manager_factory : (G : Registries) → Factory → G.Registry → G.Registry
register_manager_factory G f reg = G.register_resource_manager_factory f reg

-- The `init` of manager_factory.go.
abbrev pub init_registry : (G : Registries) → G.Registry
init_registry G = register_manager_factory G new_resource_manager_factory G.new_registry

abbrev pub get_manager_factories : (G : Registries) → G.Registry → List Factory
get_manager_factories G reg = G.get_resource_manager_factories reg

-- `ResourceDescriptor().GroupVersionKind()` of a factory, whose descriptor has no fields.
abbrev pub factory_kind : Factory → GroupVersionKind
factory_kind f = group_version_kind

-- `resourceGVKs` of main.
abbrev pub resource_kinds : (G : Registries) → G.Registry → List GroupVersionKind
resource_kinds G reg = map factory_kind (get_manager_factories G reg)
