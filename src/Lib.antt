-- ===== src/Lib.antt =====
-- The ACK service controller for AWS Network Manager: its core, which reconciles GlobalNetwork
-- resources of Kubernetes with AWS.
--
-- The runtime of ACK, in another repository, reads, creates, updates and deletes resources through
-- the interface that pkg/resource/global_network implements. A manager, made by the factory for an
-- account, a region and a role, holds the AWS client; its operations check their argument, call one
-- of the sdk functions, which call AWS and merge the reply into a copy, and report the outcome in
-- the conditions of the resource. Update first brings the tags at AWS in line by pkg/tags/sync.go.
--
-- The files, and the code that each models:
--   Prelude        shared names, Go's nil, slices and panics (`Outcome`)
--   Maps           Go's maps and the order of `range` over them
--   Types          apis/v1alpha1/global_network.go, Tag of types.go, `resource`
--   External       the interfaces of the Go, Kubernetes, ACK and AWS libraries, and their laws
--   Effects        calls of AWS and of the metrics recorder, as a state monad
--     Effects/Rules: rules for results and for recorded calls, over such code
--   Tags           pkg/resource/global_network/tags.go
--     Tags/Values, Tags/Convert, Tags/Filter: the tag of a key, the conversions, the filters
--   SyncTags       pkg/tags/sync.go
--     SyncTags/Loops, SyncTags/Service, SyncTags/Laws, SyncTags/Kept, SyncTags/Total,
--     SyncTags/Interrupted: the loops, the service, what a call leaves at AWS, what it keeps there,
--     its panics, and what an error of AWS leaves behind
--   Tagging        EnsureTags, FilterSystemTags and mirrorAWSTags of manager.go
--     Tagging/Lists, Tagging/Laws: the lists that they write, and their results
--   Conditions     setStatusDefaults, terminalAWSError and updateConditions of sdk.go
--     Conditions/Report is the specification; Conditions/Views, Conditions/Rewrite and
--     Conditions/Laws: the conditions in a list, the two branches, and the function
--     Conditions/Memory: the same over memory with pointers; Memory/Shift and Memory/Refine: how
--     the two relate
--   Delta          delta.go
--   Sdk            the rest of sdk.go
--     Sdk/Merge, Sdk/Find, Sdk/Write: the merged resource, the reads, the calls that write
--     Sdk/Service: the documented behaviour of AWS for networks
--   Reporting      onError and onSuccess of manager.go
--     Reporting/Laws, Reporting/Success, Reporting/Kept: their results, and what they keep
--   Manager        the rest of manager.go, and references.go
--     Manager/Crud, Manager/Read, Manager/Absent, Manager/Delete, Manager/Update: each operation's
--     results
--     Manager/Converge, Manager/Sync: the tags after an update, IsSynced
--     Manager/Kept, Manager/History, Manager/Invariant: what the operations keep, sequences of
--     operations, and what these keep
--     Manager/Reconcile, Manager/Removal, Manager/Creation: an update or a creation, and the read
--     after it; Manager/Round: a read, an update and a read
--     Manager/Total: where the operations panic
--     Manager/Calls: the calls that they record
--   Factory        manager_factory.go and newResourceManager
--     Factory/Keys, Factory/Race, Factory/Sound, Factory/Double: cache keys, concurrent calls, and
--     the managers that they return
--     Factory/Locks: each call with the steps of the read-write lock. Locks/Exclusion, Locks/Atomic,
--     Locks/Double, Locks/Runs, Locks/Progress: its holders, the same calls without the lock, two
--     calls for one key, and the steps that a call has left
--   Resource       resource.go and identifiers.go
--     Resource/Kept: what operations without calls keep of a resource
--   Descriptor     descriptor.go
--   DeepCopy       apis/v1alpha1/zz_generated.deepcopy.go: memory, and the statements of its code
--     DeepCopy/Shapes: the struct types of types.go and global_network.go by their fields
--     DeepCopy/Instances: each `DeepCopyInto` by its statements, `DeepCopy` and `DeepCopyObject`;
--     its child modules have them by the parts of the API; DeepCopy/Table: all of them
--     DeepCopy/Trees, DeepCopy/Bodies, DeepCopy/Covered: what a value reads as and what copies it
--     deeply, statements against fields, and this for each type
--     DeepCopy/Laws, DeepCopy/Generated: writing after a copy
--   Enums          apis/v1alpha1/enums.go: GlobalNetworkState
--   Registration   pkg/resource/registry.go, apis/v1alpha1/groupversion_info.go and the `init`
--     functions
--   Startup        cmd/controller/main.go
--   Examples       instances of the interfaces, and the theorems at concrete inputs
--
-- A function keeps its Go name in snake case: `sdk_find` is sdkFind, `on_error` is onError. A
-- method that changes its receiver or an argument returns the changed value. A pointer that is only
-- copied and read is an `Option` of its value; following nil, and each `panic`, is an outcome of
-- its own, so a theorem that a function is `done` says that it does not panic.
--
-- Choices. A Go map is an association list with distinct keys, and the order of `range` is a
-- parameter (`Range`), of which `IsRange` states that each entry is visited once. The loop
-- variables are those of Go 1.22 and later, new in each iteration. `World` holds the state of AWS,
-- on which the client's functions act, and the recorded metrics. The loops run over finite lists,
-- so there is no fuel and no bound. The operations read one network, so a reply's later elements
-- are dropped as the code drops them. Elsewhere than in DeepCopy and Conditions/Memory, a copy by
-- DeepCopy is a copy of the value, and the pointers of updateConditions into the copied conditions
-- are indices. Create and Update assign the same fields from their replies and share
-- `set_output_fields`. The elements of a list of tags or conditions are never nil, which the schema
-- of the custom resource states (config/crd/bases). Times are instants that are only copied.
--
-- Parameters, with their documented behaviour as hypotheses: errors (`Errors`), ackcompare
-- (`Compare`), acktags and the default tags (`TagLibrary`), finalizers (`Finalizers`), helpers on
-- strings and conditions (`Utilities`), the AWS client (`Client`), what its calls do to tags
-- (`TagService`) and to networks (`NetworkService`, `CreateService`), that a question changes
-- nothing (`ReadsOnly`), that it fails no call (`Answers`), that a failed call changes no tag
-- (`IsAtomic`) and that its replies hold a network (`Complete`), where a theorem says so, what the
-- start calls (`Libraries`), schemes and registries (`Schemes`, `Registries`), the fields of the
-- library types that the deep copies descend into (`LibraryKinds`) and the functions that copy them
-- (`LibraryCopies`, `IsDeep`), and which readers `sync.RWMutex` lets in while writers wait
-- (`Policy`, `Admits`); it has at most one writer, and no writer beside readers. A Go map that is
-- read or written during a write has no documented behaviour: there it may hold anything.
--
-- Not modelled: version strings, the enumerations that no code uses, and logging but for the set-up log of `main`.
pub mod Prelude
pub mod Maps
pub mod Types
pub mod External
pub mod Effects
pub mod Enums
pub mod Tags
pub mod SyncTags
pub mod Tagging
pub mod Conditions
pub mod Delta
pub mod Sdk
pub mod Registration
pub mod Reporting
pub mod Manager
pub mod Factory
pub mod Resource
pub mod Descriptor
pub mod Examples
pub mod Startup
pub mod DeepCopy
