-- ===== src/Manager/History.antt =====
-- The resources that come out of any sequence of operations, on the manager and on the resource,
-- from a first one on: the runtime passes what an operation returned, or changed, to the next.
use ack_networkmanager_contr.Prelude.{
  String, ◌≡◌, Option, some, List, Slice, elements, Outcome, done, deref, ◌>>=◌,
}
use ack_networkmanager_contr.Maps.{GoMap, Range}
use ack_networkmanager_contr.Types.{Condition, GlobalNetworkSpec, Resource, ResourceManager}
use ack_networkmanager_contr.External.{Errors, Compare, Client, TagLibrary, Finalizers, Utilities}
use ack_networkmanager_contr.Effects.{World, M}
use ack_networkmanager_contr.Tagging.{ensure_tags, filter_system_tags}
use ack_networkmanager_contr.Descriptor.{mark_managed, mark_unmanaged, mark_adopted}
use ack_networkmanager_contr.Resource.{
  set_identifiers, populate_resource_from_annotation, set_status, replace_conditions,
}
use ack_networkmanager_contr.Reporting.Laws.{IsUnique}
use ack_networkmanager_contr.Manager.{
  read_one, create, update, delete, late_initialize, clear_resolved_references,
}

-- An edit of the object in Kubernetes.
abbrev pub edit_spec : GlobalNetworkSpec → Resource → Outcome Resource
edit_spec spec r = do ko ← deref r.ko; done (record { ko = some (record ko { spec = spec }) })

-- The libraries, the client and the manager that the operations use.
pub record Context : Type 1 where
  pub errors : Errors
  pub client : Client errors.Err
  pub manager : ResourceManager
  pub range : Range
  pub compare : Compare
  pub tag_library : TagLibrary
  pub finalizers : Finalizers
  pub annotation_adopted : String
  pub utilities : Utilities

module _ (X : Context) where
  abbrev pub Run : Type 0 → Type 0
  Run A = M X.errors.Err X.client.State A

  -- The code returns `a` from some world.
  pub record Gives {A : Type 0} (m : Run A) (a : A) : Type 0 where
    pub world : World X.errors.Err X.client.State
    pub runs : (m world).0 ≡ done a

  -- `r` comes out of `first`; each step is one operation that did not panic.
  pub data Derived (first : Resource) : Resource → Type 0 where
    given : Derived first first
    read :
        {r r' observed : Resource} {err : Option X.errors.Err}
        → Derived first r
        → Gives (read_one X.errors X.client X.manager X.range r) ((some observed, err), r')
        → Derived first observed
    read_changes :
        {r r' : Resource} {observed : Option Resource} {err : Option X.errors.Err}
        → Derived first r
        → Gives (read_one X.errors X.client X.manager X.range r) ((observed, err), r')
        → Derived first r'
    created :
        {r r' : Resource} {err : Option X.errors.Err}
        → Derived first r
        → Gives (create X.errors X.client X.manager r) (some r', err)
        → Derived first r'
    updated :
        (delta : X.compare.Delta) {desired latest r' : Resource} {err : Option X.errors.Err}
        → Derived first desired
        → Derived first latest
        → Gives
            (update X.errors X.client X.manager X.range X.compare desired latest delta)
            (some r', err)
        → Derived first r'
    deleted :
        {r r' : Resource} {err : Option X.errors.Err}
        → Derived first r
        → Gives (delete X.errors X.client X.manager r) (some r', err)
        → Derived first r'
    tagged :
        {r r' : Resource}
        → Derived first r
        → ensure_tags X.range X.tag_library r ≡ done r'
        → Derived first r'
    filtered :
        (system_tags : List String) {r r' : Resource}
        → Derived first r
        → filter_system_tags X.range (some r) system_tags ≡ some r'
        → Derived first r'
    managed :
        {r r' : Resource}
        → Derived first r
        → mark_managed X.finalizers r ≡ done r'
        → Derived first r'
    unmanaged :
        {r r' : Resource}
        → Derived first r
        → mark_unmanaged X.finalizers r ≡ done r'
        → Derived first r'
    adopted :
        {r r' : Resource}
        → Derived first r
        → mark_adopted X.annotation_adopted r ≡ done r'
        → Derived first r'
    identified :
        (id : String) {r r' : Resource} {err : Option X.errors.Err}
        → Derived first r
        → set_identifiers X.errors id r ≡ done (err, r')
        → Derived first r'
    populated :
        (fields : GoMap String) {r r' : Resource} {err : Option X.errors.Err}
        → Derived first r
        → populate_resource_from_annotation X.errors fields r ≡ done (err, r')
        → Derived first r'
    with_status :
        {desired r r' : Resource}
        → Derived first desired
        → Derived first r
        → set_status desired r ≡ done r'
        → Derived first r'
    -- The conditions that the runtime sets hold each type once at most.
    with_conditions :
        (cs : Slice Condition) {r r' : Resource}
        → IsUnique (elements cs)
        → Derived first r
        → replace_conditions cs r ≡ done r'
        → Derived first r'
    initialized :
        {r r' : Resource} {err : Option X.errors.Err}
        → Derived first r
        → Gives (late_initialize X.errors X.client X.manager X.range X.utilities r) (some r', err)
        → Derived first r'
    resolved : {r : Resource} → Derived first r → Derived first (clear_resolved_references r)
    -- The object is edited: its spec changes.
    edited :
        (spec : GlobalNetworkSpec) {r r' : Resource}
        → Derived first r
        → edit_spec spec r ≡ done r'
        → Derived first r'
