-- ===== src/Resource/Kept.antt =====
-- What the operations that call nothing keep of a resource: those of resource.go and descriptor.go,
-- and `EnsureTags` and `FilterSystemTags` of manager.go.
use ack_networkmanager_contr.Prelude.{
  String, ◌≡◌, refl, Bool-cases, Option-cases, inl, inr, some, List, Slice, elements, ◌==◌,
}
use ack_networkmanager_contr.Maps.{GoMap, Range, get}
use ack_networkmanager_contr.Types.{Condition, GlobalNetwork, Resource}
use ack_networkmanager_contr.External.{Errors, TagLibrary, Finalizers}
use ack_networkmanager_contr.Effects.Rules.{OnDone}
use ack_networkmanager_contr.Tagging.{ensure_tags, filter_system_tags}
use ack_networkmanager_contr.Descriptor.{mark_managed, mark_unmanaged, mark_adopted}
use ack_networkmanager_contr.Resource.{
  set_identifiers, populate_resource_from_annotation, set_status, replace_conditions,
}
use ack_networkmanager_contr.Reporting.Laws.{IsUnique}
use ack_networkmanager_contr.Reporting.Kept.{IsSound, Holds, MayHold}

module _ (name namespace : String) where
  -- A change of the network that keeps the name, the namespace and the conditions.
  pub changed-Holds :
      (ko ko' : GlobalNetwork)
      → IsSound name namespace ko
      → ko'.object_meta.name ≡ ko.object_meta.name
      → ko'.object_meta.namespace ≡ ko.object_meta.namespace
      → ko'.status.conditions ≡ ko.status.conditions
      → Holds name namespace (record { ko = some ko' })
  changed-Holds ko ko' S a b c = (
    ko',
    refl,
    record {
      same_name = rw a S.same_name;
      same_namespace = rw b S.same_namespace;
      unique = rw c S.unique;
    },
  )

  module _ (r : Resource) (h : Holds name namespace r) where
    pub ensure_tags-Holds :
        (R : Range) (T : TagLibrary) → OnDone (Holds name namespace) (ensure_tags R T r)
    unfolding ensure_tags
    ensure_tags-Holds R T = let (ko, e, S) = h in rw e (changed-Holds ko _ S refl refl refl)

    pub filter_system_tags-MayHold :
        (R : Range) (system_tags : List String)
        → MayHold name namespace (filter_system_tags R (some r) system_tags)
    unfolding filter_system_tags
    filter_system_tags-MayHold R system_tags =
        let (ko, e, S) = h in rw e (changed-Holds ko _ S refl refl refl)

    pub mark_managed-Holds : (F : Finalizers) → OnDone (Holds name namespace) (mark_managed F r)
    unfolding mark_managed
    mark_managed-Holds F = let (ko, e, S) = h in rw e (changed-Holds ko _ S refl refl refl)

    pub mark_unmanaged-Holds : (F : Finalizers) → OnDone (Holds name namespace) (mark_unmanaged F r)
    unfolding mark_unmanaged
    mark_unmanaged-Holds F = let (ko, e, S) = h in rw e (changed-Holds ko _ S refl refl refl)

    pub mark_adopted-Holds :
        (annotation : String) → OnDone (Holds name namespace) (mark_adopted annotation r)
    unfolding mark_adopted
    mark_adopted-Holds annotation = let (ko, e, S) = h in rw e (changed-Holds ko _ S refl refl refl)

    pub set_identifiers-Holds :
        (E : Errors) (id : String)
        → OnDone (λ result. Holds name namespace result.1) (set_identifiers E id r)
    unfolding set_identifiers
    set_identifiers-Holds E id =
        let (ko, e, S) = h in
        elim (Bool-cases (id == "")) [
          | inl empty ↦ rw empty h
          | inr given ↦ rw (given, e) (changed-Holds ko _ S refl refl refl)
        ]

    pub populate-Holds :
        (E : Errors) (fields : GoMap String)
        → OnDone
            (λ result. Holds name namespace result.1)
            (populate_resource_from_annotation E fields r)
    unfolding populate_resource_from_annotation
    populate-Holds E fields =
        let (ko, e, S) = h in
        elim (Option-cases (get "globalNetworkID" fields)) [
          | inl absent ↦ rw (absent, populate_resource_from_annotation) h
          | inr (f0, present) ↦
              rw (present, populate_resource_from_annotation, e)
                (changed-Holds ko _ S refl refl refl)
        ]

    pub set_status-Holds :
        (desired : Resource)
        → Holds name namespace desired
        → OnDone (Holds name namespace) (set_status desired r)
    unfolding set_status
    set_status-Holds desired (ko', e', S') =
        let (ko, e, S) = h in
        rw (e', e)
          (
            _,
            refl,
            record {
              same_name = S.same_name;
              same_namespace = S.same_namespace;
              unique = S'.unique;
            },
          )

    pub replace_conditions-Holds :
        (cs : Slice Condition)
        → IsUnique (elements cs)
        → OnDone (Holds name namespace) (replace_conditions cs r)
    unfolding replace_conditions
    replace_conditions-Holds cs u =
        let (ko, e, S) = h in
        rw e (
          _,
          refl,
          record { same_name = S.same_name; same_namespace = S.same_namespace; unique = u },
        )
