-- ===== src/Descriptor/Laws.antt =====
-- Marking a resource, and what it leaves alone.
use ack_networkmanager_contr.Prelude.{
  String, ◌≡◌, refl, ap, ◌∙◌, Bool, Outcome, true, false, ◌||◌, some, List, [], ◌∷◌, arith,
  elements, done, ◌==◌, eq_refl, contains, if◌then◌else◌,
}
use ack_networkmanager_contr.Maps.{GoMap, get, set}
use ack_networkmanager_contr.Maps.Laws.{get-set}
use ack_networkmanager_contr.Types.{GlobalNetwork, Resource}
use ack_networkmanager_contr.External.{Finalizers, IsFinalizers}
use ack_networkmanager_contr.Descriptor.{
  finalizer_string, contains_finalizer, is_managed, set_meta, mark_managed, mark_unmanaged,
  mark_adopted,
}

contains_finalizer_lem : (fs : List String) (f : String) → contains_finalizer fs f ≡ contains fs f
unfolding contains_finalizer
contains_finalizer_lem [] f = refl
contains_finalizer_lem (e ∷ fs) f = ground (arith, contains_finalizer_lem fs f)

is_managed_lem :
    (r : Resource) (ko : GlobalNetwork)
    → r.ko ≡ some ko
    → is_managed r ≡ done (contains (elements ko.object_meta.finalizers) finalizer_string)
unfolding is_managed
is_managed_lem r ko e = rw (e, contains_finalizer_lem)

-- The finalizers of a network after a mark.
abbrev pub finalizers_of : GlobalNetwork → List String
finalizers_of ko = elements ko.object_meta.finalizers

-- A mark returns a network with the same spec and status, on which `IsManaged` returns `managed`,
-- and which has the finalizers in `fs`.
abbrev pub Marked : Outcome Resource → GlobalNetwork → Bool → (String → Bool) → Type 0
Marked marked ko managed fs =
    (ko' : GlobalNetwork) × (marked ≡ done (record { ko = some ko' }))
    × (is_managed (record { ko = some ko' }) ≡ done managed)
    × ((g : String) → contains (finalizers_of ko') g ≡ fs g)
    × (ko'.spec ≡ ko.spec)
    × (ko'.status ≡ ko.status)

-- An adoption returns a network with the annotation, which has the other annotations, the
-- finalizers, the spec and the status of the old one.
abbrev pub Adopted : String → Outcome Resource → GlobalNetwork → Type 0
Adopted annotation adopted ko =
    (ko' : GlobalNetwork) × (annotations : GoMap String) × (adopted
      ≡ done (record { ko = some ko' }))
    × (ko'.object_meta.annotations ≡ some annotations)
    × ((k : String)
        → get k annotations
          ≡ (if annotation == k then some "true" else get k (elements ko.object_meta.annotations)))
    × (ko'.object_meta.finalizers ≡ ko.object_meta.finalizers)
    × (ko'.spec ≡ ko.spec)
    × (ko'.status ≡ ko.status)

mark_adopted_lem :
    (annotation : String) (r : Resource) (ko : GlobalNetwork)
    → r.ko ≡ some ko
    → Adopted annotation (mark_adopted annotation r) ko
unfolding mark_adopted
mark_adopted_lem annotation r ko e = (
  set_meta (λ m. record m { annotations = some (set annotation "true" (elements m.annotations)) })
      ko,
  set annotation "true" (elements ko.object_meta.annotations),
  rw e,
  refl,
  λ k. get-set k annotation "true" (elements ko.object_meta.annotations),
  refl,
  refl,
  refl,
)

module _ (F : Finalizers) (L : IsFinalizers F) (r : Resource) (ko : GlobalNetwork)
    (e : r.ko ≡ some ko) where
  -- If the finalizer functions of controller-runtime work as documented and the resource has
  -- `ko`, `MarkManaged` makes `IsManaged` true and `MarkUnmanaged` makes it false; each keeps
  -- every other finalizer. `MarkAdopted` sets the adoption annotation to "true" and keeps every
  -- other annotation, also where there were none, and the finalizers. All three leave spec and
  -- status as they are.
  pub marks_lem :
      (annotation : String)
      → Marked
          (mark_managed F r)
          ko
          true
          (λ g. finalizer_string == g || contains (finalizers_of ko) g)
        × Marked
            (mark_unmanaged F r)
            ko
            false
            (λ g. if finalizer_string == g then false else contains (finalizers_of ko) g)
        × Adopted annotation (mark_adopted annotation r) ko
  unfolding mark_managed mark_unmanaged
  marks_lem annotation =
      let with_finalizer =
        set_meta (λ m. record m { finalizers = F.add_finalizer m.finalizers finalizer_string })
          ko in
      let without_it =
        set_meta (λ m. record m { finalizers = F.remove_finalizer m.finalizers finalizer_string })
          ko in
      let adds = L.contains-add_finalizer ko.object_meta.finalizers finalizer_string in
      let removes = L.contains-remove_finalizer ko.object_meta.finalizers finalizer_string in
      (
        (
          with_finalizer,
          rw e,
          is_managed_lem (record { ko = some with_finalizer }) with_finalizer refl
              ∙ ap done (adds finalizer_string ∙ rw (eq_refl finalizer_string)),
          adds,
          refl,
          refl,
        ),
        (
          without_it,
          rw e,
          is_managed_lem (record { ko = some without_it }) without_it refl
              ∙ ap done (removes finalizer_string),
          removes,
          refl,
          refl,
        ),
        mark_adopted_lem annotation r ko e,
      )
