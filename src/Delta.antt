-- ===== src/Delta.antt =====
-- pkg/resource/global_network/delta.go
pub mod Laws
use ack_networkmanager_contr.Prelude.{
  String, Bool, true, false, not, ◌||◌, Option, none, some, Outcome, done, panic, nil_dereference,
  deref, ◌==◌, if◌then◌else◌, ◌>>=◌,
}
use ack_networkmanager_contr.Types.{GlobalNetwork, Resource}
use ack_networkmanager_contr.External.{Compare, resource_value, string_value, tags_value}
use ack_networkmanager_contr.Tags.{convert_to_ordered_ack_tags}

-- `*a != *b`, of pointers that are not nil; a nil one is never followed.
abbrev pub values_differ : Option String → Option String → Bool
values_differ (some a) (some b) = not (a == b)
values_differ _ _ = false

module _ (C : Compare) where
  -- The two tests on `Spec.Description`.
  abbrev pub description_differs : Option String → Option String → Bool
  description_differs a b = C.has_nil_difference a b || values_differ a b

  add_description : GlobalNetwork → GlobalNetwork → C.Delta → C.Delta
  add_description a b delta =
      if description_differs a.spec.description b.spec.description
      then C.add delta "Spec.Description" (string_value a.spec.description)
          (string_value b.spec.description)
      else delta

  add_tags : GlobalNetwork → GlobalNetwork → C.Delta → C.Delta
  add_tags a b delta =
      let (desired_ack_tags, _) = convert_to_ordered_ack_tags a.spec.tags in
      let (latest_ack_tags, _) = convert_to_ordered_ack_tags b.spec.tags in
      if not (C.map_string_string_equal desired_ack_tags latest_ack_tags)
      then C.add delta "Spec.Tags" (tags_value a.spec.tags) (tags_value b.spec.tags)
      else delta

  unfoldable pub new_resource_delta : Option Resource → Option Resource → Outcome C.Delta
  unfolding add_description add_tags convert_to_ordered_ack_tags
  new_resource_delta none none = panic nil_dereference
  new_resource_delta none (some b) =
      done (C.add C.new_delta "" (resource_value none) (resource_value (some b)))
  new_resource_delta (some a) none =
      done (C.add C.new_delta "" (resource_value (some a)) (resource_value none))
  new_resource_delta (some a) (some b) = do
    ko_a ← deref a.ko
    ko_b ← deref b.ko
    done (add_tags ko_a ko_b (add_description ko_a ko_b C.new_delta))
