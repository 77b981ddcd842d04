-- ===== src/Delta/Laws.antt =====
-- What `newResourceDelta` records.
use ack_networkmanager_contr.Prelude.{
  String, ◌≡◌, ◌↔◌, sym, ◌∙◌, Bool, true, false, not, some, arith, elements, done,
}
use ack_networkmanager_contr.Types.{GlobalNetwork, Resource}
use ack_networkmanager_contr.External.{Compare, IsCompare, string_value, tags_value}
use ack_networkmanager_contr.Tags.{convert_to_ordered_ack_tags}
use ack_networkmanager_contr.Tags.Values.{tag_at, get-convert}
use ack_networkmanager_contr.Delta.{
  description_differs, add_description, add_tags, new_resource_delta,
}

module _ (C : Compare) (L : IsCompare C) (a b : GlobalNetwork) where
  -- The comparison of the two maps.
  abbrev tags_equal : Bool
  tags_equal =
      C.map_string_string_equal (convert_to_ordered_ack_tags a.spec.tags).0
        (convert_to_ordered_ack_tags b.spec.tags).0

  tags_equal_iff :
      (tags_equal ≡ true)
      ↔ ((k : String) → tag_at k (elements a.spec.tags) ≡ tag_at k (elements b.spec.tags))
  tags_equal_iff = (
    λ e k.
        sym (get-convert a.spec.tags k) ∙ (L.map_equal_iff _ _).0 e k ∙ get-convert b.spec.tags k,
    λ h.
        (L.map_equal_iff _ _).1
          λ k. get-convert a.spec.tags k ∙ h k ∙ sym (get-convert b.spec.tags k),
  )

  at_tags :
      C.different_at (add_tags C a b (add_description C a b C.new_delta)) "Spec.Tags"
      ≡ not tags_equal
  unfolding add_tags add_description
  at_tags = ground (
    arith,
    L.at-new_delta "Spec.Tags",
    L.contains_self "Spec.Tags",
    L.description_apart,
    L.at-add C.new_delta "Spec.Description" "Spec.Tags" (string_value a.spec.description)
        (string_value b.spec.description),
    L.at-add (add_description C a b C.new_delta) "Spec.Tags" "Spec.Tags" (tags_value a.spec.tags)
        (tags_value b.spec.tags),
  )

  except_tags :
      C.different_except (add_tags C a b (add_description C a b C.new_delta)) "Spec.Tags"
      ≡ description_differs C a.spec.description b.spec.description
  unfolding add_tags add_description
  except_tags = ground (
    arith,
    L.except-new_delta "Spec.Tags",
    L.contains_self "Spec.Tags",
    L.description_apart,
    L.except-add C.new_delta "Spec.Description" "Spec.Tags" (string_value a.spec.description)
        (string_value b.spec.description),
    L.except-add (add_description C a b C.new_delta) "Spec.Tags" "Spec.Tags"
        (tags_value a.spec.tags) (tags_value b.spec.tags),
  )

module _ (C : Compare) where
  -- Where `ackcompare` works as documented and both resources have `ko`, `newResourceDelta` does
  -- not panic. Its delta is not different at Spec.Tags exactly if both tag lists give every key
  -- the same value, and different outside Spec.Tags exactly if the descriptions differ.
  pub new_resource_delta_lem :
      (r s : Resource) (a b : GlobalNetwork)
      → IsCompare C
      → r.ko ≡ some a
      → s.ko ≡ some b
      → (delta : C.Delta) × (new_resource_delta C (some r) (some s) ≡ done delta)
        × ((C.different_at delta "Spec.Tags" ≡ false)
            ↔ ((k : String) → tag_at k (elements a.spec.tags) ≡ tag_at k (elements b.spec.tags)))
        × (C.different_except delta "Spec.Tags"
            ≡ description_differs C a.spec.description b.spec.description)
  unfolding new_resource_delta
  new_resource_delta_lem r s a b L ea eb =
      let iff = tags_equal_iff C L a b in
      (
        add_tags C a b (add_description C a b C.new_delta),
        rw (ea, eb),
        (λ e. iff.0 (ground (arith, at_tags C L a b)), λ h. at_tags C L a b ∙ rw (iff.1 h)),
        except_tags C L a b,
      )
