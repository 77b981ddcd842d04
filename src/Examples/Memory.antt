-- ===== src/Examples/Memory.antt =====
-- Examples of the theorems on memory: a deep copy, and the conditions behind pointers.
use ack_networkmanager_contr.Prelude.{
  length, ℕ, ◌≡◌, refl, arith, none, some, List, [], ◌∷◌, done, elements,
}
use ack_networkmanager_contr.Types.{Condition, terminal, resource_synced, status_true, status_false}
use ack_networkmanager_contr.DeepCopy.{
  scalar, pointer, no_fields, field, Value, text, address, end, pair, named, Heap, pure, copy_new,
  deep_copy_into, write_all,
}
use ack_networkmanager_contr.DeepCopy.Trees.{
  Tree, leaf, present, empty, join, Reads, by_value, pointed, no_items, item, no_members, member,
  pure-Copies,
}
use ack_networkmanager_contr.DeepCopy.Shapes.{LibraryKinds, global_network_spec}
use ack_networkmanager_contr.DeepCopy.Bodies.{
  finished, assigned, by_assignment, deep_copy_into-Copies,
}
use ack_networkmanager_contr.DeepCopy.Instances.{LibraryCopies}
use ack_networkmanager_contr.DeepCopy.Instances.Resources.{global_network_spec_deep_copy}
use ack_networkmanager_contr.DeepCopy.Covered.{IsDeep, string-Copies}
use ack_networkmanager_contr.DeepCopy.Generated.{generated_apart}
use ack_networkmanager_contr.Conditions.{Pointers, any_condition, update_conditions}
use ack_networkmanager_contr.Conditions.Report.{report, mentions_sync}
use ack_networkmanager_contr.Conditions.Memory.{Store, load_all, load, update_in_memory}
use ack_networkmanager_contr.Conditions.Memory.Refine.{update_in_memory_refines}
use ack_networkmanager_contr.Examples.{api, failures, failures-IsErrors}
use ack_networkmanager_contr.Examples.Resources.{manager, created, of_network}

-- The library's structs, each with one string or none.
abbrev kinds : LibraryKinds
kinds = record {
  object_meta = field "Name" scalar no_fields;
  list_meta = no_fields;
  resource_metadata = field "ARN" (pointer scalar) no_fields;
  condition =
      field "Type" scalar (field "Status" scalar (field "Message" (pointer scalar) no_fields));
}

-- Their copies.
abbrev copies : LibraryCopies
copies = record {
  time_deep_copy = copy_new pure;
  object_meta_deep_copy_into = deep_copy_into (("Name", pure) ∷ []);
  list_meta_deep_copy_into = deep_copy_into [];
  resource_metadata_deep_copy_into = deep_copy_into (("ARN", copy_new pure) ∷ []);
  condition_deep_copy_into = deep_copy_into (("Message", copy_new pure) ∷ []);
}

copies-IsDeep : IsDeep kinds copies
copies-IsDeep = record {
  time = string-Copies;
  object_meta = deep_copy_into-Copies (assigned pure-Copies finished refl);
  list_meta = deep_copy_into-Copies finished;
  resource_metadata = deep_copy_into-Copies (assigned string-Copies finished refl);
  condition =
      deep_copy_into-Copies
        (by_assignment (by_assignment (assigned string-Copies finished refl) refl) refl);
}

-- A spec with a description and one tag.
abbrev cells : Heap
cells =
    text "backbone"
    ∷ text "team"
    ∷ text "net"
    ∷ named "Key" (address 1) (named "Value" (address 2) end)
    ∷ pair (address 3) end
    ∷ named "Description" (address 0) (named "Tags" (address 4) end)
    ∷ []

abbrev tag_tree : Tree
tag_tree = join (present (leaf "team")) (join (present (leaf "net")) empty)

abbrev spec_tree : Tree
spec_tree =
    present
      (join (present (leaf "backbone")) (join (present (join (present tag_tree) empty)) empty))

tag-Reads :
    Reads 0 cells
      (pointer (field "Key" (pointer scalar) (field "Value" (pointer scalar) no_fields)))
      (address 3)
      (present tag_tree)
tag-Reads = pointed 3 _ (omega arith) refl (
    member (pointed 1 _ (omega arith) refl (by_value "team"))
      (member (pointed 2 _ (omega arith) refl (by_value "net")) no_members))

spec-Reads : Reads 0 cells (pointer global_network_spec) (address 5) spec_tree
spec-Reads = pointed 5 _ (omega arith) refl (
    member (pointed 0 _ (omega arith) refl (by_value "backbone"))
      (member (pointed 4 _ (omega arith) refl (item tag-Reads no_items)) no_members))

-- The conditions in the store, in another order than the pointers to them.
abbrev stored : Store
stored =
    record { type = terminal; status = status_false; message = none }
    ∷ record { type = resource_synced; status = status_true; message = none }
    ∷ []

generated_apart_example :
    (v' : Value) × (h' : Heap) × (global_network_spec_deep_copy (address 5) cells ≡ done (v', h'))
    × Reads 0
        (write_all ((6, text "new") ∷ []) h')
        (pointer global_network_spec)
        (address 5)
        spec_tree
    × Reads
        (length cells)
        (write_all ((0, text "spine") ∷ []) h')
        (pointer global_network_spec)
        v'
        spec_tree
generated_apart_example =
    generated_apart kinds copies 1 global_network_spec global_network_spec_deep_copy (address 5)
      spec_tree cells ((6, text "new") ∷ []) ((0, text "spine") ∷ []) copies-IsDeep refl spec-Reads
      (omega arith) (omega arith)

update_in_memory_refines_example :
    (cs : List Condition) × (bs : List ℕ) × (p : Pointers) × (s' : Store) × (update_in_memory
        failures
        (some (api "ValidationException" "bad"))
        (1 ∷ 0 ∷ [])
        stored
      ≡ done (bs, p, s'))
    × (update_conditions failures manager
          (of_network created)
          (some (api "ValidationException" "bad"))
        ≡ done (report manager created cs))
    × (any_condition p ≡ mentions_sync cs)
    × (load_all bs s' ≡ done cs)
    × (load_all (1 ∷ 0 ∷ []) s' ≡ done (elements created.status.conditions))
unfolding load_all load
update_in_memory_refines_example =
    update_in_memory_refines failures manager (of_network created) created
      (some (api "ValidationException" "bad")) (1 ∷ 0 ∷ []) stored failures-IsErrors refl refl
