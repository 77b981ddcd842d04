-- ===== src/SyncTags.antt =====
-- pkg/tags/sync.go. `aTags` are the desired tags, `bTags` the latest.
pub mod Loops
pub mod Service
pub mod Laws
pub mod Kept
pub mod Total
pub mod Interrupted
use ack_networkmanager_contr.Prelude.{
  String, Bool, true, false, not, Option, none, some, List, [], ◌∷◌, ◌++◌, map, Slice, elements,
  Outcome, done, panic, nil_dereference, ◌==◌, if◌then◌else◌, deref,
}
use ack_networkmanager_contr.Maps.{GoMap, get, set, Range}
use ack_networkmanager_contr.Types.{Tag}
use ack_networkmanager_contr.External.{SdkTag, Client}
use ack_networkmanager_contr.Effects.{M, ◌>>=◌, ◌>>◌, pure, lift, call, record_api_call, error_of}

-- The loops that fill `desiredTags` and `existingTags`: `m[*t.Key] = t.Value`.
pub key_loop : List Tag → GoMap (Option String) → Outcome (GoMap (Option String))
key_loop [] m = done m
key_loop (t ∷ ts) m = elim t.key [
  | none ↦ panic nil_dereference
  | some k ↦ key_loop ts (set k t.value m)
]

-- `*ev != *v`
abbrev pub values_differ : Option String → Option String → Outcome Bool
values_differ (some e) (some v) = done (not (e == v))
values_differ _ _ = panic nil_dereference

-- `!found || *ev != *v`
abbrev pub needs_adding : Option (Option String) → Option String → Outcome Bool
needs_adding none v = done true
needs_adding (some ev) v = values_differ ev v

-- `range desiredTags`, filling `toAdd`.
pub add_loop :
    List (String × Option String)
    → GoMap (Option String)
    → GoMap (Option String)
    → Outcome (GoMap (Option String))
add_loop [] existing to_add = done to_add
add_loop ((k, v) ∷ visits) existing to_add = elim (needs_adding (get k existing) v) [
  | panic e ↦ panic e
  | done add ↦ add_loop visits existing (if add then set k v to_add else to_add)
]

-- `range existingTags`, filling `toDelete`.
pub delete_loop : List (String × Option String) → GoMap (Option String) → List String → List String
delete_loop [] desired to_delete = to_delete
delete_loop ((k, _) ∷ visits) desired to_delete =
    delete_loop visits desired
      (elim (get k desired) [ none ↦ to_delete ++ (k ∷ []) | some _ ↦ to_delete ])

-- `range toAdd` with `*v` in a debug message.
pub debug_loop : List (String × Option String) → Outcome (Unit {0})
debug_loop [] = done tt
debug_loop ((k, v) ∷ visits) = elim v [ none ↦ panic nil_dereference | some _ ↦ debug_loop visits ]

-- `svcsdktypes.Tag{Key: &k, Value: v}`
abbrev pub sdk_tag : String × Option String → SdkTag
sdk_tag (k, v) = record { key = some k; value = v }

module _ (R : Range) {Err : Type 0} (C : Client Err) where
  unfoldable pub add_tags : String → GoMap (Option String) → M Err C.State (Option Err)
  add_tags resource_arn tags = do
    let sdk_tags = map sdk_tag (R.over (Option String) tags)
    reply ←
        call (C.tag_resource (record { resource_arn = some resource_arn; tags = some sdk_tags }))
    record_api_call "UPDATE" "TagResource" (error_of reply)
    pure (error_of reply)

  unfoldable pub remove_tags : String → List String → M Err C.State (Option Err)
  remove_tags resource_arn tag_keys = do
    reply ←
        call
          (C.untag_resource (record { resource_arn = some resource_arn; tag_keys = some tag_keys }))
    record_api_call "UPDATE" "UntagResource" (error_of reply)
    pure (error_of reply)

  -- `if len(toAdd) > 0 { … }`, with the error that it returns early.
  unfoldable pub add_step : String → GoMap (Option String) → M Err C.State (Option Err)
  unfolding add_tags debug_loop
  add_step resource_id [] = pure none
  add_step resource_id (entry ∷ entries) = do
    lift (debug_loop (R.over (Option String) (entry ∷ entries)))
    add_tags resource_id (entry ∷ entries)

  -- `if len(toDelete) > 0 { … }`
  unfoldable pub delete_step : String → List String → M Err C.State (Option Err)
  unfolding remove_tags
  delete_step resource_id [] = pure none
  delete_step resource_id (k ∷ ks) = remove_tags resource_id (k ∷ ks)

  -- The two steps in their order; an error of the first one ends the function.
  unfoldable pub apply_changes :
      String → GoMap (Option String) → List String → M Err C.State (Option Err)
  unfolding add_step delete_step
  apply_changes resource_id to_add to_delete = do
    added ← add_step resource_id to_add
    elim added [ some err ↦ pure (some err) | none ↦ delete_step resource_id to_delete ]

  unfoldable pub sync_tags : String → Slice Tag → Slice Tag → M Err C.State (Option Err)
  unfolding key_loop add_loop delete_loop apply_changes get set
  sync_tags resource_id a_tags b_tags = do
    desired ← lift (key_loop (elements a_tags) [])
    existing ← lift (key_loop (elements b_tags) [])
    to_add ← lift (add_loop (R.over (Option String) desired) existing [])
    apply_changes resource_id to_add (delete_loop (R.over (Option String) existing) desired [])
