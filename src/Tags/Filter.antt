-- ===== src/Tags/Filter.antt =====
-- What `ignoreSystemTags` and `syncAWSTags` leave in a map, in whatever order `range` visits it.
use ack_networkmanager_contr.Prelude.{
  String, ◌≡◌, ◌&&◌, none, some, List, [], ◌∷◌, arith, or_else, is_nil, not, eq_iff, if◌then◌else◌,
}
use ack_networkmanager_contr.Maps.{GoMap, get, set, delete, NodupKeys, Range, IsRange}
use ack_networkmanager_contr.Maps.Laws.{
  get-nil, get-cons, get-set, get-delete, delete-NodupKeys, set-NodupKeys,
}
use ack_networkmanager_contr.Tags.{
  value_or_empty, is_aws_key, is_ignored, ignore_loop, ignore_system_tags, sync_aws_loop,
  sync_aws_tags,
}

module _ (k : String) where
  get-ignore_loop :
      (system_tags : List String) (visits : List (String × String)) (m : GoMap String)
      → get k (ignore_loop system_tags visits m)
        ≡ (if is_ignored system_tags k && not (is_nil (get k visits)) then none else get k m)
  unfolding ignore_loop
  get-ignore_loop system_tags [] m = rw (get-nil k) (ground arith)
  get-ignore_loop system_tags ((j, v) ∷ visits) m = ground (
    arith,
    eq_iff j k,
    get-cons k j v visits,
    get-delete k j m,
    get-ignore_loop system_tags visits m,
    get-ignore_loop system_tags visits (delete j m),
  )

  get-sync_aws_loop :
      (visits : List (String × String)) (a b : GoMap String)
      → get k (sync_aws_loop visits a b) ≡ (
          if is_aws_key k && not (is_nil (get k visits))
          then some (value_or_empty (get k b))
          else get k a)
  unfolding sync_aws_loop
  get-sync_aws_loop [] a b = rw (get-nil k) (ground arith)
  get-sync_aws_loop ((j, v) ∷ visits) a b = ground (
    arith,
    eq_iff j k,
    get-cons k j v visits,
    get-set k j (value_or_empty (get j b)) a,
    get-sync_aws_loop visits a b,
    get-sync_aws_loop visits (set j (value_or_empty (get j b)) a) b,
  )

ignore_loop-NodupKeys :
    (system_tags : List String) (visits : List (String × String)) (m : GoMap String)
    → NodupKeys m
    → NodupKeys (ignore_loop system_tags visits m)
unfolding ignore_loop
ignore_loop-NodupKeys system_tags [] m u = u
ignore_loop-NodupKeys system_tags ((j, v) ∷ visits) m u = ground (
  arith,
  delete-NodupKeys j m u,
  ignore_loop-NodupKeys system_tags visits m u,
  ignore_loop-NodupKeys system_tags visits (delete j m),
)

sync_aws_loop-NodupKeys :
    (visits : List (String × String)) (a b : GoMap String)
    → NodupKeys a
    → NodupKeys (sync_aws_loop visits a b)
unfolding sync_aws_loop
sync_aws_loop-NodupKeys [] a b u = u
sync_aws_loop-NodupKeys ((j, v) ∷ visits) a b u = ground (
  arith,
  set-NodupKeys j (value_or_empty (get j b)) a u,
  sync_aws_loop-NodupKeys visits a b u,
  sync_aws_loop-NodupKeys visits (set j (value_or_empty (get j b)) a) b,
)

module _ (R : Range) (L : IsRange R) where
  pub get-ignore_system_tags :
      (k : String) (m : GoMap String) (system_tags : List String)
      → get k (ignore_system_tags R m system_tags)
        ≡ (if is_ignored system_tags k then none else get k m)
  unfolding ignore_system_tags
  get-ignore_system_tags k m system_tags =
      ground (arith, get-ignore_loop k system_tags (R.over String m) m, L.over-get String m k)

  pub ignore_system_tags-NodupKeys :
      (m : GoMap String) (system_tags : List String)
      → NodupKeys m
      → NodupKeys (ignore_system_tags R m system_tags)
  unfolding ignore_system_tags
  ignore_system_tags-NodupKeys m system_tags u =
      ignore_loop-NodupKeys system_tags (R.over String m) m u

  pub get-sync_aws_tags :
      (k : String) (a b : GoMap String)
      → get k (sync_aws_tags R a b)
        ≡ (if is_aws_key k then or_else (get k b) (get k a) else get k a)
  unfolding sync_aws_tags
  get-sync_aws_tags k a b =
      ground (arith, get-sync_aws_loop k (R.over String b) a b, L.over-get String b k)

  pub sync_aws_tags-NodupKeys : (a b : GoMap String) → NodupKeys a → NodupKeys (sync_aws_tags R a b)
  unfolding sync_aws_tags
  sync_aws_tags-NodupKeys a b u = sync_aws_loop-NodupKeys (R.over String b) a b u
