-- ===== src/Factory.antt =====
-- pkg/resource/global_network/manager_factory.go and `newResourceManager` of manager.go. A manager
-- is a pointer: its handle is its place among the managers that were made.
pub mod Keys
pub mod Race
pub mod Sound
pub mod Double
pub mod Locks
use Prim.Native.String.{◌++◌ as ◌<>◌}
use ack_networkmanager_contr.Prelude.{
  length, Bool, true, ℕ, zero, suc, String, Option, none, some, List, [], ◌∷◌, ◌++◌,
}
use ack_networkmanager_contr.Maps.{GoMap, get, set}
use ack_networkmanager_contr.Types.{ResourceManager}

-- The arguments of `ManagerFor` that it reads; `partition` is `cfg.Partition`.
pub record Request : Type 0 where
  pub id : String
  pub region : String
  pub role_arn : String
  pub partition : String

-- `fmt.Sprintf("%s/%s/%s", id, region, roleARN)`
unfoldable pub rm_id : Request → String
rm_id q = q.id <> ("/" <> (q.region <> ("/" <> q.role_arn)))

-- `newResourceManager`, which never fails.
abbrev pub new_resource_manager : Request → ResourceManager
new_resource_manager q = record {
  aws_account_id = q.id;
  aws_region = q.region;
  aws_partition = q.partition;
}

pub record Factory : Type 0 where
  pub rm_cache : GoMap ℕ
  pub made : List ResourceManager

-- `newResourceManagerFactory`
abbrev pub new_resource_manager_factory : Factory
new_resource_manager_factory = record { rm_cache = []; made = [] }

-- The part of `ManagerFor` under the write lock: it does not look into the cache again.
unfoldable pub make_manager : Request → Factory → Factory
unfolding rm_id set
make_manager q f = record {
  rm_cache = set (rm_id q) (length f.made) f.rm_cache;
  made = f.made ++ (new_resource_manager q ∷ []);
}

-- `ManagerFor`, when no other call runs.
unfoldable pub manager_for : Request → Factory → ℕ × Factory
unfolding make_manager get
manager_for q f = elim (get (rm_id q) f.rm_cache) [
  | some h ↦ (h, f)
  | none ↦ (length f.made, make_manager q f)
]

-- `IsAdoptable`
abbrev pub is_adoptable : Factory → Bool
is_adoptable f = true

-- `RequeueOnSuccessSeconds`
abbrev pub requeue_on_success_seconds : Factory → ℕ
requeue_on_success_seconds f = 0
