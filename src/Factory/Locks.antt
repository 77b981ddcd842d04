-- ===== src/Factory/Locks.antt =====
-- The locks of `ManagerFor`: the read lock round the lookup, and the write lock round the rest,
-- which the deferred call releases. Each access to the lock is a step, and so is each read of the
-- cache; a write to it begins in one step and ends in another, and between the two the cache may
-- hold anything, since Go gives no meaning to a map that is read or written during a write.
pub mod Exclusion
pub mod Atomic
pub mod Double
pub mod Runs
pub mod Progress
use ack_networkmanager_contr.Prelude.{
  ◌⊎◌, length, ℕ, zero, suc, ◌+◌, ◌≡◌, Option, none, some, List, [], ◌∷◌, ◌++◌,
}
use ack_networkmanager_contr.Maps.{GoMap, get, set}
use ack_networkmanager_contr.Factory.{
  Request, rm_id, Factory, new_resource_manager, new_resource_manager_factory,
}
use ack_networkmanager_contr.Factory.Race.{IsPlain}

-- `sync.RWMutex`: the readers that hold it, the calls of `Lock` that wait, and the writers.
pub record RwMutex : Type 0 where
  pub readers : ℕ
  pub waiting : ℕ
  pub writers : ℕ

-- Where a call stands: before `RLock`, before the lookup, before `RUnlock` with what it found,
-- before `Lock`, in `Lock`, before the manager is made, before it is written to the cache, in this
-- write with what the cache held when it began, before `Unlock`, and back.
pub data Phase : Type 0 where
  entering : Request → Phase
  reading : Request → Phase
  found : Request → Option ℕ → Phase
  missing : Request → Phase
  locking : Request → Phase
  writing : Request → Phase
  created : Request → ℕ → Phase
  storing : Request → ℕ → GoMap ℕ → Phase
  written : Request → ℕ → Phase
  back : Request → ℕ → Phase

pub record Shared : Type 0 where
  pub mutex : RwMutex
  pub factory : Factory

abbrev pub with_mutex : RwMutex → Shared → Shared
with_mutex m s = record s { mutex = m }

abbrev pub with_factory : Factory → Shared → Shared
with_factory f s = record s { factory = f }

-- Which calls of `RLock` the mutex lets in is left open while a call of `Lock` waits.
abbrev pub Policy : Type 1
Policy = RwMutex → Type 0

-- `RLock` waits for calls of `Lock` only.
abbrev pub Admits : Policy → Type 0
Admits A = (m : RwMutex) → m.waiting ≡ 0 → A m

-- One call takes its next step.
pub data Move (A : Policy) (s : Shared) : Phase → Shared → Phase → Type 0 where
  rlock :
      (q : Request)
      → A s.mutex
      → s.mutex.writers ≡ 0
      → Move A s
          (entering q)
          (with_mutex (record s.mutex { readers = suc s.mutex.readers }) s)
          (reading q)
  lookup : (q : Request) → Move A s (reading q) s (found q (get (rm_id q) s.factory.rm_cache))
  runlock :
      (q : Request) (h : ℕ) {n : ℕ}
      → s.mutex.readers ≡ suc n
      → Move A s (found q (some h)) (with_mutex (record s.mutex { readers = n }) s) (back q h)
  runlock_missing :
      (q : Request) {n : ℕ}
      → s.mutex.readers ≡ suc n
      → Move A s (found q none) (with_mutex (record s.mutex { readers = n }) s) (missing q)
  lock :
      (q : Request)
      → Move A s
          (missing q)
          (with_mutex (record s.mutex { waiting = suc s.mutex.waiting }) s)
          (locking q)
  locked :
      (q : Request) {n : ℕ}
      → s.mutex.readers ≡ 0
      → s.mutex.writers ≡ 0
      → s.mutex.waiting ≡ suc n
      → Move A s
          (locking q)
          (with_mutex (record s.mutex { waiting = n; writers = 1 }) s)
          (writing q)
  create :
      (q : Request)
      → Move A s
          (writing q)
          (with_factory
            (record s.factory { made = s.factory.made ++ (new_resource_manager q ∷ []) })
            s)
          (created q (length s.factory.made))
  store :
      (q : Request) (h : ℕ) (torn : GoMap ℕ)
      → Move A s
          (created q h)
          (with_factory (record s.factory { rm_cache = torn }) s)
          (storing q h s.factory.rm_cache)
  stored :
      (q : Request) (h : ℕ) (old : GoMap ℕ)
      → Move A s
          (storing q h old)
          (with_factory (record s.factory { rm_cache = set (rm_id q) h old }) s)
          (written q h)
  unlock :
      (q : Request) (h : ℕ)
      → Move A s (written q h) (with_mutex (record s.mutex { writers = 0 }) s) (back q h)

pub record System : Type 0 where
  pub shared : Shared
  pub calls : List Phase

-- A call that is there moves.
pub data Run (A : Policy) : System → System → Type 0 where
  run :
      (before after : List Phase) {s s' : Shared} {c c' : Phase}
      → Move A s c s' c'
      → Run A
          (record { shared = s; calls = before ++ (c ∷ after) })
          (record { shared = s'; calls = before ++ (c' ∷ after) })

pub data Step (A : Policy) : System → System → Type 0 where
  moves : {s t : System} → Run A s t → Step A s t
  arrive :
      (s : System) (q : Request) → IsPlain q → Step A s (record s { calls = entering q ∷ s.calls })

pub data Reach (A : Policy) (s : System) : System → Type 0 where
  here : Reach A s s
  next : {t u : System} → Reach A s t → Step A t u → Reach A s u

abbrev pub idle : System
idle = record {
  shared = record {
    mutex = record { readers = 0; waiting = 0; writers = 0 };
    factory = new_resource_manager_factory;
  };
  calls = [];
}
