-- ===== src/Factory/Race.antt =====
-- Calls of `ManagerFor` that run at once: each looks into the cache under the read lock, and a call
-- that finds nothing makes a manager under the write lock, in a step of its own.
use ack_networkmanager_contr.Prelude.{length, ℕ, ◌≡◌, none, some, List, [], ◌∷◌, ◌++◌}
use ack_networkmanager_contr.Maps.{get}
use ack_networkmanager_contr.Factory.Keys.{NoSlash}
use ack_networkmanager_contr.Factory.{
  Request, rm_id, Factory, new_resource_manager_factory, make_manager,
}

-- Where a call stands: before the lookup, before the write lock, or back with a handle.
pub data Call : Type 0 where
  looking : Request → Call
  missed : Request → Call
  returned : Request → ℕ → Call

pub record System : Type 0 where
  pub factory : Factory
  pub calls : List Call

-- One call takes its next step.
pub data Advance : Factory → Call → Factory → Call → Type 0 where
  hit :
      (f : Factory) (q : Request) (h : ℕ)
      → get (rm_id q) f.rm_cache ≡ some h
      → Advance f (looking q) f (returned q h)
  miss :
      (f : Factory) (q : Request)
      → get (rm_id q) f.rm_cache ≡ none
      → Advance f (looking q) f (missed q)
  make :
      (f : Factory) (q : Request)
      → Advance f (missed q) (make_manager q f) (returned q (length f.made))

-- An account and a region hold no slash.
abbrev pub IsPlain : Request → Type 0
IsPlain q = NoSlash q.id × NoSlash q.region

-- Any call of the system may be the one that advances; new calls may come.
pub data Step : System → System → Type 0 where
  advance :
      (before after : List Call) {f f' : Factory} {c c' : Call}
      → Advance f c f' c'
      → Step
          (record { factory = f; calls = before ++ (c ∷ after) })
          (record { factory = f'; calls = before ++ (c' ∷ after) })
  arrive :
      (s : System) (q : Request) → IsPlain q → Step s (record s { calls = looking q ∷ s.calls })

pub data Reach (s : System) : System → Type 0 where
  here : Reach s s
  next : {t u : System} → Reach s t → Step t u → Reach s u

-- No call has come yet.
abbrev pub idle : System
idle = record { factory = new_resource_manager_factory; calls = [] }
