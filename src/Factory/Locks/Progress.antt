-- ===== src/Factory/Locks/Progress.antt =====
-- Calls that have come, under any schedule.
use ack_networkmanager_contr.Prelude.{
  length, ℕ, zero, suc, ◌+◌, ◌*◌, ◌≤◌, ◌<◌, ◌≡◌, ◌⊎◌, inl, inr, refl, ap, ◌∙◌, arith, none, some,
  List, [], ◌∷◌, ◌++◌, map,
}
use ack_networkmanager_contr.Maps.{get}
use ack_networkmanager_contr.Factory.{rm_id}
use ack_networkmanager_contr.Factory.Locks.{
  Policy, Admits, Phase, entering, reading, found, missing, locking, writing, created, storing,
  written, back, Shared, with_mutex, Move, rlock, lookup, runlock, runlock_missing, lock, locked,
  create, store, stored, unlock, System, Run, run, Reach, idle,
}
use ack_networkmanager_contr.Factory.Locks.Runs.{
  rank, request_of, Runs, Runs-rank, Runs-IsExclusive, Runs-requests, total-rank-le,
}
use ack_networkmanager_contr.Factory.Locks.Exclusion.{
  reads, waits, writes, total, total-at, Counts, IsExclusive, Reach-IsExclusive,
}

-- A call with a weight, or none.
abbrev Found : (Phase → ℕ) → List Phase → Type 0
Found w cs =
    (before : List Phase) × (c : Phase) × (after : List Phase) × (cs ≡ before ++ (c ∷ after))
    × (0 < w c)

find : (w : Phase → ℕ) (cs : List Phase) → (total w cs ≡ 0) ⊎ Found w cs
find w [] = inl refl
find w (c ∷ cs) = at (w c) refl (find w cs)
  where
    at :
        (n : ℕ)
        → w c ≡ n
        → (total w cs ≡ 0) ⊎ Found w cs
        → (total w (c ∷ cs) ≡ 0) ⊎ Found w (c ∷ cs)
    at zero e (inl none_there) = inl (omega arith)
    at zero e (inr (before, d, after, e', h)) = inr (c ∷ before, d, after, ap (λ ds. c ∷ ds) e', h)
    at (suc n) e _ = inr ([], c, cs, refl, omega arith)

abbrev Movable : Policy → Shared → Phase → Type 0
Movable A s c = (s' : Shared) × (c' : Phase) × Move A s c s' c'

Found-Run :
    {A : Policy} (w : Phase → ℕ) (s : Shared) (cs : List Phase)
    → ((c : Phase) (rest : List Phase)
        → 0 < w c
        → ((v : Phase → ℕ) → total v cs ≡ v c + total v rest)
        → Movable A s c)
    → Found w cs
    → (t : System) × Run A (record { shared = s; calls = cs }) t
Found-Run w s cs k (before, c, after, e, h) =
    let (s', c', m) = k c (before ++ after) h (λ v. ap (total v) e ∙ total-at v before c after) in
    rw e (record { shared = s'; calls = before ++ (c' ∷ after) }, run before after m)

-- A call that holds the lock for reading can go on.
reader-Movable :
    {A : Policy} (s : Shared) (c : Phase) (r w x : ℕ)
    → 0 < reads c
    → Counts s.mutex (reads c + r) w x
    → Movable A s c
reader-Movable s (reading q) r w x h I = (s, found q (get (rm_id q) s.factory.rm_cache), lookup q)
reader-Movable s (found q (some k)) r w x h I =
    (with_mutex (record s.mutex { readers = r }) s, back q k, runlock q k {n = r} (omega arith))
reader-Movable s (found q none) r w x h I = (
  with_mutex (record s.mutex { readers = r }) s,
  missing q,
  runlock_missing q {n = r} (omega arith),
)
reader-Movable s _ r w x h I = absurd (omega arith)

-- So can the one that holds it for writing,
writer-Movable : {A : Policy} (s : Shared) (c : Phase) → 0 < writes c → Movable A s c
writer-Movable s (writing q) h = (_, created q (length s.factory.made), create q)
writer-Movable s (created q k) h = (_, storing q k s.factory.rm_cache, store q k [])
writer-Movable s (storing q k old) h = (_, written q k, stored q k old)
writer-Movable s (written q k) h =
    (with_mutex (record s.mutex { writers = 0 }) s, back q k, unlock q k)
writer-Movable s _ h = absurd (omega arith)

-- one in `Lock` when nobody holds the lock,
waiter-Movable :
    {A : Policy} (s : Shared) (c : Phase) (w : ℕ)
    → 0 < waits c
    → Counts s.mutex 0 (waits c + w) 0
    → Movable A s c
waiter-Movable s (locking q) w h I = (
  with_mutex (record s.mutex { waiting = w; writers = 1 }) s,
  writing q,
  locked q {n = w} (omega arith) (omega arith) (omega arith),
)
waiter-Movable s _ w h I = absurd (omega arith)

-- and any call when, besides, nobody waits.
other-Movable :
    {A : Policy} (k : Admits A) (s : Shared) (c : Phase)
    → 0 < rank c
    → reads c ≡ 0
    → waits c ≡ 0
    → writes c ≡ 0
    → Counts s.mutex 0 0 0
    → Movable A s c
other-Movable k s (entering q) h r w x I = (
  with_mutex (record s.mutex { readers = suc s.mutex.readers }) s,
  reading q,
  rlock q (k s.mutex I.waiting_now) I.writing_now,
)
other-Movable k s (missing q) h r w x I =
    (with_mutex (record s.mutex { waiting = suc s.mutex.waiting }) s, locking q, lock q)
other-Movable k s _ h r w x I = absurd (omega arith)

-- Some call moves, unless all are back.
abbrev pub Goes : Policy → System → Type 0
Goes A s = (t : System) × Run A s t

progress_at :
    {A : Policy} (k : Admits A) (s : Shared) (cs : List Phase)
    → Counts s.mutex (total reads cs) (total waits cs) (total writes cs)
    → (total rank cs ≡ 0) ⊎ Goes A (record { shared = s; calls = cs })
progress_at {A} k s cs I = at (find reads cs) (find writes cs) (find waits cs) (find rank cs)
  where
    at :
        (total reads cs ≡ 0) ⊎ Found reads cs
        → (total writes cs ≡ 0) ⊎ Found writes cs
        → (total waits cs ≡ 0) ⊎ Found waits cs
        → (total rank cs ≡ 0) ⊎ Found rank cs
        → (total rank cs ≡ 0) ⊎ Goes A (record { shared = s; calls = cs })
    at (inr found_reader) _ _ _ = inr (
        Found-Run reads s cs
          (λ c rest h e.
            reader-Movable s c (total reads rest) (total waits cs) (total writes cs) h
              (rw (← e reads) I))
          found_reader)
    at (inl no_readers) (inr found_writer) _ _ =
        inr (Found-Run writes s cs (λ c rest h e. writer-Movable s c h) found_writer)
    at (inl no_readers) (inl no_writers) (inr found_waiter) _ = inr (
        Found-Run waits s cs
          (λ c rest h e.
            waiter-Movable s c (total waits rest) h (rw (no_readers, no_writers, e waits) at I))
          found_waiter)
    at (inl no_readers) (inl no_writers) (inl no_waiters) (inr found_other) = inr (
        Found-Run rank s cs
          (λ c rest h e.
            other-Movable k s c h (omega (arith, e reads)) (omega (arith, e waits))
              (omega (arith, e writes)) (rw (no_readers, no_writers, no_waiters) at I))
          found_other)
    at (inl no_readers) (inl no_writers) (inl no_waiters) (inl all_back) = inl all_back

pub progress :
    {A : Policy} {s : System} → Admits A → IsExclusive s → (total rank s.calls ≡ 0) ⊎ Goes A s
progress {s} k I = progress_at k s.shared s.calls I

-- A call that is back with its manager.
abbrev pub IsBack : Phase → Type 0
IsBack (back q h) = Unit
IsBack _ = ⊥

abbrev pub AllBack : List Phase → Type 0
AllBack [] = Unit
AllBack (c ∷ cs) = IsBack c × AllBack cs

rank-IsBack : (c : Phase) → rank c ≡ 0 → IsBack c
rank-IsBack (back q h) e = tt
rank-IsBack _ e = absurd (omega arith)

total-AllBack : (cs : List Phase) → total rank cs ≡ 0 → AllBack cs
total-AllBack [] e = tt
total-AllBack (c ∷ cs) e = (rank-IsBack c (omega arith), total-AllBack cs (omega arith))

-- The mutex lets a call of `RLock` in where no call of `Lock` waits or holds it. However calls of
-- `ManagerFor` have interleaved from an empty cache on, in any further steps of the calls that
-- have come, each call keeps its request, there are at most nine times as many such steps as
-- calls, and either all calls are back with a manager or some call can take a step: there is no
-- deadlock, and every schedule brings every call back.
pub calls_return :
    {A : Policy} {s t : System} {n : ℕ}
    → Admits A
    → Reach A idle s
    → Runs A s n t
    → (n ≤ 9 * length s.calls)
      × (map request_of t.calls ≡ map request_of s.calls)
      × (AllBack t.calls ⊎ Goes A t)
calls_return {s} {t} k r rs = (
  omega (arith, Runs-rank rs, total-rank-le s.calls),
  Runs-requests rs,
  elim (progress k (Runs-IsExclusive rs (Reach-IsExclusive r))) [
    | inl done ↦ inl (total-AllBack t.calls done)
    | inr goes ↦ inr goes
  ],
)
