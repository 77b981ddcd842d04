-- ===== src/Factory/Locks/Exclusion.antt =====
-- Who holds the lock.
use ack_networkmanager_contr.Prelude.{
  ℕ, zero, suc, ◌+◌, ◌≤◌, ◌<◌, ◌≡◌, refl, ap, ◌∙◌, arith, List, [], ◌∷◌, ◌++◌,
}
use ack_networkmanager_contr.Factory.Locks.{
  Policy, RwMutex, Phase, reading, found, locking, writing, created, storing, written, Shared, Move,
  rlock, lookup, runlock, runlock_missing, lock, locked, create, store, stored, unlock, System, Run,
  run, Step, moves, arrive, Reach, here, next, idle,
}

-- A call between `RLock` and `RUnlock`, one in `Lock`, and one between `Lock` and `Unlock`.
abbrev pub reads : Phase → ℕ
reads (reading q) = 1
reads (found q h) = 1
reads _ = 0

abbrev pub waits : Phase → ℕ
waits (locking q) = 1
waits _ = 0

abbrev pub writes : Phase → ℕ
writes (writing q) = 1
writes (created q h) = 1
writes (storing q h old) = 1
writes (written q h) = 1
writes _ = 0

abbrev pub total : (Phase → ℕ) → List Phase → ℕ
total w [] = 0
total w (c ∷ cs) = w c + total w cs

pub total-append :
    (w : Phase → ℕ) (cs ds : List Phase) → total w (cs ++ ds) ≡ total w cs + total w ds
total-append w [] ds = omega arith
total-append w (c ∷ cs) ds = omega (arith, total-append w cs ds)

-- The total of a list in which one call stands out.
pub total-at :
    (w : Phase → ℕ) (before : List Phase) (c : Phase) (after : List Phase)
    → total w (before ++ (c ∷ after)) ≡ w c + total w (before ++ after)
total-at w [] c after = refl
total-at w (b ∷ before) c after = omega (arith, total-at w before c after)

-- The lock counts its holders, of which there are so many; a writer is alone.
pub record Counts (m : RwMutex) (readers waiting writers : ℕ) : Type 0 where
  pub reading_now : m.readers ≡ readers
  pub waiting_now : m.waiting ≡ waiting
  pub writing_now : m.writers ≡ writers
  pub one : writers ≤ 1
  pub alone : 0 < writers → readers ≡ 0

abbrev pub IsExclusive : System → Type 0
IsExclusive s =
    Counts s.shared.mutex (total reads s.calls) (total waits s.calls) (total writes s.calls)

Move-Counts :
    {A : Policy} {s s' : Shared} {c c' : Phase} (r w x : ℕ)
    → Move A s c s' c'
    → Counts s.mutex (reads c + r) (waits c + w) (writes c + x)
    → Counts s'.mutex (reads c' + r) (waits c' + w) (writes c' + x)
Move-Counts r w x (rlock q e f) I = omega arith
Move-Counts r w x (lookup q) I = I
Move-Counts r w x (runlock q h e) I = ground arith
Move-Counts r w x (runlock_missing q e) I = ground arith
Move-Counts r w x (lock q) I = ground arith
Move-Counts r w x (locked q e f g) I = ground arith
Move-Counts r w x (create q) I = I
Move-Counts r w x (store q h torn) I = I
Move-Counts r w x (stored q h old) I = I
Move-Counts r w x (unlock q h) I = ground arith

pub Run-IsExclusive : {A : Policy} {s t : System} → Run A s t → IsExclusive s → IsExclusive t
Run-IsExclusive (run before after {s} {s'} {c} {c'} m) I =
    rw
      (
        total-at reads before c' after,
        total-at waits before c' after,
        total-at writes before c' after,
      )
      (Move-Counts (total reads (before ++ after)) (total waits (before ++ after))
        (total writes (before ++ after)) m
        (rw
          (
            total-at reads before c after,
            total-at waits before c after,
            total-at writes before c after,
          )
          at I))

Step-IsExclusive : {A : Policy} {s t : System} → Step A s t → IsExclusive s → IsExclusive t
Step-IsExclusive (moves r) I = Run-IsExclusive r I
Step-IsExclusive (arrive s q plain) I = ground arith

idle-IsExclusive : IsExclusive idle
idle-IsExclusive = ground arith

pub Reach-IsExclusive : {A : Policy} {s : System} → Reach A idle s → IsExclusive s
Reach-IsExclusive here = idle-IsExclusive
Reach-IsExclusive (next r st) = Step-IsExclusive st (Reach-IsExclusive r)

-- A call that does not hold the lock.
abbrev pub IsOut : Phase → Type 0
IsOut c = (reads c ≡ 0) × (writes c ≡ 0)

abbrev pub AllOut : List Phase → Type 0
AllOut [] = Unit
AllOut (c ∷ cs) = IsOut c × AllOut cs

total-AllOut : (cs : List Phase) → total reads cs ≡ 0 → total writes cs ≡ 0 → AllOut cs
total-AllOut [] e f = tt
total-AllOut (c ∷ cs) e f =
    ((omega arith, omega arith), total-AllOut cs (omega arith) (omega arith))

-- Beside a call between `Lock` and `Unlock` no other call holds the lock.
pub others_out :
    (s : System) (before : List Phase) (c : Phase) (after : List Phase)
    → IsExclusive s
    → s.calls ≡ before ++ (c ∷ after)
    → writes c ≡ 1
    → AllOut (before ++ after)
others_out s before c after I e w =
    let at_reads : total reads s.calls ≡ reads c + total reads (before ++ after) =
      ap (total reads) e ∙ total-at reads before c after in
    let at_writes : total writes s.calls ≡ writes c + total writes (before ++ after) =
      ap (total writes) e ∙ total-at writes before c after in
    total-AllOut (before ++ after)
      (omega (arith, at_reads, at_writes, w, I.one, I.alone (omega (arith, at_writes, w))))
      (omega (arith, at_writes, w, I.one))

-- A call that is not between `Lock` and `Unlock`.
abbrev pub AllUnwritten : List Phase → Type 0
AllUnwritten [] = Unit
AllUnwritten (c ∷ cs) = (writes c ≡ 0) × AllUnwritten cs

pub AllOut-AllUnwritten : (cs : List Phase) → AllOut cs → AllUnwritten cs
AllOut-AllUnwritten [] _ = tt
AllOut-AllUnwritten (c ∷ cs) ((_, w), out) = (w, AllOut-AllUnwritten cs out)

total-AllUnwritten : (cs : List Phase) → total writes cs ≡ 0 → AllUnwritten cs
total-AllUnwritten [] e = tt
total-AllUnwritten (c ∷ cs) e = (omega arith, total-AllUnwritten cs (omega arith))

-- Where a call reads, no call is between `Lock` and `Unlock`.
pub readers_alone :
    (s : System) (before : List Phase) (c : Phase) (after : List Phase)
    → IsExclusive s
    → s.calls ≡ before ++ (c ∷ after)
    → reads c ≡ 1
    → AllUnwritten s.calls
readers_alone s before c after I e r =
    let at_reads : total reads s.calls ≡ reads c + total reads (before ++ after) =
      ap (total reads) e ∙ total-at reads before c after in
    total-AllUnwritten s.calls (nobody (total writes s.calls) (omega (arith, at_reads, r)) I.alone)
  where
    nobody : (w : ℕ) → 0 < total reads s.calls → (0 < w → total reads s.calls ≡ 0) → w ≡ 0
    nobody zero _ _ = refl
    nobody (suc w) some_read alone = absurd (omega (arith, some_read, alone (omega arith)))

-- However calls of `ManagerFor` interleave from an empty cache on, and whichever calls of `RLock`
-- the mutex lets in while a call of `Lock` waits, no other call stands between `RLock` and
-- `RUnlock` or between `Lock` and `Unlock` while one stands between `Lock` and `Unlock`.
pub writer_alone :
    {A : Policy} (s : System) (before : List Phase) (c : Phase) (after : List Phase)
    → Reach A idle s
    → s.calls ≡ before ++ (c ∷ after)
    → writes c ≡ 1
    → AllOut (before ++ after)
writer_alone s before c after r e w = others_out s before c after (Reach-IsExclusive r) e w
