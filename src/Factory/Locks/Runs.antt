-- ===== src/Factory/Locks/Runs.antt =====
-- Runs of the calls that have come, and the steps that each has left.
use ack_networkmanager_contr.Prelude.{
  length, ℕ, suc, ◌+◌, ◌*◌, ◌≤◌, ◌<◌, ◌≡◌, refl, ap, ◌∙◌, arith, List, [], ◌∷◌, ◌++◌, map,
}
use ack_networkmanager_contr.Factory.{Request}
use ack_networkmanager_contr.Factory.Locks.{
  Policy, Phase, entering, reading, found, missing, locking, writing, created, storing, written,
  back, Shared, Move, rlock, lookup, runlock, runlock_missing, lock, locked, create, store, stored,
  unlock, System, Run, run,
}
use ack_networkmanager_contr.Factory.Locks.Exclusion.{total, total-at, IsExclusive, Run-IsExclusive}

-- The steps that a call has before it, at most.
abbrev pub rank : Phase → ℕ
rank (entering q) = 9
rank (reading q) = 8
rank (found q h) = 7
rank (missing q) = 6
rank (locking q) = 5
rank (writing q) = 4
rank (created q h) = 3
rank (storing q h old) = 2
rank (written q h) = 1
rank (back q h) = 0

abbrev pub request_of : Phase → Request
request_of (entering q) = q
request_of (reading q) = q
request_of (found q h) = q
request_of (missing q) = q
request_of (locking q) = q
request_of (writing q) = q
request_of (created q h) = q
request_of (storing q h old) = q
request_of (written q h) = q
request_of (back q h) = q

Move-rank : {A : Policy} {s s' : Shared} {c c' : Phase} → Move A s c s' c' → rank c' < rank c
Move-rank (rlock q e f) = omega arith
Move-rank (lookup q) = omega arith
Move-rank (runlock q h e) = omega arith
Move-rank (runlock_missing q e) = omega arith
Move-rank (lock q) = omega arith
Move-rank (locked q e f g) = omega arith
Move-rank (create q) = omega arith
Move-rank (store q h torn) = omega arith
Move-rank (stored q h old) = omega arith
Move-rank (unlock q h) = omega arith

Move-request_of :
    {A : Policy} {s s' : Shared} {c c' : Phase} → Move A s c s' c' → request_of c' ≡ request_of c
Move-request_of (rlock q e f) = refl
Move-request_of (lookup q) = refl
Move-request_of (runlock q h e) = refl
Move-request_of (runlock_missing q e) = refl
Move-request_of (lock q) = refl
Move-request_of (locked q e f g) = refl
Move-request_of (create q) = refl
Move-request_of (store q h torn) = refl
Move-request_of (stored q h old) = refl
Move-request_of (unlock q h) = refl

Run-rank : {A : Policy} {s t : System} → Run A s t → total rank t.calls < total rank s.calls
Run-rank (run before after {c = c} {c' = c'} m) =
    omega (arith, total-at rank before c after, total-at rank before c' after, Move-rank m)

map-at :
    (before : List Phase) (c c' : Phase) (after : List Phase)
    → request_of c' ≡ request_of c
    → map request_of (before ++ (c' ∷ after)) ≡ map request_of (before ++ (c ∷ after))
map-at [] c c' after e = ap (λ q. q ∷ map request_of after) e
map-at (b ∷ before) c c' after e = ap (λ qs. request_of b ∷ qs) (map-at before c c' after e)

Run-requests :
    {A : Policy} {s t : System} → Run A s t → map request_of t.calls ≡ map request_of s.calls
Run-requests (run before after {c = c} {c' = c'} m) = map-at before c c' after (Move-request_of m)

-- A run of so many steps of the calls that are there.
pub data Runs (A : Policy) (s : System) : ℕ → System → Type 0 where
  stay : Runs A s 0 s
  go : {n : ℕ} {t u : System} → Runs A s n t → Run A t u → Runs A s (suc n) u

pub Runs-rank :
    {A : Policy} {s t : System} {n : ℕ} → Runs A s n t → n + total rank t.calls ≤ total rank s.calls
Runs-rank stay = omega arith
Runs-rank (go rs r) = omega (arith, Runs-rank rs, Run-rank r)

pub Runs-IsExclusive :
    {A : Policy} {s t : System} {n : ℕ} → Runs A s n t → IsExclusive s → IsExclusive t
Runs-IsExclusive stay I = I
Runs-IsExclusive (go rs r) I = Run-IsExclusive r (Runs-IsExclusive rs I)

pub Runs-requests :
    {A : Policy} {s t : System} {n : ℕ}
    → Runs A s n t
    → map request_of t.calls ≡ map request_of s.calls
Runs-requests stay = refl
Runs-requests (go rs r) = Run-requests r ∙ Runs-requests rs

rank-le : (c : Phase) → rank c ≤ 9
rank-le (entering q) = omega arith
rank-le _ = omega arith

pub total-rank-le : (cs : List Phase) → total rank cs ≤ 9 * length cs
total-rank-le [] = omega arith
total-rank-le (c ∷ cs) = omega (arith, rank-le c, total-rank-le cs)
