-- ===== src/Examples/Locked.antt =====
-- Examples of the theorems on the locks of the factory.
use ack_networkmanager_contr.Prelude.{
  Has, some, inl, get_elem?, ◌≢◌, length, ℕ, ◌*◌, ◌≤◌, ◌≡◌, ◌⊎◌, refl, [], ◌∷◌, map,
}
use ack_networkmanager_contr.Maps.{get}
use ack_networkmanager_contr.Factory.{make_manager, new_resource_manager_factory}
use ack_networkmanager_contr.Factory.Race
use ack_networkmanager_contr.Factory.Locks.{
  back, create, store, stored, unlock, Policy, Admits, entering, writing, with_mutex, rlock, lookup,
  runlock_missing, lock, locked, System, run, moves, arrive, Reach, here, next, idle,
}
use ack_networkmanager_contr.Factory.Locks.Exclusion.{AllOut, writer_alone}
use ack_networkmanager_contr.Types.{ResourceManager}
use ack_networkmanager_contr.Factory.Locks.Double.{locked_double_make}
use ack_networkmanager_contr.Factory.Locks.Atomic.{locked_manager, atomic_system, locks_refine}
use ack_networkmanager_contr.Factory.Locks.Runs.{request_of, Runs, stay, go}
use ack_networkmanager_contr.Factory.Locks.Progress.{AllBack, Goes, calls_return}
use ack_networkmanager_contr.Examples.Objects.{
  request, request_again, request-IsPlain, request_again-IsPlain,
}

-- `RLock` waits for every call of `Lock` that waits.
abbrev writers_first : Policy
writers_first m = m.waiting ≡ 0

writers_first-Admits : Admits writers_first
writers_first-Admits m e = e

-- Two calls have come; the first holds the lock for writing, the second waits to read.
abbrev two_calls : System
two_calls = record idle { calls = entering request ∷ entering request_again ∷ [] }

abbrev first_writes : System
first_writes = record {
  shared = with_mutex (record { readers = 0; waiting = 0; writers = 1 }) idle.shared;
  calls = writing request ∷ entering request_again ∷ [];
}

Reach-two_calls : Reach writers_first idle two_calls
Reach-two_calls =
    next (next here (arrive _ request_again request_again-IsPlain))
      (arrive _ request request-IsPlain)

Runs-first_writes : Runs writers_first two_calls 5 first_writes
unfolding get
Runs-first_writes =
    let rest = entering request_again ∷ [] in
    go
      (go
        (go (go (go stay (run [] rest (rlock request refl refl))) (run [] rest (lookup request)))
          (run [] rest (runlock_missing request refl)))
        (run [] rest (lock request)))
      (run [] rest (locked request refl refl refl))

Reach_of_Runs : {n : ℕ} {s : System} → Runs writers_first two_calls n s → Reach writers_first idle s
Reach_of_Runs stay = Reach-two_calls
Reach_of_Runs (go rs r) = next (Reach_of_Runs rs) (moves r)

writer_alone_example : AllOut (entering request_again ∷ [])
writer_alone_example =
    writer_alone first_writes [] (writing request) (entering request_again ∷ [])
      (Reach_of_Runs Runs-first_writes) refl refl

locks_refine_example : Race.Reach Race.idle (atomic_system first_writes)
locks_refine_example = locks_refine (Reach_of_Runs Runs-first_writes)

calls_return_example :
    (◌≤◌ 5 (9 * length two_calls.calls))
    × (map request_of first_writes.calls ≡ map request_of two_calls.calls)
    × (AllBack first_writes.calls ⊎ Goes writers_first first_writes)
calls_return_example = calls_return writers_first-Admits Reach-two_calls Runs-first_writes

-- Both calls for one key make a manager, and both hold theirs.
locked_double_make_example :
    (s : System) × (h : ℕ) × (i : ℕ) × Reach writers_first idle s
    × Has (back request h) s.calls
    × Has (back request i) s.calls
    × (h ≢ i)
locked_double_make_example = locked_double_make request request-IsPlain writers_first-Admits

-- The first call comes back with the manager that it made.
abbrev served_alone : System
served_alone = record {
  shared = record {
    mutex = idle.shared.mutex;
    factory = make_manager request new_resource_manager_factory;
  };
  calls = back request 0 ∷ [];
}

Runs-served_alone :
    Runs writers_first (record idle { calls = entering request ∷ [] }) 9 served_alone
unfolding get make_manager
Runs-served_alone =
    go
      (go
        (go
          (go
            (go
              (go
                (go
                  (go (go stay (run [] [] (rlock request refl refl))) (run [] [] (lookup request)))
                  (run [] [] (runlock_missing request refl)))
                (run [] [] (lock request)))
              (run [] [] (locked request refl refl refl)))
            (run [] [] (create request)))
          (run [] [] (store request 0 [])))
        (run [] [] (stored request 0 [])))
      (run [] [] (unlock request 0))

Reach_one :
    {n : ℕ} {s : System}
    → Runs writers_first (record idle { calls = entering request ∷ [] }) n s
    → Reach writers_first idle s
Reach_one stay = next here (arrive _ request request-IsPlain)
Reach_one (go rs r) = next (Reach_one rs) (moves r)

locked_manager_example :
    (m : ResourceManager) × (get_elem? served_alone.shared.factory.made 0 ≡ some m)
    × (m.aws_account_id ≡ request.id)
    × (m.aws_region ≡ request.region)
locked_manager_example =
    locked_manager served_alone request 0 (Reach_one Runs-served_alone) (inl refl)
