-- ===== src/Factory/Locks/Double.antt =====
-- Two calls for one key that both find nothing under the read lock.
use ack_networkmanager_contr.Prelude.{
  Has, length, inl, inr, ℕ, ◌≡◌, ◌≢◌, refl, none, List, [], ◌∷◌, ◌++◌, arith,
}
use ack_networkmanager_contr.Maps.{get}
use ack_networkmanager_contr.Factory.{Request, Factory, new_resource_manager_factory, make_manager}
use ack_networkmanager_contr.Factory.Race.{IsPlain}
use ack_networkmanager_contr.Factory.Locks.{
  Policy, Admits, RwMutex, Phase, entering, reading, found, missing, locking, writing, written,
  back, rlock, lookup, runlock_missing, lock, locked, create, store, stored, unlock, System, run,
  moves, arrive, Reach, here, next, idle,
}

module _ {A : Policy} (q : Request) (plain : IsPlain q) (admits : Admits A) where
  abbrev made_once : Factory
  made_once = make_manager q new_resource_manager_factory

  abbrev pair : ℕ → ℕ → ℕ → Factory → Phase → Phase → System
  pair r w x f c d = record {
    shared = record { mutex = record { readers = r; waiting = w; writers = x }; factory = f };
    calls = c ∷ d ∷ [];
  }

  -- Both calls are past the read lock.
  both_missed : Reach A idle (pair 0 0 0 new_resource_manager_factory (missing q) (missing q))
  unfolding get
  both_missed =
      let f = new_resource_manager_factory in
      let h1 : Reach A idle (pair 0 0 0 f (entering q) (entering q)) =
        next (next here (arrive _ q plain)) (arrive _ q plain) in
      let h2 : Reach A idle (pair 2 0 0 f (reading q) (reading q)) =
        next (next h1 (moves (run [] (entering q ∷ []) (rlock q (admits _ refl) refl))))
          (moves (run (reading q ∷ []) [] (rlock q (admits _ refl) refl))) in
      let h3 : Reach A idle (pair 2 0 0 f (found q none) (found q none)) =
        next (next h2 (moves (run [] (reading q ∷ []) (lookup q))))
          (moves (run (found q none ∷ []) [] (lookup q))) in
      next (next h3 (moves (run [] (found q none ∷ []) (runlock_missing q refl))))
        (moves (run (missing q ∷ []) [] (runlock_missing q refl)))

  -- A call under the write lock makes a manager and writes it to the cache.
  made_in :
      (before after : List Phase) {m : RwMutex} {f : Factory}
      → Reach A idle (record {
        shared = record { mutex = m; factory = f };
        calls = before ++ (writing q ∷ after);
      })
      → Reach A idle (record {
        shared = record { mutex = m; factory = make_manager q f };
        calls = before ++ (written q (length f.made) ∷ after);
      })
  unfolding make_manager
  made_in before after {m} {f} r =
      next
        (next (next r (moves (run before after (create q))))
          (moves (run before after (store q (length f.made) []))))
        (moves (run before after (stored q (length f.made) f.rm_cache)))

  -- One after the other makes its manager.
  one_back : Reach A idle (pair 0 1 0 made_once (back q 0) (locking q))
  one_back =
      let f = new_resource_manager_factory in
      let h1 : Reach A idle (pair 0 2 0 f (locking q) (locking q)) =
        next (next both_missed (moves (run [] (missing q ∷ []) (lock q))))
          (moves (run (locking q ∷ []) [] (lock q))) in
      let h2 : Reach A idle (pair 0 1 1 f (writing q) (locking q)) =
        next h1 (moves (run [] (locking q ∷ []) (locked q refl refl refl))) in
      next (made_in [] (locking q ∷ []) h2) (moves (run [] (locking q ∷ []) (unlock q 0)))

  abbrev both_back : System
  both_back = pair 0 0 0 (make_manager q made_once) (back q 0) (back q (length made_once.made))

  Reach-both_back : Reach A idle both_back
  Reach-both_back =
      let h1 : Reach A idle (pair 0 0 1 made_once (back q 0) (writing q)) =
        next one_back (moves (run (back q 0 ∷ []) [] (locked q refl refl refl))) in
      next (made_in (back q 0 ∷ []) [] h1)
        (moves (run (back q 0 ∷ []) [] (unlock q (length made_once.made))))

  made_once-length : length made_once.made ≡ 1
  unfolding make_manager
  made_once-length = refl

  -- If the mutex lets a call of `RLock` in where no call of `Lock` waits or holds it, then for a
  -- request whose account and region hold no slash, calls of `ManagerFor` can interleave so that
  -- two calls for it come back with two different managers.
  pub locked_double_make :
      (s : System) × (h : ℕ) × (i : ℕ) × Reach A idle s
      × Has (back q h) s.calls
      × Has (back q i) s.calls
      × (h ≢ i)
  locked_double_make = (
    both_back,
    length made_once.made,
    0,
    Reach-both_back,
    inr (inl refl),
    inl refl,
    λ e. absurd (omega (arith, made_once-length, e)),
  )
