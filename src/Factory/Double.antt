-- ===== src/Factory/Double.antt =====
-- Several calls of `ManagerFor` for one key.
use ack_networkmanager_contr.Prelude.{
  Has, length, inl, inr, ℕ, ◌≡◌, ◌≢◌, refl, [], ◌∷◌, arith, eq_refl,
}
use ack_networkmanager_contr.Maps.Laws.{get-nil}
use ack_networkmanager_contr.Factory.{
  Request, rm_id, Factory, new_resource_manager_factory, make_manager, manager_for,
}
use ack_networkmanager_contr.Factory.Race.{
  looking, missed, returned, System, miss, make, advance, arrive, Reach, here, next, idle, IsPlain,
}
use ack_networkmanager_contr.Factory.Sound.{get-make_manager}

module _ (q : Request) (plain : IsPlain q) where
  abbrev made_once : Factory
  made_once = make_manager q new_resource_manager_factory

  abbrev made_twice : System
  made_twice = record {
    factory = make_manager q made_once;
    calls = returned q (length made_once.made) ∷ returned q 0 ∷ [];
  }

  two_misses : Reach idle (record { factory = idle.factory; calls = missed q ∷ missed q ∷ [] })
  two_misses =
      next
        (next (next (next here (arrive _ q plain)) (arrive _ q plain))
          (advance [] (looking q ∷ []) (miss _ q (get-nil (rm_id q)))))
        (advance (missed q ∷ []) [] (miss _ q (get-nil (rm_id q))))

  Reach-made_twice : Reach idle made_twice
  Reach-made_twice =
      next (next two_misses (advance (missed q ∷ []) [] (make _ q)))
        (advance [] (returned q 0 ∷ []) (make made_once q))

  made_once-length : length made_once.made ≡ 1
  unfolding make_manager
  made_once-length = refl

  -- For a request whose account and region hold no slash, calls of `ManagerFor` can interleave so
  -- that two calls for it return two different managers.
  pub double_make :
      (s : System) × (h : ℕ) × (i : ℕ) × Reach idle s
      × Has (returned q h) s.calls
      × Has (returned q i) s.calls
      × (h ≢ i)
  double_make = (
    made_twice,
    length made_once.made,
    0,
    Reach-made_twice,
    inl refl,
    inr (inl refl),
    λ e. absurd (omega (arith, made_once-length, e)),
  )

-- With no other call between them, a second call of `ManagerFor` with the same cache key returns
-- the manager of the first and makes none.
pub manager_for_again :
    (p q : Request) (f : Factory)
    → rm_id p ≡ rm_id q
    → let (h, f') = manager_for p f in manager_for q f' ≡ (h, f')
unfolding manager_for
manager_for_again p q f same = ground (arith, get-make_manager p f (rm_id p), eq_refl (rm_id p))
