-- ===== src/Startup/Laws.antt =====
-- How the start of the controller ends, and the namespaces that it watches.
use ack_networkmanager_contr.Prelude.{
  String, ◌≡◌, refl, none, some, List, [], ◌∷◌, arith, contains, if◌then◌else◌,
}
use ack_networkmanager_contr.Maps.{GoMap, get, set}
use ack_networkmanager_contr.Maps.Laws.{get-nil, get-set}
use ack_networkmanager_contr.External.{Reply, replied, failed}
use ack_networkmanager_contr.Startup.{
  Config, Libraries, Entry, error, Ending, goes_on, exits, Process, Run, and_then, settle, attempt,
  watch_loop, webhooks_step, run_manager, main,
}

get-watch_loop :
    (k : String) (ns : List String) (m : GoMap (Unit {0}))
    → get k (watch_loop ns m) ≡ (if contains ns k then some tt else get k m)
unfolding watch_loop
get-watch_loop k [] m = refl
get-watch_loop k (n ∷ ns) m = ground (arith, get-watch_loop k ns (set n tt m), get-set k n tt m)

-- The map of watched namespaces has an entry for exactly the configured namespaces.
pub watch_loop_lem :
    (k : String) (ns : List String)
    → get k (watch_loop ns []) ≡ (if contains ns k then some tt else none)
watch_loop_lem k ns = ground (arith, get-watch_loop k ns [], get-nil {V = Unit {0}} k)

module _ (L : Libraries) where
  -- A start either exits with 1 behind an error in the log, or ends where a call of `Start` did
  -- without an error.
  abbrev pub IsEnded : Ending (Unit {0}) → Process L → Type 0
  IsEnded (exits n) p =
      (n ≡ 1)
      × (err : L.Err) × (text : String) × (before : List (Entry L.Err)) × (p.log
          ≡ error err text ∷ before)
  IsEnded (goes_on _) p =
      (mgr : L.Manager) × (stop_chan : L.StopChan) × (s : L.State) × (L.start mgr stop_chan s
        ≡ (replied tt, p.lib))

  abbrev Ends : Run L (Unit {0}) → Type 0
  Ends m = (p : Process L) → let (r, p') = m p in IsEnded r p'

  Ends-settle :
      {A : Type 0} (text : String) (reply : Reply L.Err A) (s : L.State) (log : List (Entry L.Err))
      (f : A → Run L (Unit {0}))
      → ((a : A) → Ends (f a))
      → let (r, p') =
          and_then L (λ _. settle L text (reply, s) log) f (record { lib = s; log = log }) in
        IsEnded r p'
  Ends-settle text (replied a) s log f h = h a _
  Ends-settle text (failed err) s log f h = (refl, err, text, log, refl)

  Ends-attempt :
      {A : Type 0} (text : String) (c : L.State → Reply L.Err A × L.State)
      (f : A → Run L (Unit {0}))
      → ((a : A) → Ends (f a))
      → Ends (and_then L (attempt L text c) f)
  unfolding attempt
  Ends-attempt text c f h p = Ends-settle text (c p.lib).0 (c p.lib).1 p.log f h

  Ends-start :
      (mgr : L.Manager) (stop_chan : L.StopChan) (text : String)
      → Ends (attempt L text (L.start mgr stop_chan))
  unfolding attempt
  Ends-start mgr stop_chan text p = go (L.start mgr stop_chan p.lib) refl
    where
      go :
          (x : Reply L.Err (Unit {0}) × L.State)
          → L.start mgr stop_chan p.lib ≡ x
          → let (r, p') = settle L text x p.log in IsEnded r p'
      go (replied tt, s) e = (mgr, stop_chan, p.lib, e)
      go (failed err, s) e = (refl, err, text, p.log, refl)

  Ends-run_manager : (cfg : Config) (mgr : L.Manager) → Ends (run_manager L cfg mgr)
  unfolding run_manager webhooks_step
  Ends-run_manager cfg mgr p =
      Ends-attempt _ _ _
        (λ _. Ends-attempt _ _ _ (λ _. Ends-attempt _ _ _ (λ _ q. Ends-start mgr _ _ _))) _

  -- However the steps of the start reply, `main` either exits with code 1 directly behind an
  -- error that it logged, or returns where a call of the manager's `Start` had no error.
  pub main_lem : (p : Process L) → let (r, p') = main L p in IsEnded r p'
  unfolding main
  main_lem p =
      Ends-attempt _ _ _
        (λ _. Ends-attempt _ _ _ (λ _.
          Ends-attempt _ _ _
            (λ _. Ends-attempt _ _ _ (λ _. Ends-attempt _ _ _ (λ mgr. Ends-run_manager _ mgr)))))
        _
