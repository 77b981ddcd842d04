-- ===== src/Factory/Locks/Atomic.antt =====
-- The calls with their locks, seen as the atomic steps of Race.
use ack_networkmanager_contr.Prelude.{
  Has, Has-map, ℕ, get_elem?, length, inl, inr, ◌≡◌, refl, sym, ap, ◌∙◌, arith, Option, none, some,
  List, [], ◌∷◌, ◌++◌, map, Option-cases,
}
use ack_networkmanager_contr.Maps.{GoMap, get, set}
use ack_networkmanager_contr.Factory.{Request, rm_id, Factory, new_resource_manager, make_manager}
use ack_networkmanager_contr.Factory.Race
use ack_networkmanager_contr.Factory.Sound.{returned_manager}
use ack_networkmanager_contr.Types.{ResourceManager}
use ack_networkmanager_contr.Factory.Race.{Call, looking, missed, returned, Advance, hit, miss}
use ack_networkmanager_contr.Factory.Locks.{
  Policy, Phase, entering, reading, found, missing, locking, writing, created, storing, written,
  back, Shared, Move, rlock, lookup, runlock, runlock_missing, lock, locked, create, store, stored,
  unlock, System, run, Step, moves, arrive, Reach, here, next, idle,
}
use ack_networkmanager_contr.Factory.Locks.Exclusion.{
  writes, IsExclusive, Reach-IsExclusive, AllUnwritten, AllOut-AllUnwritten, others_out,
  readers_alone,
}

-- A lookup and the making of a manager are the steps; the rest leaves a call where it is.
abbrev pub atomic : Phase → Call
atomic (entering q) = looking q
atomic (reading q) = looking q
atomic (found q (some h)) = returned q h
atomic (found q none) = missed q
atomic (missing q) = missed q
atomic (locking q) = missed q
atomic (writing q) = missed q
atomic (created q h) = returned q h
atomic (storing q h old) = returned q h
atomic (written q h) = returned q h
atomic (back q h) = returned q h

-- The cache once a call has ended its write, and once all have.
abbrev pub ended : Phase → GoMap ℕ → GoMap ℕ
ended (created q h) m = set (rm_id q) h m
ended (storing q h old) m = set (rm_id q) h old
ended _ m = m

abbrev pub all_ended : List Phase → GoMap ℕ → GoMap ℕ
all_ended [] m = m
all_ended (c ∷ cs) m = ended c (all_ended cs m)

abbrev view : List Phase → Factory → Race.System
view cs f = record {
  factory = record f { rm_cache = all_ended cs f.rm_cache };
  calls = map atomic cs;
}

abbrev pub atomic_system : System → Race.System
atomic_system s = view s.calls s.shared.factory

ended-unwritten : (c : Phase) (m : GoMap ℕ) → writes c ≡ 0 → ended c m ≡ m
ended-unwritten (created q h) m e = absurd (omega arith)
ended-unwritten (storing q h old) m e = absurd (omega arith)
ended-unwritten _ m e = refl

all_ended-unwritten : (cs : List Phase) (m : GoMap ℕ) → AllUnwritten cs → all_ended cs m ≡ m
all_ended-unwritten [] m _ = refl
all_ended-unwritten (c ∷ cs) m (w, ws) =
    ap (ended c) (all_ended-unwritten cs m ws) ∙ ended-unwritten c m w

all_ended-at :
    (before : List Phase) (c : Phase) (after : List Phase) (m : GoMap ℕ)
    → AllUnwritten (before ++ after)
    → all_ended (before ++ (c ∷ after)) m ≡ ended c m
all_ended-at [] c after m ws = ap (ended c) (all_ended-unwritten after m ws)
all_ended-at (b ∷ before) c after m (w, ws) =
    ap (ended b) (all_ended-at before c after m ws) ∙ ended-unwritten b (ended c m) w

all_ended-same :
    (before : List Phase) (c c' : Phase) (after : List Phase) (m : GoMap ℕ)
    → ((n : GoMap ℕ) → ended c' n ≡ ended c n)
    → all_ended (before ++ (c' ∷ after)) m ≡ all_ended (before ++ (c ∷ after)) m
all_ended-same [] c c' after m e = e (all_ended after m)
all_ended-same (b ∷ before) c c' after m e = ap (ended b) (all_ended-same before c c' after m e)

map-append-cons :
    (before : List Phase) (c : Phase) (after : List Phase)
    → map atomic (before ++ (c ∷ after)) ≡ map atomic before ++ (atomic c ∷ map atomic after)
map-append-cons [] c after = refl
map-append-cons (b ∷ before) c after = rw (map-append-cons before c after)

-- A step of Race, or none.
data Steps (s : Race.System) : Race.System → Type 0 where
  none_taken : Steps s s
  one_taken : {t : Race.System} → Race.Step s t → Steps s t

-- A step that Race does not see: of a call that stands where it stood, on the same cache.
unseen :
    (before : List Phase) (c c' : Phase) (after : List Phase) (f f' : Factory)
    → atomic c' ≡ atomic c
    → f'.made ≡ f.made
    → all_ended (before ++ (c' ∷ after)) f'.rm_cache ≡ all_ended (before ++ (c ∷ after)) f.rm_cache
    → Steps (view (before ++ (c ∷ after)) f) (view (before ++ (c' ∷ after)) f')
unseen before c c' after f f' a made cache =
    rw (map-append-cons before c after, map-append-cons before c' after, a, made, cache) none_taken

-- A step of Race, between the caches that the two views have.
seen :
    (before : List Phase) (c c' : Phase) (after : List Phase) (f f' g g' : Factory)
    → all_ended (before ++ (c ∷ after)) f.rm_cache ≡ g.rm_cache
    → all_ended (before ++ (c' ∷ after)) f'.rm_cache ≡ g'.rm_cache
    → f.made ≡ g.made
    → f'.made ≡ g'.made
    → Advance g (atomic c) g' (atomic c')
    → Steps (view (before ++ (c ∷ after)) f) (view (before ++ (c' ∷ after)) f')
seen before c c' after f f' g g' e e' made made' adv =
    rw (map-append-cons before c after, map-append-cons before c' after, e, e', made, made')
      (one_taken (Race.advance (map atomic before) (map atomic after) adv))

module _ (before after : List Phase) where
  abbrev around : Phase → List Phase
  around c = before ++ (c ∷ after)

  abbrev at : Shared → Phase → System
  at s c = record { shared = s; calls = around c }

  -- While a call is between `Lock` and `Unlock`, the cache depends on its write alone.
  written_cache :
      (s : Shared) (c c' : Phase) (m : GoMap ℕ)
      → IsExclusive (at s c)
      → writes c ≡ 1
      → all_ended (around c') m ≡ ended c' m
  written_cache s c c' m I w =
      all_ended-at before c' after m
        (AllOut-AllUnwritten (before ++ after) (others_out (at s c) before c after I refl w))

  lookup-Steps :
      (s : Shared) (q : Request)
      → IsExclusive (at s (reading q))
      → Steps
          (view (around (reading q)) s.factory)
          (view (around (found q (get (rm_id q) s.factory.rm_cache))) s.factory)
  lookup-Steps s q I =
      let f = s.factory in
      let here_now =
        all_ended-unwritten (around (reading q)) f.rm_cache
          (readers_alone (at s (reading q)) before (reading q) after I refl refl) in
      let later : (o : Option ℕ) → all_ended (around (found q o)) f.rm_cache ≡ f.rm_cache = λ o.
        all_ended-same before (reading q) (found q o) after f.rm_cache (λ n. refl) ∙ here_now in
      elim (Option-cases (get (rm_id q) f.rm_cache)) [
        | inl e ↦ rw e (
            seen before (reading q) (found q none) after f f f f here_now (later none) refl refl
              (miss f q e))
        | inr (h, e) ↦ rw e (
            seen before (reading q) (found q (some h)) after f f f f here_now (later (some h)) refl
              refl (hit f q h e))
      ]

  Move-Steps :
      {A : Policy} {s s' : Shared} {c c' : Phase}
      → IsExclusive (at s c)
      → Move A s c s' c'
      → Steps (view (around c) s.factory) (view (around c') s'.factory)
  unfolding make_manager
  Move-Steps {s = s} I (rlock q e g) =
      unseen before (entering q) (reading q) after s.factory s.factory refl refl
        (all_ended-same before _ _ after _ (λ n. refl))
  Move-Steps {s = s} I (lookup q) = lookup-Steps s q I
  Move-Steps {s = s} I (runlock q h e) =
      unseen before (found q (some h)) (back q h) after s.factory s.factory refl refl
        (all_ended-same before _ _ after _ (λ n. refl))
  Move-Steps {s = s} I (runlock_missing q e) =
      unseen before (found q none) (missing q) after s.factory s.factory refl refl
        (all_ended-same before _ _ after _ (λ n. refl))
  Move-Steps {s = s} I (lock q) =
      unseen before (missing q) (locking q) after s.factory s.factory refl refl
        (all_ended-same before _ _ after _ (λ n. refl))
  Move-Steps {s = s} I (locked q e g k) =
      unseen before (locking q) (writing q) after s.factory s.factory refl refl
        (all_ended-same before _ _ after _ (λ n. refl))
  Move-Steps {s = s} I (create q) =
      let f = s.factory in
      seen before (writing q) (created q (length f.made)) after f
        (record f { made = f.made ++ (new_resource_manager q ∷ []) }) f (make_manager q f)
        (written_cache s (writing q) (writing q) f.rm_cache I refl)
        (written_cache s (writing q) (created q (length f.made)) f.rm_cache I refl) refl refl
        (Race.make f q)
  Move-Steps {s = s} I (store q h torn) =
      let f = s.factory in
      unseen before (created q h) (storing q h f.rm_cache) after f (record f { rm_cache = torn })
        refl refl
        (written_cache s (created q h) (storing q h f.rm_cache) torn I refl
          ∙ sym (written_cache s (created q h) (created q h) f.rm_cache I refl))
  Move-Steps {s = s} I (stored q h old) =
      let f = s.factory in
      unseen before (storing q h old) (written q h) after f
        (record f { rm_cache = set (rm_id q) h old }) refl refl
        (written_cache s (storing q h old) (written q h) (set (rm_id q) h old) I refl
          ∙ sym (written_cache s (storing q h old) (storing q h old) f.rm_cache I refl))
  Move-Steps {s = s} I (unlock q h) =
      unseen before (written q h) (back q h) after s.factory s.factory refl refl
        (all_ended-same before _ _ after _ (λ n. refl))

Step-Steps :
    {A : Policy} {s t : System}
    → IsExclusive s
    → Step A s t
    → Steps (atomic_system s) (atomic_system t)
Step-Steps I (moves (run before after m)) = Move-Steps before after I m
Step-Steps I (arrive s q plain) = one_taken (Race.arrive (atomic_system s) q plain)

extend : {r s t : Race.System} → Race.Reach r s → Steps s t → Race.Reach r t
extend h none_taken = h
extend h (one_taken st) = Race.next h st

-- However calls of `ManagerFor` interleave with their locks from an empty cache on, whichever
-- calls of `RLock` the mutex lets in while a call of `Lock` waits, and whatever the cache holds
-- while it is being written to, the managers, where each call stands, and the cache as the write
-- that is not done yet will leave it, if there is one, are those of an interleaving in which the
-- lookup, and the making of the manager with the write to the cache, are one step each.
pub locks_refine :
    {A : Policy} {s : System} → Reach A idle s → Race.Reach Race.idle (atomic_system s)
locks_refine here = Race.here
locks_refine (next r st) = extend (locks_refine r) (Step-Steps (Reach-IsExclusive r) st)

-- However calls of `ManagerFor` interleave from an empty cache on, lock by lock, where accounts
-- and regions hold no slash, a call that is back has a manager that was made, and that manager
-- has the account and the region of the call's own request. This holds whichever calls of `RLock`
-- the mutex lets in while a call of `Lock` waits.
pub locked_manager :
    {A : Policy} (s : System) (q : Request) (h : ℕ)
    → Reach A idle s
    → Has (back q h) s.calls
    → (m : ResourceManager) × (get_elem? s.shared.factory.made h ≡ some m)
      × (m.aws_account_id ≡ q.id)
      × (m.aws_region ≡ q.region)
locked_manager s q h r b =
    returned_manager (atomic_system s) q h (locks_refine r) (Has-map atomic (back q h) s.calls b)
