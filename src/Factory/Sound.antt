-- ===== src/Factory/Sound.antt =====
-- The managers that interleaved calls of `ManagerFor` return.
use mathlib.Core.Path.{subst₂}
use ack_networkmanager_contr.Prelude.{
  Has, length, get_elem?, Bool-cases, inl, inr, ℕ, zero, suc, String, ◌≡◌, refl, sym, ◌∙◌, some,
  List, [], ◌∷◌, ◌++◌, arith, ◌==◌, eq_iff, if◌then◌else◌,
}
use mathlib.Core.Option.{none-ne-some}
use ack_networkmanager_contr.Maps.{get}
use ack_networkmanager_contr.Maps.Laws.{get-nil, get-set}
use ack_networkmanager_contr.Types.{ResourceManager}
use ack_networkmanager_contr.Factory.{Request, rm_id, new_resource_manager, Factory, make_manager}
use ack_networkmanager_contr.Factory.Keys.{rm_id_injective}
use ack_networkmanager_contr.Factory.Race.{
  Call, looking, missed, returned, System, Advance, hit, miss, make, Step, advance, arrive, Reach,
  here, next, idle, IsPlain,
}

-- The handle names a manager that was made for a request with this key.
abbrev pub MadeFor : Factory → String → ℕ → Type 0
MadeFor f key h =
    (p : Request) × IsPlain p
    × (rm_id p ≡ key)
    × (get_elem? f.made h ≡ some (new_resource_manager p))

abbrev pub CallIsSound : Factory → Call → Type 0
CallIsSound f (looking q) = IsPlain q
CallIsSound f (missed q) = IsPlain q
CallIsSound f (returned q h) = IsPlain q × MadeFor f (rm_id q) h

abbrev pub AllSound : Factory → List Call → Type 0
AllSound f [] = Unit
AllSound f (c ∷ cs) = CallIsSound f c × AllSound f cs

pub record IsSound (s : System) : Type 0 where
  pub cached :
      (key : String) (h : ℕ) → get key s.factory.rm_cache ≡ some h → MadeFor s.factory key h
  pub calls_sound : AllSound s.factory s.calls

get_elem?-append :
    (ms ns : List ResourceManager) (h : ℕ) {m : ResourceManager}
    → get_elem? ms h ≡ some m
    → get_elem? (ms ++ ns) h ≡ some m
get_elem?-append [] ns h e = cc
get_elem?-append (m ∷ ms) ns zero e = e
get_elem?-append (m ∷ ms) ns (suc h) e = get_elem?-append ms ns h e

get_elem?-last :
    (ms : List ResourceManager) (m : ResourceManager)
    → get_elem? (ms ++ (m ∷ [])) (length ms) ≡ some m
get_elem?-last [] m = refl
get_elem?-last (n ∷ ms) m = get_elem?-last ms m

-- What was made stays made.
MadeFor-make_manager :
    (q : Request) (f : Factory) (key : String) (h : ℕ)
    → MadeFor f key h
    → MadeFor (make_manager q f) key h
unfolding make_manager
MadeFor-make_manager q f key h (p, plain, e, m) = (p, plain, e, get_elem?-append f.made _ h m)

made_manager :
    (q : Request) (f : Factory) → IsPlain q → MadeFor (make_manager q f) (rm_id q) (length f.made)
unfolding make_manager
made_manager q f plain = (q, plain, refl, get_elem?-last f.made (new_resource_manager q))

abbrev Keeps : Factory → Factory → Type 0
Keeps f f' = (key : String) (h : ℕ) → MadeFor f key h → MadeFor f' key h

Advance-Keeps : {f f' : Factory} {c c' : Call} → Advance f c f' c' → Keeps f f'
Advance-Keeps (hit f q h e) key i m = m
Advance-Keeps (miss f q e) key i m = m
Advance-Keeps (make f q) key i m = MadeFor-make_manager q f key i m

CallIsSound-Keeps : (f f' : Factory) (c : Call) → Keeps f f' → CallIsSound f c → CallIsSound f' c
CallIsSound-Keeps f f' (looking q) keep s = s
CallIsSound-Keeps f f' (missed q) keep s = s
CallIsSound-Keeps f f' (returned q h) keep (plain, s) = (plain, keep (rm_id q) h s)

AllSound-Keeps : (f f' : Factory) (cs : List Call) → Keeps f f' → AllSound f cs → AllSound f' cs
AllSound-Keeps f f' [] keep s = tt
AllSound-Keeps f f' (c ∷ cs) keep (s, ss) =
    (CallIsSound-Keeps f f' c keep s, AllSound-Keeps f f' cs keep ss)

-- The cache after the step, and the call that took it.
abbrev Cached : Factory → Type 0
Cached f = (key : String) (h : ℕ) → get key f.rm_cache ≡ some h → MadeFor f key h

pub get-make_manager :
    (q : Request) (f : Factory) (key : String)
    → get key (make_manager q f).rm_cache
      ≡ (if rm_id q == key then some (length f.made) else get key f.rm_cache)
unfolding make_manager
get-make_manager q f key = get-set key (rm_id q) (length f.made) f.rm_cache

make_manager-Cached : (q : Request) (f : Factory) → IsPlain q → Cached f → Cached (make_manager q f)
make_manager-Cached q f plain cached key h e = elim (Bool-cases (rm_id q == key)) [
  | inl same ↦
      subst₂ (λ k i. MadeFor (make_manager q f) k i) ((eq_iff (rm_id q) key).0 same)
        (ground (arith, get-make_manager q f key)) (made_manager q f plain)
  | inr other ↦
      MadeFor-make_manager q f key h (cached key h (ground (arith, get-make_manager q f key)))
]

Advance-Cached :
    {f f' : Factory} {c c' : Call} → Advance f c f' c' → CallIsSound f c → Cached f → Cached f'
Advance-Cached (hit f q h e) s cached = cached
Advance-Cached (miss f q e) s cached = cached
Advance-Cached (make f q) s cached = make_manager-Cached q f s cached

Advance-CallIsSound :
    {f f' : Factory} {c c' : Call}
    → Advance f c f' c'
    → CallIsSound f c
    → Cached f
    → CallIsSound f' c'
Advance-CallIsSound (hit f q h e) s cached = (s, cached (rm_id q) h e)
Advance-CallIsSound (miss f q e) s cached = s
Advance-CallIsSound (make f q) s cached = (s, made_manager q f s)

AllSound-Advance :
    {f f' : Factory} {c c' : Call} (before after : List Call)
    → Advance f c f' c'
    → Cached f
    → AllSound f (before ++ (c ∷ after))
    → AllSound f' (before ++ (c' ∷ after))
AllSound-Advance {f} {f'} {c} {c'} [] after a cached (s, ss) =
    (Advance-CallIsSound a s cached, AllSound-Keeps f f' after (Advance-Keeps a) ss)
AllSound-Advance {f} {f'} {c} {c'} (b ∷ before) after a cached (s, ss) =
    (CallIsSound-Keeps f f' b (Advance-Keeps a) s, AllSound-Advance before after a cached ss)

AllSound-at :
    (f : Factory) (c : Call) (before after : List Call)
    → AllSound f (before ++ (c ∷ after))
    → CallIsSound f c
AllSound-at f c [] after s = s.0
AllSound-at f c (b ∷ before) after s = AllSound-at f c before after s.1

Step-IsSound : {s t : System} → Step s t → IsSound s → IsSound t
Step-IsSound (advance before after {f} {f'} {c} a) I = record {
  cached = Advance-Cached a (AllSound-at f c before after I.calls_sound) I.cached;
  calls_sound = AllSound-Advance before after a I.cached I.calls_sound;
}
Step-IsSound (arrive s q plain) I = record {
  cached = I.cached;
  calls_sound = (plain, I.calls_sound);
}

Reach-IsSound : {s t : System} → Reach s t → IsSound s → IsSound t
Reach-IsSound here I = I
Reach-IsSound (next r st) I = Step-IsSound st (Reach-IsSound r I)

idle-IsSound : IsSound idle
idle-IsSound = record {
  cached = λ key h e. absurd (none-ne-some h (sym (get-nil key) ∙ e));
  calls_sound = tt;
}

CallIsSound-Has :
    (f : Factory) (c : Call) (cs : List Call) → Has c cs → AllSound f cs → CallIsSound f c
CallIsSound-Has f c [] m _ = elim m [ ]
CallIsSound-Has f c (d ∷ cs) (inl e) (s, ss) = rw e s
CallIsSound-Has f c (d ∷ cs) (inr m) (s, ss) = CallIsSound-Has f c cs m ss

-- However calls of `ManagerFor` interleave from an empty cache on, where accounts and regions
-- hold no slash, a call that has returned has a manager that was made, and that manager has the
-- account and the region of the call's own request.
pub returned_manager :
    (s : System) (q : Request) (h : ℕ)
    → Reach idle s
    → Has (returned q h) s.calls
    → (m : ResourceManager) × (get_elem? s.factory.made h ≡ some m)
      × (m.aws_account_id ≡ q.id)
      × (m.aws_region ≡ q.region)
returned_manager s q h r has =
    let (plain, (p, plain_p, same_key, made)) =
      CallIsSound-Has s.factory (returned q h) s.calls has
        (Reach-IsSound r idle-IsSound).calls_sound in
    let (id, region, _) = rm_id_injective p q plain_p.0 plain_p.1 plain.0 plain.1 same_key in
    (new_resource_manager p, made, id, region)
