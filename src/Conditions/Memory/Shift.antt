-- ===== src/Conditions/Memory/Shift.antt =====
-- Conditions that stand behind others in the store, in the order of their pointers.
use mathlib.Core.List.{append-nil, append_assoc}
use ack_networkmanager_contr.Prelude.{
  length, ℕ, zero, suc, ◌+◌, String, ◌≡◌, refl, sym, ap, ◌∙◌, Option, none, some, List, [], ◌∷◌,
  ◌++◌, arith, Outcome, done, panic, inl, inr, ◌>>=◌, ◌⊎◌, nil_dereference,
}
use ack_networkmanager_contr.Types.{Condition, ConditionType, ConditionStatus}
use ack_networkmanager_contr.Conditions.{
  Pointers, note, find_conditions, write_at, write_if, new_condition, write_or_append,
  set_or_appended,
}
use ack_networkmanager_contr.Conditions.Memory.{
  Store, load, load_all, copy_loop, find_loop, made_or_old,
}

-- `n` pointers in a row.
abbrev pub addresses : ℕ → ℕ → List ℕ
addresses a zero = []
addresses a (suc n) = a ∷ addresses (suc a) n

abbrev pub shift : ℕ → Option ℕ → Option ℕ
shift n none = none
shift n (some i) = some (n + i)

abbrev pub shift_pointers : ℕ → Pointers → Pointers
shift_pointers n p = record {
  terminal_condition = shift n p.terminal_condition;
  recoverable_condition = shift n p.recoverable_condition;
  sync_condition = shift n p.sync_condition;
}

pub length-append : (xs ys : List Condition) → length (xs ++ ys) ≡ length xs + length ys
length-append [] ys = omega arith
length-append (x ∷ xs) ys = omega (arith, length-append xs ys)

pub load-append :
    (s fresh : Store) (a : ℕ) {c : Condition} → load a s ≡ done c → load a (s ++ fresh) ≡ done c
unfolding load
load-append [] fresh a e = cc
load-append (d ∷ s) fresh zero e = e
load-append (d ∷ s) fresh (suc a) e = load-append s fresh a e

load_at_length : (s cs : Store) (c : Condition) → load (length s) (s ++ (c ∷ cs)) ≡ done c
unfolding load
load_at_length [] cs c = refl
load_at_length (d ∷ s) cs c = load_at_length s cs c

load-cases :
    (a : ℕ) (s : Store)
    → ((c : Condition) × (load a s ≡ done c)) ⊎ (load a s ≡ panic nil_dereference)
unfolding load
load-cases a [] = inr refl
load-cases zero (c ∷ s) = inl (c, refl)
load-cases (suc a) (c ∷ s) = load-cases a s

-- What a reading of several pointers reads first, and then.
pub load_all-cons :
    (a : ℕ) (ps : List ℕ) (s : Store) {cs : List Condition}
    → load_all (a ∷ ps) s ≡ done cs
    → (c : Condition) × (ds : List Condition) × (cs ≡ c ∷ ds)
      × (load a s ≡ done c)
      × (load_all ps s ≡ done ds)
unfolding load_all
load_all-cons a ps s {cs} e = go (load a s) (load_all ps s) refl refl e
  where
    go :
        (x : Outcome Condition) (y : Outcome (List Condition))
        → load a s ≡ x
        → load_all ps s ≡ y
        → (x >>= λ c. y >>= λ ds. done (c ∷ ds)) ≡ done cs
        → (c : Condition) × (ds : List Condition) × (cs ≡ c ∷ ds)
          × (load a s ≡ done c)
          × (load_all ps s ≡ done ds)
    go (panic p) y ex ey h = cc
    go (done c) (panic p) ex ey h = cc
    go (done c) (done ds) ex ey h = (c, ds, cc, ex, ey)

pub load_all-append :
    (ps : List ℕ) (s fresh : Store) {cs : List Condition}
    → load_all ps s ≡ done cs
    → load_all ps (s ++ fresh) ≡ done cs
unfolding load_all
load_all-append [] s fresh e = e
load_all-append (p ∷ ps) s fresh e =
    let (c, ds, split, first, rest) = load_all-cons p ps s e in
    rw (load-append s fresh p first, load_all-append ps s fresh rest, split) refl

pub copy_loop_lem :
    (ps : List ℕ) (s : Store) {cs : List Condition}
    → load_all ps s ≡ done cs
    → copy_loop ps s ≡ done (addresses (length s) (length cs), s ++ cs)
unfolding copy_loop load_all
copy_loop_lem [] s {cs} e = let none_read : cs ≡ [] = cc in rw (none_read, append-nil s) refl
copy_loop_lem (p ∷ ps) s e =
    let (c, ds, split, first, rest) = load_all-cons p ps s e in
    let copied = copy_loop_lem ps (s ++ (c ∷ [])) (load_all-append ps s (c ∷ []) rest) in
    let longer : length (s ++ (c ∷ [])) ≡ suc (length s) =
      omega (arith, length-append s (c ∷ [])) in
    rw (first, copied, split, longer, append_assoc s (c ∷ []) ds) refl

pub load_all-addresses :
    (s cs : List Condition) → load_all (addresses (length s) (length cs)) (s ++ cs) ≡ done cs
unfolding load_all
load_all-addresses s [] = refl
load_all-addresses s (c ∷ cs) =
    let longer : length (s ++ (c ∷ [])) ≡ suc (length s) =
      omega (arith, length-append s (c ∷ [])) in
    let rest : load_all (addresses (suc (length s)) (length cs)) (s ++ (c ∷ cs)) ≡ done cs =
      rw (longer, append_assoc s (c ∷ []) cs) at (load_all-addresses (s ++ (c ∷ [])) cs) in
    rw (load_at_length s cs c, rest) refl

shift-note :
    (n i : ℕ) (c : Condition) (p : Pointers)
    → note (n + i) c (shift_pointers n p) ≡ shift_pointers n (note i c p)
shift-note n i c p = ground arith

pub find_loop_lem :
    (n i : ℕ) (s cs : List Condition) (p : Pointers)
    → length s ≡ n + i
    → find_loop (addresses (length s) (length cs)) (s ++ cs) (shift_pointers n p)
      ≡ done (shift_pointers n (find_conditions i cs p))
unfolding find_loop find_conditions
find_loop_lem n i s [] p e = refl
find_loop_lem n i s (c ∷ cs) p e =
    let longer : length (s ++ (c ∷ [])) ≡ suc (length s) =
      omega (arith, length-append s (c ∷ [])) in
    let rest =
      find_loop_lem n (suc i) (s ++ (c ∷ [])) cs (note i c p)
        (omega (arith, length-append s (c ∷ []), e)) in
    let here : note (length s) c (shift_pointers n p) ≡ shift_pointers n (note i c p) =
      rw e (shift-note n i c p) in
    rw (load_at_length s cs c, here) (rw (longer, append_assoc s (c ∷ []) cs) at rest)

pub write_at_behind :
    (s cs : List Condition) (i : ℕ) (st : ConditionStatus) (m : Option String)
    → write_at (length s + i) st m (s ++ cs) ≡ s ++ write_at i st m cs
unfolding write_at
write_at_behind [] cs i st m = ap (λ j. write_at j st m cs) (omega arith)
write_at_behind (c ∷ s) cs i st m =
    let behind : suc (length s) + i ≡ suc (length s + i) = omega arith in
    rw behind (ap (λ ds. c ∷ ds) (write_at_behind s cs i st m))

pub write_if_behind :
    (s cs : List Condition) (i : Option ℕ) (st : ConditionStatus) (m : Option String)
    → write_if (shift (length s) i) st m (s ++ cs) ≡ s ++ write_if i st m cs
write_if_behind s cs none st m = refl
write_if_behind s cs (some i) st m = write_at_behind s cs i st m

length-write_at :
    (i : ℕ) (st : ConditionStatus) (m : Option String) (cs : List Condition)
    → length (write_at i st m cs) ≡ length cs
unfolding write_at
length-write_at i st m [] = refl
length-write_at zero st m (c ∷ cs) = refl
length-write_at (suc i) st m (c ∷ cs) = omega (arith, length-write_at i st m cs)

pub length-write_if :
    (i : Option ℕ) (st : ConditionStatus) (m : Option String) (cs : List Condition)
    → length (write_if i st m cs) ≡ length cs
length-write_if none st m cs = refl
length-write_if (some i) st m cs = length-write_at i st m cs

addresses-append : (a n : ℕ) → addresses a n ++ ((a + n) ∷ []) ≡ addresses a (suc n)
addresses-append a zero = ap (λ b. b ∷ []) (omega arith)
addresses-append a (suc n) =
    ap (λ bs. a ∷ bs)
      (ap (λ b. addresses (suc a) n ++ (b ∷ [])) (omega arith) ∙ addresses-append (suc a) n)

-- Where the pointer is nil, the new condition stands last in the store and in the slice.
pub made_or_old_lem :
    (t : ConditionType) (q : Option ℕ) (st : ConditionStatus) (m : Option String)
    (s cs : List Condition)
    → let (a, bs, s') =
        made_or_old t (shift (length s) q) (addresses (length s) (length cs)) (s ++ cs) in
      (bs ≡ addresses (length s) (length (write_or_append t q st m cs)))
      × (some a ≡ shift (length s) (set_or_appended q cs))
      × (write_at a st m s' ≡ s ++ write_or_append t q st m cs)
made_or_old_lem t none st m s cs = (
  rw
      (
        length-append s cs,
        length-write_at (length cs) st m (cs ++ (new_condition t ∷ [])),
        length-append cs (new_condition t ∷ []),
      )
      (addresses-append (length s) (length cs)
        ∙ ap (addresses (length s)) {x = suc (length cs)} (omega arith)),
  ap some (length-append s cs),
  rw (length-append s cs, append_assoc s cs (new_condition t ∷ []))
      (write_at_behind s (cs ++ (new_condition t ∷ [])) (length cs) st m),
)
made_or_old_lem t (some i) st m s cs =
    (ap (addresses (length s)) (sym (length-write_at i st m cs)), refl, write_at_behind s cs i st m)
