-- ===== src/Conditions/Views.antt =====
-- A list of conditions read by type: the condition of a type is the last one of that type.
use mathlib.Core.List.{append-nil}
use ack_networkmanager_contr.Prelude.{
  length, ℕ, zero, suc, ◌+◌, String, ◌≡◌, refl, ap, ◌∙◌, true, false, Option, none, some, List, [],
  ◌∷◌, ◌++◌, arith, or_else, is_nil, eq_iff, eq_refl, if◌then◌else◌, Bool-cases, Option-cases, inl,
  inr,
}
use ack_networkmanager_contr.Types.{
  Condition, ConditionType, ConditionStatus, terminal, recoverable, resource_synced, other, is_type,
}
use ack_networkmanager_contr.Conditions.{
  Pointers, note, find_conditions, assign, write_at, write_if, new_condition, write_or_append,
  no_pointers,
}

pub is_type_refl : (t : ConditionType) → is_type t t ≡ true
is_type_refl (other s) = eq_refl s
is_type_refl _ = refl

pub is_type_sound : (t u : ConditionType) → is_type t u ≡ true → t ≡ u
is_type_sound (other s) (other t) h = ap other ((eq_iff s t).0 h)
is_type_sound _ _ h = ground arith

is_type_apart :
    (t u v : ConditionType) → is_type t u ≡ true → is_type u v ≡ false → is_type t v ≡ false
is_type_apart t u v same apart = rw (is_type_sound t u same) apart

-- The last condition of a type, and its index.
abbrev pub last_of : ConditionType → List Condition → Option Condition
last_of t [] = none
last_of t (c ∷ cs) = or_else (last_of t cs) (if is_type c.type t then some c else none)

abbrev pub next : Option ℕ → Option ℕ
next none = none
next (some i) = some (suc i)

abbrev pub last_index : ConditionType → List Condition → Option ℕ
last_index t [] = none
last_index t (c ∷ cs) = or_else (next (last_index t cs)) (if is_type c.type t then some 0 else none)

abbrev pub written : ConditionStatus → Option String → Option Condition → Option Condition
written s m none = none
written s m (some c) = some (assign s m c)

abbrev pub types : List Condition → List ConditionType
types [] = []
types (c ∷ cs) = c.type ∷ types cs

pub is_nil-last_index :
    (t : ConditionType) (cs : List Condition) → is_nil (last_index t cs) ≡ is_nil (last_of t cs)
is_nil-last_index t [] = refl
is_nil-last_index t (c ∷ cs) = ground (arith, is_nil-last_index t cs)

types-write_at :
    (i : ℕ) (s : ConditionStatus) (m : Option String) (cs : List Condition)
    → types (write_at i s m cs) ≡ types cs
unfolding write_at
types-write_at i s m [] = refl
types-write_at zero s m (c ∷ cs) = refl
types-write_at (suc i) s m (c ∷ cs) = ap (λ ts. c.type ∷ ts) (types-write_at i s m cs)

last_index-write_at :
    (u : ConditionType) (i : ℕ) (s : ConditionStatus) (m : Option String) (cs : List Condition)
    → last_index u (write_at i s m cs) ≡ last_index u cs
unfolding write_at
last_index-write_at u i s m [] = refl
last_index-write_at u zero s m (c ∷ cs) = refl
last_index-write_at u (suc i) s m (c ∷ cs) = ground (arith, last_index-write_at u i s m cs)

-- A write to the last condition of a type changes that one alone.
last_of-write_at :
    (t : ConditionType) (i : ℕ) (s : ConditionStatus) (m : Option String) (cs : List Condition)
    → last_index t cs ≡ some i
    → last_of t (write_at i s m cs) ≡ written s m (last_of t cs)
unfolding write_at
last_of-write_at t i s m [] h = cc
last_of-write_at t zero s m (c ∷ cs) h = ground (arith, is_nil-last_index t cs)
last_of-write_at t (suc i) s m (c ∷ cs) h =
    ground (arith, last_of-write_at t i s m cs, is_nil-last_index t cs)

last_of-write_at_other :
    (t u : ConditionType) (i : ℕ) (s : ConditionStatus) (m : Option String) (cs : List Condition)
    → last_index t cs ≡ some i
    → is_type t u ≡ false
    → last_of u (write_at i s m cs) ≡ last_of u cs
unfolding write_at
last_of-write_at_other t u i s m [] h apart = cc
last_of-write_at_other t u zero s m (c ∷ cs) h apart = elim (Bool-cases (is_type c.type t)) [
  | inl hit ↦ rw (is_type_apart c.type t u hit apart)
  | inr miss ↦ ground (arith, is_nil-last_index t cs)
]
last_of-write_at_other t u (suc i) s m (c ∷ cs) h apart =
    ground (arith, last_of-write_at_other t u i s m cs)

-- An appended condition is the last one of its type.
last_of-append :
    (u : ConditionType) (cs : List Condition) (c : Condition)
    → last_of u (cs ++ (c ∷ [])) ≡ (if is_type c.type u then some c else last_of u cs)
last_of-append u [] c = ground arith
last_of-append u (d ∷ cs) c = ground (arith, last_of-append u cs c)

write_at-append :
    (s : ConditionStatus) (m : Option String) (cs : List Condition) (c : Condition)
    → write_at (length cs) s m (cs ++ (c ∷ [])) ≡ cs ++ (assign s m c ∷ [])
unfolding write_at
write_at-append s m [] c = refl
write_at-append s m (d ∷ cs) c = ap (λ rest. d ∷ rest) (write_at-append s m cs c)

types-append :
    (cs : List Condition) (c : Condition) → types (cs ++ (c ∷ [])) ≡ types cs ++ (c.type ∷ [])
types-append [] c = refl
types-append (d ∷ cs) c = ap (λ ts. d.type ∷ ts) (types-append cs c)

abbrev pub or_new : ConditionType → Option Condition → Condition
or_new t none = new_condition t
or_new t (some c) = c

module _ (t : ConditionType) (s : ConditionStatus) (m : Option String) (cs : List Condition) where
  last_of-write_if_self : last_of t (write_if (last_index t cs) s m cs) ≡ written s m (last_of t cs)
  last_of-write_if_self = elim (Option-cases (last_index t cs)) [
    | inl absent ↦ ground (arith, is_nil-last_index t cs)
    | inr (i, e) ↦ ground (arith, last_of-write_at t i s m cs e)
  ]

  last_of-write_or_append_self :
      last_of t (write_or_append t (last_index t cs) s m cs)
      ≡ some (assign s m (or_new t (last_of t cs)))
  last_of-write_or_append_self = elim (Option-cases (last_index t cs)) [
    | inl absent ↦ ground (
      arith,
      is_nil-last_index t cs,
      is_type_refl t,
      write_at-append s m cs (new_condition t),
      last_of-append t cs (assign s m (new_condition t)),
    )
    | inr (i, e) ↦ ground (arith, is_nil-last_index t cs, last_of-write_at t i s m cs e)
  ]

  pub last_of-write_if :
      (u : ConditionType)
      → last_of u (write_if (last_index t cs) s m cs)
        ≡ (if is_type t u then written s m (last_of u cs) else last_of u cs)
  last_of-write_if u = elim (Bool-cases (is_type t u)) [
    | inl same ↦ rw (same, ← is_type_sound t u same) last_of-write_if_self
    | inr apart ↦ elim (Option-cases (last_index t cs)) [
      | inl absent ↦ ground arith
      | inr (i, e) ↦ ground (arith, last_of-write_at_other t u i s m cs e apart)
    ]
  ]

  pub types-write_if : (p : Option ℕ) → types (write_if p s m cs) ≡ types cs
  types-write_if none = refl
  types-write_if (some i) = types-write_at i s m cs

  pub last_index-write_if :
      (u : ConditionType) (p : Option ℕ) → last_index u (write_if p s m cs) ≡ last_index u cs
  last_index-write_if u none = refl
  last_index-write_if u (some i) = last_index-write_at u i s m cs

  pub last_of-write_or_append :
      (u : ConditionType)
      → last_of u (write_or_append t (last_index t cs) s m cs)
        ≡ (if is_type t u then some (assign s m (or_new t (last_of u cs))) else last_of u cs)
  last_of-write_or_append u = elim (Bool-cases (is_type t u)) [
    | inl same ↦ rw (same, ← is_type_sound t u same) last_of-write_or_append_self
    | inr apart ↦ elim (Option-cases (last_index t cs)) [
      | inl absent ↦ ground (
        arith,
        write_at-append s m cs (new_condition t),
        last_of-append u cs (assign s m (new_condition t)),
      )
      | inr (i, e) ↦ ground (arith, last_of-write_at_other t u i s m cs e apart)
    ]
  ]

  pub types-write_or_append :
      types (write_or_append t (last_index t cs) s m cs)
      ≡ types cs ++ (if is_nil (last_of t cs) then t ∷ [] else [])
  types-write_or_append = elim (Option-cases (last_index t cs)) [
    | inl absent ↦ ground (
      arith,
      is_nil-last_index t cs,
      write_at-append s m cs (new_condition t),
      types-append cs (assign s m (new_condition t)),
    )
    | inr (i, e) ↦
        ground (arith, is_nil-last_index t cs, types-write_at i s m cs, append-nil (types cs))
  ]

-- An index counted from `i` on.
abbrev from_index : ℕ → Option ℕ → Option ℕ
from_index i none = none
from_index i (some j) = some (i + j)

abbrev found : ℕ → List Condition → Pointers → Pointers
found i cs p = record {
  terminal_condition = or_else (from_index i (last_index terminal cs)) p.terminal_condition;
  recoverable_condition =
      or_else (from_index i (last_index recoverable cs)) p.recoverable_condition;
  sync_condition = or_else (from_index i (last_index resource_synced cs)) p.sync_condition;
}

found-cons :
    (i : ℕ) (c : Condition) (cs : List Condition) (p : Pointers)
    → found (suc i) cs (note i c p) ≡ found i (c ∷ cs) p
found-cons i c cs p = ground arith

find_conditions-found :
    (i : ℕ) (cs : List Condition) (p : Pointers) → find_conditions i cs p ≡ found i cs p
unfolding find_conditions
find_conditions-found i [] p = refl
find_conditions-found i (c ∷ cs) p =
    find_conditions-found (suc i) cs (note i c p) ∙ found-cons i c cs p

-- The pointers that the loop finds.
pub find_conditions_lem :
    (cs : List Condition)
    → find_conditions 0 cs no_pointers ≡ record {
      terminal_condition = last_index terminal cs;
      recoverable_condition = last_index recoverable cs;
      sync_condition = last_index resource_synced cs;
    }
find_conditions_lem cs = find_conditions-found 0 cs no_pointers ∙ ground arith
