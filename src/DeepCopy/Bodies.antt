-- ===== src/DeepCopy/Bodies.antt =====
-- The statements of a `DeepCopyInto` against the fields of its type.
use mathlib.Core.List.{append-nil}
use ack_networkmanager_contr.Prelude.{
  String, Bool, true, false, ◌≡◌, refl, ap, ◌∙◌, Option, none, some, [], ◌∷◌, ◌||◌, ◌==◌, eq_refl,
  done, panic, Outcome,
}
use ack_networkmanager_contr.DeepCopy.{
  Kind, scalar, no_fields, field, Value, text, end, named, Heap, Mem, continue, ◌>>=◌, pure, Body,
  get_field, set_field, assign, fill, deep_copy_into,
}
use ack_networkmanager_contr.DeepCopy.Trees.{no_members, by_value, member, Copies, both}

abbrev assigns : String → Body → Bool
assigns n [] = false
assigns n ((m, f) ∷ b) = n == m || assigns n b

-- The statements are those of the fields, in their order: each copies its field deeply, and a field
-- without a statement is no pointer.
pub data Covers : Kind → Body → Type 0 where
  finished : Covers no_fields []
  assigned :
      {n : String} {k ks : Kind} {f : Value → Mem} {b : Body}
      → Copies k f
      → Covers ks b
      → assigns n b ≡ false
      → Covers (field n k ks) ((n, f) ∷ b)
  by_assignment :
      {n : String} {ks : Kind} {b : Body}
      → Covers ks b
      → assigns n b ≡ false
      → Covers (field n scalar ks) b

or_false : (a b : Bool) → (a || b) ≡ false → (a ≡ false) × (b ≡ false)
or_false true b e = cc
or_false false b e = (refl, e)

get_field-other :
    (n m : String) (v vs : Value) → (n == m) ≡ false → get_field m (named n v vs) ≡ get_field m vs
unfolding get_field
get_field-other n m v vs e = rw e refl

get_field-own : (n : String) (v vs : Value) → get_field n (named n v vs) ≡ some v
unfolding get_field
get_field-own n v vs = rw (eq_refl n) refl

set_field-other :
    (n m : String) (u v vs : Value)
    → (n == m) ≡ false
    → set_field m u (named n v vs) ≡ named n v (set_field m u vs)
unfolding set_field
set_field-other n m u v vs e = rw e refl

set_field-own : (n : String) (u v vs : Value) → set_field n u (named n v vs) ≡ named n u vs
unfolding set_field
set_field-own n u v vs = rw (eq_refl n) refl

-- What statements for other fields do to a struct, they do behind its first field.
abbrev Behind : String → Body → Value → Value → Value → Type 0
Behind n b v u from =
    (out : Value) (h : Heap)
    → fill b (named n v from) (named n u out) h ≡ (fill b from out >>= λ w. pure (named n u w)) h

Behind-run :
    (n m : String) (b : Body) (v u from out : Value) (o : Outcome (Value × Heap))
    → (n == m) ≡ false
    → Behind n b v u from
    → continue (continue o (λ w. pure (set_field m w (named n u out)))) (fill b (named n v from))
      ≡ continue
          (continue (continue o (λ w. pure (set_field m w out))) (fill b from))
          (λ w. pure (named n u w))
Behind-run n m b v u from out (done (w, h)) other rest =
    ap (λ x. fill b (named n v from) x h) (set_field-other n m w u out other)
    ∙ rest (set_field m w out) h
Behind-run n m b v u from out (panic x) other rest = refl

Behind-assign :
    (n m : String) (f : Value → Mem) (b : Body) (v u from out : Value) (h : Heap) (g : Option Value)
    → (n == m) ≡ false
    → Behind n b v u from
    → (assign m f g (named n u out) >>= fill b (named n v from)) h
      ≡ ((assign m f g out >>= fill b from) >>= λ w. pure (named n u w)) h
Behind-assign n m f b v u from out h none other rest = refl
Behind-assign n m f b v u from out h (some w) other rest =
    Behind-run n m b v u from out (f w h) other rest

fill-Behind : (n : String) (b : Body) (v u from : Value) → assigns n b ≡ false → Behind n b v u from
unfolding fill
fill-Behind n [] v u from e out h = refl
fill-Behind n ((m, f) ∷ b) v u from e out h =
    let (other, rest) = or_false (n == m) (assigns n b) e in
    ap (λ g. (assign m f g (named n u out) >>= fill b (named n v from)) h)
      (get_field-other n m v from other)
    ∙ Behind-assign n m f b v u from out h (get_field m from) other (fill-Behind n b v u from rest)

fill-assigned :
    (n : String) (f : Value → Mem) (b : Body) (v v' vs : Value) (h h' : Heap)
    → assigns n b ≡ false
    → f v h ≡ done (v', h')
    → fill ((n, f) ∷ b) (named n v vs) (named n v vs) h
      ≡ (fill b vs vs >>= λ w. pure (named n v' w)) h'
unfolding fill
fill-assigned n f b v v' vs h h' lacks run =
    ap (λ g. (assign n f g (named n v vs) >>= fill b (named n v vs)) h) (get_field-own n v vs)
    ∙ ap
        (λ o.
          continue (continue o (λ w. pure (set_field n w (named n v vs)))) (fill b (named n v vs)))
        run
    ∙ ap (λ x. fill b (named n v vs) x h') (set_field-own n v' v vs)
    ∙ fill-Behind n b v v' vs lacks vs h'

-- The statements copy the struct deeply.
fill-Copies : {ks : Kind} {b : Body} → Covers ks b → Copies ks (λ v. fill b v v)
unfolding fill
fill-Copies finished lo t _ h no_members = (end, [], rw (append-nil h) refl, no_members)
fill-Copies (assigned {n} {k} {ks} {f} {b} copies all lacks) lo t _ h
      (member {v} {vs} {t = u} {ts} r rs) =
    let (v', vs', h', new, run, runs, r', rs') =
      both f (λ v. fill b v v) k ks h v vs lo u ts (copies lo u v h r)
        (λ h' q. fill-Copies all 0 ts vs h' q) rs in
    (
      named n v' vs',
      new,
      fill-assigned n f b v v' vs h h' lacks run
          ∙ ap (λ o. continue o (λ w. pure (named n v' w))) runs,
      member r' rs',
    )
fill-Copies (by_assignment {n} {ks} {b} all lacks) lo t _ h
      (member {vs = vs} {ts = ts} (by_value s) rs) =
    let v = text s in
    let (vs', new, runs, rs') = fill-Copies all lo ts vs h rs in
    (
      named n v vs',
      new,
      fill-Behind n b v v vs lacks vs h ∙ ap (λ o. continue o (λ w. pure (named n v w))) runs,
      member (by_value s) rs',
    )

pub deep_copy_into-Copies : {ks : Kind} {b : Body} → Covers ks b → Copies ks (deep_copy_into b)
unfolding deep_copy_into
deep_copy_into-Copies all = fill-Copies all
