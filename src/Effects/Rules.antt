-- ===== src/Effects/Rules.antt =====
-- Rules for code over AWS and the metrics: what holds of a result, and which calls were recorded.
use mathlib.Core.List.Sublist
use mathlib.Core.List.{Sublist, nil-sublist, append-nil, append_assoc}
use ack_networkmanager_contr.Prelude.{
  String, ◌≡◌, refl, sym, ap, ◌∙◌, Option, Bool, true, false, List, [], ◌∷◌, ◌++◌, map, Outcome,
  done, panic, if◌then◌else◌,
}
use ack_networkmanager_contr.Effects.{ApiCall, World, M, ◌>>=◌, lift, continue}

-- `P` holds of the value, unless the code panics.
abbrev pub OnDone : {A : Type 0} → (A → Type 0) → Outcome A → Type 0
OnDone P (done a) = P a
OnDone P (panic e) = Unit

any-OnDone : {A : Type 0} (r : Outcome A) → OnDone (λ _. Unit {0}) r
any-OnDone (done a) = tt
any-OnDone (panic e) = tt

abbrev pub op_ids : {Err : Type 0} → List (ApiCall Err) → List String
op_ids calls = map (λ c. c.op_id) calls

-- The metrics grew by calls with these operations, in this order, of which any may be missing.
abbrev pub Grows : {Err : Type 0} → List String → List (ApiCall Err) → List (ApiCall Err) → Type 0
Grows {Err} ids before after =
    (calls : List (ApiCall Err)) × (after ≡ before ++ calls) × Sublist (op_ids calls) ids

module _ {Err : Type 0} where
  pub same-Grows : (ids : List String) (before : List (ApiCall Err)) → Grows ids before before
  same-Grows ids before = ([], sym (append-nil before), nil-sublist ids)

  op_ids-append : (a b : List (ApiCall Err)) → op_ids (a ++ b) ≡ op_ids a ++ op_ids b
  op_ids-append [] b = refl
  op_ids-append (c ∷ a) b = ap (λ x. c.op_id ∷ x) (op_ids-append a b)

  Grows-append :
      (xs ys : List String) (u v w : List (ApiCall Err))
      → Grows xs u v
      → Grows ys v w
      → Grows (xs ++ ys) u w
  Grows-append xs ys u v w (a, ea, sa) (b, eb, sb) = (
    a ++ b,
    eb ∙ ap (λ x. x ++ b) ea ∙ append_assoc u a b,
    rw (op_ids-append a b) (Sublist.append sa sb),
  )

-- The metrics after `record_api_call`.
pub one-Grows :
    {Err : Type 0} (op_type op_id : String) (err : Option Err) (before : List (ApiCall Err))
    → Grows
        (op_id ∷ [])
        before
        (before ++ (record { op_type = op_type; op_id = op_id; err = err } ∷ []))
one-Grows op_type op_id err before =
    (record { op_type = op_type; op_id = op_id; err = err } ∷ [], refl, Sublist.refl (op_id ∷ []))

module _ {Err State : Type 0} where
  -- From every world, `P` holds of the result of the code.
  abbrev pub Ensures : {A : Type 0} → (A → Type 0) → M Err State A → Type 0
  Ensures P m = (w : World Err State) → OnDone P (m w).0

  Ensures-continue :
      {A B : Type 0} (P : A → Type 0) (Q : B → Type 0) (r : Outcome A) (f : A → M Err State B)
      (w : World Err State)
      → OnDone P r
      → ((a : A) → P a → Ensures Q (f a))
      → OnDone Q (continue r f w).0
  Ensures-continue P Q (done a) f w p k = k a p w
  Ensures-continue P Q (panic e) f w p k = tt

  pub Ensures-bind :
      {A B : Type 0} {P : A → Type 0} (Q : B → Type 0) (m : M Err State A) (f : A → M Err State B)
      → Ensures P m
      → ((a : A) → P a → Ensures Q (f a))
      → Ensures Q (m >>= f)
  Ensures-bind {A} {B} {P} Q m f h k w = Ensures-continue P Q (m w).0 f (m w).1 (h w) k

  -- A bind of which nothing is known but that its second part is sound.
  pub any_bind-Ensures :
      {A B : Type 0} (Q : B → Type 0) (m : M Err State A) (f : A → M Err State B)
      → ((a : A) → Ensures Q (f a))
      → Ensures Q (m >>= f)
  any_bind-Ensures Q m f k = Ensures-bind Q m f (λ w. any-OnDone (m w).0) (λ a _. k a)

  pub lift_bind-Ensures :
      {A B : Type 0} (Q : B → Type 0) (r : Outcome A) (f : A → M Err State B)
      → ((a : A) → Ensures Q (f a))
      → Ensures Q (lift r >>= f)
  lift_bind-Ensures Q r f k = any_bind-Ensures Q (lift r) f k

  -- From every world, and also if it panics, the code records at most these calls.
  abbrev pub Records : {A : Type 0} → List String → M Err State A → Type 0
  Records ids m = (w : World Err State) → Grows ids w.metrics (m w).1.metrics

  pub if-Records :
      {A : Type 0} (ids : List String) (b : Bool) (m n : M Err State A)
      → Records ids m
      → Records ids n
      → Records ids (if b then m else n)
  if-Records ids true m n h k w = h w
  if-Records ids false m n h k w = k w

  Records-continue :
      {A B : Type 0} (xs ys : List String) (before : List (ApiCall Err)) (r : Outcome A)
      (f : A → M Err State B) (w : World Err State)
      → Grows xs before w.metrics
      → ((a : A) → Records ys (f a))
      → Grows (xs ++ ys) before (continue r f w).1.metrics
  Records-continue xs ys before (done a) f w g k =
      Grows-append xs ys before w.metrics (f a w).1.metrics g (k a w)
  Records-continue xs ys before (panic e) f w g k =
      Grows-append xs ys before w.metrics w.metrics g (same-Grows ys w.metrics)

  pub Records-bind :
      {A B : Type 0} {xs ys : List String} (m : M Err State A) (f : A → M Err State B)
      → Records xs m
      → ((a : A) → Records ys (f a))
      → Records (xs ++ ys) (m >>= f)
  Records-bind {A} {B} {xs} {ys} m f h k w =
      Records-continue xs ys w.metrics (m w).0 f (m w).1 (h w) k

  pub lift_bind-Records :
      {A B : Type 0} {ids : List String} (r : Outcome A) (f : A → M Err State B)
      → ((a : A) → Records ids (f a))
      → Records ids (lift r >>= f)
  lift_bind-Records r f k = Records-bind {xs = []} (lift r) f (λ w. same-Grows [] w.metrics) k

  -- From every world, `Q` holds of AWS behind the code if it holds before.
  abbrev pub Preserves : {A : Type 0} → (State → Type 0) → M Err State A → Type 0
  Preserves Q m = (w : World Err State) → Q w.aws → Q (m w).1.aws

  Preserves-continue :
      {A B : Type 0} (Q : State → Type 0) (r : Outcome A) (f : A → M Err State B)
      (w : World Err State)
      → Q w.aws
      → ((a : A) → Preserves Q (f a))
      → Q (continue r f w).1.aws
  Preserves-continue Q (done a) f w q k = k a w q
  Preserves-continue Q (panic e) f w q k = q

  pub Preserves-bind :
      {A B : Type 0} (Q : State → Type 0) (m : M Err State A) (f : A → M Err State B)
      → Preserves Q m
      → ((a : A) → Preserves Q (f a))
      → Preserves Q (m >>= f)
  Preserves-bind Q m f h k w q = Preserves-continue Q (m w).0 f (m w).1 (h w q) k

  pub lift_bind-Preserves :
      {A B : Type 0} (Q : State → Type 0) (r : Outcome A) (f : A → M Err State B)
      → ((a : A) → Preserves Q (f a))
      → Preserves Q (lift r >>= f)
  lift_bind-Preserves Q r f k w q = Preserves-continue Q r f w q k

  pub if-Preserves :
      {A : Type 0} (Q : State → Type 0) (b : Bool) (m n : M Err State A)
      → Preserves Q m
      → Preserves Q n
      → Preserves Q (if b then m else n)
  if-Preserves Q true m n h k = h
  if-Preserves Q false m n h k = k
