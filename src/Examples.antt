-- ===== src/Examples.antt =====
-- Concrete instances of the interfaces, for the tests and the examples of the theorems.
pub mod Resources
pub mod Tags
pub mod Objects
pub mod Locked
pub mod Runs
pub mod Start
pub mod Memory
pub mod Sequences
pub mod Steady
pub mod Settled
pub mod Updates
pub mod Interrupted
use ack_networkmanager_contr.Prelude.{
  ℕ, String, ◌≡◌, ◌↔◌, refl, sym, ◌∙◌, Bool, true, false, not, ◌||◌, ◌&&◌, Option, none, some, List,
  [], ◌∷◌, map, arith, or_else, is_nil, elements, Slice, contains, ◌==◌, eq_iff, eq_refl,
  if◌then◌else◌,
}
use ack_networkmanager_contr.Maps.{GoMap, get, set, NodupKeys, Range, IsRange}
use ack_networkmanager_contr.Maps.Laws.{get-nil, get-cons, get-set, set-NodupKeys}
use ack_networkmanager_contr.Types.{GlobalNetwork, Resource}
use ack_networkmanager_contr.External.{
  Errors, IsErrors, Compare, IsCompare, TagLibrary, IsTagLibrary, Utilities, IsUtilities,
  Finalizers, IsFinalizers,
}

-- `range` in the order in which the keys were set.
abbrev pub in_order : Range
in_order = record { over = λ V m. m }

pub in_order-IsRange : IsRange in_order
in_order-IsRange = record { over-get = λ V m k. refl; over-NodupKeys = λ V m u. u }

-- Errors: those of the API with their code and text, and the runtime's own by name.
pub data Failure : Type 0 where
  api : String → String → Failure
  own : String → Failure

abbrev same_failure : Failure → Failure → Bool
same_failure (api c t) (api d u) = c == d && t == u
same_failure (own n) (own m) = n == m
same_failure _ _ = false

abbrev text_of : Failure → String
text_of (api c t) = t
text_of (own n) = n

abbrev api_error_of : Failure → Option (String × String)
api_error_of (api c t) = some (c, t)
api_error_of (own n) = none

abbrev pub failures : Errors
failures = record {
  Err = Failure;
  ApiError = String × String;
  same = same_failure;
  text = text_of;
  as_api_error = api_error_of;
  error_code = λ e. e.0;
  api_text = λ e. e.1;
  is_terminal_error = λ e. same_failure e (own "terminal");
  aws_error = api_error_of;
  not_found = own "not found";
  terminal_err = own "resource is in terminal condition";
  secret_type_not_supported = own "secret type not supported";
  secret_not_found = own "secret not found";
  missing_name_identifier = own "missing name identifier";
  new_terminal_error = λ e. own "terminal";
  errorf = own;
  needed_after = λ n. own "requeue";
}

pub failures-IsErrors : IsErrors failures
failures-IsErrors = record { aws_error_as = λ e. refl }

-- A delta is the list of its paths, each of which contains itself alone.
abbrev same_value : Option String → Option String → Bool
same_value none none = true
same_value (some v) (some w) = v == w
same_value _ _ = false

same_value_iff : (a b : Option String) → (same_value a b ≡ true) ↔ (a ≡ b)
same_value_iff none none = (λ _. refl, λ _. refl)
same_value_iff none (some w) = (λ e. ground (arith, e), λ e. ground (arith, e))
same_value_iff (some v) none = (λ e. ground (arith, e), λ e. ground (arith, e))
same_value_iff (some v) (some w) =
    (λ e. ground (arith, eq_iff v w), λ e. ground (arith, eq_iff v w, e))

abbrev all_keys : (String → Bool) → GoMap String → Bool
all_keys p [] = true
all_keys p ((k, _) ∷ m) = p k && all_keys p m

all_keys_at :
    (p : String → Bool) (m : GoMap String) (k v : String)
    → all_keys p m ≡ true
    → get k m ≡ some v
    → p k ≡ true
all_keys_at p [] k v h e = ground (arith, get-nil {V = String} k)
all_keys_at p ((j, w) ∷ m) k v h e =
    ground (arith, get-cons k j w m, eq_iff j k, all_keys_at p m k v)

all_keys_of :
    (p : String → Bool) (m : GoMap String) → ((k : String) → p k ≡ true) → all_keys p m ≡ true
all_keys_of p [] h = refl
all_keys_of p ((k, _) ∷ m) h = ground (arith, h k, all_keys_of p m h)

abbrev equal_at : GoMap String → GoMap String → String → Bool
equal_at m n k = same_value (get k m) (get k n)

abbrev maps_equal : GoMap String → GoMap String → Bool
maps_equal m n = all_keys (equal_at m n) m && all_keys (equal_at m n) n

abbrev some_path : (String → Bool) → List String → Bool
some_path p [] = false
some_path p (s ∷ d) = p s || some_path p d

abbrev pub paths : Compare
paths = record {
  Delta = List String;
  new_delta = [];
  add = λ d p x y. p ∷ d;
  different_at = λ d s. some_path (λ p. p == s) d;
  different_except = λ d s. some_path (λ p. not (p == s)) d;
  has_nil_difference = λ a b. not (is_nil a) && is_nil b || is_nil a && not (is_nil b);
  map_string_string_equal = maps_equal;
  path_contains = λ p s. p == s;
}

maps_equal_iff : (m n : GoMap String) → (maps_equal m n ≡ true) ↔ ((k : String) → get k m ≡ get k n)
maps_equal_iff m n = (
  λ e k. read k e (get k m) (get k n) refl refl,
  λ h.
      let all : (k : String) → equal_at m n k ≡ true = λ k. (same_value_iff _ _).1 (h k) in
      ground (arith, all_keys_of (equal_at m n) m all, all_keys_of (equal_at m n) n all),
)
  where
    read :
        (k : String)
        → maps_equal m n ≡ true
        → (a b : Option String) → get k m ≡ a
        → get k n ≡ b
        → get k m ≡ get k n
    read k e none none p q = p ∙ sym q
    read k e (some v) b p q =
        (same_value_iff _ _).0 (all_keys_at (equal_at m n) m k v (ground (arith, e)) p)
    read k e none (some w) p q =
        (same_value_iff _ _).0 (all_keys_at (equal_at m n) n k w (ground (arith, e)) q)

pub paths-IsCompare : IsCompare paths
paths-IsCompare = record {
  at-new_delta = λ s. refl;
  at-add = λ d p s x y. refl;
  except-new_delta = λ s. refl;
  except-add = λ d p s x y. refl;
  contains_self = eq_refl;
  description_apart = refl;
  tags_apart = refl;
  nil_difference_of_values = λ a b. refl;
  map_equal_iff = maps_equal_iff;
}

-- One default tag.
abbrev merged : GoMap String → GoMap String → GoMap String
merged [] b = b
merged ((k, v) ∷ a) b = set k v (merged a b)

get-merged : (k : String) (a b : GoMap String) → get k (merged a b) ≡ or_else (get k a) (get k b)
get-merged k [] b = ground (arith, get-nil {V = String} k)
get-merged k ((j, v) ∷ a) b =
    ground (arith, get-set k j v (merged a b), get-cons k j v a, get-merged k a b)

merged-NodupKeys : (a b : GoMap String) → NodupKeys a → NodupKeys b → NodupKeys (merged a b)
merged-NodupKeys [] b _ u = u
merged-NodupKeys ((k, v) ∷ a) b (_, t) u = set-NodupKeys k v (merged a b) (merged-NodupKeys a b t u)

abbrev pub one_default : TagLibrary
one_default = record { get_default_tags = λ ko. ("managed", "yes") ∷ []; merge = merged }

pub one_default-IsTagLibrary : IsTagLibrary one_default
one_default-IsTagLibrary = record {
  get-merge = get-merged;
  merge-NodupKeys = merged-NodupKeys;
  default-NodupKeys = λ ko. (get-nil "managed", tt);
}

abbrev pub plain_utilities : Utilities
plain_utilities = record {
  in_strings = λ s ss. contains ss s;
  set_late_initialized = λ r status text reason. r;
  set_synced = λ r status text reason. r;
}

pub plain_utilities-IsUtilities : IsUtilities plain_utilities
plain_utilities-IsUtilities = record { in_strings_lem = λ s ss. refl }

abbrev without : String → List String → List String
without f [] = []
without f (g ∷ fs) = if f == g then without f fs else g ∷ without f fs

contains-without :
    (f g : String) (fs : List String)
    → contains (without f fs) g ≡ (if f == g then false else contains fs g)
contains-without f g [] = ground arith
contains-without f g (h ∷ fs) =
    ground (arith, eq_iff f g, eq_iff f h, eq_iff h g, contains-without f g fs)

abbrev pub list_finalizers : Finalizers
list_finalizers = record {
  add_finalizer = λ fs f. some (if contains (elements fs) f then elements fs else f ∷ elements fs);
  remove_finalizer = λ fs f. some (without f (elements fs));
}

contains_same : (fs : List String) (f g : String) → f ≡ g → contains fs f ≡ contains fs g
contains_same fs f g e = rw e

add_once :
    (fs : List String) (f g : String)
    → contains (if contains fs f then fs else f ∷ fs) g ≡ (f == g || contains fs g)
add_once fs f g = ground (arith, contains_same fs f g, eq_iff f g)

pub list_finalizers-IsFinalizers : IsFinalizers list_finalizers
list_finalizers-IsFinalizers = record {
  contains-add_finalizer = λ fs f g. add_once (elements fs) f g;
  contains-remove_finalizer = λ fs f g. contains-without f g (elements fs);
}
