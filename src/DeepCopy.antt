-- ===== src/DeepCopy.antt =====
-- apis/v1alpha1/zz_generated.deepcopy.go: memory with pointers, and the statements that the
-- generated functions are made of; Instances has these functions.
-- A cell gets its address when it is filled, since nothing reads it before.
pub mod Trees
pub mod Laws
pub mod Shapes
pub mod Bodies
pub mod Instances
pub mod Covered
pub mod Table
pub mod Generated
use ack_networkmanager_contr.Prelude.{
  length, get_elem?, if◌then◌else◌, ◌==◌, ℕ, zero, suc, String, Option, none, some, List, [], ◌∷◌,
  ◌++◌, Outcome, done, panic, nil_dereference,
}

-- The types of the fields: a string, time or number by value, `*T`, the array behind a slice of
-- `T`, and a struct as its fields in order. `[]T` is a pointer to an array.
pub data Kind : Type 0 where
  scalar : Kind
  pointer : Kind → Kind
  array : Kind → Kind
  no_fields : Kind
  field : String → Kind → Kind → Kind

abbrev pub slice : Kind → Kind
slice k = pointer (array k)

-- What a variable or a cell holds; the fields of a struct, with their names, and the elements of an
-- array follow one another.
pub data Value : Type 0 where
  text : String → Value
  null : Value
  address : ℕ → Value
  end : Value
  pair : Value → Value → Value
  named : String → Value → Value → Value

abbrev pub Heap : Type 0
Heap = List Value

-- Code that reads and grows memory, and that may panic.
abbrev pub Mem : Type 0
Mem = Heap → Outcome (Value × Heap)

abbrev pub continue : Outcome (Value × Heap) → (Value → Mem) → Outcome (Value × Heap)
continue (done (v, h)) f = f v h
continue (panic e) f = panic e

infixl 5 ◌>>=◌
abbrev pub ◌>>=◌ : Mem → (Value → Mem) → Mem
◌>>=◌ m f h = continue (m h) f

abbrev pub pure : Value → Mem
pure v h = done (v, h)

-- `*p`
abbrev pub load : ℕ → Mem
load a h = elim (get_elem? h a) [ none ↦ panic nil_dereference | some v ↦ done (v, h) ]

-- `new(T)` or `make([]T, n)`, filled.
abbrev pub alloc : Value → Mem
alloc v h = done (address (length h), h ++ (v ∷ []))

-- `in.n` and `out.n = v`, for a struct.
pub get_field : String → Value → Option Value
get_field n (named m v vs) = if m == n then some v else get_field n vs
get_field n _ = none

pub set_field : String → Value → Value → Value
set_field n u (named m v vs) = if m == n then named m u vs else named m v (set_field n u vs)
set_field n u v = v

-- The statements behind `*out = *in` in a `DeepCopyInto`, in order: each names a field and says how
-- its value in `out` is made from its value in `in`.
abbrev pub Body : Type 0
Body = List (String × (Value → Mem))

-- One statement. No field that the type does not have is named in Go.
abbrev pub assign : String → (Value → Mem) → Option Value → Value → Mem
assign n f none out = λ h. panic nil_dereference
assign n f (some v) out = do v' ← f v; pure (set_field n v' out)

unfoldable pub fill : Body → Value → Value → Mem
unfolding get_field set_field
fill [] from out = pure out
fill ((n, f) ∷ b) from out = do out' ← assign n f (get_field n from) out; fill b from out'

-- `*out = *in`, then the statements.
unfoldable pub deep_copy_into : Body → Value → Mem
unfolding fill
deep_copy_into b from = fill b from from

-- `if in != nil`, with a call that makes the new value.
unfoldable pub if_not_nil : (Value → Mem) → Value → Mem
if_not_nil f null = pure null
if_not_nil f v = f v

-- `if in != nil { *out = new(T); ... }`, where the rest fills the new cell from `*in`; also
-- `DeepCopy`, which returns nil for nil. What is neither nil nor an address is no pointer.
unfoldable pub copy_new : (Value → Mem) → Value → Mem
copy_new f null = pure null
copy_new f (address a) = do v ← load a; v' ← f v; alloc v'
copy_new f _ = λ h. panic nil_dereference

-- `for i := range *in`, with the copy of one element.
unfoldable pub each : (Value → Mem) → Value → Mem
each f end = pure end
each f (pair v vs) = do v' ← f v; vs' ← each f vs; pure (pair v' vs')
each f _ = λ h. panic nil_dereference

-- `if in != nil { *out = make([]T, len(*in)); for i := range *in { ... } }`
unfoldable pub copy_slice : (Value → Mem) → Value → Mem
unfolding copy_new
copy_slice f v = copy_new (each f) v

-- `DeepCopyObject`: the copy as an object, or nil for nil.
abbrev pub as_object : Value → Mem
as_object null = pure null
as_object c = pure c

unfoldable pub deep_copy_object : (Value → Mem) → Value → Mem
deep_copy_object f v = do c ← f v; as_object c

-- `*p = v`
pub write : ℕ → Value → Heap → Heap
write a v [] = []
write zero v (u ∷ h) = v ∷ h
write (suc a) v (u ∷ h) = u ∷ write a v h

pub write_all : List (ℕ × Value) → Heap → Heap
write_all [] h = h
write_all ((a, v) ∷ ws) h = write_all ws (write a v h)
