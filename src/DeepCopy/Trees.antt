-- ===== src/DeepCopy/Trees.antt =====
-- What a value in memory reads as, and the deep copy of it.
use mathlib.Core.List.{append-nil, append_assoc}
use ack_networkmanager_contr.Prelude.{
  length, get_elem?, ℕ, zero, suc, ◌+◌, ◌≤◌, String, ◌≡◌, refl, ◌∙◌, some, [], ◌∷◌, ◌++◌, arith,
  done,
}
use ack_networkmanager_contr.DeepCopy.{
  Kind, scalar, pointer, array, slice, no_fields, field, Value, text, null, address, end, pair,
  named, Heap, Mem, pure, copy_new, if_not_nil, each, copy_slice, as_object, deep_copy_object,
}

-- A value without its addresses.
pub data Tree : Type 0 where
  leaf : String → Tree
  absent : Tree
  present : Tree → Tree
  empty : Tree
  join : Tree → Tree → Tree

-- In the heap, a value of the type reads as the tree, and every address on the way is `lo` or more.
pub data Reads (lo : ℕ) (h : Heap) : Kind → Value → Tree → Type 0 where
  by_value : (s : String) → Reads lo h scalar (text s) (leaf s)
  nil_pointer : {k : Kind} → Reads lo h (pointer k) null absent
  pointed :
      {k : Kind} {t : Tree} (a : ℕ) (c : Value)
      → lo ≤ a
      → get_elem? h a ≡ some c
      → Reads lo h k c t
      → Reads lo h (pointer k) (address a) (present t)
  no_items : {k : Kind} → Reads lo h (array k) end empty
  item :
      {k : Kind} {v vs : Value} {t ts : Tree}
      → Reads lo h k v t
      → Reads lo h (array k) vs ts
      → Reads lo h (array k) (pair v vs) (join t ts)
  no_members : Reads lo h no_fields end empty
  member :
      {n : String} {k ks : Kind} {v vs : Value} {t ts : Tree}
      → Reads lo h k v t
      → Reads lo h ks vs ts
      → Reads lo h (field n k ks) (named n v vs) (join t ts)

-- The cells of `h` from `lo` on stand in `h'` too.
abbrev Keeps : ℕ → Heap → Heap → Type 0
Keeps lo h h' = (a : ℕ) (c : Value) → lo ≤ a → get_elem? h a ≡ some c → get_elem? h' a ≡ some c

pub Reads-Keeps :
    {lo : ℕ} {h : Heap} {k : Kind} {v : Value} {t : Tree} (lo' : ℕ) (h' : Heap)
    → lo' ≤ lo
    → Keeps lo h h'
    → Reads lo h k v t
    → Reads lo' h' k v t
Reads-Keeps lo' h' le keep (by_value s) = by_value s
Reads-Keeps lo' h' le keep nil_pointer = nil_pointer
Reads-Keeps lo' h' le keep (pointed a c above e r) =
    pointed a c (omega arith) (keep a c above e) (Reads-Keeps lo' h' le keep r)
Reads-Keeps lo' h' le keep no_items = no_items
Reads-Keeps lo' h' le keep (item r rs) =
    item (Reads-Keeps lo' h' le keep r) (Reads-Keeps lo' h' le keep rs)
Reads-Keeps lo' h' le keep no_members = no_members
Reads-Keeps lo' h' le keep (member r rs) =
    member (Reads-Keeps lo' h' le keep r) (Reads-Keeps lo' h' le keep rs)

pub get_elem?-append :
    (h fresh : Heap) (a : ℕ) {c : Value}
    → get_elem? h a ≡ some c
    → get_elem? (h ++ fresh) a ≡ some c
get_elem?-append [] fresh a e = cc
get_elem?-append (v ∷ h) fresh zero e = e
get_elem?-append (v ∷ h) fresh (suc a) e = get_elem?-append h fresh a e

get_elem?-last : (h : Heap) (c : Value) → get_elem? (h ++ (c ∷ [])) (length h) ≡ some c
get_elem?-last [] c = refl
get_elem?-last (v ∷ h) c = get_elem?-last h c

length-append : (h fresh : Heap) → length (h ++ fresh) ≡ length h + length fresh
length-append [] fresh = omega arith
length-append (v ∷ h) fresh = omega (arith, length-append h fresh)

Reads-append :
    {lo : ℕ} {h : Heap} {k : Kind} {v : Value} {t : Tree} (lo' : ℕ) (fresh : Heap)
    → lo' ≤ lo
    → Reads lo h k v t
    → Reads lo' (h ++ fresh) k v t
Reads-append {lo} {h} lo' fresh le r =
    Reads-Keeps lo' (h ++ fresh) le (λ a c above e. get_elem?-append h fresh a e) r

-- The result of a copy: new cells alone, and a value over them that reads as the tree.
abbrev pub Copied : (Value → Mem) → Heap → Kind → Value → Tree → Type 0
Copied f h k v t =
    (v' : Value) × (fresh : Heap) × (f v h ≡ done (v', h ++ fresh))
    × Reads (length h) (h ++ fresh) k v' t

-- The code copies each value of the type deeply.
abbrev pub Copies : Kind → (Value → Mem) → Type 0
Copies k f = (lo : ℕ) (t : Tree) (v : Value) (h : Heap) → Reads lo h k v t → Copied f h k v t

pub pure-Copies : Copies scalar pure
pure-Copies lo t (text s) h (by_value _) =
    (text s, [], rw (append-nil h) refl, rw (append-nil h) (by_value s))
pure-Copies lo t null h r = elim r [ ]
pure-Copies lo t (address a) h r = elim r [ ]
pure-Copies lo t end h r = elim r [ ]
pure-Copies lo t (pair v vs) h r = elim r [ ]
pure-Copies lo t (named n v vs) h r = elim r [ ]

null-Copied :
    (f : Value → Mem) (k : Kind) (h : Heap)
    → f null h ≡ done (null, h)
    → Copied f h (pointer k) null absent
null-Copied f k h e = (null, [], rw (append-nil h) e, nil_pointer)

copy_new-address :
    (f : Value → Mem) (a : ℕ) (c c' : Value) (h h' : Heap)
    → get_elem? h a ≡ some c
    → f c h ≡ done (c', h')
    → copy_new f (address a) h ≡ done (address (length h'), h' ++ (c' ∷ []))
unfolding copy_new
copy_new-address f a c c' h h' e run = ground arith

pub copy_new-Copies : (k : Kind) (f : Value → Mem) → Copies k f → Copies (pointer k) (copy_new f)
unfolding copy_new
copy_new-Copies k f copies lo t null h nil_pointer = null-Copied (copy_new f) k h refl
copy_new-Copies k f copies lo t (address a) h (pointed {t = u} _ c above e r) =
    let (c', g, run, r') = copies lo u c h r in
    (
      address (length (h ++ g)),
      g ++ (c' ∷ []),
      copy_new-address f a c c' h (h ++ g) e run ∙ rw (append_assoc h g (c' ∷ [])) refl,
      rw (← append_assoc h g (c' ∷ [])) (
          pointed _ c' (omega (arith, length-append h g)) (get_elem?-last (h ++ g) c')
            (Reads-append (length h) (c' ∷ []) (omega arith) r')),
    )
copy_new-Copies k f copies lo t (text _) h r = elim r [ ]
copy_new-Copies k f copies lo t end h r = elim r [ ]
copy_new-Copies k f copies lo t (pair v vs) h r = elim r [ ]
copy_new-Copies k f copies lo t (named n v vs) h r = elim r [ ]

pub if_not_nil-Copies :
    (k : Kind) (f : Value → Mem) → Copies (pointer k) f → Copies (pointer k) (if_not_nil f)
unfolding if_not_nil
if_not_nil-Copies k f copies lo t null h nil_pointer = null-Copied (if_not_nil f) k h refl
if_not_nil-Copies k f copies lo t (address a) h r = copies lo t (address a) h r
if_not_nil-Copies k f copies lo t (text _) h r = elim r [ ]
if_not_nil-Copies k f copies lo t end h r = elim r [ ]
if_not_nil-Copies k f copies lo t (pair v vs) h r = elim r [ ]
if_not_nil-Copies k f copies lo t (named n v vs) h r = elim r [ ]

-- Two copies, one behind the other.
pub both :
    (f g : Value → Mem) (k ks : Kind) (h : Heap) (v vs : Value) (lo : ℕ) (t ts : Tree)
    → Copied f h k v t
    → ((h' : Heap) → Reads 0 h' ks vs ts → Copied g h' ks vs ts)
    → Reads lo h ks vs ts
    → (v' : Value) × (vs' : Value) × (h' : Heap) × (fresh : Heap) × (f v h ≡ done (v', h'))
      × (g vs h' ≡ done (vs', h ++ fresh))
      × Reads (length h) (h ++ fresh) k v' t
      × Reads (length h) (h ++ fresh) ks vs' ts
both f g k ks h v vs lo t ts (v', new, run, r) rest rs =
    let (vs', news, runs, rs') = rest (h ++ new) (Reads-append 0 new (omega arith) rs) in
    (
      v',
      vs',
      h ++ new,
      new ++ news,
      run,
      rw (runs, append_assoc h new news) refl,
      rw (← append_assoc h new news) (Reads-append (length h) news (omega arith) r),
      rw (← append_assoc h new news) (
          Reads-Keeps (length h) ((h ++ new) ++ news) (omega (arith, length-append h new))
            (λ a c above e. e) rs'),
    )

each-Copies : (k : Kind) (f : Value → Mem) → Copies k f → Copies (array k) (each f)
unfolding each
each-Copies k f copies lo t end h no_items = (end, [], rw (append-nil h) refl, no_items)
each-Copies k f copies lo t (pair v vs) h (item {t = u} {ts} r rs) =
    let (v', vs', h', new, run, runs, r', rs') =
      both f (each f) k (array k) h v vs lo u ts (copies lo u v h r)
        (λ h' q. each-Copies k f copies 0 ts vs h' q) rs in
    (pair v' vs', new, rw (run, runs), item r' rs')
each-Copies k f copies lo t (text _) h r = elim r [ ]
each-Copies k f copies lo t null h r = elim r [ ]
each-Copies k f copies lo t (address a) h r = elim r [ ]
each-Copies k f copies lo t (named n v vs) h r = elim r [ ]

pub copy_slice-Copies : (k : Kind) (f : Value → Mem) → Copies k f → Copies (slice k) (copy_slice f)
unfolding copy_slice
copy_slice-Copies k f copies = copy_new-Copies (array k) (each f) (each-Copies k f copies)

as_object-pure : (c : Value) (h : Heap) → as_object c h ≡ done (c, h)
as_object-pure null h = refl
as_object-pure _ h = refl

pub deep_copy_object-Copies :
    (k : Kind) (f : Value → Mem) → Copies k f → Copies k (deep_copy_object f)
unfolding deep_copy_object
deep_copy_object-Copies k f copies lo t v h r =
    let (v', new, run, r') = copies lo t v h r in
    (v', new, rw run (as_object-pure v' (h ++ new)), r')
