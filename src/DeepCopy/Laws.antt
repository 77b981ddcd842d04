-- ===== src/DeepCopy/Laws.antt =====
-- Writing to memory after a deep copy.
use ack_networkmanager_contr.Prelude.{
  length, get_elem?, ℕ, zero, suc, ◌≤◌, ◌<◌, ◌≢◌, ◌≡◌, refl, ◌∙◌, some, List, [], ◌∷◌, ◌++◌, arith,
  done,
}
use ack_networkmanager_contr.DeepCopy.{Kind, Value, Heap, Mem, write, write_all}
use ack_networkmanager_contr.DeepCopy.Trees.{Tree, Reads, Reads-Keeps, get_elem?-append, Copies}

-- Writes at addresses below `n`, and at addresses from `n` on.
abbrev pub AllBelow : ℕ → List (ℕ × Value) → Type 0
AllBelow n [] = Unit
AllBelow n ((a, v) ∷ ws) = (a < n) × AllBelow n ws

abbrev pub AllFrom : ℕ → List (ℕ × Value) → Type 0
AllFrom n [] = Unit
AllFrom n ((a, v) ∷ ws) = (n ≤ a) × AllFrom n ws

get_elem?-write :
    (h : Heap) (a b : ℕ) (v : Value) → a ≢ b → get_elem? (write a v h) b ≡ get_elem? h b
unfolding write
get_elem?-write [] a b v ne = refl
get_elem?-write (u ∷ h) zero zero v ne = absurd (ne refl)
get_elem?-write (u ∷ h) zero (suc b) v ne = refl
get_elem?-write (u ∷ h) (suc a) zero v ne = refl
get_elem?-write (u ∷ h) (suc a) (suc b) v ne = get_elem?-write h a b v (λ e. ne (omega (arith, e)))

get_elem?-write_all_from :
    (ws : List (ℕ × Value)) (h : Heap) (n b : ℕ)
    → AllFrom n ws
    → b < n
    → get_elem? (write_all ws h) b ≡ get_elem? h b
unfolding write_all
get_elem?-write_all_from [] h n b _ lt = refl
get_elem?-write_all_from ((a, v) ∷ ws) h n b (le, all) lt =
    get_elem?-write_all_from ws (write a v h) n b all lt
    ∙ get_elem?-write h a b v (λ e. omega (arith, e))

get_elem?-write_all_below :
    (ws : List (ℕ × Value)) (h : Heap) (n b : ℕ)
    → AllBelow n ws
    → n ≤ b
    → get_elem? (write_all ws h) b ≡ get_elem? h b
unfolding write_all
get_elem?-write_all_below [] h n b _ le = refl
get_elem?-write_all_below ((a, v) ∷ ws) h n b (lt, all) le =
    get_elem?-write_all_below ws (write a v h) n b all le
    ∙ get_elem?-write h a b v (λ e. omega (arith, e))

lt_of_get_elem? : (h : Heap) (a : ℕ) {c : Value} → get_elem? h a ≡ some c → a < length h
lt_of_get_elem? [] a e = cc
lt_of_get_elem? (v ∷ h) zero e = omega arith
lt_of_get_elem? (v ∷ h) (suc a) e = omega (arith, lt_of_get_elem? h a e)

pub Copies-apart :
    (k : Kind) (f : Value → Mem) (v : Value) (t : Tree) (h : Heap) (ws os : List (ℕ × Value))
    → Copies k f
    → Reads 0 h k v t
    → AllFrom (length h) ws
    → AllBelow (length h) os
    → (v' : Value) × (h' : Heap) × (f v h ≡ done (v', h'))
      × Reads 0 (write_all ws h') k v t
      × Reads (length h) (write_all os h') k v' t
Copies-apart k f v t h ws os copies r from below =
    let (v', fresh, run, r') = copies 0 t v h r in
    (
      v',
      h ++ fresh,
      run,
      Reads-Keeps 0 _ (omega arith)
          (λ a c above e.
            get_elem?-write_all_from ws (h ++ fresh) (length h) a from (lt_of_get_elem? h a e)
            ∙ get_elem?-append h fresh a e)
          r,
      Reads-Keeps (length h) _ (omega arith)
          (λ a c above e. get_elem?-write_all_below os (h ++ fresh) (length h) a below above ∙ e)
          r',
    )
