-- ===== src/Factory/Keys.antt =====
-- The cache key of a request, `fmt.Sprintf` of account, region and role in manager_factory.go.
use Prim.Native.Char.{Char, code}
use Prim.Native.String.{[], ◌∷◌, ◌++◌}
use text.Mathlib.TextLemmas.{nil-append, cons-append, cons-eq-cons}
use ack_networkmanager_contr.Prelude.{String, ◌≡◌, ◌≢◌, refl, sym, ap, ◌∙◌}
use ack_networkmanager_contr.Factory.{Request, rm_id}

abbrev slash : Char
slash = "/"

abbrev pub NoSlash : String → Type 0
NoSlash [] = Unit
NoSlash (c ∷ s) = (code c ≢ 47) × NoSlash s

slash-append : (t : String) → "/" ++ t ≡ slash ∷ t
slash-append t = cons-append slash [] t ∙ ap (λ s. slash ∷ s) (nil-append t)

split_at_slash :
    (s s' t t' : String)
    → NoSlash s
    → NoSlash s'
    → s ++ (slash ∷ t) ≡ s' ++ (slash ∷ t')
    → (s ≡ s') × (t ≡ t')
split_at_slash [] [] t t' _ _ h =
    (refl, (cons-eq-cons.0 (sym (nil-append (slash ∷ t)) ∙ h ∙ nil-append (slash ∷ t'))).1)
split_at_slash [] (c ∷ s') t t' _ (ne, _) h = absurd (
    ne (
      ap code (
        sym (cons-eq-cons.0 (sym (nil-append (slash ∷ t)) ∙ h ∙ cons-append c s' (slash ∷ t'))).0)))
split_at_slash (c ∷ s) [] t t' (ne, _) _ h = absurd (
    ne (
      ap code (cons-eq-cons.0 (sym (cons-append c s (slash ∷ t)) ∙ h ∙ nil-append (slash ∷ t'))).0))
split_at_slash (c ∷ s) (d ∷ s') t t' (_, n) (_, n') h =
    let both =
      cons-eq-cons.0 (sym (cons-append c s (slash ∷ t)) ∙ h ∙ cons-append d s' (slash ∷ t')) in
    let (es, et) = split_at_slash s s' t t' n n' both.1 in (cons-eq-cons.1 (both.0, es), et)

-- Two requests whose accounts and regions hold no slash have the same cache key only if account,
-- region and role are the same.
pub rm_id_injective :
    (p q : Request)
    → NoSlash p.id
    → NoSlash p.region
    → NoSlash q.id
    → NoSlash q.region
    → rm_id p ≡ rm_id q
    → (p.id ≡ q.id) × (p.region ≡ q.region) × (p.role_arn ≡ q.role_arn)
unfolding rm_id
rm_id_injective p q pi pr qi qr h =
    let (same_id, rest) = split_at_slash p.id q.id _ _ pi qi (
      rw
        (
          ← slash-append (p.region ++ ("/" ++ p.role_arn)),
          ← slash-append (q.region ++ ("/" ++ q.role_arn)),
        )
        h) in
    let (same_region, same_role) =
      split_at_slash p.region q.region _ _ pr qr
        (rw (← slash-append p.role_arn, ← slash-append q.role_arn) rest) in
    (same_id, same_region, same_role)
