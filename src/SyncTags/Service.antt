-- ===== src/SyncTags/Service.antt =====
-- TagResource and UntagResource as they are documented, and the value of one key under them.
use ack_networkmanager_contr.Prelude.{
  contains, String, ◌≡◌, refl, ◌⊎◌, inl, inr, Bool, true, false, not, ◌&&◌, Option, none, some,
  List, [], ◌∷◌, map, arith, or_else, is_nil, ◌==◌, eq_iff, eq_refl, if◌then◌else◌,
}
use ack_networkmanager_contr.Maps.{GoMap, get, NodupKeys}
use ack_networkmanager_contr.External.{Client, Reply, replied, failed, TagInput, UntagInput}
use ack_networkmanager_contr.SyncTags.{sdk_tag}
use ack_networkmanager_contr.SyncTags.Loops.{pointer, addition}

abbrev pub joined : Option (Option String) → Option String
joined none = none
joined (some v) = v

abbrev pub tag_input : String → GoMap (Option String) → TagInput
tag_input arn m = record { resource_arn = some arn; tags = some (map sdk_tag m) }

abbrev pub untag_input : String → List String → UntagInput
untag_input arn ks = record { resource_arn = some arn; tag_keys = some ks }

-- The documented effect of TagResource and UntagResource, where they succeed.
pub record TagService {Err : Type 0} (C : Client Err) : Type 0 where
  pub tags_of : C.State → String → String → Option String
  pub after_tag :
      (arn : String) (m : GoMap (Option String)) (s : C.State)
      → NodupKeys m
      → (C.tag_resource (tag_input arn m) s).0 ≡ replied tt
      → (b k : String)
      → tags_of (C.tag_resource (tag_input arn m) s).1 b k
        ≡ (if arn == b then or_else (joined (get k m)) (tags_of s b k) else tags_of s b k)
  pub after_untag :
      (arn : String) (ks : List String) (s : C.State)
      → (C.untag_resource (untag_input arn ks) s).0 ≡ replied tt
      → (b k : String)
      → tags_of (C.untag_resource (untag_input arn ks) s).1 b k
        ≡ (if arn == b && contains ks k then none else tags_of s b k)

-- AWS fails a call of TagResource or of UntagResource with this error.
abbrev pub Refused : {Err : Type 0} → Client Err → Err → Type 0
Refused C err =
    ((i : TagInput) × (s : C.State) × ((C.tag_resource i s).0 ≡ failed err))
    ⊎ ((i : UntagInput) × (s : C.State) × ((C.untag_resource i s).0 ≡ failed err))

-- One such call, from a state of AWS to the next one.
abbrev pub TagFailed : {Err : Type 0} (C : Client Err) → C.State → C.State → Err → Type 0
TagFailed C s s' err =
    (i : TagInput) × ((C.tag_resource i s).0 ≡ failed err) × (s' ≡ (C.tag_resource i s).1)

abbrev pub UntagFailed : {Err : Type 0} (C : Client Err) → C.State → C.State → Err → Type 0
UntagFailed C s s' err =
    (i : UntagInput) × ((C.untag_resource i s).0 ≡ failed err) × (s' ≡ (C.untag_resource i s).1)

pub Reply-cases :
    {Err Out : Type 0} (r : Reply Err Out)
    → ((out : Out) × (r ≡ replied out)) ⊎ ((err : Err) × (r ≡ failed err))
Reply-cases (replied out) = inl (out, refl)
Reply-cases (failed err) = inr (err, refl)

-- The addition and the deletion of a key make its value the desired one.
pub settle :
    (a b : Option String)
    → (if not (is_nil b) && is_nil a then none else or_else (joined (addition b (pointer a))) b) ≡ a
settle none b = ground arith
settle (some v) none = refl
settle (some v) (some e) = ground (arith, eq_iff e v)

pub unchanged : (b : Option String) → addition b (pointer b) ≡ none
unchanged none = refl
unchanged (some v) = rw (eq_refl v)

pub contains_eq_nil : (ks : List String) → ((k : String) → contains ks k ≡ false) → ks ≡ []
contains_eq_nil [] h = refl
contains_eq_nil (k ∷ ks) h = ground (arith, h k, eq_refl k)

pub settle_at :
    (same : Bool) (a : Option String) {b old tagged final : Option String}
    {add : Option (Option String)} {del : Bool}
    → final ≡ (if same && del then none else tagged)
    → tagged ≡ (if same then or_else (joined add) old else old)
    → add ≡ addition b (pointer a)
    → del ≡ (not (is_nil b) && is_nil a)
    → (same ≡ true → old ≡ b)
    → final ≡ (if same then a else old)
settle_at true a {b} f t d e h = ground (arith, settle a b, h refl)
settle_at false a f t d e h = ground arith
