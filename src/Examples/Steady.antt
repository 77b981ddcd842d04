-- ===== src/Examples/Steady.antt =====
-- A cloud that fails no call and keeps tags and a description.
use ack_networkmanager_contr.Prelude.{
  String, ◌≡◌, refl, sym, ap, ◌∙◌, Bool-cases, inl, inr, ◌&&◌, Bool, true, false, Option, none,
  some, List, [], ◌∷◌, ◌++◌, map, arith, or_else, elements, contains, ◌==◌, eq_iff, if◌then◌else◌,
}
use ack_networkmanager_contr.Maps.{GoMap, get, NodupKeys}
use ack_networkmanager_contr.Maps.Laws.{get-nil, get-cons}
use ack_networkmanager_contr.Types.{Tag}
use ack_networkmanager_contr.External.{
  CreateInput, SdkTag, SdkGlobalNetwork, UpdateInput, DescribeOutput, NetworkOutput, Reply, replied,
  failed, Client,
}
use ack_networkmanager_contr.Effects.{World}
use ack_networkmanager_contr.Tags.Values.{tag_at, tag_at-append}
use ack_networkmanager_contr.SyncTags.{sdk_tag}
use ack_networkmanager_contr.SyncTags.Service.{TagService, joined}
use ack_networkmanager_contr.Sdk.{sent_tag, read_tags}
use ack_networkmanager_contr.Sdk.Service.{
  NetworkService, CreateService, ReadsOnly, Answers, tag_at-sent_tags,
}
use ack_networkmanager_contr.Examples.{Failure}
use ack_networkmanager_contr.Examples.Resources.{old_tags}

-- The tags of each ARN, of which the last with a key counts, and the description.
pub record Store : Type 0 where
  pub tags : String → List Tag
  pub description : Option String

abbrev with_value : Option String → Option String → List Tag → List Tag
with_value k none ts = ts
with_value k (some v) ts = record { key = k; value = some v } ∷ ts

abbrev valued : List SdkTag → List Tag
valued [] = []
valued (t ∷ ts) = with_value t.key t.value (valued ts)

abbrev kept : Bool → Tag → List Tag → List Tag
kept true t ts = ts
kept false t ts = t ∷ ts

abbrev is_listed : List String → Option String → Bool
is_listed ks none = false
is_listed ks (some k) = contains ks k

abbrev without : List String → List Tag → List Tag
without ks [] = []
without ks (t ∷ ts) = kept (is_listed ks t.key) t (without ks ts)

tag_at-without :
    (k : String) (ks : List String) (ts : List Tag)
    → tag_at k (without ks ts) ≡ (if contains ks k then none else tag_at k ts)
tag_at-without k ks [] = ground arith
tag_at-without k ks (t ∷ ts) = one t.key t.value (tag_at-without k ks ts)
  where
    one :
        (key value : Option String)
        → tag_at k (without ks ts) ≡ (if contains ks k then none else tag_at k ts)
        → tag_at k (without ks (record { key = key; value = value } ∷ ts))
          ≡ (if contains ks k then none else tag_at k (record { key = key; value = value } ∷ ts))
    one none value e = ground (arith, e)
    one (some j) value e = elim (Bool-cases (contains ks j)) [
      | inl gone ↦ rw gone (ground (arith, e, gone, eq_iff j k))
      | inr stays ↦ rw stays (ground (arith, e, stays, eq_iff j k))
    ]

tag_at-valued :
    (k : String) (m : GoMap (Option String))
    → NodupKeys m
    → tag_at k (valued (map sdk_tag m)) ≡ joined (get k m)
tag_at-valued k [] u = ground (arith, get-nil {V = Option String} k)
tag_at-valued k ((j, none) ∷ m) (fresh, u) = elim (Bool-cases (j == k)) [
  | inl same ↦
      (let j_k : j ≡ k = (eq_iff j k).0 same in
        tag_at-valued k m u ∙ ap joined (rw j_k at fresh) ∙ rw (get-cons k j none m, same))
  | inr other ↦ ground (arith, get-cons k j none m, tag_at-valued k m u)
]
tag_at-valued k ((j, some v) ∷ m) (fresh, u) =
    ground (arith, get-cons k j (some v) m, eq_iff j k, tag_at-valued k m u)

abbrev tags_after : Option String → List SdkTag → (String → List Tag) → String → List Tag
tags_after none ts old b = old b
tags_after (some arn) ts old b = if arn == b then old b ++ valued ts else old b

abbrev tags_left : Option String → List String → (String → List Tag) → String → List Tag
tags_left none ks old b = old b
tags_left (some arn) ks old b = if arn == b then without ks (old b) else old b

-- The network "gn-1", which alone is there.
abbrev pub held : Store → SdkGlobalNetwork
held s = record {
  created_at = some 7;
  description = s.description;
  global_network_arn = some "arn:gn-1";
  global_network_id = some "gn-1";
  state = "AVAILABLE";
  tags = some (map sent_tag (s.tags "arn:gn-1"));
}

abbrev pub updated : UpdateInput → Store → Store
updated i s = record s { description = or_else i.description s.description }

abbrev pub made : CreateInput → Store → Store
made i s = record {
  tags = λ b. if "arn:gn-1" == b then elements (read_tags i.tags) else s.tags b;
  description = i.description;
}

abbrev pub steady : Client Failure
steady = record {
  State = Store;
  describe_global_networks = λ i s. (replied (record { global_networks = some (held s ∷ []) }), s);
  create_global_network =
      λ i s. (replied (record { global_network = some (held (made i s)) }), made i s);
  update_global_network =
      λ i s. (replied (record { global_network = some (held (updated i s)) }), updated i s);
  delete_global_network = λ i s. (replied (record { global_network = some (held s) }), s);
  tag_resource =
      λ i s. (replied tt, record s { tags = tags_after i.resource_arn (elements i.tags) s.tags });
  untag_resource = λ i s.
      (replied tt, record s { tags = tags_left i.resource_arn (elements i.tag_keys) s.tags });
}

pub tag_at-tags_after :
    (arn b k : String) (m : GoMap (Option String)) (old : String → List Tag)
    → NodupKeys m
    → tag_at k (tags_after (some arn) (map sdk_tag m) old b)
      ≡ (if arn == b then or_else (joined (get k m)) (tag_at k (old b)) else tag_at k (old b))
tag_at-tags_after arn b k m old u =
    ground (arith, tag_at-append k (old b) (valued (map sdk_tag m)), tag_at-valued k m u)

pub tag_at-tags_left :
    (arn b k : String) (ks : List String) (old : String → List Tag)
    → tag_at k (tags_left (some arn) ks old b)
      ≡ (if arn == b && contains ks k then none else tag_at k (old b))
tag_at-tags_left arn b k ks old = ground (arith, tag_at-without k ks (old b))

abbrev pub steady_tags : TagService steady
steady_tags = record {
  tags_of = λ s arn k. tag_at k (s.tags arn);
  after_tag = λ arn m s u success b k. tag_at-tags_after arn b k m s.tags u;
  after_untag = λ arn ks s success b k. tag_at-tags_left arn b k ks s.tags;
}

abbrev networks : Reply Failure DescribeOutput → List SdkGlobalNetwork
networks (replied out) = elements out.global_networks
networks (failed err) = []

abbrev first : SdkGlobalNetwork → List SdkGlobalNetwork → SdkGlobalNetwork
first n [] = n
first n (m ∷ ms) = m

abbrev pub steady_networks : NetworkService steady steady_tags
steady_networks = record {
  arn_of = λ id. "arn:gn-1";
  description_of = λ s id. s.description;
  description_tagged = λ i s id. refl;
  description_untagged = λ i s id. refl;
  after_update = λ d id s out success. refl;
  tags_updated = λ i s arn k. refl;
  described = λ id s out elem rest success found.
      let same : held s ≡ elem = ap (first (held s)) (ap networks success ∙ found) in
      (
        ap (λ n. n.description) (sym same),
        λ k.
            ap (λ n. tag_at k (elements (read_tags n.tags))) (sym same)
            ∙ tag_at-sent_tags k (some (s.tags "arn:gn-1")),
      );
}

pub steady-ReadsOnly : ReadsOnly steady steady_tags steady_networks
steady-ReadsOnly = record {
  tags_described = λ i s arn k. refl;
  description_described = λ i s id. refl;
}

pub steady-Answers : Answers steady "gn-1"
steady-Answers = record {
  tagging = λ i s. refl;
  untagging = λ i s. refl;
  updating = λ i s e.
      (record { global_network = some (held (updated i s)) }, held (updated i s), refl, refl);
  describing = λ s. (record { global_networks = some (held s ∷ []) }, held s, [], refl, refl);
}

abbrev pub written_network : Reply Failure NetworkOutput → Option SdkGlobalNetwork
written_network (replied out) = out.global_network
written_network (failed err) = none

-- The cloud holds the latest network.
abbrev pub spine : World Failure steady.State
spine = record { aws = record { tags = λ arn. old_tags; description = some "spine" }; metrics = [] }

abbrev pub steady_creation : CreateService steady steady_tags steady_networks
steady_creation = record {
  after_create = λ i s s' out elem id creates network present. (
    ap (λ p. p.1.description) (sym creates),
    λ k. ap (λ p. tag_at k (p.1.tags "arn:gn-1")) (sym creates),
  );
}
