-- ===== src/Manager/Read.antt =====
-- A `ReadOne` that finds the network: its result, and the tags that it changes.
use ack_networkmanager_contr.Prelude.{
  String, ◌≡◌, refl, ap, ◌∙◌, Option, none, some, List, ◌∷◌, elements, or_else, done, if◌then◌else◌,
}
use ack_networkmanager_contr.Maps.{Range, IsRange}
use ack_networkmanager_contr.Types.{Tag, Condition, GlobalNetwork, Resource, ResourceManager}
use ack_networkmanager_contr.External.{
  Errors, IsErrors, Client, replied, SdkGlobalNetwork, DescribeOutput,
}
use ack_networkmanager_contr.Effects.{World, after_call}
use ack_networkmanager_contr.Conditions.{set_status_defaults}
use ack_networkmanager_contr.Conditions.Report.{IsReport}
use ack_networkmanager_contr.Sdk.{ResourceResult, read_tags, set_read_fields, sdk_find}
use ack_networkmanager_contr.Sdk.Merge.{IsMerged, put_conditions, read-IsMerged, conditions-read}
use ack_networkmanager_contr.Sdk.Find.{describe_one, sdk_find_call, read_reply_found}
use ack_networkmanager_contr.Reporting.{finish}
use ack_networkmanager_contr.Reporting.Success.{on_success_defaults}
use ack_networkmanager_contr.Manager.{guard_ko_lem, or_self, read_one}
use ack_networkmanager_contr.Tagging.{set_tags, mirror_aws_tags}
use ack_networkmanager_contr.Tagging.Laws.{mirror_aws_tags_lem}
use ack_networkmanager_contr.Tags.{is_aws_key}
use ack_networkmanager_contr.Tags.Values.{tag_at}
use ack_networkmanager_contr.Tags.Convert.{IsNormal}

module _ (E : Errors) (L : IsErrors E) (C : Client E.Err) (rm : ResourceManager) (R : Range)
    (r : Resource) (ko : GlobalNetwork) (w : World E.Err C.State) (e : r.ko ≡ some ko) where
  pub read_run :
      (observed : Option Resource) (err : Option E.Err) (w' : World E.Err C.State)
      (result : ResourceResult E.Err)
      → sdk_find E C rm r w ≡ (done (observed, err), w')
      → finish E rm (or_self r (mirror_aws_tags R (some r) observed)) (observed, err) ≡ done result
      → read_one E C rm R r w ≡ (done (result, or_self r (mirror_aws_tags R (some r) observed)), w')
  unfolding read_one
  read_run observed err w' result run end = rw (guard_ko_lem E C rm _ r ko _ e, run, end)

  -- The resource has `ko`, and `ackerr.AWSError` finds the API error that `errors.As` finds.
  -- `range` visits each entry of a map once. If the resource has an identifier and
  -- DescribeGlobalNetworks replies with at least one network, `ReadOne` makes this one call, for
  -- that identifier alone, and records it without error. It returns nil as the error, and a copy
  -- that holds what the first network says, keeps the object's metadata and the identifiers that
  -- the reply leaves out, and has the conditions of a report of a success. The given resource
  -- itself has its tags changed: a key that starts with "aws:" takes the value that was read, if
  -- there is one, and every other key keeps its own; afterwards each of its tags has a key and a
  -- value and no key stands twice.
  pub read_found :
      (id : String) (out : DescribeOutput) (elem : SdkGlobalNetwork) (rest : List SdkGlobalNetwork)
      (s : C.State)
      → IsRange R
      → ko.status.global_network_id ≡ some id
      → C.describe_global_networks (describe_one id) w.aws ≡ (replied out, s)
      → elements out.global_networks ≡ elem ∷ rest
      → (ko' : GlobalNetwork) × (cs : List Condition) × (tags : List Tag) × (read_one E C rm R r w
          ≡ (
            done (
              (some (record { ko = some ko' }), none),
              record { ko = some (set_tags (some tags) ko) },
            ),
            after_call "READ_MANY" "DescribeGlobalNetworks" none s w,
          ))
        × IsMerged rm elem ko ko'
        × (ko'.status.conditions ≡ some cs)
        × IsReport E none (elements ko.status.conditions) cs
        × ((k : String)
            → tag_at k tags ≡ (
                if is_aws_key k
                then or_else
                    (tag_at k (elements (read_tags elem.tags)))
                    (tag_at k (elements ko.spec.tags))
                else tag_at k (elements ko.spec.tags)))
        × IsNormal tags
  unfolding finish
  read_found id out elem rest s RL present replies found =
      let merged = set_read_fields elem ko in
      let seen : Resource = record { ko = some (set_status_defaults rm merged) } in
      let (cs, end, P) = on_success_defaults E rm merged L in
      let (tags, mirrored, normal, reads) =
        mirror_aws_tags_lem R RL r seen ko (set_status_defaults rm merged) e refl in
      (
        put_conditions (some cs) (set_status_defaults rm merged),
        cs,
        tags,
        rw (ap (or_self r) mirrored) at (
            read_run (some seen) none (after_call "READ_MANY" "DescribeGlobalNetworks" none s w)
              (
                some (record {
                  ko = some (put_conditions (some cs) (set_status_defaults rm merged));
                }),
                none,
              )
              (sdk_find_call E C rm r ko w e id (replied out) s present replies
                ∙ rw (read_reply_found E C rm ko out elem rest found))
              end),
        read-IsMerged rm elem ko (some cs),
        refl,
        (rw (conditions-read rm elem ko) at P),
        λ k.
            reads k
            ∙ ap
                (λ ts.
                  if is_aws_key k
                  then or_else (tag_at k (elements ts)) (tag_at k (elements ko.spec.tags))
                  else tag_at k (elements ko.spec.tags))
                (read-IsMerged rm elem ko (some cs)).tags,
        normal,
      )
