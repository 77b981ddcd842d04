-- ===== src/Examples/Interrupted.antt =====
-- Tags at a cloud that refuses to remove any.
use ack_networkmanager_contr.Prelude.{
  Option, String, ◌≡◌, refl, Slice, sym, ◌⊎◌, none, some, or_else, ◌==◌, if◌then◌else◌, done,
}
use ack_networkmanager_contr.External.{SdkTag, Client, Reply, replied, failed}
use ack_networkmanager_contr.SyncTags.{sync_tags}
use ack_networkmanager_contr.SyncTags.Service.{TagService}
use ack_networkmanager_contr.SyncTags.Interrupted.{IsAtomic, sync_tags_interrupted}
use ack_networkmanager_contr.Tags.Values.{tag_at}
use ack_networkmanager_contr.Examples.{Failure, api, in_order, in_order-IsRange}
use ack_networkmanager_contr.Examples.Resources.{
  cloud, cloud_tags, two_tags, old_tags, new_tags, new_tags-IsFilled, old_tags-IsFilled,
  two_tags_agree,
}

abbrev throttled : Client Failure
throttled = record cloud { untag_resource = λ i s. (failed (api "ThrottlingException" "rate"), s) }

replied-ne-failed :
    {Err Out : Type 0} {out : Out} {err : Err}
    → ◌≡◌ {A = Reply Err Out} (replied out) (failed err)
    → ⊥
replied-ne-failed e = cc

abbrev throttled_tags : TagService throttled
throttled_tags = record {
  tags_of = λ s. s;
  after_tag = λ arn m s u success. cloud_tags.after_tag arn m s u success;
  after_untag = λ arn ks s success. absurd (replied-ne-failed (sym success));
}

tag_call_failed :
    (arn : Option String) (tags : Slice SdkTag) (s : throttled.State) (err : Failure)
    → let (r, s') = throttled.tag_resource (record { resource_arn = arn; tags = tags }) s in
      r ≡ failed err → (b k : String) → s' b k ≡ s b k
tag_call_failed none tags s err e b k = refl
tag_call_failed (some arn) tags s err e b k = absurd (replied-ne-failed e)

throttled-IsAtomic : IsAtomic throttled throttled_tags
throttled-IsAtomic = record {
  tag_failed = λ i s err. tag_call_failed i.resource_arn i.tags s err;
  untag_failed = λ i s err e b k. refl;
}

sync_tags_interrupted_example :
    let (r, w') =
      sync_tags in_order throttled "arn:gn-1" (some new_tags) (some old_tags) two_tags in
    (r ≡ done none)
    ⊎ ((err : Failure) × (r ≡ done (some err))
        × (((c k : String) → w'.aws c k ≡ two_tags.aws c k)
            ⊎ ((c k : String)
                → w'.aws c k ≡ (
                    if "arn:gn-1" == c
                    then or_else (tag_at k new_tags) (two_tags.aws c k)
                    else two_tags.aws c k))))
sync_tags_interrupted_example =
    sync_tags_interrupted in_order in_order-IsRange throttled throttled_tags throttled-IsAtomic
      "arn:gn-1" (some new_tags) (some old_tags) two_tags new_tags-IsFilled old_tags-IsFilled
      two_tags_agree
