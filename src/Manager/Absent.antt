-- ===== src/Manager/Absent.antt =====
-- A `ReadOne` that finds no network, from the reply of AWS to the error and the recorded calls.
use ack_networkmanager_contr.Prelude.{
  String, ◌≡◌, refl, ◌∙◌, Option, none, some, List, [], elements, done, if◌then◌else◌,
}
use mathlib.Core.Option
use ack_networkmanager_contr.Maps.{Range}
use ack_networkmanager_contr.Types.{GlobalNetwork, Resource, ResourceManager}
use ack_networkmanager_contr.External.{
  Errors, IsErrors, Client, Reply, replied, failed, SdkGlobalNetwork, DescribeOutput,
}
use ack_networkmanager_contr.Effects.{World, error_of, after_call}
use ack_networkmanager_contr.Sdk.{ResourceResult, is_not_found, sdk_find}
use ack_networkmanager_contr.Sdk.Find.{
  sdk_find_uncreated, describe_one, sdk_find_call, read_reply_failed, read_reply_empty,
}
use ack_networkmanager_contr.Reporting.Laws.{IsUnique}
use ack_networkmanager_contr.Manager.{or_self, read_one}
use ack_networkmanager_contr.Manager.Crud.{Failed, finish-Failed}
use ack_networkmanager_contr.Tagging.{mirror_aws_tags}
use ack_networkmanager_contr.Manager.Read.{read_run}

-- The request of `ReadOne` and the reply to it, if there is an identifier to ask for.
abbrev pub ask :
    (E : Errors) (C : Client E.Err)
    → GlobalNetwork
    → C.State
    → Option (Reply E.Err DescribeOutput × C.State)
ask E C ko s =
    Option.map (λ id. C.describe_global_networks (describe_one id) s) ko.status.global_network_id

abbrev pub networks {ℓ} :
    {Err : Type 0} {S : Type ℓ} → Option (Reply Err DescribeOutput × S) → List SdkGlobalNetwork
networks none = []
networks (some (failed err, s)) = []
networks (some (replied out, s)) = elements out.global_networks

-- The error of a read that brings no network.
abbrev pub read_error : (E : Errors) {S : Type 0} → Option (Reply E.Err DescribeOutput × S) → E.Err
read_error E (some (failed err, s)) =
    if is_not_found E (E.as_api_error err) then E.not_found else err
read_error E _ = E.not_found

abbrev pub after_ask :
    {Err S : Type 0} → Option (Reply Err DescribeOutput × S) → World Err S → World Err S
after_ask none w = w
after_ask (some (reply, s)) w = after_call "READ_MANY" "DescribeGlobalNetworks" (error_of reply) s w

mirror_none : (R : Range) (r : Resource) → or_self r (mirror_aws_tags R (some r) none) ≡ r
unfolding mirror_aws_tags
mirror_none R r = refl

no_identifier {ℓ κ} :
    {A : Type ℓ} {B : Type κ} (f : A → B) (o : Option A) → Option.map f o ≡ none → o ≡ none
no_identifier f none e = refl
no_identifier f (some a) e = cc

identifier {ℓ κ} :
    {A : Type ℓ} {B : Type κ} {f : A → B} {b : B} (o : Option A)
    → Option.map f o ≡ some b
    → (a : A) × (o ≡ some a) × (f a ≡ b)
identifier none e = cc
identifier (some a) e = (a, refl, cc)

module _ (E : Errors) (L : IsErrors E) (C : Client E.Err) (rm : ResourceManager) (R : Range)
    (r : Resource) (ko : GlobalNetwork) (w : World E.Err C.State) (e : r.ko ≡ some ko) where
  read_run-Failed :
      (err : E.Err) (w' : World E.Err C.State)
      → IsUnique (elements ko.status.conditions)
      → sdk_find E C rm r w ≡ (done (none, some err), w')
      → (result : ResourceResult E.Err) × (read_one E C rm R r w ≡ (done (result, r), w'))
        × Failed E rm ko err result
  read_run-Failed err w' u run =
      let (result, end, F) = finish-Failed E L rm r ko err e u in
      (
        result,
        rw (mirror_none R r) at
            (read_run E L C rm R r ko w e none (some err) w' result run (rw (mirror_none R r) end)),
        F,
      )

  -- The resource has `ko`, and `ackerr.AWSError` finds the API error that `errors.As` finds. No
  -- type of condition stands twice. If the resource has no identifier, `ReadOne` calls neither
  -- AWS nor the metrics and fails with `ackerr.NotFound`, reported on the given resource, which
  -- itself is unchanged.
  pub read_uncreated :
      IsUnique (elements ko.status.conditions)
      → ko.status.global_network_id ≡ none
      → (result : ResourceResult E.Err) × (read_one E C rm R r w ≡ (done (result, r), w))
        × Failed E rm ko E.not_found result
  read_uncreated u absent =
      read_run-Failed E.not_found w u (sdk_find_uncreated E C rm r ko w e absent)

  -- The resource has `ko`, and `ackerr.AWSError` finds the API error that `errors.As` finds. No
  -- type of condition stands twice. If the resource has an identifier and DescribeGlobalNetworks
  -- fails, `ReadOne` records the call with its error and fails: with `ackerr.NotFound` for the
  -- code ResourceNotFoundException, else with that error; it is reported on the given resource,
  -- which itself is unchanged.
  pub read_failed :
      (id : String) (err : E.Err) (s : C.State)
      → IsUnique (elements ko.status.conditions)
      → ko.status.global_network_id ≡ some id
      → C.describe_global_networks (describe_one id) w.aws ≡ (failed err, s)
      → (result : ResourceResult E.Err) × (read_one E C rm R r w
          ≡ (done (result, r), after_call "READ_MANY" "DescribeGlobalNetworks" (some err) s w))
        × Failed E rm ko (if is_not_found E (E.as_api_error err) then E.not_found else err) result
  read_failed id err s u present replies = read_run-Failed _ _ u (
      sdk_find_call E C rm r ko w e id (failed err) s present replies
      ∙ rw (read_reply_failed E C rm ko err))

  -- The resource has `ko`, and `ackerr.AWSError` finds the API error that `errors.As` finds. No
  -- type of condition stands twice. If the resource has an identifier and DescribeGlobalNetworks
  -- replies with no network, `ReadOne` records one call without error and fails with
  -- `ackerr.NotFound`, reported on the given resource, which itself is unchanged.
  pub read_missing :
      (id : String) (out : DescribeOutput) (s : C.State)
      → IsUnique (elements ko.status.conditions)
      → ko.status.global_network_id ≡ some id
      → C.describe_global_networks (describe_one id) w.aws ≡ (replied out, s)
      → elements out.global_networks ≡ []
      → (result : ResourceResult E.Err) × (read_one E C rm R r w
          ≡ (done (result, r), after_call "READ_MANY" "DescribeGlobalNetworks" none s w))
        × Failed E rm ko E.not_found result
  read_missing id out s u present replies empty = read_run-Failed _ _ u (
      sdk_find_call E C rm r ko w e id (replied out) s present replies
      ∙ rw (read_reply_empty E C rm ko out empty))

  read_unanswered :
      (id : String) (reply : Reply E.Err DescribeOutput) (s : C.State)
      → IsUnique (elements ko.status.conditions)
      → ko.status.global_network_id ≡ some id
      → C.describe_global_networks (describe_one id) w.aws ≡ (reply, s)
      → networks {S = C.State} (some (reply, s)) ≡ []
      → (result : ResourceResult E.Err) × (read_one E C rm R r w
          ≡ (done (result, r), after_ask {S = C.State} (some (reply, s)) w))
        × Failed E rm ko (read_error E {S = C.State} (some (reply, s))) result
  read_unanswered id (failed err) s u present replies empty = read_failed id err s u present replies
  read_unanswered id (replied out) s u present replies empty =
      read_missing id out s u present replies empty

  -- The resource has `ko`, and `ackerr.AWSError` finds the API error that `errors.As` finds. No
  -- type of condition stands twice. If the resource has no identifier, `ReadOne` calls neither
  -- AWS nor the metrics; else it calls DescribeGlobalNetworks for that identifier once and
  -- records the call with its error, if any. If this brings no network it fails, on the given
  -- resource, which itself is unchanged, with the conditions of a report of the error: without an
  -- identifier, for a reply with no network and for an error with the code
  -- ResourceNotFoundException the error is `ackerr.NotFound`, for any other error that error;
  -- `ackerr.Terminal` is returned in place of a terminal one.
  pub read_nothing :
      (asked : Option (Reply E.Err DescribeOutput × C.State))
      → IsUnique (elements ko.status.conditions)
      → ask E C ko w.aws ≡ asked
      → networks asked ≡ []
      → (result : ResourceResult E.Err) × (read_one E C rm R r w
          ≡ (done (result, r), after_ask asked w))
        × Failed E rm ko (read_error E asked) result
  read_nothing none u asks empty = read_uncreated u (
      no_identifier (λ id. C.describe_global_networks (describe_one id) w.aws)
        ko.status.global_network_id asks)
  read_nothing (some (reply, s)) u asks empty =
      let (id, present, replies) = identifier ko.status.global_network_id asks in
      read_unanswered id reply s u present replies empty
