-- ===== src/Examples/Sequences.antt =====
-- Examples of the theorems on sequences of operations and on the calls that they record.
use ack_networkmanager_contr.Prelude.{◌≡◌, refl, none, some, [], ◌∷◌, done}
use ack_networkmanager_contr.Types.{
  Resource, recoverable, terminal, resource_synced, status_true, status_false,
}
use ack_networkmanager_contr.Effects.Rules.{Records}
use ack_networkmanager_contr.Conditions.{update_conditions}
use ack_networkmanager_contr.Conditions.Report.{with_conditions}
use ack_networkmanager_contr.Reporting.{on_error, finish}
use ack_networkmanager_contr.Sdk.{sdk_delete}
use ack_networkmanager_contr.Reporting.Kept.{Holds}
use ack_networkmanager_contr.Manager.{guard_ko, delete, read_one, create, update}
use ack_networkmanager_contr.Manager.Calls.{recorded_calls}
use ack_networkmanager_contr.Manager.Invariant.{derived-Holds}
use ack_networkmanager_contr.Manager.History.{Context, Derived}
use ack_networkmanager_contr.Examples.{
  api, failures, failures-IsErrors, in_order, paths, one_default, list_finalizers, plain_utilities,
}
use ack_networkmanager_contr.Examples.Resources.{
  cloud, two_tags, manager, of_network, created, latest, was_terminal-IsUnique,
}

abbrev context : Context
context = record {
  errors = failures;
  client = cloud;
  manager = manager;
  range = in_order;
  compare = paths;
  tag_library = one_default;
  finalizers = list_finalizers;
  annotation_adopted = "services.k8s.aws/adopted";
  utilities = plain_utilities;
}

abbrev created-Holds : Holds "backbone" "default" (of_network created)
created-Holds = (
  created,
  refl,
  record { same_name = refl; same_namespace = refl; unique = was_terminal-IsUnique },
)

-- The deletion fails, which is reported.
abbrev conflicted : Resource
conflicted = with_conditions manager created (
    record { type = resource_synced; status = status_true; message = none }
    ∷ record { type = terminal; status = status_false; message = none }
    ∷ record { type = recoverable; status = status_true; message = some "in use" }
    ∷ [])

delete_refused :
    (delete failures cloud manager (of_network created) two_tags).0
    ≡ done (some conflicted, some (api "ConflictException" "in use"))
unfolding guard_ko delete sdk_delete finish on_error update_conditions
delete_refused = refl

deletion_refused : Derived context (of_network created) conflicted
deletion_refused =
    Derived.deleted Derived.given (record { world = two_tags; runs = delete_refused })

derived-Holds_example : Holds "backbone" "default" conflicted
derived-Holds_example =
    derived-Holds context "backbone" "default" failures-IsErrors created-Holds deletion_refused

recorded_calls_example :
    Records
      ("DescribeGlobalNetworks" ∷ [])
      (read_one failures cloud manager in_order (of_network created))
    × Records ("CreateGlobalNetwork" ∷ []) (create failures cloud manager (of_network created))
    × Records ("DeleteGlobalNetwork" ∷ []) (delete failures cloud manager (of_network created))
    × Records ("TagResource" ∷ "UntagResource" ∷ "UpdateGlobalNetwork" ∷ []) (
        update failures cloud manager in_order paths
          (of_network created)
          (of_network latest)
          ("Spec.Tags" ∷ []))
recorded_calls_example =
    recorded_calls failures cloud manager in_order paths (of_network created) (of_network created)
      (of_network latest) ("Spec.Tags" ∷ [])
