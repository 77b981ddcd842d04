-- ===== src/Examples/Objects.antt =====
-- Examples of the theorems on the factory of managers, on identifiers and on marks.
use ack_networkmanager_contr.Prelude.{
  arith, String, ◌≡◌, ◌≢◌, refl, true, false, ◌||◌, none, some, [], ◌∷◌, contains, ◌==◌,
  if◌then◌else◌, done,
}
use ack_networkmanager_contr.Maps.{get}
use ack_networkmanager_contr.Types.{GlobalNetwork}
use ack_networkmanager_contr.Factory.{Request}
use ack_networkmanager_contr.Factory.Race.{IsPlain}
use ack_networkmanager_contr.Resource.{set_identifiers, populate_resource_from_annotation}
use ack_networkmanager_contr.Resource.Laws.{AsksFor, identifiers_lem}
use ack_networkmanager_contr.Descriptor.{
  finalizer_string, mark_managed, mark_unmanaged, mark_adopted,
}
use ack_networkmanager_contr.Descriptor.Laws.{finalizers_of, Marked, Adopted, marks_lem}
use ack_networkmanager_contr.Examples.{failures, list_finalizers, list_finalizers-IsFinalizers}
use ack_networkmanager_contr.Examples.Resources.{created, uncreated, of_network}

-- Two requests with one key, whose partitions differ, and one with an account of its own.
abbrev pub request : Request
request = record { id = "1"; region = "us"; role_arn = "role"; partition = "aws" }

abbrev pub request_again : Request
request_again = record request { partition = "aws-cn" }

pub request-IsPlain : IsPlain request
request-IsPlain =
    ((λ e. omega (arith, e), tt), (λ e. omega (arith, e), (λ e. omega (arith, e), tt)))

pub request_again-IsPlain : IsPlain request_again
request_again-IsPlain = request-IsPlain

abbrev network_id : String
network_id = "gn-1"

network_id-given : network_id ≢ ""
network_id-given e = cc

identifiers_lem_example :
    (set_identifiers failures "" (of_network uncreated)
      ≡ done (some failures.missing_name_identifier, (of_network uncreated)))
    × ((ko' : GlobalNetwork) × (set_identifiers failures network_id (of_network uncreated)
          ≡ done (none, record { ko = some ko' }))
        × AsksFor network_id ko'
        × (ko'.spec ≡ uncreated.spec))
    × ((ko' : GlobalNetwork) × (populate_resource_from_annotation failures
            (("globalNetworkID", "gn-1") ∷ [])
            (of_network uncreated)
          ≡ done (none, record { ko = some ko' }))
        × AsksFor "gn-1" ko'
        × (ko'.spec ≡ uncreated.spec))
unfolding get
identifiers_lem_example =
    identifiers_lem failures (of_network uncreated) uncreated refl network_id
      (("globalNetworkID", "gn-1") ∷ []) "gn-1" network_id-given refl

abbrev adopted : String
adopted = "services.k8s.aws/adopted"

marks_lem_example :
    Marked
      (mark_managed list_finalizers (of_network created))
      created
      true
      (λ g. finalizer_string == g || contains (finalizers_of created) g)
    × Marked
        (mark_unmanaged list_finalizers (of_network created))
        created
        false
        (λ g. if finalizer_string == g then false else contains (finalizers_of created) g)
    × Adopted adopted (mark_adopted adopted (of_network created)) created
marks_lem_example =
    marks_lem list_finalizers list_finalizers-IsFinalizers (of_network created) created refl adopted
