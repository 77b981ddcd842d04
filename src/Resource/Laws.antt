-- ===== src/Resource/Laws.antt =====
-- Setting the identifier of a resource, and the read that follows.
use ack_networkmanager_contr.Prelude.{
  String, ◌≡◌, ◌≢◌, inl, inr, refl, false, none, some, done, ◌==◌, eq_iff, Bool-cases,
}
use ack_networkmanager_contr.Maps.{GoMap, get}
use ack_networkmanager_contr.Types.{GlobalNetwork, Resource}
use ack_networkmanager_contr.External.{Errors}
use ack_networkmanager_contr.Sdk.{
  new_list_request_payload, required_fields_missing_from_read_many_input,
}
use ack_networkmanager_contr.Sdk.Find.{describe_one}
use ack_networkmanager_contr.Resource.{set_identifiers, populate_resource_from_annotation}

-- A read of `ko` asks AWS for the network `id` alone.
abbrev pub AsksFor : String → GlobalNetwork → Type 0
AsksFor id ko =
    (required_fields_missing_from_read_many_input ko ≡ false)
    × (new_list_request_payload ko ≡ describe_one id)

module _ (E : Errors) (r : Resource) (ko : GlobalNetwork) (e : r.ko ≡ some ko) where
  -- The resource has `ko`, the fields hold a globalNetworkID, and the given identifier is not
  -- empty. `SetIdentifiers` with the empty identifier returns the error for a missing one and
  -- changes nothing, and with the given one it returns no error, leaves the spec as it is and
  -- makes the next read ask AWS for exactly that identifier; `PopulateResourceFromAnnotation`
  -- returns no error, leaves the spec as it is and makes the next read ask AWS for exactly the
  -- identifier of the fields.
  pub identifiers_lem :
      (id : String) (fields : GoMap String) (f0 : String)
      → id ≢ ""
      → get "globalNetworkID" fields ≡ some f0
      → (set_identifiers E "" r ≡ done (some E.missing_name_identifier, r))
        × ((ko' : GlobalNetwork) × (set_identifiers E id r ≡ done (none, record { ko = some ko' }))
            × AsksFor id ko'
            × (ko'.spec ≡ ko.spec))
        × ((ko' : GlobalNetwork) × (populate_resource_from_annotation E fields r
              ≡ done (none, record { ko = some ko' }))
            × AsksFor f0 ko'
            × (ko'.spec ≡ ko.spec))
  unfolding set_identifiers populate_resource_from_annotation new_list_request_payload
      required_fields_missing_from_read_many_input
  identifiers_lem id fields f0 given present = (
    refl,
    (
      record ko { status = record ko.status { global_network_id = some id } },
      elim (Bool-cases (id == "")) [
        | inl empty ↦ absurd (given ((eq_iff id "").0 empty))
        | inr filled ↦ rw (filled, e)
      ],
      (refl, refl),
      refl,
    ),
    (
      record ko { status = record ko.status { global_network_id = some f0 } },
      rw (present, populate_resource_from_annotation, e),
      (refl, refl),
      refl,
    ),
  )
