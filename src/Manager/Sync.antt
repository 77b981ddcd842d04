-- ===== src/Manager/Sync.antt =====
-- What `IsSynced` and `LateInitialize` say of a resource.
use ack_networkmanager_contr.Prelude.{
  ◌≡◌, ◌↔◌, refl, ap, sym, Bool, true, false, ◌==◌, Option, none, some, String, [], ◌∷◌, done,
  eq_iff, arith, Option-cases, inl, inr,
}
use ack_networkmanager_contr.Maps.{Range}
use ack_networkmanager_contr.Types.{GlobalNetwork, Resource, ResourceManager}
use ack_networkmanager_contr.External.{Errors, Client, Utilities, IsUtilities}
use ack_networkmanager_contr.Enums.{GlobalNetworkState, global_network_state_text}
use ack_networkmanager_contr.Effects.{World}
use ack_networkmanager_contr.Manager.{is_synced, late_initialize, late_initialize_fields}

-- The answer for a state: AVAILABLE is its only candidate.
abbrev available : Option String → Bool
available none = false
available (some state) = "AVAILABLE" == state

available_iff : (state : Option String) → (available state ≡ true) ↔ (state ≡ some "AVAILABLE")
available_iff none = (λ e. ground (arith, e), λ e. ground (arith, e))
available_iff (some state) =
    (λ e. ap some (sym ((eq_iff "AVAILABLE" state).0 e)), λ e. ap available e)

is_synced_run :
    (U : Utilities) (L : IsUtilities U) (r : Resource) (ko : GlobalNetwork)
    → r.ko ≡ some ko
    → is_synced U r ≡ done (available ko.status.state)
unfolding is_synced
is_synced_run U L r ko e = elim (Option-cases ko.status.state) [
  | inl absent ↦ rw (e, absent)
  | inr (state, present) ↦ rw (e, present, L.in_strings_lem state ("AVAILABLE" ∷ [])) (ground arith)
]

-- If `ackutil.InStrings` tests membership and the resource has `ko`, `IsSynced` returns, and it
-- returns true exactly if the state is AVAILABLE of GlobalNetworkState.
pub is_synced_lem :
    (U : Utilities) (L : IsUtilities U) (r : Resource) (ko : GlobalNetwork)
    → r.ko ≡ some ko
    → (b : Bool) × (is_synced U r ≡ done b)
      × ((b ≡ true)
          ↔ (ko.status.state ≡ some (global_network_state_text GlobalNetworkState.available)))
is_synced_lem U L r ko e =
    (available ko.status.state, is_synced_run U L r ko e, available_iff ko.status.state)

pub late_initialize_lem :
    (E : Errors) (C : Client E.Err) (rm : ResourceManager) (R : Range) (U : Utilities)
    (latest : Resource) (w : World E.Err C.State)
    → late_initialize E C rm R U latest w ≡ ((done (some latest, none)), w)
unfolding late_initialize late_initialize_fields
late_initialize_lem E C rm R U latest w = refl
