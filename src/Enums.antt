-- ===== src/Enums.antt =====
-- apis/v1alpha1/enums.go: the states of a global network, with one of which `IsSynced` compares.
use ack_networkmanager_contr.Prelude.{String}

pub data GlobalNetworkState : Type 0 where
  available : GlobalNetworkState
  deleting : GlobalNetworkState
  pending : GlobalNetworkState
  updating : GlobalNetworkState

abbrev pub global_network_state_text : GlobalNetworkState → String
global_network_state_text available = "AVAILABLE"
global_network_state_text deleting = "DELETING"
global_network_state_text pending = "PENDING"
global_network_state_text updating = "UPDATING"
