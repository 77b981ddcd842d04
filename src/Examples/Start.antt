-- ===== src/Examples/Start.antt =====
-- Examples of the theorems on the start of the controller.
use ack_networkmanager_contr.Prelude.{List, ℕ, suc, String, true, false, [], ◌∷◌}
use ack_networkmanager_contr.External.{Reply, replied, failed}
use ack_networkmanager_contr.Factory.{Factory}
use ack_networkmanager_contr.Registration.{Registries, init_registry}
use ack_networkmanager_contr.Startup.{Config, Libraries, Process, main}
use ack_networkmanager_contr.Startup.Laws.{IsEnded, main_lem}

abbrev config : Config
config = record {
  webhook_server_addr = "localhost:9443";
  watch_namespace = "default,team";
  metrics_addr = ":8080";
  enable_leader_election = false;
  leader_election_namespace = "";
  healthz_addr = ":8081";
  enable_webhook_server = true;
}

-- Calls that count themselves in the state; the one webhook cannot be set up.
abbrev counted : {A : Type 0} → A → ℕ → Reply String A × ℕ
counted a n = (replied a, suc n)

-- The registry is the list of what was registered.
abbrev list_registries : Registries
list_registries = record {
  Registry = List Factory;
  new_registry = [];
  register_resource_manager_factory = λ f r. f ∷ r;
  get_resource_manager_factories = λ r. r;
}

abbrev libraries : Libraries
libraries = record {
  State = ℕ;
  Err = String;
  Selectors = String;
  Manager = String;
  StopChan = Unit {0};
  Controller = String;
  Webhook = String;
  read_config = λ n. (config, suc n);
  registries = list_registries;
  registry = λ n. init_registry list_registries;
  validate = λ cfg gvks. counted tt;
  get_host_port = λ address. counted ("localhost", 9443);
  get_watch_namespaces = λ cfg. counted ("default" ∷ "team" ∷ []);
  parse_watch_selectors = λ cfg. counted "";
  new_manager = λ options. counted "manager";
  setup_signal_handler = λ n. (tt, suc n);
  new_service_controller = λ alias group factories. alias;
  get_webhooks = λ n. "conversion" ∷ [];
  uid = λ webhook. webhook;
  setup = λ webhook mgr n. (failed "no certificate", suc n);
  bind_controller_manager = λ sc mgr cfg. counted tt;
  add_healthz_check = λ mgr name. counted tt;
  add_readyz_check = λ mgr name. counted tt;
  start = λ mgr stop_chan. counted tt;
}

-- The process before its start.
abbrev fresh : Process libraries
fresh = record { lib = 0; log = [] }

main_lem_example : let (r, p') = main libraries fresh in IsEnded libraries r p'
main_lem_example = main_lem libraries fresh
