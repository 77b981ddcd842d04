-- ===== src/Startup.antt =====
-- cmd/controller/main.go: the steps of the controller's start. What the steps call is a parameter
-- over the state of the process; the log of the set-up holds its newest entry first.
-- `GetConfigOrDie` is taken to find the configuration of the cluster.
pub mod Laws
use Prim.Native.String.{◌++◌ as ◌<>◌}
use ack_networkmanager_contr.Prelude.{
  ℕ, String, Bool, Option, none, some, List, [], ◌∷◌, map, if◌then◌else◌,
}
use ack_networkmanager_contr.Maps.{GoMap, set}
use ack_networkmanager_contr.Descriptor.{GroupVersionKind}
use ack_networkmanager_contr.Factory.{Factory}
use ack_networkmanager_contr.Registration.{Registries, get_manager_factories, resource_kinds}
use ack_networkmanager_contr.External.{Reply, replied, failed}

-- The fields of `ackcfg.Config` that `main` reads.
pub record Config : Type 0 where
  pub webhook_server_addr : String
  pub watch_namespace : String
  pub metrics_addr : String
  pub enable_leader_election : Bool
  pub leader_election_namespace : String
  pub healthz_addr : String
  pub enable_webhook_server : Bool

-- `ctrlrt.Options`, but for the scheme; `Selectors` are those of the library.
pub record Options (Selectors : Type 0) : Type 0 where
  pub default_namespaces : GoMap (Unit {0})
  pub default_label_selector : Selectors
  pub webhook_port : ℕ
  pub webhook_host : String
  pub metrics_bind_address : String
  pub leader_election : Bool
  pub leader_election_id : String
  pub leader_election_namespace : String
  pub health_probe_bind_address : String
  pub liveness_endpoint_name : String
  pub readiness_endpoint_name : String

pub record Libraries : Type 1 where
  pub State : Type 0
  pub Err : Type 0
  pub Selectors : Type 0
  pub Manager : Type 0
  pub StopChan : Type 0
  pub Controller : Type 0
  pub Webhook : Type 0
  -- `BindFlags`, `flag.Parse` and `SetupLogger`
  pub read_config : State → Config × State
  pub registries : Registries
  -- What the process has registered.
  pub registry : State → registries.Registry
  pub validate : Config → List GroupVersionKind → State → Reply Err (Unit {0}) × State
  pub get_host_port : String → State → Reply Err (String × ℕ) × State
  pub get_watch_namespaces : Config → State → Reply Err (List String) × State
  pub parse_watch_selectors : Config → State → Reply Err Selectors × State
  pub new_manager : Options Selectors → State → Reply Err Manager × State
  pub setup_signal_handler : State → StopChan × State
  pub new_service_controller : String → String → List Factory → Controller
  pub get_webhooks : State → List Webhook
  pub uid : Webhook → String
  pub setup : Webhook → Manager → State → Reply Err (Unit {0}) × State
  pub bind_controller_manager : Controller → Manager → Config → State → Reply Err (Unit {0}) × State
  pub add_healthz_check : Manager → String → State → Reply Err (Unit {0}) × State
  pub add_readyz_check : Manager → String → State → Reply Err (Unit {0}) × State
  pub start : Manager → StopChan → State → Reply Err (Unit {0}) × State

-- `setupLog.Info` and `setupLog.Error`
pub data Entry (Err : Type 0) : Type 0 where
  info : String → Entry Err
  error : Err → String → Entry Err

abbrev pub aws_service_api_group : String
aws_service_api_group = "networkmanager.services.k8s.aws"

abbrev pub aws_service_alias : String
aws_service_alias = "networkmanager"

-- `for _, namespace := range namespaces`
pub watch_loop : List String → GoMap (Unit {0}) → GoMap (Unit {0})
watch_loop [] watched = watched
watch_loop (namespace ∷ namespaces) watched = watch_loop namespaces (set namespace tt watched)

-- A run goes on with a value, or `os.Exit` ends it.
pub data Ending (A : Type 0) : Type 0 where
  goes_on : A → Ending A
  exits : ℕ → Ending A

module _ (L : Libraries) where
  pub record Process : Type 0 where
    pub lib : L.State
    pub log : List (Entry L.Err)

  abbrev pub Run : Type 0 → Type 0
  Run A = Process → Ending A × Process

  abbrev continue : {A B : Type 0} → Ending A → (A → Run B) → Run B
  continue (goes_on a) f p = f a p
  continue (exits n) f p = (exits n, p)

  abbrev pub and_then : {A B : Type 0} → Run A → (A → Run B) → Run B
  and_then m f p = let (r, p') = m p in continue r f p'

  abbrev pub say : String → Run (Unit {0})
  say text p = (goes_on tt, record p { log = info text ∷ p.log })

  -- The reply of a step: its error is logged, and the process exits with 1.
  abbrev pub settle :
      {A : Type 0} → String → Reply L.Err A × L.State → List (Entry L.Err) → Ending A × Process
  settle text (replied a, s) log = (goes_on a, record { lib = s; log = log })
  settle text (failed err, s) log = (exits 1, record { lib = s; log = error err text ∷ log })

  pub attempt : {A : Type 0} → String → (L.State → Reply L.Err A × L.State) → Run A
  attempt text f p = settle text (f p.lib) p.log

  -- The error of a webhook's set-up is logged, and the loop goes on.
  abbrev webhook_log : L.Webhook → Reply L.Err (Unit {0}) → List (Entry L.Err) → List (Entry L.Err)
  webhook_log webhook (replied _) log = log
  webhook_log webhook (failed err) log =
      error err ("unable to register webhook " <> L.uid webhook) ∷ log

  pub setup_webhooks : L.Manager → List L.Webhook → Process → Process
  setup_webhooks mgr [] p = p
  setup_webhooks mgr (webhook ∷ webhooks) p =
      let (reply, s) = L.setup webhook mgr p.lib in
      setup_webhooks mgr webhooks (record { lib = s; log = webhook_log webhook reply p.log })

  -- `if ackCfg.EnableWebhookServer`
  pub webhooks_step : Config → L.Manager → Run (Unit {0})
  webhooks_step cfg mgr p = (
    goes_on tt,
    if cfg.enable_webhook_server then setup_webhooks mgr (L.get_webhooks p.lib) p else p,
  )

  abbrev manager_options : Config → List String → L.Selectors → String × ℕ → Options L.Selectors
  manager_options cfg namespaces selectors (host, port) = record {
    default_namespaces = watch_loop namespaces [];
    default_label_selector = selectors;
    webhook_port = port;
    webhook_host = host;
    metrics_bind_address = cfg.metrics_addr;
    leader_election = cfg.enable_leader_election;
    leader_election_id = "ack-" <> aws_service_api_group;
    leader_election_namespace = cfg.leader_election_namespace;
    health_probe_bind_address = cfg.healthz_addr;
    liveness_endpoint_name = "/healthz";
    readiness_endpoint_name = "/readyz";
  }

  -- From the manager on: the stop channel, the webhooks, the binding, the checks and the start.
  pub run_manager : Config → L.Manager → Run (Unit {0})
  run_manager cfg mgr p =
      let (stop_chan, s) = L.setup_signal_handler p.lib in
      let sc =
        L.new_service_controller aws_service_alias aws_service_api_group
          (get_manager_factories L.registries (L.registry s)) in
      and_then (say "initializing service controller")
        (λ _. and_then (webhooks_step cfg mgr) (λ _.
          and_then
            (attempt "unable bind to controller manager to service controller"
              (L.bind_controller_manager sc mgr cfg))
            (λ _.
              and_then (attempt "unable to set up health check" (L.add_healthz_check mgr "health"))
                (λ _.
                  and_then (attempt "unable to set up ready check" (L.add_readyz_check mgr "check"))
                    (λ _. and_then (say "starting manager") (λ _.
                      attempt "unable to start controller manager" (L.start mgr stop_chan)))))))
        (record p { lib = s })

  pub main : Run (Unit {0})
  main p =
      let (cfg, s) = L.read_config p.lib in
      let gvks = resource_kinds L.registries (L.registry s) in
      and_then (attempt "Unable to create controller manager" (L.validate cfg gvks))
        (λ _.
          and_then
            (attempt "Unable to parse webhook server address."
              (L.get_host_port cfg.webhook_server_addr))
            (λ address.
              and_then (attempt "Unable to parse watch namespaces." (L.get_watch_namespaces cfg))
                (λ namespaces.
                  and_then
                    (attempt "Unable to parse watch selectors." (L.parse_watch_selectors cfg))
                    (λ selectors.
                      and_then
                        (attempt "unable to create controller manager"
                          (L.new_manager (manager_options cfg namespaces selectors address)))
                        (λ mgr. run_manager cfg mgr)))))
        (record p { lib = s })
