-- ===== src/Lib.antt =====
-- A model of PodDoctor, a Kubernetes operator that diagnoses crash-looping containers, and its
-- theorems.
--
-- The parts. The operator's reconciler finds the failing containers of a pod, gathers evidence
-- about each, asks the rule engine for a diagnosis, stores it as a PodDiagnosis object, and
-- notifies the webhook that a router picks for the namespace, unless the alert grouper folds the
-- notification into an earlier one. A webhook may be a fleet hub, which authenticates the
-- request, decodes it and inserts a row.
--
-- The files. Prelude: names and helpers that all modules share. Text and Json: the text
-- functions and the JSON values of Go that the program uses, with UTF-8 (Text.Utf8), the
-- escaping of queries (Text.Query), the parsing of numbers (Text.Number, Text.Decimal),
-- splitting and trimming (Text.Split) and the text of a JSON value (Json.Text). Api:
-- api/v1alpha1/poddiagnosis_types.go, and Api.DeepCopy api/v1alpha1/zz_generated.deepcopy.go
-- over a memory with pointers (Api.DeepCopy.Memory). Diagnosis: internal/diagnosis/rules.go,
-- `diagnose` is Diagnose. Severity: internal/severity/severity.go. AlertGroup:
-- internal/alertgroup/alertgroup.go, `observe` is Observe. Notify.Router:
-- internal/notify/router.go and buildNotifyRouter of cmd/main.go. Notify.Payload and
-- Notify.Send: internal/notify/notify.go. Tracelink: internal/tracelink/tracelink.go. Dashboard:
-- internal/dashboard/dashboard.go, with Dashboard.Agree on what it and the hub show. Hub.Server
-- and Hub.Api: internal/hub/server.go, where `routes` is Routes. Hub.Store, Hub.Query and
-- Hub.Database: internal/hub/store.go, where `open_store` is Open. Hub.Access and Hub.Changes
-- have whom the hub admits and what a request can change, Hub.Dispatch the cases of its routes,
-- and Hub.Log a sequence of requests, one handler after the other, up to the listing that shows
-- their rows (Hub.Log.Listed). Hub.Main: cmd/hub/main.go. Hub.Delivery joins the operator's Send
-- to the hub's routes, Hub.Fleet and Hub.Arrival the reconciler to them, and Hub.Listing a
-- notification to the listing that shows it, over a database that keeps a table
-- (Hub.Database.Table). Hub.Arrival.Pass takes a whole Reconcile of a pod to the rows of the
-- hub, and Hub.Arrival.Life counts them over many. Controller.Pods, Controller.Evidence,
-- Controller.Reconcile and Controller.Setup: internal/controller/poddiagnosis_controller.go,
-- where `reconcile` is Reconcile, `reconcile_container` is reconcileContainer and `set_up` is
-- SetupWithManager. There, Walk and Each carry a property of states through reconcileContainer
-- and Reconcile; Schema has the schema of the stored objects (config/crd/bases), Isolated the
-- other namespaces, and Webhook a webhook that fails. Operator: cmd/main.go, with
-- Operator.Namespaces for --namespace.
--
-- State is passed explicitly: the grouper's map is an association list, and the API server, the
-- webhook, the database, the manager and the listener are records of functions on a world
-- (Controller.Reconcile.Env, Notify.Send.HttpClient, Hub.Database.Database, Operator.Platform,
-- Hub.Main.Platform). What the reconciler relies on of the API server is
-- Controller.Reconcile.Server.IsServer; Controller.Reconcile.Memory is a server that satisfies
-- it. All loops of the program are structural recursion over lists. The requeues of a key
-- (Controller.Reconcile.Retry) are rounds of Reconcile with a number of them as fuel, one more
-- than a budget of failures of the API server, which each round that is followed by another one
-- spends. The digits of a number (Text.decimal) take fuel, one more than the number itself,
-- which has fewer digits; Text.Decimal reads them back.
--
-- Not modelled: logging, metrics registration, the parsing of the flags, the Kubernetes watch,
-- the execution of SQL, reading JSON text and YAML, the web front end, the registration with the
-- manager and the scheme, and the charts. The shutdown of the hub on a signal is part of its
-- listener, a parameter, with what becomes of the requests that are in flight then. A read of the
-- API server sees every earlier write, where the manager's cache may lag behind them; what a
-- status update stores is what JSON carries of it (Controller.Reconcile.Written). The count of a
-- group is a number without bound, where the program has an int.
pub mod Prelude
pub mod Text
pub mod Api
pub mod Diagnosis
pub mod Severity
pub mod Tracelink
pub mod AlertGroup
pub mod Json
pub mod Notify
pub mod Hub
pub mod Dashboard
pub mod Operator
pub mod Controller
