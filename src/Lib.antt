-- ===== src/Lib.antt =====
-- tor-controller is a Kubernetes operator. Its manager runs one reconciler for each of the three
-- resources Tor, OnionService and OnionBalancedService; a reconciler reads its resource and brings
-- the service accounts, roles, services, secrets, config maps, deployments and monitors of that
-- resource into the cluster. Agents that run in the pods write the configuration of tor and
-- onionbalance. This library models the API types, the three reconcilers with the helpers that
-- they share, and the agents with their files, queues, signals and daemons.
--
-- Base: tests, lists and maps. Base.Exec is a Go function that returns an error: a state that is
-- passed on, with a value, an error or a panic.
--
-- Kube: the fields of the Kubernetes objects (Types), the client libraries as a record of
-- operations whose documented behaviour is stated as laws (Client: Kube, ErrorLaws, OwnerLaws,
-- ServerLaws), a cluster in memory that meets the laws (Memory), and a cluster in which everything
-- exists (Full). The laws take one client: no other one writes between the calls of a run.
--
-- Apis: apis/tor/v1alpha2 and apis/config/v2. Types has the resources; TorUtil, OnionServiceUtil
-- and OnionBalancedServiceUtil have the methods of tor_util.go, onionservice_util.go and
-- onionbalancedservice_util.go, under the methods' names. V1alpha1 is apis/tor/v1alpha1, the
-- version before.
--
-- Controllers: controllers/tor. HashPassword is doHashPassword of util.go; Equal is utils_equal.go
-- and utils_exist.go; Ensure is the shape that the reconcile functions share, with one plan for
-- each function; Monitor is the shape of the three functions for service monitors; Objects has the
-- metadata that the built objects share. Tor.Rbac, Tor.Services, Tor.Torfile, Tor.Secret,
-- Tor.Deployment and Tor.Reconcile are tor_serviceaccount.go, tor_role.go, tor_rolebinding.go,
-- tor_service.go, tor_service_metrics.go, tor_service_monitor.go, tor_configmap.go, tor_secret.go,
-- tor_deployment.go and tor_controller.go; a function keeps its name in the spelling of this
-- library.
--
-- OnionService, with its children Rbac, Services, Clients, Secret, Deployment and Reconcile, is
-- controllers/tor/onionservice_*.go. OnionBalancedService, with its children Rbac, Services,
-- Secret, ConfigMap, Deployment, Backends and Reconcile, is
-- controllers/tor/onionbalancedservice_*.go.
--
-- Agents: agents. OnionBalance.Config is agents/onionbalance/config/config.go, and
-- OnionBalance.Controller is sync of agents/onionbalance/local/controller.go over a record of what
-- it calls: the store of the informer, the file, the YAML printer, the order in which a map is
-- ranged over, and the daemon. Tor.Config is agents/tor/config/config.go; Tor.Files is
-- copyIfNotExist and Tor.Controller is sync, serviceReload and updateOnionServiceStatus of
-- agents/tor/local/controller.go, over the disk of Base.Disk, which is what they use of Go's
-- package os, with the calls that fail as a parameter. Queue is processNextItem and handleErr,
-- which both agents have alike, and the informers' handlers of client.go; Manager is Run and
-- signalHandler of client.go as a step relation; Daemon is agents/tor/tordaemon/daemon.go and
-- agents/onionbalance/onionbalancedaemon/daemon.go: the loops that Start begins as a step
-- relation, and Reload with its panic where the command has no process and, for onionbalance, with
-- the wait in which it can stand. OnionBalance.Controller takes the daemon's Reload as a call that
-- returns.
--
-- Main: main of main.go, and SetupWithManager of the three reconcilers, over a record of the calls
-- of controller-runtime. A process that ends early is an error, with the status of os.Exit.
--
-- Bounds: the loop of doHashPassword runs on fuel, one more than the 65536 bytes that it counts
-- down, and every turn takes at least one byte. decimal runs on fuel, one more than the number
-- that it prints. No other loop needs fuel.
--
-- Not modelled: the entry points of the agents, the registration of the types, the set-up of
-- clients and informers, the watches and the work queue of the manager, logging, which slices are
-- nil where reflect.DeepEqual compares objects (a parameter of the comparisons), the type metadata
-- of objects, which no comparison reads, and what the libraries do inside (the API server, key
-- generation, SHA-1, the random source). Of a pod's spec only the fields that the code touches are
-- kept, and the rest is one text. A status of a Kubernetes object is one text. Messages of errors
-- are their formats without the arguments.
pub mod Base
pub mod Kube
pub mod Apis
pub mod Controllers
pub mod Agents
pub mod Main
pub mod Tests
