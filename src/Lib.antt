-- ===== src/Lib.antt =====
-- The caicloud loadbalancer-controller: a Kubernetes controller for LoadBalancer resources.
--
-- The informers call event handlers, which put load balancers on work queues. A worker takes an
-- item off its queue and syncs it: the controller itself (controller/) lets the proxy and provider
-- plugins put it on their own queues and then labels and taints the nodes; the nginx proxy
-- (proxy/proxies/nginx/) and the ipvsdr provider (provider/providers/ipvsdr/) each keep one
-- deployment for a load balancer and write its status back.
--
-- The files and what they model, by path from the root of the repository:
--   Common/      Boolean tests, lists, Go maps, texts, effects, decimals, labels
--   Api/         pkg/apis/networking/v1alpha1 and the fields used of Kubernetes objects
--   Cluster/     the calls that leave the program, and the vendored helpers as parameters
--   Taints       pkg/util/taints/taints.go
--   Validation   pkg/util/validation/validation.go
--   LbUtil/      pkg/util/lb/lb.go, one file for each group of its functions
--   Helper       pkg/util/controller/helper.go
--   RefManager/  pkg/util/controller/controller_ref_manager.go
--   Listers      pkg/listers/networking/v1alpha1
--   Handlers/    pkg/util/lb/event_handler.go
--   Plugins      proxy/plugins.go, and in Plugins/ provider/plugins.go
--   Informers/   pkg/informers: the shared factory, ForResource, the load balancers' informer
--   Client/      pkg/tprclient
--   Config/      config/config.go and the options of cmd/controller/options.go
--   License/     hack/license/main.go
--   Command/     cmd/controller/main.go and the flags of options.go
--   Controller/  controller/lb_controller.go and controller/utils.go
--   Workload/    what nginx and ipvsdr share: claiming, the loop of sync, eviction, pod statuses
--   Toleration   pkg/toleration/toleration.go
--   Nginx/       proxy/proxies/nginx
--   Ipvsdr/      provider/providers/ipvsdr
--   Witnesses/   examples
-- A function keeps its Go name in snake case.
--
-- Effects. A function that calls the API server, a lister or a queue takes the history of the
-- calls made so far, latest first, and returns a result beside the longer history. The result is a
-- value, an error, a panic or a wait that never ends. The answers are functions of the history (the
-- record Cluster), so a theorem over all clusters covers all behaviours of the server and all
-- interleavings with other clients. A deep copy, a patch and the retry on conflict are parameters too.
--
-- Data. A pointer is an Option, a Go map an association list beside its nil value, an int32 its
-- bit pattern with the wrap-around written out. An error is its class, where the code tests the
-- class, or its message. Logs and metrics are left out. The random numbers are an oracle.
--
-- Loops run over slices and are recursion on lists; no fuel is used. The worker runs over the
-- items that its queue gives it.
--
-- Start. The program makes its clients, and a factory through which the controller and the plugins
-- share one informer for each type. The calls of the factory are steps of its state, in any order;
-- a goroutine that is started is a call. Run then ensures the resource, starts the informers, waits
-- for their caches, starts the workers and the plugins, and waits for the stop. Whether that ever
-- comes is an argument; for the program it never does. The range over a Go map takes its order as an
-- argument.
--
-- Not modelled: the parsing of the command line, the interleaving of goroutines after their start,
-- the wait groups, the strings of version/, and the vendored packages.
pub mod Common
pub mod Api
pub mod Cluster
pub mod Taints
pub mod Validation
pub mod LbUtil
pub mod Helper
pub mod RefManager
pub mod Informers
pub mod Client
pub mod License
pub mod Listers
pub mod Handlers
pub mod Plugins
pub mod Controller
pub mod Workload
pub mod Toleration
pub mod Config
pub mod Nginx
pub mod Ipvsdr
pub mod Command
pub mod Witnesses
