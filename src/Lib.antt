-- ===== src/Lib.antt =====
-- A model of the Envoy Gateway extension server of the network services operator, of the validation
-- behind its webhooks, of the reconciler of connectors, and of the cache and the limiter of its registry
-- client, with theorems about them.
--
-- The program: the operator turns gateways, HTTP proxies, connectors and traffic protection policies
-- into Envoy configuration. Its controllers write Gateway API resources; Envoy Gateway translates them,
-- and before it hands the result to the proxies it calls the extension server
-- (internal/extensionserver/server/server.go, PostTranslateModify), which rewrites the whole snapshot:
-- it builds an index of the policies and connectors (cache/index.go), puts the Coraza filter and the
-- branded error page on the listeners (mutate/tpp.go, mutate/localreply.go), writes the governing
-- policy on the routes (mutate/tpp.go), turns the clusters of online connectors into tunnels and adds
-- CONNECT routes (mutate/connector.go), and at last drops the filter chains of broken certificates
-- (mutate/tls.go). An error in any step but the last ends the call without a response.
-- Before any of this, the admission webhooks refuse objects that internal/validation finds fault with:
-- the rules that keep a tenant from sending the shared proxies to the host itself, to the link or to bare
-- names stand there; private addresses are let through. The
-- registry client (internal/registrydata) asks domain registries, with a cache and a limit of rate.
--
-- The files, each with the code it is about:
--   Common: lists, maps, results and the parts of Go's strings and strconv that the program uses.
--   Extension.Xds, Xds.Struct: the Envoy configuration, as far as the code reads or writes it; a pointer
--     that may be nil is an Option, a map an association list.
--   Extension.Codec: what comes from anypb, protojson and encoding/json, a parameter of the model with
--     one law: a packed connection manager is read back as it was.
--   Extension.Hcm: the loop over connection managers that the two injectors share; Hcm.Each is eachHCM of
--     server/programmedset_scan.go, the scanner against which the loop is stated.
--   Extension.Index: cache/types.go; Index.Objects the Kubernetes objects (api/v1alpha, api/v1alpha1) and
--     the API server as a parameter; Index.Directives and Index.Build are cache/index.go; Index.Order,
--     Govern and Enforce say which policy governs and when it is enforced.
--   Extension.Waf: mutate/tpp.go; Waf.Listener the injection, Waf.Routes the pass over the routes,
--     Waf.Marker its metadata as the scanner reads it.
--   Extension.LocalReply: mutate/localreply.go; Escape the escaper and the check, Percent the safe texts,
--     Inject the injection and the check at start-up.
--   Extension.Connector: mutate/connector.go and mutate/shared.go; Name, Clusters and Routes. First says
--     which connector the routes of a host lead to.
--   Extension.Tls: mutate/tls.go; certificates are read by a parameter, and times are numbers.
--   Extension.Programmed: Scan the scanners and identities of server/programmedset_scan.go, Sorted what
--     its sortDedup returns, Record the recorder of server/programmedset.go, RecordSafe what it serves.
--   Extension.Hook: PostTranslateModify; Hook.Run takes a successful call apart, and Hook.Protected is
--     about its listeners.
--   Extension.Retrigger: internal/extensionserver/retrigger/tpp.go, the reconciler of policies;
--     Retrigger.Targets what it does to the gateways. Retrigger.Liveness is retrigger.go, the reconciler
--     of connectors, and Retrigger.Stamped what it does to the annotations of the gateways.
--   Validation: internal/validation. Validation.Errors has the errors and paths, and the parameter
--     Platform for net, net/url, time and the checks of names; Accept the lemmas on empty lists of errors.
--     Network, Backend (with the policies for TLS to backends), Filters, Route, Proxy, Gateway, Settings,
--     TrafficPolicy and Security each model a file, under its functions' names or names in -errors for
--     the validators below the exported ones; the modules in -Safe say what is accepted.
--     GatewayDefaults puts the default listeners beside accepted ones.
--   Controller.Connector: internal/controller/connector_controller.go, Reconcile and the reading of a
--     connector's lease; ConnectorSafe and ConnectorReady when a connector is Ready.
--   Gateway.Listeners: internal/util/gateway/listeners.go; ListenersSafe what setting a listener does.
--   Util.ResourceName, Util.Nameserver: internal/util/resourcename and internal/util/dns.
--   Registry.Cache: internal/registrydata/cache_memory.go, the answers of domain registries that are kept
--     in memory; Registry.CacheSafe what a reader of it can see.
--   Registry.Limiter: internal/registrydata/limiter_memory.go; float64 is an interface, of which
--     LimiterSafe assumes two laws of IEEE arithmetic, and LimiterBlock none. A history is a list of calls.
--   Tests: runs at concrete inputs, up to a whole call of the hook.
--
-- Choices: an in-place change of a message is a function to the new message, an (n, err) result is a
-- Result with the count, and a loop that stops at the first error is `both` or `traverse`. The messages of
-- one snapshot are taken to be distinct objects. The loops of the escaper and the check of a body run on
-- fuel, as much as the body is long, which is enough as each round takes at least one byte. Decimal
-- numbers are printed in 20 rounds, enough for 64 bits. Bodies are lists of bytes; names are texts.
-- Policies that are equal in creation time and name are left in the order of the list, where Go's
-- sort leaves the order open. Numbers of policies (thresholds, paranoia levels, sampling) are natural
-- numbers, as their validation requires. A validator is a function to the list of its errors, in the
-- order of the code; where the code ranges over a map, in the order of the association list. Of an error
-- the kind and the path are kept, not the message. Where a validator only asks if an optional part is
-- set, the model's record has a Boolean for it.
--
-- Not modelled: logs, spans, metrics, process start and TLS reload of the server, its test endpoint, and
-- the programs beside it (the other controllers, the plumbing of the webhooks, the rest of the registry
-- client). The status code in internal/gatewayapi is a copy of Envoy Gateway's.
mod Common
pub mod Controller
pub mod Extension
pub mod Gateway
pub mod Registry
pub mod Util
pub mod Validation
pub mod Tests
