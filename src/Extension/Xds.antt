-- ===== src/Extension/Xds.antt =====
-- The Envoy configuration that Envoy Gateway hands to the hook, as far as the code under
-- internal/extensionserver reads or writes it. A pointer that may be nil is an `Option`, a map is an
-- association list and a nil map is the empty one, and a oneof is a data type. What the code does
-- not look at (timeouts, other matchers, other filters' settings) is left out. `Any` is the type of
-- packed protobuf messages.
pub mod Struct
use network_services_operato.Common.{ℕ, String, Bool, Option, List}
use network_services_operato.Extension.Xds.Struct.{Metadata}

pub record RuntimeUint32 : Type 0 where
  pub default_value : ℕ
  pub runtime_key : String

-- One response mapper: a lower bound on the status code, and the text format of the body.
pub record ResponseMapper : Type 0 where
  pub status_ge : RuntimeUint32
  pub status_code : Option ℕ
  pub content_type : String
  pub inline_string : List ℕ

pub record LocalReplyConfig : Type 0 where
  pub mappers : List ResponseMapper

pub record HttpFilter (Any : Type 0) : Type 0 where
  pub name : String
  pub disabled : Bool
  pub typed_config : Option Any

-- The oneof route_specifier of a connection manager.
pub data RouteSpecifier : Type 0 where
  rds static_route_config scoped_routes unset : RouteSpecifier

pub record Hcm (Any : Type 0) : Type 0 where
  pub route_specifier : RouteSpecifier
  pub http_filters : List (HttpFilter Any)
  pub local_reply_config : Option LocalReplyConfig

pub record Filter (Any : Type 0) : Type 0 where
  pub name : String
  pub typed_config : Option Any

pub record TransportSocket (Any : Type 0) : Type 0 where
  pub name : String
  pub typed_config : Option Any

pub record FilterChain (Any : Type 0) : Type 0 where
  pub name : String
  pub server_names : List String
  pub filters : List (Filter Any)
  pub transport_socket : Option (TransportSocket Any)

pub record Listener (Any : Type 0) : Type 0 where
  pub name : String
  pub filter_chains : List (FilterChain Any)
  pub default_filter_chain : Option (FilterChain Any)

-- The names of the SDS secrets that a downstream TLS context takes its certificates from.
pub record DownstreamTlsContext : Type 0 where
  pub sds_secret_names : List String

pub data RouteMatch : Type 0 where
  connect_matcher : RouteMatch
  path_match : String → RouteMatch

pub record DirectResponse : Type 0 where
  pub status : ℕ
  pub body : String

-- `cluster` is "" where the action has no plain cluster.
pub data Action : Type 0 where
  route : (cluster : String) (upgrade_types : List String) → Action
  direct_response : DirectResponse → Action
  other_action : Action

pub record Route (Any : Type 0) : Type 0 where
  pub name : String
  pub match : RouteMatch
  pub action : Action
  pub metadata : Option Metadata
  pub typed_per_filter_config : List (String × Any)

pub record VirtualHost (Any : Type 0) : Type 0 where
  pub name : String
  pub domains : List String
  pub routes : List (Route Any)
  pub metadata : Option Metadata

pub record RouteConfiguration (Any : Type 0) : Type 0 where
  pub name : String
  pub virtual_hosts : List (VirtualHost Any)

-- The endpoints of a cluster: an internal listener with the tunnel's metadata, or any others.
pub data LoadAssignment : Type 0 where
  internal : (cluster_name server_listener_name address endpoint_id : String) → LoadAssignment
  endpoints : List String → LoadAssignment

pub record Cluster : Type 0 where
  pub name : String
  pub is_static : Bool
  pub load_assignment : LoadAssignment
  pub transport_socket : String

-- What the golang filter's messages carry.
pub record PluginConfig : Type 0 where
  pub log_format : String
  pub directives : String
  pub default_directive : String
  pub trace_route_metadata_extractor : Option String

pub record GolangConfig (Any : Type 0) : Type 0 where
  pub library_id : String
  pub library_path : String
  pub plugin_name : String
  pub plugin_config : Any
