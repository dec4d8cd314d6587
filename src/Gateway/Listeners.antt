-- ===== src/Gateway/Listeners.antt =====
-- internal/util/gateway/listeners.go
use network_services_operato.Common.{
  ℕ, String, Bool, ◌||◌, ◌==◌, string_eq, if◌then◌else◌, Option, none, some, List, [], ◌∷◌,
}

-- The parts of a Gateway and its listeners that the operator reads or writes; a pointer that may be
-- nil is an Option, a map an association list. Options maps an option's name to its value, and of
-- FromNamespaces and Kinds only what is compared or counted is kept.
pub record AllowedRoutes : Type 0 where
  pub namespaces_from : Option String
  pub kinds : List String

pub record TlsConfig : Type 0 where
  pub mode : Option String
  pub certificate_refs : List String
  pub options : List (String × String)

pub record Listener : Type 0 where
  pub name : String
  pub hostname : Option String
  pub port : ℕ
  pub protocol : String
  pub tls : Option TlsConfig
  pub allowed_routes : Option AllowedRoutes

abbrev pub default_http : String
default_http = "default-http"

abbrev pub default_https : String
default_https = "default-https"

abbrev pub is_default_listener : Listener → Bool
is_default_listener l = (l.name == default_http) || (l.name == default_https)

unfoldable pub get_listener_by_name : List Listener → String → Option Listener
get_listener_by_name [] name = none
get_listener_by_name (l ∷ ls) name =
    let rest = get_listener_by_name ls name in if l.name == name then some l else rest

-- SetListener, on the gateway's listeners
unfoldable pub set_listener : List Listener → Listener → List Listener
set_listener [] listener = listener ∷ []
set_listener (l ∷ ls) listener =
    let rest = set_listener ls listener in
    if l.name == listener.name then listener ∷ ls else l ∷ rest

abbrev same_namespace : AllowedRoutes
same_namespace = record { namespaces_from = some "Same"; kinds = [] }

-- The two listeners, with the configured options for TLS.
unfoldable pub http_listener : Listener
http_listener = record {
  name = default_http;
  hostname = none;
  port = 80;
  protocol = "HTTP";
  tls = none;
  allowed_routes = some same_namespace;
}

unfoldable pub https_listener : List (String × String) → Listener
https_listener options = record {
  name = default_https;
  hostname = none;
  port = 443;
  protocol = "HTTPS";
  tls = some (record { mode = some "Terminate"; certificate_refs = []; options = options });
  allowed_routes = some same_namespace;
}

-- SetDefaultListeners, on the gateway's listeners and config's ListenerTLSOptions
unfoldable pub set_default_listeners : List Listener → List (String × String) → List Listener
set_default_listeners ls options =
    set_listener (set_listener ls http_listener) (https_listener options)
