-- ===== src/Tests/Samples.antt =====
-- A concrete codec and sample configurations: messages are kept as they are, and one text is no
-- message.
use network_services_operato.Common.{
  String, Bool, true, false, ◌≡◌, refl, sym, ◌∙◌, ap, List, [], ◌∷◌, Option, none, some,
}
use network_services_operato.Extension.Xds.{
  Hcm, HttpFilter, RouteSpecifier, rds, static_route_config, LocalReplyConfig, PluginConfig,
  GolangConfig, DownstreamTlsContext, Filter, FilterChain, Listener,
}
use network_services_operato.Extension.Codec.{Codec}
use network_services_operato.Extension.Waf.Listener.{CorazaConfig}
use network_services_operato.Extension.LocalReply.Inject.{ErrorPage}

mutual
  pub data Message : Type 0 where
    manager : RouteSpecifier → HttpFilters → Option LocalReplyConfig → Message
    plugin : PluginConfig → Message
    golang : (library_id library_path plugin_name : String) → Message → Message
    per_route : String → Message → Message
    tls : List String → Message
    garbage : Message

  pub data HttpFilters : Type 0 where
    last : HttpFilters
    bare : String → Bool → HttpFilters → HttpFilters
    configured : String → Bool → Message → HttpFilters → HttpFilters

abbrev packed_filter : String → Bool → Option Message → HttpFilters → HttpFilters
packed_filter name disabled none rest = bare name disabled rest
packed_filter name disabled (some m) rest = configured name disabled m rest

abbrev packed_filters : List (HttpFilter Message) → HttpFilters
packed_filters [] = last
packed_filters (f ∷ fs) = packed_filter f.name f.disabled f.typed_config (packed_filters fs)

abbrev new_filter : String → Bool → Option Message → HttpFilter Message
new_filter name disabled config = record { name = name; disabled = disabled; typed_config = config }

abbrev unpacked_filters : HttpFilters → List (HttpFilter Message)
unpacked_filters last = []
unpacked_filters (bare name disabled rest) = new_filter name disabled none ∷ unpacked_filters rest
unpacked_filters (configured name disabled m rest) =
    new_filter name disabled (some m) ∷ unpacked_filters rest

abbrev pub pack_manager : Hcm Message → Message
pack_manager h = manager h.route_specifier (packed_filters h.http_filters) h.local_reply_config

abbrev unpack_manager : Message → Option (Hcm Message)
unpack_manager (manager spec fs page) = some (record {
  route_specifier = spec;
  http_filters = unpacked_filters fs;
  local_reply_config = page;
})
unpack_manager _ = none

unpacked-packed_filter :
    (f : HttpFilter Message) (o : Option Message) (rest : HttpFilters)
    → f.typed_config ≡ o
    → unpacked_filters (packed_filter f.name f.disabled o rest) ≡ f ∷ unpacked_filters rest
unpacked-packed_filter f none rest e =
    ap (λ t. record f { typed_config = t } ∷ unpacked_filters rest) (sym e)
unpacked-packed_filter f (some m) rest e =
    ap (λ t. record f { typed_config = t } ∷ unpacked_filters rest) (sym e)

unpacked-packed : (fs : List (HttpFilter Message)) → unpacked_filters (packed_filters fs) ≡ fs
unpacked-packed [] = refl
unpacked-packed (f ∷ fs) =
    unpacked-packed_filter f f.typed_config (packed_filters fs) refl
    ∙ ap (λ k. f ∷ k) (unpacked-packed fs)

pub unpack-pack :
    (h : Hcm Message) (a : Message) → some (pack_manager h) ≡ some a → unpack_manager a ≡ some h
unpack-pack h a e =
    let s : pack_manager h ≡ a = cc in
    let t : unpack_manager (pack_manager h) ≡ some h =
      ap (λ k. some (record h { http_filters = k })) (unpacked-packed h.http_filters) in
    cc

abbrev tls_context : Message → Option DownstreamTlsContext
tls_context (tls names) = some (record { sds_secret_names = names })
tls_context _ = none

abbrev pub codec : Codec
codec = record {
  Any = Message;
  pack_hcm = λ h. some (pack_manager h);
  unpack_hcm = unpack_manager;
  pack_plugin = λ p. some (plugin p);
  pack_golang = λ g. some (golang g.library_id g.library_path g.plugin_name g.plugin_config);
  pack_per_route = λ n m. some (per_route n m);
  packs_local_reply = λ p. true;
  unpack_tls = tls_context;
  json_directives = λ ds. "{}";
  json_quoted = λ s. true;
  unpack_hcm-pack_hcm = unpack-pack;
}

abbrev pub coraza : CorazaConfig
coraza = record {
  disabled = false;
  filter_name = "coraza-waf";
  library_id = "coraza";
  library_path = "/coraza.so";
  plugin_name = "coraza-waf";
  listener_directives = "SecRuleEngine Off" ∷ [];
  trace_route_metadata_extractor = "";
}

-- The body is "5%".
abbrev pub page : ErrorPage
page = record {
  disabled = false;
  min_status_code = 0;
  runtime_key = "";
  body_html = b'5' ∷ b'%' ∷ [];
  content_type = "text/html";
}

abbrev pub bare_manager : Hcm Message
bare_manager = record { route_specifier = rds; http_filters = []; local_reply_config = none }

abbrev pub fixed_manager : Hcm Message
fixed_manager = record bare_manager { route_specifier = static_route_config }

abbrev pub manager_filter : Hcm Message → Filter Message
manager_filter h = record {
  name = "envoy.filters.network.http_connection_manager";
  typed_config = some (pack_manager h);
}

abbrev pub tls_socket :
    List String → Option (network_services_operato.Extension.Xds.TransportSocket Message)
tls_socket names = some (record { name = "tls"; typed_config = some (tls names) })

abbrev pub chain_of : String → List String → List (Filter Message) → FilterChain Message
chain_of name secrets filters = record {
  name = name;
  server_names = name ∷ [];
  filters = filters;
  transport_socket = tls_socket secrets;
}

-- Two chains with dynamic routes, the second with a certificate of its own, and fixed routes by default.
abbrev pub listener : Listener Message
listener = record {
  name = "https";
  filter_chains =
      chain_of "good.example" ("good" ∷ []) (manager_filter bare_manager ∷ [])
      ∷ chain_of "bad.example" ("bad" ∷ []) (manager_filter bare_manager ∷ [])
      ∷ [];
  default_filter_chain = some (chain_of "default" [] (manager_filter fixed_manager ∷ []));
}
