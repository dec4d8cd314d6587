-- ===== src/Extension/Codec.antt =====
-- What the extension server takes from packages outside the repository: packing messages into `Any`
-- and back (anypb), encoding a list of directives (encoding/json), and reading a Go-quoted text as a
-- JSON string (protojson). They are a parameter of the model; its one law is that a message that was
-- packed is read back as it was.
use network_services_operato.Common.{String, Bool, Option, some, List, ◌≡◌}
use network_services_operato.Extension.Xds.{
  Hcm, LocalReplyConfig, DownstreamTlsContext, PluginConfig, GolangConfig,
}

pub record Codec : Type 1 where
  pub Any : Type 0
  pub pack_hcm : Hcm Any → Option Any
  pub unpack_hcm : Any → Option (Hcm Any)
  pub pack_plugin : PluginConfig → Option Any
  pub pack_golang : GolangConfig Any → Option Any
  -- ConfigsPerRoute: the name of the plugin and its packed settings.
  pub pack_per_route : String → Any → Option Any
  pub packs_local_reply : LocalReplyConfig → Bool
  pub unpack_tls : Any → Option DownstreamTlsContext
  -- {"coraza":{"simple_directives": ...}} around the encoded list
  pub json_directives : List String → String
  -- protojson accepts the %q form of this text, and then reads the text itself.
  pub json_quoted : String → Bool
  pub unpack_hcm-pack_hcm : (h : Hcm Any) (a : Any) → pack_hcm h ≡ some a → unpack_hcm a ≡ some h

-- The errors that the mutators return, by the message they begin with.
pub data Error : Type 0 where
  build_coraza_filter : Error
  unmarshal_hcm : (chain : String) → Error
  marshal_hcm : (chain : String) → Error
  apply_waf : (route : String) → Error
  build_connector_cluster : (cluster : String) → Error
  build_connect_route : (virtual_host : String) → Error
  build_offline_route : (virtual_host : String) → Error
  convert_offline_route : (virtual_host : String) → Error
