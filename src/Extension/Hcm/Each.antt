-- ===== src/Extension/Hcm/Each.antt =====
-- eachHCM of server/programmedset_scan.go: the connection managers that can be read, each with the
-- name of its filter chain (internal/extensionserver/server).
use network_services_operato.Common.{
  String, List, [], ◌∷◌, ◌++◌, Option, none, some, ◌==◌, string_eq, if◌then◌else◌,
}
use network_services_operato.Extension.Xds.{Hcm, Filter, FilterChain, Listener}
use network_services_operato.Extension.Codec.{Codec}
use network_services_operato.Extension.Hcm.{hcm_filter_name}

module _ (c : Codec) where
  open c use {Any, unpack_hcm}

  abbrev pub readable : String → Option (Hcm Any) → List (String × Hcm Any)
  readable chain none = []
  readable chain (some h) = (chain, h) ∷ []

  abbrev pub each_config : String → Option Any → List (String × Hcm Any)
  each_config chain none = []
  each_config chain (some a) = readable chain (unpack_hcm a)

  unfoldable pub each_filter : String → Filter Any → List (String × Hcm Any)
  each_filter chain f = if f.name == hcm_filter_name then each_config chain f.typed_config else []

  unfoldable pub each_filters : String → List (Filter Any) → List (String × Hcm Any)
  each_filters chain [] = []
  each_filters chain (f ∷ fs) = each_filter chain f ++ each_filters chain fs

  unfoldable pub each_chains : List (FilterChain Any) → List (String × Hcm Any)
  each_chains [] = []
  each_chains (fc ∷ fcs) = each_filters fc.name fc.filters ++ each_chains fcs

  abbrev pub all_chains : Listener Any → List (FilterChain Any)
  all_chains l = elim l.default_filter_chain [
    | none ↦ l.filter_chains
    | some dfc ↦ l.filter_chains ++ dfc ∷ []
  ]

  -- The calls of `fn`, in order.
  unfoldable pub each_hcm : Listener Any → List (String × Hcm Any)
  unfolding each_chains each_filters each_filter
  each_hcm l = each_chains (all_chains l)
