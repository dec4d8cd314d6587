-- ===== src/Extension/Hcm.antt =====
-- The loop that the injectors of mutate/tpp.go and mutate/localreply.go share, over the connection
-- managers of a listener (internal/extensionserver/mutate).
pub mod Each
pub mod Laws
pub mod Rerun
use network_services_operato.Common.{
  ℕ, String, List, [], ◌∷◌, Option, none, some, ◌==◌, string_eq, if◌then◌else◌,
}
use network_services_operato.Common.Result.{Result, ok, err, both, counted}
use network_services_operato.Extension.Xds.{Hcm, Filter, FilterChain, Listener}
use network_services_operato.Extension.Codec.{Codec, Error, unmarshal_hcm, marshal_hcm}

abbrev pub hcm_filter_name : String
hcm_filter_name = "envoy.filters.network.http_connection_manager"

module _ (c : Codec) where
  open c use {Any, pack_hcm, unpack_hcm}

  -- The end of the loop's body: the changed connection manager is packed into the filter.
  unfoldable pub store_hcm : String → Filter Any → Hcm Any → Result Error (Filter Any × ℕ)
  store_hcm chain f hcm = elim (pack_hcm hcm) [
    | none ↦ err (marshal_hcm chain)
    | some a ↦ ok (record f { typed_config = some a }, 1)
  ]

  -- `none` is a `continue` that leaves the filter as it is.
  abbrev pub store_change : String → Filter Any → Option (Hcm Any) → Result Error (Filter Any × ℕ)
  store_change chain f none = ok (f, 0)
  store_change chain f (some hcm) = store_hcm chain f hcm

  module _ (change : Hcm Any → Option (Hcm Any)) where
    unfoldable pub visit_config : String → Filter Any → Option Any → Result Error (Filter Any × ℕ)
    visit_config chain f none = ok (f, 0)
    visit_config chain f (some a) = elim (unpack_hcm a) [
      | none ↦ err (unmarshal_hcm chain)
      | some hcm ↦ store_change chain f (change hcm)
    ]

    -- One round of the inner loop: the new filter, and what `mutated` grows by.
    unfoldable pub visit_filter : String → Filter Any → Result Error (Filter Any × ℕ)
    unfolding visit_config store_hcm
    visit_filter chain f =
        if f.name == hcm_filter_name then visit_config chain f f.typed_config else ok (f, 0)

    unfoldable pub visit_filters : String → List (Filter Any) → Result Error (List (Filter Any) × ℕ)
    visit_filters chain [] = ok ([], 0)
    visit_filters chain (f ∷ fs) =
        both (λ f' fs'. f' ∷ fs') (visit_filter chain f) (visit_filters chain fs)

    unfoldable pub visit_chain : FilterChain Any → Result Error (FilterChain Any × ℕ)
    unfolding visit_filters
    visit_chain fc = counted (λ fs. record fc { filters = fs }) (visit_filters fc.name fc.filters)

    unfoldable pub visit_chains : List (FilterChain Any) → Result Error (List (FilterChain Any) × ℕ)
    visit_chains [] = ok ([], 0)
    visit_chains (fc ∷ fcs) = both (λ fc' fcs'. fc' ∷ fcs') (visit_chain fc) (visit_chains fcs)

    unfoldable pub visit_default :
        Option (FilterChain Any) → Result Error (Option (FilterChain Any) × ℕ)
    visit_default none = ok (none, 0)
    visit_default (some fc) = counted some (visit_chain fc)

    -- The default filter chain is visited after the others.
    unfoldable pub visit_listener : Listener Any → Result Error (Listener Any × ℕ)
    unfolding visit_chains visit_default
    visit_listener l =
        both (λ fcs dfc. record l { filter_chains = fcs; default_filter_chain = dfc })
          (visit_chains l.filter_chains) (visit_default l.default_filter_chain)
