-- ===== src/Extension/Hcm/Rerun.antt =====
-- A second run of the shared loop (internal/extensionserver/mutate).
use network_services_operato.Common.{
  ℕ, ◌≡◌, ap, String, List, [], ◌∷◌, Option, none, some, ◌==◌, string_eq, Bool-cases, inl, inr,
  arith, Option-cases,
}
use network_services_operato.Common.Result.{ok, both-eq-ok, both-of_zero, counted, counted-eq-ok}
use network_services_operato.Extension.Xds.{Hcm, Filter, FilterChain, Listener}
use network_services_operato.Extension.Codec.{Codec}
use network_services_operato.Extension.Hcm.{
  hcm_filter_name, visit_filter, visit_filters, visit_chain, visit_chains, visit_default,
  visit_listener,
}
use network_services_operato.Extension.Hcm.Each.{each_filter}
use network_services_operato.Extension.Hcm.Laws.{Round, other, kept, stored, visit_filter-Round}

module _ (c : Codec) (change : Hcm c.Any → Option (Hcm c.Any))
    (once : (h h' : Hcm c.Any) → change h ≡ some h' → change h' ≡ none) where
  open c use {Any, unpack_hcm}

  -- A filter whose connection manager needs no change is left as it is.
  visit_filter-of_done :
      (chain : String) (f : Filter Any) (h : Hcm Any)
      → each_filter c chain f ≡ (chain, h) ∷ []
      → change h ≡ none
      → visit_filter c change chain f ≡ ok (f, 0)
  unfolding visit_filter each_filter
  visit_filter-of_done chain f h e d = elim (Bool-cases (f.name == hcm_filter_name)) [
    | inr no_hcm ↦ absurd (ground arith)
    | inl is_hcm ↦ elim (Option-cases f.typed_config) [
      | inl unset ↦ absurd (ground arith)
      | inr (a, set) ↦ elim (Option-cases (unpack_hcm a)) [
        | inl failed ↦ absurd (ground arith)
        | inr (k, read) ↦ ground arith
      ]
    ]
  ]

  visit_filter-again :
      (chain : String) (f f' : Filter Any) (n : ℕ)
      → visit_filter c change chain f ≡ ok (f', n)
      → Round c change chain f f' n
      → visit_filter c change chain f' ≡ ok (f', 0)
  visit_filter-again chain f f' n e (other _ s k) = cc
  visit_filter-again chain f f' n e (kept h _ _ s k) = cc
  visit_filter-again chain f f' n e (stored h h' _ new now k) =
      visit_filter-of_done chain f' h' now (once h h' new)

  visit_filters-again :
      (chain : String) (fs fs' : List (Filter Any)) (n : ℕ)
      → visit_filters c change chain fs ≡ ok (fs', n)
      → visit_filters c change chain fs' ≡ ok (fs', 0)
  unfolding visit_filters
  visit_filters-again chain [] fs' n e = let nothing : fs' ≡ [] = cc in rw (nothing, visit_filters)
  visit_filters-again chain (f ∷ fs) fs' n e =
      let (f1, i, fs1, j, ef, es, el, en) =
        both-eq-ok _ (visit_filter c change chain f) (visit_filters c change chain fs) _ _ e in
      rw el (
        both-of_zero _
          (visit_filter-again chain f f1 i ef (visit_filter-Round c change chain f f1 i ef))
          (visit_filters-again chain fs fs1 j es))

  visit_chain-again :
      (fc fc' : FilterChain Any) (n : ℕ)
      → visit_chain c change fc ≡ ok (fc', n)
      → visit_chain c change fc' ≡ ok (fc', 0)
  unfolding visit_chain
  visit_chain-again fc fc' n e =
      let (fs, es, el) = counted-eq-ok _ (visit_filters c change fc.name fc.filters) _ _ e in
      rw el (ap (counted _) (visit_filters-again fc.name fc.filters fs n es))

  visit_chains-again :
      (fcs fcs' : List (FilterChain Any)) (n : ℕ)
      → visit_chains c change fcs ≡ ok (fcs', n)
      → visit_chains c change fcs' ≡ ok (fcs', 0)
  unfolding visit_chains
  visit_chains-again [] fcs' n e = let nothing : fcs' ≡ [] = cc in rw (nothing, visit_chains)
  visit_chains-again (fc ∷ fcs) fcs' n e =
      let (fc1, i, fcs1, j, ec, es, el, en) =
        both-eq-ok _ (visit_chain c change fc) (visit_chains c change fcs) _ _ e in
      rw el (both-of_zero _ (visit_chain-again fc fc1 i ec) (visit_chains-again fcs fcs1 j es))

  visit_default-again :
      (d d' : Option (FilterChain Any)) (n : ℕ)
      → visit_default c change d ≡ ok (d', n)
      → visit_default c change d' ≡ ok (d', 0)
  unfolding visit_default
  visit_default-again none d' n e = let nothing : d' ≡ none = cc in rw (nothing, visit_default)
  visit_default-again (some fc) d' n e =
      let (fc1, ec, el) = counted-eq-ok _ (visit_chain c change fc) _ _ e in
      rw el (ap (counted some) (visit_chain-again fc fc1 n ec))

  -- A listener that the loop has been through is left as it is, with no change counted.
  pub visit_listener-again :
      (l l' : Listener Any) (n : ℕ)
      → visit_listener c change l ≡ ok (l', n)
      → visit_listener c change l' ≡ ok (l', 0)
  unfolding visit_listener
  visit_listener-again l l' n e =
      let (fcs, i, d, j, ec, ed, el, en) =
        both-eq-ok _ (visit_chains c change l.filter_chains)
          (visit_default c change l.default_filter_chain) _ _ e in
      rw el (both-of_zero _ (visit_chains-again _ fcs i ec) (visit_default-again _ d j ed))
