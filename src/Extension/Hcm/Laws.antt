-- ===== src/Extension/Hcm/Laws.antt =====
-- What a run of the shared loop does to the connection managers of a listener
-- (internal/extensionserver/mutate).
use network_services_operato.Common.{
  ℕ, suc, ◌+◌, ◌≡◌, refl, ap, ap₂, sym, ◌∙◌, String, List, [], ◌∷◌, ◌++◌, map, map-append,
  append_assoc, append-nil, Option, none, some, ◌==◌, string_eq, Bool-cases, inl, inr, true, arith,
  Option-cases,
}
use network_services_operato.Common.Result.{ok, both-eq-ok, counted-eq-ok}
use network_services_operato.Extension.Xds.{Hcm, Filter, FilterChain, Listener}
use network_services_operato.Extension.Codec.{Codec}
use network_services_operato.Extension.Hcm.{
  hcm_filter_name, store_hcm, visit_filter, visit_filters, visit_chain, visit_chains, visit_default,
  visit_listener,
}
use network_services_operato.Extension.Hcm.Each.{each_filter, each_filters, each_chains, each_hcm}

module _ (c : Codec) (change : Hcm c.Any → Option (Hcm c.Any)) where
  open c use {Any, pack_hcm, unpack_hcm, unpack_hcm-pack_hcm}

  abbrev pub changed : Hcm Any → Option (Hcm Any) → Hcm Any
  changed h none = h
  changed h (some h') = h'

  abbrev pub apply_change : String × Hcm Any → String × Hcm Any
  apply_change (chain, h) = (chain, changed h (change h))

  abbrev pub count_change : Option (Hcm Any) → ℕ → ℕ
  count_change none n = n
  count_change (some h) n = suc n

  abbrev pub count_changes : List (String × Hcm Any) → ℕ
  count_changes [] = 0
  count_changes ((chain, h) ∷ hs) = count_change (change h) (count_changes hs)

  store_each :
      (chain : String) (f f' : Filter Any) (h : Hcm Any) (n : ℕ)
      → f.name == hcm_filter_name ≡ true
      → store_hcm c chain f h ≡ ok (f', n)
      → (each_filter c chain f' ≡ (chain, h) ∷ []) × (n ≡ 1)
  unfolding store_hcm each_filter
  store_each chain f f' h n is_hcm e = elim (Option-cases (pack_hcm h)) [
    | inl failed ↦ absurd (cc failed)
    | inr (a, packed) ↦ ground (arith, packed, unpack_hcm-pack_hcm h a packed)
  ]

  -- What a successful round did: nothing to a filter that holds no connection manager or one that
  -- needs no change, and otherwise it stored the changed one.
  pub data Round (chain : String) (f f' : Filter Any) (n : ℕ) : Type 0 where
    other : each_filter c chain f ≡ [] → f' ≡ f → n ≡ 0 → Round chain f f' n
    kept :
        (h : Hcm Any)
        → each_filter c chain f ≡ (chain, h) ∷ []
        → change h ≡ none
        → f' ≡ f
        → n ≡ 0
        → Round chain f f' n
    stored :
        (h h' : Hcm Any)
        → each_filter c chain f ≡ (chain, h) ∷ []
        → change h ≡ some h'
        → each_filter c chain f' ≡ (chain, h') ∷ []
        → n ≡ 1
        → Round chain f f' n

  pub visit_filter-Round :
      (chain : String) (f f' : Filter Any) (n : ℕ)
      → visit_filter c change chain f ≡ ok (f', n)
      → Round chain f f' n
  unfolding visit_filter each_filter
  visit_filter-Round chain f f' n e = elim (Bool-cases (f.name == hcm_filter_name)) [
    | inr no_hcm ↦ other (ground arith) (ground arith) (ground arith)
    | inl is_hcm ↦ elim (Option-cases f.typed_config) [
      | inl unset ↦ other (ground arith) (ground arith) (ground arith)
      | inr (a, set) ↦ elim (Option-cases (unpack_hcm a)) [
        | inl failed ↦ absurd (ground arith)
        | inr (h, read) ↦ elim (Option-cases (change h)) [
          | inl done ↦ kept h (ground arith) done (ground arith) (ground arith)
          | inr (h', new) ↦
              let e' : store_hcm c chain f h' ≡ ok (f', n) = ground arith in
              stored h h' (ground arith) new (store_each chain f f' h' n is_hcm e').0
                (store_each chain f f' h' n is_hcm e').1
        ]
      ]
    ]
  ]

  -- The connection managers before and after, and the count.
  abbrev Changes : List (String × Hcm Any) → List (String × Hcm Any) → ℕ → Type 0
  Changes hs hs' n = (hs' ≡ map apply_change hs) × (n ≡ count_changes hs)

  count_changes-append :
      (xs ys : List (String × Hcm Any))
      → count_changes (xs ++ ys) ≡ count_changes xs + count_changes ys
  count_changes-append [] ys = omega arith
  count_changes-append ((chain, h) ∷ xs) ys = ground (arith, count_changes-append xs ys)

  Changes-append :
      (xs ys xs' ys' : List (String × Hcm Any)) (n m : ℕ)
      → Changes xs xs' n
      → Changes ys ys' m
      → Changes (xs ++ ys) (xs' ++ ys') (n + m)
  Changes-append xs ys xs' ys' n m (e, k) (e', k') = (
    ap₂ (λ a b. a ++ b) e e' ∙ sym (map-append apply_change xs ys),
    omega (arith, k, k', count_changes-append xs ys),
  )

  visit_filter-each :
      (chain : String) (f f' : Filter Any) (n : ℕ)
      → Round chain f f' n
      → Changes (each_filter c chain f) (each_filter c chain f') n
  visit_filter-each chain f f' n (other e s k) = (rw (s, e) refl, rw (e, k) refl)
  visit_filter-each chain f f' n (kept h e d s k) = ground arith
  visit_filter-each chain f f' n (stored h h' e d e' k) = ground arith

  visit_filters-each :
      (chain : String) (fs fs' : List (Filter Any)) (n : ℕ)
      → visit_filters c change chain fs ≡ ok (fs', n)
      → Changes (each_filters c chain fs) (each_filters c chain fs') n
  unfolding visit_filters each_filters
  visit_filters-each chain [] fs' n e = ground arith
  visit_filters-each chain (f ∷ fs) fs' n e =
      let (f1, i, fs1, j, ef, es, el, en) =
        both-eq-ok _ (visit_filter c change chain f) (visit_filters c change chain fs) _ _ e in
      rw (el, en)
        (Changes-append _ _ _ _ _ _
          (visit_filter-each chain f f1 i (visit_filter-Round chain f f1 i ef))
          (visit_filters-each chain fs fs1 j es))

  abbrev each_chain : FilterChain Any → List (String × Hcm Any)
  each_chain fc = each_filters c fc.name fc.filters

  visit_chain-each :
      (fc fc' : FilterChain Any) (n : ℕ)
      → visit_chain c change fc ≡ ok (fc', n)
      → Changes (each_chain fc) (each_chain fc') n
  unfolding visit_chain
  visit_chain-each fc fc' n e =
      let (fs, es, el) = counted-eq-ok _ (visit_filters c change fc.name fc.filters) _ _ e in
      rw el (visit_filters-each fc.name fc.filters fs n es)

  visit_chains-each :
      (fcs fcs' : List (FilterChain Any)) (n : ℕ)
      → visit_chains c change fcs ≡ ok (fcs', n)
      → Changes (each_chains c fcs) (each_chains c fcs') n
  unfolding visit_chains each_chains
  visit_chains-each [] fcs' n e = ground arith
  visit_chains-each (fc ∷ fcs) fcs' n e =
      let (fc1, i, fcs1, j, ec, es, el, en) =
        both-eq-ok _ (visit_chain c change fc) (visit_chains c change fcs) _ _ e in
      rw (el, en)
        (Changes-append _ _ _ _ _ _ (visit_chain-each fc fc1 i ec)
          (visit_chains-each fcs fcs1 j es))

  abbrev default_chain : Option (FilterChain Any) → List (FilterChain Any)
  default_chain none = []
  default_chain (some fc) = fc ∷ []

  visit_default-each :
      (d d' : Option (FilterChain Any)) (n : ℕ)
      → visit_default c change d ≡ ok (d', n)
      → Changes (each_chains c (default_chain d)) (each_chains c (default_chain d')) n
  unfolding visit_default each_chains
  visit_default-each none d' n e = ground arith
  visit_default-each (some fc) d' n e =
      let (fc1, ec, el) = counted-eq-ok _ (visit_chain c change fc) _ _ e in
      rw (el, append-nil, append-nil) (visit_chain-each fc fc1 n ec)

  each_chains-append :
      (xs ys : List (FilterChain Any))
      → each_chains c (xs ++ ys) ≡ each_chains c xs ++ each_chains c ys
  unfolding each_chains
  each_chains-append [] ys = refl
  each_chains-append (x ∷ xs) ys = simp (each_chains-append xs ys, append_assoc)

  all_chains-append :
      (fcs : List (FilterChain Any)) (d : Option (FilterChain Any))
      → elim d [ none ↦ fcs | some dfc ↦ fcs ++ dfc ∷ [] ] ≡ fcs ++ default_chain d
  all_chains-append fcs none = sym (append-nil fcs)
  all_chains-append fcs (some dfc) = refl

  each_hcm-split :
      (l : Listener Any)
      → each_hcm c l
        ≡ each_chains c l.filter_chains ++ each_chains c (default_chain l.default_filter_chain)
  unfolding each_hcm
  each_hcm-split l =
      ap (each_chains c) (all_chains-append l.filter_chains l.default_filter_chain)
      ∙ each_chains-append l.filter_chains (default_chain l.default_filter_chain)

  -- The loop changes every connection manager of a listener as the function says, those of the
  -- default filter chain included, and returns how many it changed.
  pub visit_listener-each :
      (l l' : Listener Any) (n : ℕ)
      → visit_listener c change l ≡ ok (l', n)
      → (each_hcm c l' ≡ map apply_change (each_hcm c l)) × (n ≡ count_changes (each_hcm c l))
  unfolding visit_listener
  visit_listener-each l l' n e =
      let (fcs, i, d, j, ec, ed, el, en) =
        both-eq-ok _ (visit_chains c change l.filter_chains)
          (visit_default c change l.default_filter_chain) _ _ e in
      rw
        (
          el,
          en,
          each_hcm-split l,
          each_hcm-split (record l { filter_chains = fcs; default_filter_chain = d }),
        )
        (Changes-append _ _ _ _ _ _ (visit_chains-each _ fcs i ec) (visit_default-each _ d j ed))
