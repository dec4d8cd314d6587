-- ===== src/Extension/Waf/ListenerSafe.antt =====
-- What the injection leaves on the connection managers of a listener, and what a second one does
-- (internal/extensionserver/mutate/tpp.go).
use network_services_operato.Common.{
  ℕ, suc, String, Bool, true, false, not, ◌||◌, ◌≡◌, refl, ◌∙◌, ◌≢◌, List, [], ◌∷◌, map, none, some,
  ◌==◌, string_eq, str_eq_iff, if◌then◌else◌, All, arith, Bool-cases, Option-cases, inl, inr,
}
use network_services_operato.Common.Result.{ok}
use network_services_operato.Extension.Xds.{Hcm, Listener}
use network_services_operato.Extension.Codec.{Codec}
use network_services_operato.Extension.Hcm.{visit_listener}
use network_services_operato.Extension.Hcm.Each.{each_hcm}
use network_services_operato.Extension.Hcm.Laws.{apply_change, count_changes, visit_listener-each}
use network_services_operato.Extension.Hcm.Rerun.{visit_listener-again}
use network_services_operato.Extension.Waf.Listener.{
  CorazaConfig, is_rds, hcm_has_filter, inject_coraza_filter, coraza_listener_filter_any,
  inject_coraza_listener_filters,
}

-- Injection is switched on.
pub record IsEnabled (cfg : CorazaConfig) : Type 0 where
  pub not_disabled : cfg.disabled ≡ false
  pub named : cfg.filter_name ≢ ""

module _ {Any : Type 0} where
  -- Without dynamic routes, or with the filter.
  abbrev pub is_covered : CorazaConfig → String × Hcm Any → Bool
  is_covered cfg (chain, h) = not (is_rds h.route_specifier) || hcm_has_filter h cfg.filter_name

  abbrev pub count_uncovered : CorazaConfig → List (String × Hcm Any) → ℕ
  count_uncovered cfg [] = 0
  count_uncovered cfg (h ∷ hs) =
      let n = count_uncovered cfg hs in if is_covered cfg h then n else suc n

  inject_coraza_filter-once :
      (cfg : CorazaConfig) (a : Any) (h h' : Hcm Any)
      → inject_coraza_filter cfg a h ≡ some h'
      → inject_coraza_filter cfg a h' ≡ none
  unfolding inject_coraza_filter
  inject_coraza_filter-once cfg a h h' e =
      ground (arith, str_eq_iff cfg.filter_name cfg.filter_name)

module _ (c : Codec) where
  open c use {Any}

  changed-is_covered :
      (cfg : CorazaConfig) (a : Any) (hs : List (String × Hcm Any))
      → All (λ h. is_covered cfg h ≡ true) (map (apply_change c (inject_coraza_filter cfg a)) hs)
  changed-is_covered cfg a [] = tt
  changed-is_covered cfg a ((chain, h) ∷ hs) = (
    unfold inject_coraza_filter hcm_has_filter in
        ground (arith, str_eq_iff cfg.filter_name cfg.filter_name),
    changed-is_covered cfg a hs,
  )

  count_changes-uncovered :
      (cfg : CorazaConfig) (a : Any) (hs : List (String × Hcm Any))
      → count_changes c (inject_coraza_filter cfg a) hs ≡ count_uncovered cfg hs
  unfolding inject_coraza_filter
  count_changes-uncovered cfg a [] = refl
  count_changes-uncovered cfg a ((chain, h) ∷ hs) = ground (arith, count_changes-uncovered cfg a hs)

  -- An enabled injection that succeeds has run the loop with the packed filter.
  pub inject_coraza-eq-ok :
      (cfg : CorazaConfig) (l l' : Listener Any) (n : ℕ)
      → IsEnabled cfg
      → inject_coraza_listener_filters c cfg l ≡ ok (l', n)
      → (a : Any) × (coraza_listener_filter_any c cfg ≡ some a)
        × (visit_listener c (inject_coraza_filter cfg a) l ≡ ok (l', n))
  unfolding inject_coraza_listener_filters
  inject_coraza-eq-ok cfg l l' n on e = elim (Option-cases (coraza_listener_filter_any c cfg)) [
    | inl failed ↦ absurd (ground (arith, on.not_disabled, on.named, str_eq_iff cfg.filter_name ""))
    | inr (a, packed) ↦
        (a, packed, ground (arith, on.not_disabled, on.named, str_eq_iff cfg.filter_name ""))
  ]

  -- If the injection is enabled and succeeds, every connection manager of the listener with dynamic
  -- routes carries the filter, and the number returned is the number of connection managers that
  -- lacked it.
  pub inject_coraza-is_covered :
      (cfg : CorazaConfig) (l l' : Listener Any) (n : ℕ)
      → IsEnabled cfg
      → inject_coraza_listener_filters c cfg l ≡ ok (l', n)
      → All (λ h. is_covered cfg h ≡ true) (each_hcm c l')
        × (n ≡ count_uncovered cfg (each_hcm c l))
  inject_coraza-is_covered cfg l l' n on e =
      let (a, packed, run) = inject_coraza-eq-ok cfg l l' n on e in
      let (after, counted) = visit_listener-each c (inject_coraza_filter cfg a) l l' n run in
      (
        rw after (changed-is_covered cfg a (each_hcm c l)),
        counted ∙ count_changes-uncovered cfg a (each_hcm c l),
      )

  -- Injecting twice is injecting once: the second run succeeds, changes nothing and counts nothing.
  pub inject_coraza_idempotent :
      (cfg : CorazaConfig) (l l' : Listener Any) (n : ℕ)
      → inject_coraza_listener_filters c cfg l ≡ ok (l', n)
      → inject_coraza_listener_filters c cfg l' ≡ ok (l', 0)
  unfolding inject_coraza_listener_filters
  inject_coraza_idempotent cfg l l' n e =
      elim (Bool-cases (cfg.disabled || (cfg.filter_name == ""))) [
        | inl off ↦ rw off
        | inr on ↦ elim (Option-cases (coraza_listener_filter_any c cfg)) [
          | inl failed ↦ absurd (ground arith)
          | inr (a, packed) ↦
              rw (on, packed, inject_coraza_listener_filters)
                (visit_listener-again c (inject_coraza_filter cfg a)
                  (inject_coraza_filter-once cfg a) l l' n (ground arith))
        ]
      ]
