-- ===== src/Extension/Hook/Protected.antt =====
-- What the whole hook guarantees of the listeners of its response
-- (internal/extensionserver/server/server.go).
use network_services_operato.Common.{
  ℕ, String, true, false, ◌≡◌, sym, subst, List, [], ◌∷◌, ◌++◌, map, Option, none, some, All,
  Paired, arith, Bool-cases, Option-cases, inl, inr, append-nil,
}
use network_services_operato.Common.Result.{ok, >>=-eq-ok, traverse-Paired}
use network_services_operato.Extension.Xds.{Listener, FilterChain, Hcm}
use network_services_operato.Extension.Codec.{Codec}
use network_services_operato.Extension.Hcm.Each.{each_hcm, each_chains, each_filters, all_chains}
use network_services_operato.Extension.Hcm.Laws.{apply_change, visit_listener-each}
use network_services_operato.Extension.Index.{PolicyIndex}
use network_services_operato.Extension.Index.Objects
use network_services_operato.Extension.Waf.Listener.{inject_coraza_listener_filters, hcm_has_filter}
use network_services_operato.Extension.Waf.ListenerSafe.{
  IsEnabled, is_covered, inject_coraza-is_covered,
}
use network_services_operato.Extension.LocalReply.Inject.{
  is_off, inject_local_reply, inject_local_reply_config, build_local_reply_config,
}
use network_services_operato.Extension.LocalReply.InjectSafe.{
  is_branded, inject_local_reply-is_branded,
}
use network_services_operato.Extension.Tls.Prune.{
  X509, kept_chains, chain_references_bad_secret, bad_secrets,
}
use network_services_operato.Extension.Tls.PruneSafe.{
  ListenerResult, clean, intact, pruned, ListenerResults, done, more,
  prune_invalid_tls_secrets-result,
}
use network_services_operato.Extension.Hook.{
  ServerConfig, Snapshot, modify_listener, mutate_snapshot, post_translate_modify,
}
use network_services_operato.Extension.Hook.Run.{mutate_snapshot-eq-ok, post_translate_modify-eq-ok}

module _ {A : Type 0} (P : A → Type 0) where
  All-append_left : (xs ys : List A) → All P (xs ++ ys) → All P xs
  All-append_left [] ys h = tt
  All-append_left (x ∷ xs) ys h = (h.0, All-append_left xs ys h.1)

  All-append_right : (xs ys : List A) → All P (xs ++ ys) → All P ys
  All-append_right [] ys h = h
  All-append_right (x ∷ xs) ys h = All-append_right xs ys h.1

  All-both : (xs ys : List A) → All P xs → All P ys → All P (xs ++ ys)
  All-both [] ys h k = k
  All-both (x ∷ xs) ys h k = (h.0, All-both xs ys h.1 k)

module _ {A B : Type 0} (R : A → B → Type 0) (P : B → Type 0) where
  All-Paired :
      ((a : A) (b : B) → R a b → P b) → (xs : List A) (ys : List B) → Paired R xs ys → All P ys
  All-Paired f [] [] h = tt
  All-Paired f [] (y ∷ ys) h = elim h [ ]
  All-Paired f (x ∷ xs) [] h = elim h [ ]
  All-Paired f (x ∷ xs) (y ∷ ys) h = (f x y h.0, All-Paired f xs ys h.1)

module _ (c : Codec) where
  open c use {Any}

  abbrev default_chains : Option (FilterChain Any) → List (FilterChain Any)
  default_chains none = []
  default_chains (some fc) = fc ∷ []

  all_chains-append :
      (l : Listener Any) → all_chains c l ≡ l.filter_chains ++ default_chains l.default_filter_chain
  all_chains-append l = elim (Option-cases l.default_filter_chain) [
    | inl absent ↦ ground (arith, append-nil l.filter_chains)
    | inr (fc, present) ↦ ground arith
  ]

  -- Dropping filter chains keeps what holds of all connection managers.
  module _ (P : String × Hcm Any → Type 0) (bad : List String) where
    kept-All :
        (fcs rest : List (FilterChain Any))
        → All P (each_chains c (fcs ++ rest))
        → All P (each_chains c (kept_chains c bad fcs ++ rest))
    unfolding kept_chains each_chains
    kept-All [] rest h = h
    kept-All (fc ∷ fcs) rest h =
        let here = each_filters c fc.name fc.filters in
        let more_chains =
          kept-All fcs rest (All-append_right P here (each_chains c (fcs ++ rest)) h) in
        elim (Bool-cases (chain_references_bad_secret c bad fc)) [
          | inl dropped ↦ rw dropped more_chains
          | inr good ↦ rw good (
              All-both P here (each_chains c (kept_chains c bad fcs ++ rest))
                (All-append_left P here (each_chains c (fcs ++ rest)) h) more_chains)
        ]

    pruned-All :
        (l : Listener Any)
        → All P (each_hcm c l)
        → All P (each_hcm c (record l { filter_chains = kept_chains c bad l.filter_chains }))
    unfolding each_hcm
    pruned-All l h =
        let l' = record l { filter_chains = kept_chains c bad l.filter_chains } in
        subst (λ k. All P (each_chains c k)) (sym (all_chains-append l'))
          (kept-All l.filter_chains (default_chains l.default_filter_chain)
            (subst (λ k. All P (each_chains c k)) (all_chains-append l) h))

    result-All :
        (l l' : Listener Any) (n : ℕ)
        → ListenerResult c bad l l' n
        → All P (each_hcm c l)
        → All P (each_hcm c l')
    result-All l l' n (clean _ e _) h = rw e h
    result-All l l' n (intact _ _ e _) h = rw e h
    result-All l l' n (pruned e _ _ _) h = rw e (pruned-All l h)

    results-All :
        (ls ls' : List (Listener Any)) (n : ℕ)
        → ListenerResults c bad ls ls' n
        → All (λ l. All P (each_hcm c l)) ls
        → All (λ l. All P (each_hcm c l)) ls'
    results-All ls ls' n done h = tt
    results-All ls ls' n (more {l = l} {l' = l'} {ls = ms} {ls' = ms'} {n = i} {m = j} r rs e) h =
        (result-All l l' i r h.0, results-All ms ms' j rs h.1)

  abbrev pub IsGuarded : ServerConfig → String × Hcm Any → Type 0
  IsGuarded cfg h = (is_covered cfg.coraza h ≡ true) × (is_branded h ≡ true)

  -- The error page leaves the filters as they are.
  still_covered :
      (cfg : ServerConfig) (hs : List (String × Hcm Any))
      → All (λ h. is_covered cfg.coraza h ≡ true) hs
      → All
          (λ h. is_covered cfg.coraza h ≡ true)
          (map (apply_change c (inject_local_reply (build_local_reply_config cfg.local_reply))) hs)
  unfolding inject_local_reply hcm_has_filter
  still_covered cfg [] h = tt
  still_covered cfg ((chain, m) ∷ hs) h = (ground (arith, h.0), still_covered cfg hs h.1)

  All-zip :
      {A : Type 0} (P Q : A → Type 0) (xs : List A) → All P xs → All Q xs → All (λ x. P x × Q x) xs
  All-zip P Q [] h k = tt
  All-zip P Q (x ∷ xs) h k = ((h.0, k.0), All-zip P Q xs h.1 k.1)

  modify_listener-IsGuarded :
      (cfg : ServerConfig) (l l' : Listener Any)
      → IsEnabled cfg.coraza
      → is_off cfg.local_reply ≡ false
      → modify_listener c cfg l ≡ ok l'
      → All (IsGuarded cfg) (each_hcm c l')
  unfolding modify_listener inject_local_reply_config
  modify_listener-IsGuarded cfg l l' on page e =
      let (p, ep, e1) = >>=-eq-ok (inject_coraza_listener_filters c cfg.coraza l) _ e in
      let (q, eq, e2) = >>=-eq-ok (inject_local_reply_config c cfg.local_reply p.0) _ e1 in
      let lrc = build_local_reply_config cfg.local_reply in
      let (after, _) = visit_listener-each c (inject_local_reply lrc) p.0 q.0 q.1 (rw page at eq) in
      let covered = (inject_coraza-is_covered c cfg.coraza l p.0 p.1 on ep).0 in
      let branded = (inject_local_reply-is_branded c cfg.local_reply p.0 q.0 q.1 page eq).0 in
      let s : q.0 ≡ l' = cc in
      subst (λ k. All (IsGuarded cfg) (each_hcm c k)) s
        (All-zip (λ h. is_covered cfg.coraza h ≡ true) (λ h. is_branded h ≡ true) (each_hcm c q.0)
          (rw after (still_covered cfg (each_hcm c p.0) covered)) branded)

  mutate_snapshot-IsGuarded :
      (cfg : ServerConfig) (idx : PolicyIndex) (req s : Snapshot Any)
      → IsEnabled cfg.coraza
      → is_off cfg.local_reply ≡ false
      → mutate_snapshot c cfg idx req ≡ ok s
      → All (λ l. All (IsGuarded cfg) (each_hcm c l)) s.listeners
  mutate_snapshot-IsGuarded cfg idx req s on page e =
      let (ls, governed, r, routes, el, _, _, _, es) = mutate_snapshot-eq-ok c cfg idx req s e in
      let after = traverse-Paired (modify_listener c cfg) req.listeners ls el in
      subst (λ k. All (λ l. All (IsGuarded cfg) (each_hcm c l)) k.listeners) (sym es)
        (All-Paired (λ l l'. modify_listener c cfg l ≡ ok l')
          (λ l. All (IsGuarded cfg) (each_hcm c l))
          (λ l l' h. modify_listener-IsGuarded cfg l l' on page h) req.listeners ls after)

  -- If the Coraza filter and an error page are switched on and the hook returns a response, every
  -- connection manager with dynamic routes of every listener in the response carries the Coraza filter
  -- and has an error page; pruning broken certificates afterwards takes neither away.
  pub post_translate_modify-IsGuarded :
      (cfg : ServerConfig) (cl : Objects.Cluster) (x : X509) (now : ℕ) (req resp : Snapshot Any)
      → IsEnabled cfg.coraza
      → is_off cfg.local_reply ≡ false
      → post_translate_modify c cfg cl x now req ≡ ok resp
      → All (λ l. All (IsGuarded cfg) (each_hcm c l)) resp.listeners
  post_translate_modify-IsGuarded cfg cl x now req resp on page e =
      let (idx, s, _, es, er) = post_translate_modify-eq-ok c cfg cl x now req resp e in
      let results = (prune_invalid_tls_secrets-result c x s.listeners s.secrets now).0 in
      let before = mutate_snapshot-IsGuarded cfg idx req s on page es in
      rw er
        (results-All (IsGuarded cfg) (bad_secrets x now s.secrets) s.listeners _ _ results before)
