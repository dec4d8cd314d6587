-- ===== src/Extension/Tls/PruneSafe.antt =====
-- What pruning leaves of the listeners and the secrets (internal/extensionserver/mutate/tls.go).
use network_services_operato.Common.{
  ℕ, ◌+◌, String, true, false, ◌≡◌, ◌≢◌, refl, sym, ap, ◌∙◌, subst, List, [], ◌∷◌, string_eq, All,
  arith, Bool-cases, inl, inr,
}
use network_services_operato.Extension.Xds.{FilterChain, Listener}
use network_services_operato.Extension.Codec.{Codec}
use network_services_operato.Extension.Connector.Name.{contains, push_back, append_unique}
use network_services_operato.Extension.Tls.Prune.{
  X509, Secret, bad_secrets, any_in, PruneState, kept_secrets, bad_among, add_set,
  chain_sds_secret_names, chain_references_bad_secret, chain_bad_secret_names, kept_chains,
  any_dropped, drop_step, record_dropped, replace_chains, prune_listener, prune_listeners, Pruned,
  start, prune_bad, prune_invalid_tls_secrets,
}

-- Every name of the first list stands in the second.
abbrev pub AreAmong : List String → List String → Type 0
AreAmong bad = All (λ n. contains n bad ≡ true)

push_back-AreAmong :
    (bad : List String) (n : String) (ns : List String)
    → contains n bad ≡ true
    → AreAmong bad ns
    → AreAmong bad (push_back n ns)
push_back-AreAmong bad n [] h k = (h, tt)
push_back-AreAmong bad n (m ∷ ms) h (k, ks) = (k, push_back-AreAmong bad n ms h ks)

append_unique-AreAmong :
    (bad : List String) (ns : List String) (n : String)
    → contains n bad ≡ true
    → AreAmong bad ns
    → AreAmong bad (append_unique ns n)
unfolding append_unique
append_unique-AreAmong bad ns n h k = elim (Bool-cases (contains n ns)) [
  | inl old ↦ rw old k
  | inr new ↦ rw new (push_back-AreAmong bad n ns h k)
]

add_set-AreAmong :
    (bad set ns : List String) → AreAmong bad set → AreAmong bad ns → AreAmong bad (add_set set ns)
add_set-AreAmong bad set [] h k = h
add_set-AreAmong bad set (n ∷ ns) h (k, ks) =
    add_set-AreAmong bad (append_unique set n) ns (append_unique-AreAmong bad set n k h) ks

bad_among-AreAmong :
    (bad out ns : List String) → AreAmong bad out → AreAmong bad (bad_among bad out ns)
bad_among-AreAmong bad out [] h = h
bad_among-AreAmong bad out (n ∷ ns) h = elim (Bool-cases (contains n bad)) [
  | inl is_bad ↦
      rw is_bad (
        bad_among-AreAmong bad (append_unique out n) ns (append_unique-AreAmong bad out n is_bad h))
  | inr good ↦ rw good (bad_among-AreAmong bad out ns h)
]

module _ (c : Codec) where
  open c use {Any}

  -- Every chain serves a broken certificate, or none does.
  abbrev pub AreGood : List String → List (FilterChain Any) → Type 0
  AreGood bad = All (λ fc. chain_references_bad_secret c bad fc ≡ false)

  abbrev pub AreBad : List String → List (FilterChain Any) → Type 0
  AreBad bad = All (λ fc. chain_references_bad_secret c bad fc ≡ true)

  -- What pruning does to one listener: nothing if none of its chains is bad; nothing, but it is
  -- counted, if all are; else the good chains stay, in their order, and there is one at least.
  pub data ListenerResult (bad : List String) (l l' : Listener Any) (n : ℕ) : Type 0 where
    clean : AreGood bad l.filter_chains → l' ≡ l → n ≡ 0 → ListenerResult bad l l' n
    intact :
        AreBad bad l.filter_chains
        → l.filter_chains ≢ []
        → l' ≡ l
        → n ≡ 1
        → ListenerResult bad l l' n
    pruned :
        l' ≡ record l { filter_chains = kept_chains c bad l.filter_chains }
        → AreGood bad l'.filter_chains
        → l'.filter_chains ≢ []
        → n ≡ 0
        → ListenerResult bad l l' n

  kept_chains-AreGood :
      (bad : List String) (fcs : List (FilterChain Any)) → AreGood bad (kept_chains c bad fcs)
  unfolding kept_chains
  kept_chains-AreGood bad [] = tt
  kept_chains-AreGood bad (fc ∷ fcs) = elim (Bool-cases (chain_references_bad_secret c bad fc)) [
    | inl is_bad ↦ rw is_bad (kept_chains-AreGood bad fcs)
    | inr good ↦ rw good (good, kept_chains-AreGood bad fcs)
  ]

  none_kept-AreBad :
      (bad : List String) (fcs : List (FilterChain Any))
      → kept_chains c bad fcs ≡ []
      → AreBad bad fcs
  unfolding kept_chains
  none_kept-AreBad bad [] e = tt
  none_kept-AreBad bad (fc ∷ fcs) e = elim (Bool-cases (chain_references_bad_secret c bad fc)) [
    | inl is_bad ↦ (is_bad, none_kept-AreBad bad fcs (rw is_bad at e))
    | inr good ↦ absurd (ground arith)
  ]

  none_dropped-AreGood :
      (bad : List String) (fcs : List (FilterChain Any))
      → any_dropped c bad fcs ≡ false
      → AreGood bad fcs
  none_dropped-AreGood bad [] e = tt
  none_dropped-AreGood bad (fc ∷ fcs) e = elim (Bool-cases (chain_references_bad_secret c bad fc)) [
    | inl is_bad ↦ absurd (ground arith)
    | inr good ↦ (good, none_dropped-AreGood bad fcs (rw good at e))
  ]

  -- How one step changes the count of listeners left intact.
  record_dropped-left_intact :
      (bad : List String) (fcs : List (FilterChain Any)) (st : PruneState)
      → (record_dropped c bad fcs st).left_intact ≡ st.left_intact
  unfolding record_dropped
  record_dropped-left_intact bad [] st = refl
  record_dropped-left_intact bad (fc ∷ fcs) st =
      record_dropped-left_intact bad fcs (drop_step c bad fc st) ∙ ground arith

  record_dropped-AreAmong :
      (bad : List String) (fcs : List (FilterChain Any)) (st : PruneState)
      → AreAmong bad st.pruned_bad
      → AreAmong bad (record_dropped c bad fcs st).pruned_bad
  unfolding record_dropped
  record_dropped-AreAmong bad [] st h = h
  record_dropped-AreAmong bad (fc ∷ fcs) st h =
      record_dropped-AreAmong bad fcs (drop_step c bad fc st)
        (elim (Bool-cases (chain_references_bad_secret c bad fc)) [
          | inl is_bad ↦ rw is_bad (
              add_set-AreAmong bad st.pruned_bad (chain_bad_secret_names c bad fc) h (
                unfold chain_bad_secret_names in
                bad_among-AreAmong bad [] (chain_sds_secret_names c fc) tt))
          | inr good ↦ rw good h
        ])

  -- One step of the loop over the listeners: its result, the count, and the names recorded.
  abbrev IsStep : List String → Listener Any → PruneState → Listener Any × PruneState → Type 0
  IsStep bad l st r =
      (n : ℕ) × ListenerResult bad l r.0 n
      × (r.1.left_intact ≡ st.left_intact + n)
      × AreAmong bad r.1.pruned_bad

  replace_chains-IsStep :
      (bad : List String) (l : Listener Any) (st : PruneState) (fcs : List (FilterChain Any))
      → kept_chains c bad l.filter_chains ≡ fcs
      → l.filter_chains ≢ []
      → AreAmong bad st.pruned_bad
      → IsStep bad l st (replace_chains c bad l st fcs)
  replace_chains-IsStep bad l st [] e some_chain h =
      (1, intact (none_kept-AreBad bad l.filter_chains e) some_chain refl refl, refl, h)
  replace_chains-IsStep bad l st (fc ∷ fcs) e some_chain h = (
    0,
    pruned (ap (λ k. record l { filter_chains = k }) (sym e))
        (subst (AreGood bad) e (kept_chains-AreGood bad l.filter_chains)) (λ x. cc x) refl,
    omega (arith, record_dropped-left_intact bad l.filter_chains st),
    record_dropped-AreAmong bad l.filter_chains st h,
  )

  prune_listener-IsStep :
      (bad : List String) (l : Listener Any) (st : PruneState)
      → AreAmong bad st.pruned_bad
      → IsStep bad l st (prune_listener c bad l st)
  unfolding prune_listener
  prune_listener-IsStep bad l st h = elim (Bool-cases (any_dropped c bad l.filter_chains)) [
    | inl some_bad ↦ rw some_bad (
        replace_chains-IsStep bad l st (kept_chains c bad l.filter_chains) refl
          (λ e. ground (arith, ap (any_dropped c bad) e)) h)
    | inr none_bad ↦
        rw none_bad
          (0, clean (none_dropped-AreGood bad l.filter_chains none_bad) refl refl, omega arith, h)
  ]

  -- The listeners before and after, with the number of those left intact.
  pub data ListenerResults (bad : List String)
      : List (Listener Any) → List (Listener Any) → ℕ → Type 0 where
    done : ListenerResults bad [] [] 0
    more :
        {l l' : Listener Any} {ls ls' : List (Listener Any)} {n m k : ℕ}
        → ListenerResult bad l l' n
        → ListenerResults bad ls ls' m
        → k ≡ n + m
        → ListenerResults bad (l ∷ ls) (l' ∷ ls') k

  prune_listeners-results :
      (bad : List String) (ls : List (Listener Any)) (st : PruneState)
      → AreAmong bad st.pruned_bad
      → (n : ℕ) × ListenerResults bad ls (prune_listeners c bad ls st).0 n
        × ((prune_listeners c bad ls st).1.left_intact ≡ st.left_intact + n)
        × AreAmong bad (prune_listeners c bad ls st).1.pruned_bad
  unfolding prune_listeners
  prune_listeners-results bad [] st h = (0, done, omega arith, h)
  prune_listeners-results bad (l ∷ ls) st h =
      let (n, one, left, among) = prune_listener-IsStep bad l st h in
      let (m, rest, left', among') =
        prune_listeners-results bad ls (prune_listener c bad l st).1 among in
      (n + m, more one rest refl, omega (arith, left, left'), among')

-- What is left of the secrets when the names of a set are taken away.
abbrev pub IsKept : List String → List Secret → List Secret → Type 0
IsKept bad secrets kept =
    (dropped : List String) × (kept ≡ kept_secrets dropped secrets) × AreAmong bad dropped

kept_secrets-nil : (secrets : List Secret) → kept_secrets [] secrets ≡ secrets
unfolding kept_secrets
kept_secrets-nil [] = refl
kept_secrets-nil (sec ∷ secs) = ap (λ k. sec ∷ k) (kept_secrets-nil secs)

module _ (c : Codec) where
  open c use {Any}

  any_in-nil : (ns : List String) → any_in [] ns ≡ false
  any_in-nil [] = refl
  any_in-nil (n ∷ ns) = any_in-nil ns

  AreGood-nil : (fcs : List (FilterChain Any)) → AreGood c [] fcs
  AreGood-nil [] = tt
  AreGood-nil (fc ∷ fcs) = (
    unfold chain_references_bad_secret in any_in-nil (chain_sds_secret_names c fc),
    AreGood-nil fcs,
  )

  ListenerResults-refl : (ls : List (Listener Any)) → ListenerResults c [] ls ls 0
  ListenerResults-refl [] = done
  ListenerResults-refl (l ∷ ls) =
      more (clean (AreGood-nil l.filter_chains) refl refl) (ListenerResults-refl ls) refl

  kept_secrets-IsKept :
      (secrets : List Secret) (bad dropped : List String)
      → AreAmong bad dropped
      → IsKept bad secrets (elim dropped [ [] ↦ secrets | n ∷ ns ↦ kept_secrets (n ∷ ns) secrets ])
  kept_secrets-IsKept secrets bad [] h = ([], sym (kept_secrets-nil secrets), tt)
  kept_secrets-IsKept secrets bad (n ∷ ns) h = (n ∷ ns, refl, h)

  abbrev IsPruned : List String → List (Listener Any) → List Secret → Pruned c → Type 0
  IsPruned bad ls secrets p =
      ListenerResults c bad ls p.listeners p.listeners_left_intact × IsKept bad secrets p.kept

  prune_bad-result :
      (ls : List (Listener Any)) (secrets : List Secret) (bad : List String)
      → IsPruned bad ls secrets (prune_bad c ls secrets bad)
  prune_bad-result ls secrets [] =
      (ListenerResults-refl ls, ([], sym (kept_secrets-nil secrets), tt))
  prune_bad-result ls secrets (b ∷ bs) =
      let (n, results, left, among) = prune_listeners-results c (b ∷ bs) ls (start c) tt in
      let counted : n ≡ (prune_listeners c (b ∷ bs) ls (start c)).1.left_intact =
        omega (arith, left) in
      (
        subst (ListenerResults c (b ∷ bs) ls (prune_listeners c (b ∷ bs) ls (start c)).0) counted
            results,
        kept_secrets-IsKept secrets (b ∷ bs) _ among,
      )

  pub prune_invalid_tls_secrets-result :
      (x : X509) (ls : List (Listener Any)) (secrets : List Secret) (now : ℕ)
      → let p = prune_invalid_tls_secrets c x ls secrets now in
        ListenerResults c (bad_secrets x now secrets) ls p.listeners p.listeners_left_intact
        × IsKept (bad_secrets x now secrets) secrets p.kept
  unfolding prune_invalid_tls_secrets
  prune_invalid_tls_secrets-result x ls secrets now =
      prune_bad-result ls secrets (bad_secrets x now secrets)
