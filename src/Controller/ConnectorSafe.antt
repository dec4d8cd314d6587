-- ===== src/Controller/ConnectorSafe.antt =====
-- The class and the lease of a connector that is reconciled
-- (internal/controller/connector_controller.go).
use network_services_operato.Common.{
  ℕ, suc, ◌+◌, ◌-◌, ◌*◌, ◌≤◌, ◌≡◌, ◌≢◌, refl, sym, ap, subst, ◌∙◌, String, Bool, true, false, ltb,
  ◌==◌, string_eq, if◌then◌else◌, Option, none, some, ◌⊎◌, arith, str_eq_iff, inl, inr, Bool-cases,
}
use network_services_operato.Common.Int.{ℤ, pos}
use network_services_operato.Common.Result.{Result, ok, err}
use network_services_operato.Common.Member.{differs_iff}
use network_services_operato.Controller.Connector.{
  Condition, Conditions, Fetched, found, not_found, get_failed, Lease, Failure, LeaseStatus, minus,
  Connector, World, waiting, expiry_status, renewal_status, lease_status, connector_lease_ready,
  condition, class_condition, accepted_condition, lease_condition,
}

-- Which branch of a write was taken.
pub picked {ℓ κ} :
    {E : Type ℓ} {A : Type κ} (b u : Bool) (f : E) (x y r : A)
    → (if b then ok x else if u then err f else ok y) ≡ ok r
    → ((b ≡ true) × (x ≡ r)) ⊎ (y ≡ r)
picked true u f x y r e = inl (refl, cc)
picked false true f x y r e = absurd (cc)
picked false false f x y r e = inr (cc)

pub some_inj {ℓ} : {A : Type ℓ} {a b : A} → some a ≡ some b → a ≡ b
some_inj e = cc

pub taken_branch {ℓ} :
    {A : Type ℓ} (b : Bool) (x y r : A)
    → (if b then x else y) ≡ r
    → ((b ≡ true) × (x ≡ r)) ⊎ ((b ≡ false) × (y ≡ r))
taken_branch true x y r e = inl (refl, e)
taken_branch false x y r e = inr (refl, e)

pub first_holds : (a b : Bool) → (if a then b else false) ≡ true → a ≡ true
first_holds a b h = ground arith

pub not_false : (s : String) → s ≡ "False" → s ≡ "True" → ⊥
not_false s e f = (differs_iff "False" "True").0 refl (sym e ∙ f)

abbrev answered : LeaseStatus → Result Failure LeaseStatus
answered ls = ok ls

abbrev decided : Condition → Result Failure Condition
decided c = ok c

module _ (K : Conditions) where
  -- The lease is there, was renewed, and runs to `expires`, which is not past.
  abbrev pub IsHeld : World K → ℕ → Type 0
  IsHeld w expires =
      (name : String) × (lease : Lease) × (w.get_lease name ≡ found lease)
      × (renewed : ℕ) × (lease.renew_time ≡ some renewed)
      × (seconds : ℕ) × (lease.duration_seconds ≡ some seconds)
      × (expires ≡ renewed + seconds * 1000000000)
      × (w.now ≤ expires)

  -- RequeueAfter is positive, so that the connector is reconciled again, and no earlier than
  -- `expires`; or `expires` was reached when the clock was read for RequeueAfter.
  abbrev pub IsRequeued : World K → ℕ → Option ℤ → Type 0
  IsRequeued w expires q =
      (expires ≤ w.now_again)
      ⊎ ((d : ℕ) × (q ≡ some (pos (suc d))) × (expires ≤ w.now_again + suc d))

  abbrev pub IsWatched : World K → Option ℤ → Type 0
  IsWatched w q = (expires : ℕ) × IsHeld w expires × IsRequeued w expires q

  minus-IsRequeued :
      (w : World K) (expires jitter : ℕ)
      → IsRequeued w expires (some (minus (expires + jitter) w.now_again))
  minus-IsRequeued w expires jitter = elim (Bool-cases (ltb w.now_again expires)) [
    | inr late ↦ inl (ground arith)
    | inl early ↦
        let e : minus (expires + jitter) w.now_again
            ≡ pos (suc (expires + jitter - w.now_again - 1)) =
          grind arith in
        inr (_, ap (λ z. some z) e, ground arith)
  ]

  not-waiting : (message : String) (ls : LeaseStatus) → waiting K message ≡ ls → ls.ready ≡ true → ⊥
  not-waiting message ls s h = let u : false ≡ true = ap (λ l. l.ready) s ∙ h in cc

  ok-waiting :
      (message : String) (ls : LeaseStatus)
      → answered (waiting K message) ≡ answered ls
      → ls.ready ≡ true
      → ⊥
  ok-waiting message ls e h = not-waiting message ls (cc) h

  -- A lease that is ready has not run out.
  unexpired :
      (b : Bool) (message : String) (ls : LeaseStatus)
      → (if b then waiting K message else ls).ready ≡ true
      → b ≡ false
  unexpired true message ls h = absurd (not-waiting message (waiting K message) refl h)
  unexpired false message ls h = refl

  expiry-IsReady :
      (w : World K) (renewed seconds : ℕ)
      → (expiry_status K w renewed seconds).ready ≡ true
      → let expires = renewed + seconds * 1000000000 in
        (w.now ≤ expires) × IsRequeued w expires (expiry_status K w renewed seconds).requeue_after
  expiry-IsReady w renewed seconds h =
      let e = unexpired (ltb (renewed + seconds * 1000000000) w.now) _ _ h in
      rw e (ground arith, minus-IsRequeued w _ _)

  renewal-IsReady :
      (w : World K) (name : String) (lease : Lease) (r s : Option ℕ)
      → w.get_lease name ≡ found lease
      → lease.renew_time ≡ r
      → lease.duration_seconds ≡ s
      → (renewal_status K w r s).ready ≡ true
      → IsWatched w (renewal_status K w r s).requeue_after
  renewal-IsReady w name lease (some renewed) (some seconds) at er es h =
      let (early, requeued) = expiry-IsReady w renewed seconds h in
      (_, (name, lease, at, renewed, er, seconds, es, refl, early), requeued)
  renewal-IsReady w name lease none s at er es h =
      absurd (not-waiting "Connector lease has not been renewed yet." _ refl h)
  renewal-IsReady w name lease (some renewed) none at er es h =
      absurd (not-waiting "Connector lease has not been renewed yet." _ refl h)

  fetched-IsReady :
      (w : World K) (name : String) (o : Fetched Lease) (ls : LeaseStatus)
      → w.get_lease name ≡ o
      → lease_status K w o ≡ ok ls
      → ls.ready ≡ true
      → IsWatched w ls.requeue_after
  fetched-IsReady w name (found lease) ls at e h =
      let s : renewal_status K w lease.renew_time lease.duration_seconds ≡ ls = cc in
      subst (λ l. IsWatched w l.requeue_after) s
        (renewal-IsReady w name lease _ _ at refl refl (ap (λ l. l.ready) s ∙ h))
  fetched-IsReady w name not_found ls at e h = absurd (ok-waiting _ ls e h)
  fetched-IsReady w name get_failed ls at e h = absurd (cc)

  pub lease-IsReady :
      (w : World K) (ref : Option String) (ls : LeaseStatus)
      → connector_lease_ready K w ref ≡ ok ls
      → ls.ready ≡ true
      → IsWatched w ls.requeue_after
  unfolding connector_lease_ready
  lease-IsReady w none ls e h = absurd (ok-waiting _ ls e h)
  lease-IsReady w (some name) ls e h = named (name == "") e
    where
      named :
          (b : Bool)
          → (if b
              then ok (waiting K "Connector lease has not been created yet.")
              else lease_status K w (w.get_lease name))
            ≡ ok ls
          → IsWatched w ls.requeue_after
      named true e2 = absurd (ok-waiting _ ls e2 h)
      named false e2 = fetched-IsReady w name (w.get_lease name) ls refl e2 h

  -- The class is named and there.
  abbrev pub IsResolved : World K → Connector K → Type 0
  IsResolved w c = (c.class_name ≢ "") × (w.get_class c.class_name ≡ found tt)

  status_of : (b a : Condition) → decided b ≡ decided a → b.status ≡ a.status
  status_of b a e = let s : b ≡ a = cc in ap (λ x. x.status) s

  class-IsResolved :
      (w : World K) (c : Connector K) (o : Fetched (Unit {0})) (quoted : String) (a : Condition)
      → c.class_name ≢ ""
      → w.get_class c.class_name ≡ o
      → class_condition K quoted c.generation o ≡ ok a
      → a.status ≡ "True"
      → IsResolved w c
  class-IsResolved w c (found u) quoted a ne at e h = (ne, at)
  class-IsResolved w c not_found quoted a ne at e h =
      absurd (not_false a.status (sym (status_of _ a e)) h)
  class-IsResolved w c get_failed quoted a ne at e h = absurd (cc)

  pub accepted-IsResolved :
      (w : World K) (c : Connector K) (a : Condition)
      → accepted_condition K w c ≡ ok a
      → a.status ≡ "True"
      → IsResolved w c
  unfolding accepted_condition
  accepted-IsResolved w c a e h = elim (taken_branch (c.class_name == "") _ _ _ e) [
    | inl (eq, e2) ↦ absurd (not_false a.status (sym (status_of _ a e2)) h)
    | inr (ne, e2) ↦
        class-IsResolved w c (w.get_class c.class_name) (w.quote c.class_name) a
          (λ same. let t = (str_eq_iff c.class_name "").1 same in absurd (cc)) refl e2 h
  ]

  pub ready_condition :
      (ls : LeaseStatus) (generation : ℕ)
      → (lease_condition K ls generation).status ≡ "True"
      → ls.ready ≡ true
  ready_condition ls generation h = go ls.ready h
    where
      go :
          (b : Bool)
          → (if b
              then condition K "True" "ConnectorReady" "The connector is ready to tunnel traffic."
                  generation
              else condition K "False" "ConnectorNotReady" ls.message generation).status
            ≡ "True"
          → b ≡ true
      go true h2 = refl
      go false h2 = absurd (not_false _ refl h2)
