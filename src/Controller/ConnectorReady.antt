-- ===== src/Controller/ConnectorReady.antt =====
-- When a reconciled connector is Ready (internal/controller/connector_controller.go).
use network_services_operato.Common.{
  ℕ, ◌+◌, ◌*◌, ◌≤◌, ◌≡◌, ◌≢◌, refl, sym, ap, subst, ◌∙◌, String, true, false, ltb, ◌==◌, string_eq,
  Option, some, arith, str_eq_iff, Bool-cases, inl, inr,
}
use network_services_operato.Common.Int.{ℤ}
use network_services_operato.Common.Result.{ok, >>=-eq-ok}
use network_services_operato.Common.Member.{differs_iff}
use network_services_operato.Controller.Connector.{
  Condition, Conditions, found, Lease, LeaseStatus, Status, Connector, World, expiry_status,
  connector_lease_ready, condition, accepted_condition, ensure_lease, lease_condition, same_status,
  store, begun, reconcile_accepted, reconcile_refused, reconcile_connector,
}
use network_services_operato.Controller.ConnectorSafe.{
  picked, some_inj, taken_branch, first_holds, not_false, IsWatched, IsResolved, lease-IsReady,
  accepted-IsResolved, ready_condition,
}

-- What is documented of conditions: a condition that was set is found, setting one type leaves the
-- others, and conditions that are the same are found alike.
pub record ConditionLaws (K : Conditions) : Type 0 where
  pub find-set : (t : String) (c : Condition) (cs : K.C) → K.find t (K.set t c cs) ≡ some c
  pub find-same : (t : String) (a b : K.C) → K.same a b ≡ true → K.find t a ≡ K.find t b

module _ (K : Conditions) (laws : ConditionLaws K) where
  store-keeps :
      (w : World K) (original status : Status K) (requeue : Option ℤ) (s : Status K) (q : Option ℤ)
      (t : String)
      → store K w original status requeue ≡ ok (s, q)
      → (requeue ≡ q) × (K.find t status.conditions ≡ K.find t s.conditions)
  unfolding store
  store-keeps w original status requeue s q t e =
      elim (picked (same_status K original status) w.update_fails _ _ _ _ e) [
        | inl (same, p) ↦ (
          ap (λ x. x.1) p,
          sym (laws.find-same t original.conditions status.conditions (first_holds _ _ same))
              ∙ ap (λ x. K.find t x.0.conditions) p,
        )
        | inr p ↦ (ap (λ x. x.1) p, ap (λ x. K.find t x.0.conditions) p)
      ]

  -- If a reconciled connector comes out Ready, then its class is named and exists, its lease exists, was
  -- renewed and had not run out when it was looked at, and RequeueAfter is positive and reaches the end
  -- of the lease, unless that end was reached when the clock was read again for RequeueAfter.
  pub reconcile_connector-IsReady :
      (w : World K) (c : Connector K) (s : Status K) (q : Option ℤ) (r : Condition)
      → reconcile_connector K w c ≡ ok (s, q)
      → K.find "Ready" s.conditions ≡ some r
      → r.status ≡ "True"
      → IsResolved K w c × IsWatched K w q
  unfolding reconcile_connector reconcile_accepted reconcile_refused
  reconcile_connector-IsReady w c s q r e at h =
      let (a, ea, e2) = >>=-eq-ok (accepted_condition K w c) _ e in
      elim (taken_branch (a.status == "True") _ _ _ e2) [
        | inl (is, e3) ↦
            let (ref, er, e4) = >>=-eq-ok (ensure_lease K w c c.status.lease_ref) _ e3 in
            let (ls, el, e5) = >>=-eq-ok (connector_lease_ready K w ref) _ e4 in
            let (eq, found_ready) = store-keeps w _ _ _ s q "Ready" e5 in
            let same : lease_condition K ls c.generation ≡ r =
              some_inj (sym (laws.find-set "Ready" _ _) ∙ found_ready ∙ at) in
            let ready = ready_condition K ls c.generation (ap (λ x. x.status) same ∙ h) in
            (
              accepted-IsResolved K w c a ea ((str_eq_iff _ _).0 is),
              subst (λ q. IsWatched K w q) eq (lease-IsReady K w ref ls el ready),
            )
        | inr (is_not, e3) ↦
            let (eq, found_ready) = store-keeps w _ _ _ s q "Ready" e3 in
            let same = some_inj (sym (laws.find-set "Ready" _ _) ∙ found_ready ∙ at) in
            absurd (not_false r.status (sym (ap (λ x. x.status) same)) h)
      ]

  store-succeeds :
      (w : World K) (original status : Status K) (requeue : Option ℤ) (t : String)
      → w.update_fails ≡ false
      → (s : Status K) × (store K w original status requeue ≡ ok (s, requeue))
        × (K.find t s.conditions ≡ K.find t status.conditions)
  unfolding store
  store-succeeds w original status requeue t u = elim (Bool-cases (same_status K original status)) [
    | inl same ↦ (
      original,
      rw same refl,
      laws.find-same t original.conditions status.conditions (first_holds _ _ same),
    )
    | inr differs ↦ (status, rw (differs, u) refl, refl)
  ]

  resolved :
      (w : World K) (c : Connector K)
      → IsResolved K w c
      → accepted_condition K w c
        ≡ ok (condition K "True" "Accepted" "Connector class resolved" c.generation)
  unfolding accepted_condition
  resolved w c (ne, at) = rw ((differs_iff c.class_name "").1 ne, at) refl

  held :
      (w : World K) (name : String) (lease : Lease) (renewed seconds : ℕ)
      → name ≢ ""
      → w.get_lease name ≡ found lease
      → lease.renew_time ≡ some renewed
      → lease.duration_seconds ≡ some seconds
      → w.now ≤ renewed + seconds * 1000000000
      → (ls : LeaseStatus) × (connector_lease_ready K w (some name) ≡ ok ls) × (ls.ready ≡ true)
  unfolding connector_lease_ready
  held w name lease renewed seconds ne at er es early =
      let e : ltb (renewed + seconds * 1000000000) w.now ≡ false = ground arith in
      (
        expiry_status K w renewed seconds,
        rw ((differs_iff name "").1 ne, at, er, es) refl,
        rw e refl,
      )

  named_lease :
      (w : World K) (c : Connector K) (name : String) (ref : Option String)
      → ref ≡ some name
      → name ≢ ""
      → ensure_lease K w c ref ≡ ok (some name)
  unfolding ensure_lease
  named_lease w c name ref e ne = rw (e, (differs_iff name "").1 ne) refl

  -- A connector whose class exists and whose lease is named, renewed and not run out comes out Ready when
  -- the status can be written.
  pub reconcile_connector-becomes_ready :
      (w : World K) (c : Connector K) (name : String) (lease : Lease) (renewed seconds : ℕ)
      → IsResolved K w c
      → c.status.lease_ref ≡ some name
      → name ≢ ""
      → w.get_lease name ≡ found lease
      → lease.renew_time ≡ some renewed
      → lease.duration_seconds ≡ some seconds
      → w.now ≤ renewed + seconds * 1000000000
      → w.update_fails ≡ false
      → (s : Status K) × (q : Option ℤ) × (r : Condition) × (reconcile_connector K w c ≡ ok (s, q))
        × (K.find "Ready" s.conditions ≡ some r)
        × (r.status ≡ "True")
  unfolding reconcile_connector reconcile_accepted
  reconcile_connector-becomes_ready w c name lease renewed seconds res ref ne at er es early u =
      let (ls, el, ready) = held w name lease renewed seconds ne at er es early in
      let status : Status K = record {
        conditions =
            K.set "Ready" (lease_condition K ls c.generation)
              (begun K c (condition K "True" "Accepted" "Connector class resolved" c.generation));
        lease_ref = some name;
      } in
      let (s, stored, kept) = store-succeeds w c.status status ls.requeue_after "Ready" u in
      (
        s,
        ls.requeue_after,
        lease_condition K ls c.generation,
        rw (resolved w c res, named_lease w c name _ ref ne, el) stored,
        kept ∙ laws.find-set "Ready" _ _,
        rw ready refl,
      )
