-- ===== src/Extension/Retrigger/Targets.antt =====
-- What a run of the reconciler does to the gateways and to the targets it remembers
-- (internal/extensionserver/retrigger/tpp.go).
use network_services_operato.Common.{
  String, Bool, false, not, ◌&&◌, ◌≡◌, refl, ap, ◌∙◌, List, [], ◌∷◌, ◌==◌, string_eq, ==_refl,
  arith, or_split, Distinct, str_eq_iff, Bool-cases, inl, inr,
}
use network_services_operato.Common.Map.{lookup, lookup-insert, lookup-erase}
use network_services_operato.Common.Member.{has, has-apart}
use network_services_operato.Extension.Connector.Name.{contains}
use network_services_operato.Extension.Retrigger.{
  LastTargets, targets_of, current_from, patch_all, removed_targets, store_targets,
  reconcile_deleted, reconcile_live,
}

patch_all-names :
    (fails : String → Bool) (ns : List String)
    → (patch_all fails ns).failed ≡ false
    → (patch_all fails ns).names ≡ ns
unfolding patch_all
patch_all-names fails [] h = refl
patch_all-names fails (n ∷ ns) h = ground (arith, patch_all-names fails ns)

stored_targets :
    (key : String) (ns : List String) (m : LastTargets)
    → targets_of (lookup key (store_targets key ns m)) ≡ ns
stored_targets key [] m = ground (arith, lookup-erase key key m, ==_refl key)
stored_targets key (n ∷ ns) m = ground (arith, lookup-insert key key (n ∷ ns) m, ==_refl key)

-- The policy names the gateway.
abbrev pub is_named : (refs : List String) → String → Bool
is_named refs k = has refs k && not (k == "")

current_from-has :
    (k : String) (seen refs : List String)
    → has (current_from seen refs) k ≡ is_named refs k && not (contains k seen)
unfolding current_from
current_from-has k seen [] = refl
current_from-has k seen (n ∷ refs) = ground (
  arith,
  str_eq_iff n k,
  str_eq_iff n "",
  str_eq_iff k "",
  current_from-has k seen refs,
  current_from-has k (n ∷ seen) refs,
)

current_from-has_none :
    (k : String) (refs : List String) → has (current_from [] refs) k ≡ is_named refs k
current_from-has_none k refs = ground (arith, current_from-has k [] refs)

current_from-Distinct : (seen refs : List String) → Distinct (current_from seen refs)
unfolding current_from
current_from-Distinct seen [] = tt
current_from-Distinct seen (n ∷ refs) = elim (Bool-cases (n == "")) [
  | inl empty ↦ rw empty (current_from-Distinct seen refs)
  | inr named ↦ rw named (elim (Bool-cases (contains n seen)) [
    | inl old ↦ rw old (current_from-Distinct seen refs)
    | inr new ↦ rw new (
      has-apart n (current_from (n ∷ seen) refs)
          (ground (arith, ==_refl n, current_from-has n (n ∷ seen) refs)),
      current_from-Distinct (n ∷ seen) refs,
    )
  ])
]

contains-has : (k : String) (xs : List String) → contains k xs ≡ has xs k
contains-has k [] = refl
contains-has k (x ∷ xs) = ground (arith, contains-has k xs)

removed_targets-has :
    (k : String) (old current : List String)
    → has (removed_targets old current) k ≡ has old k && not (has current k)
unfolding removed_targets
removed_targets-has k [] current = refl
removed_targets-has k (n ∷ old) current =
    ground (arith, str_eq_iff n k, contains-has n current, removed_targets-has k old current)

other_targets :
    (key other : String) (ns : List String) (m : LastTargets)
    → key == other ≡ false
    → lookup other (store_targets key ns m) ≡ lookup other m
other_targets key other [] m h = lookup-erase key other m ∙ rw h refl
other_targets key other (n ∷ ns) m h = lookup-insert key other (n ∷ ns) m ∙ rw h refl

-- A run for a policy that exists and that reports no error has touched each gateway that the policy
-- names, once, and no other; it has cleared exactly the gateways remembered from the last run that
-- the policy no longer names; it remembers the touched ones, and leaves what is remembered of other
-- policies.
pub reconcile_live-result :
    (touch_fails clear_fails : String → Bool) (key : String) (refs : List String) (m : LastTargets)
    → (reconcile_live touch_fails clear_fails key refs m).failed ≡ false
    → let r = reconcile_live touch_fails clear_fails key refs m in
      Distinct r.touched
      × ((k : String) → has r.touched k ≡ is_named refs k)
      × ((k : String)
          → has r.cleared k ≡ has (targets_of (lookup key m)) k && not (is_named refs k))
      × (targets_of (lookup key r.last_targets) ≡ r.touched)
      × ((other : String) → key == other ≡ false → lookup other r.last_targets ≡ lookup other m)
unfolding reconcile_live
reconcile_live-result touch_fails clear_fails key refs m h =
    let current = current_from [] refs in
    let removed = removed_targets (targets_of (lookup key m)) current in
    let (no_touch, no_clear) =
      or_split (patch_all touch_fails current).failed (patch_all clear_fails removed).failed h in
    rw
      (
        patch_all-names touch_fails current no_touch,
        patch_all-names clear_fails removed no_clear,
        no_touch,
      )
      (
        current_from-Distinct [] refs,
        λ k. current_from-has_none k refs,
        λ k.
            removed_targets-has k (targets_of (lookup key m)) current
            ∙ ap (λ b. has (targets_of (lookup key m)) k && not b) (current_from-has_none k refs),
        stored_targets key current m,
        λ other differs. other_targets key other current m differs,
      )

-- When the policy is gone, a second run clears nothing, whatever failed in the first: the gateways
-- that the first run could not clear are forgotten.
pub reconcile_deleted-forgets :
    (first_fails second_fails : String → Bool) (key : String) (m : LastTargets)
    → (reconcile_deleted second_fails key
        (reconcile_deleted first_fails key m).last_targets).cleared
      ≡ []
unfolding reconcile_deleted
reconcile_deleted-forgets first_fails second_fails key m =
    ground (arith, lookup-erase key key m, ==_refl key)
