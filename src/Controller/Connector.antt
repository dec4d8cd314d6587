-- ===== src/Controller/Connector.antt =====
-- Reconcile of internal/controller/connector_controller.go. The API server, the clock and the random
-- jitter are the parameter World; conditions and their comparison (apimeta, equality.Semantic) are the
-- parameter Conditions. A time is a number of nanoseconds.
use network_services_operato.Common.{
  ℕ, zero, suc, ◌+◌, ◌-◌, ◌*◌, String, Bool, true, false, ltb, ◌==◌, string_eq, if◌then◌else◌,
  Option, none, some,
}
use network_services_operato.Common.Go.{◌+s◌}
use network_services_operato.Common.Int.{ℤ, pos, negsuc}
use network_services_operato.Common.Result.{Result, ok, err, ◌>>=◌}

-- metav1.Condition without its type and its time of transition.
pub record Condition : Type 0 where
  pub status : String
  pub reason : String
  pub message : String
  pub observed_generation : ℕ

-- FindStatusCondition and SetStatusCondition.
pub record Conditions : Type 1 where
  pub C : Type 0
  pub find : String → C → Option Condition
  pub set : String → Condition → C → C
  pub same : C → C → Bool

pub data Fetched {ℓ} (A : Type ℓ) : Type ℓ where
  found : A → Fetched A
  not_found get_failed : Fetched A

pub record Lease : Type 0 where
  pub renew_time : Option ℕ
  pub duration_seconds : Option ℕ

pub data Failure : Type 0 where
  no_cluster no_connector no_class no_lease lease_not_saved status_not_updated : Failure

-- A difference of times, which may be negative.
abbrev pub minus : ℕ → ℕ → ℤ
minus a b = if ltb a b then negsuc (b - a - 1) else pos (a - b)

pub record LeaseStatus : Type 0 where
  pub ready : Bool
  pub requeue_after : Option ℤ
  pub message : String

module _ (K : Conditions) where
  pub record Status : Type 0 where
    pub conditions : K.C
    pub lease_ref : Option String

  pub record Connector : Type 0 where
    pub name : String
    pub generation : ℕ
    pub is_deleted : Bool
    pub class_name : String
    pub status : Status

  -- `quote` is %q. The clock is read twice: time.Now gives `now`, and time.Until reads `now_again`.
  -- CreateOrUpdate of the lease takes its name and the duration it sets if there is none.
  pub record World : Type 0 where
    pub cluster_fails : Bool
    pub get_connector : Fetched Connector
    pub get_class : String → Fetched (Unit {0})
    pub save_lease_fails : String → ℤ → Bool
    pub get_lease : String → Fetched Lease
    pub update_fails : Bool
    pub now : ℕ
    pub now_again : ℕ
    pub jitter : ℕ → ℕ
    pub lease_duration_seconds : ℤ
    pub quote : String → String

  -- connectorLeaseDurationSeconds
  abbrev pub duration_or_default : ℤ → ℤ
  duration_or_default (pos (suc n)) = pos (suc n)
  duration_or_default _ = pos 30

  -- leaseJitter, over the random number below its argument
  unfoldable pub lease_jitter : World → ℕ → ℕ
  lease_jitter w base = elim (Prim.Native.Nat.◌/◌ base 10) [ zero ↦ 0 | suc n ↦ w.jitter (suc n) ]

  abbrev pub waiting : String → LeaseStatus
  waiting message = record { ready = false; requeue_after = none; message = message }

  abbrev pub expiry_status : World → ℕ → ℕ → LeaseStatus
  expiry_status w renewed seconds =
      let expires = renewed + seconds * 1000000000 in
      if ltb expires w.now
      then waiting "Connector lease has expired. Agent may be offline."
      else record {
        ready = true;
        requeue_after = some (minus (expires + lease_jitter w (seconds * 1000000000)) w.now_again);
        message = "";
      }

  abbrev pub renewal_status : World → Option ℕ → Option ℕ → LeaseStatus
  renewal_status w (some renewed) (some seconds) = expiry_status w renewed seconds
  renewal_status w _ _ = waiting "Connector lease has not been renewed yet."

  abbrev pub lease_status : World → Fetched Lease → Result Failure LeaseStatus
  lease_status w (found lease) = ok (renewal_status w lease.renew_time lease.duration_seconds)
  lease_status w not_found = ok (waiting "Connector lease not found. Agent may be offline.")
  lease_status w get_failed = err no_lease

  unfoldable pub connector_lease_ready : World → Option String → Result Failure LeaseStatus
  connector_lease_ready w none = ok (waiting "Connector lease has not been created yet.")
  connector_lease_ready w (some name) =
      if name == ""
      then ok (waiting "Connector lease has not been created yet.")
      else lease_status w (w.get_lease name)

  abbrev pub condition : String → String → String → ℕ → Condition
  condition status reason message generation = record {
    status = status;
    reason = reason;
    message = message;
    observed_generation = generation;
  }

  abbrev pub class_condition : String → ℕ → Fetched (Unit {0}) → Result Failure Condition
  class_condition quoted generation (found _) =
      ok (condition "True" "Accepted" "Connector class resolved" generation)
  class_condition quoted generation not_found = ok (
      condition "False" "ConnectorClassNotFound" ("ConnectorClass " +s quoted +s " not found")
        generation)
  class_condition quoted generation get_failed = err no_class

  unfoldable pub accepted_condition : World → Connector → Result Failure Condition
  accepted_condition w c =
      if c.class_name == ""
      then ok (condition "False" "Pending" "connectorClassName is required" c.generation)
      else class_condition (w.quote c.class_name) c.generation (w.get_class c.class_name)

  -- The condition as it stands, or an empty one, for this generation.
  abbrev pub current_condition : Option Condition → ℕ → Condition
  current_condition none generation = condition "" "" "" generation
  current_condition (some c) generation = record c { observed_generation = generation }

  -- The lease that the status names, else one by the connector's name.
  abbrev pub save_lease : World → Connector → Result Failure (Option String)
  save_lease w c =
      if w.save_lease_fails c.name (duration_or_default w.lease_duration_seconds)
      then err lease_not_saved
      else ok (some c.name)

  unfoldable pub ensure_lease : World → Connector → Option String → Result Failure (Option String)
  ensure_lease w c none = save_lease w c
  ensure_lease w c (some name) = if name == "" then save_lease w c else ok (some name)

  abbrev pub lease_condition : LeaseStatus → ℕ → Condition
  lease_condition lease generation =
      if lease.ready
      then condition "True" "ConnectorReady" "The connector is ready to tunnel traffic." generation
      else condition "False" "ConnectorNotReady" lease.message generation

  abbrev pub same_ref : Option String → Option String → Bool
  same_ref none none = true
  same_ref (some a) (some b) = a == b
  same_ref _ _ = false

  abbrev pub same_status : Status → Status → Bool
  same_status a b =
      if K.same a.conditions b.conditions then same_ref a.lease_ref b.lease_ref else false

  -- The status is written only if it changed; what is stored after, and RequeueAfter, none if unset.
  unfoldable pub store : World → Status → Status → Option ℤ → Result Failure (Status × Option ℤ)
  store w original status requeue =
      if same_status original status
      then ok (original, requeue)
      else if w.update_fails
      then err status_not_updated
      else ok (status, requeue)

  abbrev pub begun : Connector → Condition → K.C
  begun c accepted =
      K.set "Ready" (current_condition (K.find "Ready" c.status.conditions) c.generation)
        (K.set "Accepted" accepted c.status.conditions)

  -- A connector whose class is resolved.
  unfoldable pub reconcile_accepted :
      World → Connector → Condition → Result Failure (Status × Option ℤ)
  reconcile_accepted w c accepted = do
    ref ← ensure_lease w c c.status.lease_ref
    lease ← connector_lease_ready w ref
    store w c.status
        (record {
          conditions = K.set "Ready" (lease_condition lease c.generation) (begun c accepted);
          lease_ref = ref;
        })
        lease.requeue_after

  unfoldable pub reconcile_refused :
      World → Connector → Condition → Result Failure (Status × Option ℤ)
  reconcile_refused w c accepted =
      store w c.status
        (record c.status {
          conditions =
              K.set "Ready"
                (condition "False" "ConnectorNotReady" "Waiting for ConnectorClass to be resolved."
                  c.generation)
                (begun c accepted);
        })
        none

  unfoldable pub reconcile_connector : World → Connector → Result Failure (Status × Option ℤ)
  reconcile_connector w c = do
    accepted ← accepted_condition w c
    (if accepted.status == "True"
        then reconcile_accepted w c accepted
        else reconcile_refused w c accepted)

  -- Reconcile; none for a connector that is gone or goes.
  unfoldable pub reconcile : World → Result Failure (Option (Status × Option ℤ))
  reconcile w = if w.cluster_fails then err no_cluster else elim w.get_connector [
    | found c ↦ if c.is_deleted then ok none else (reconcile_connector w c >>= λ r. ok (some r))
    | not_found ↦ ok none
    | get_failed ↦ err no_connector
  ]
