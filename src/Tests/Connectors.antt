-- ===== src/Tests/Connectors.antt =====
-- A connector reconciled (internal/controller/connector_controller.go).
use network_services_operato.Common.{
  ℕ, ◌+◌, ◌≡◌, refl, String, false, ◌==◌, string_eq, if◌then◌else◌, Option, none, some, List, [],
  ◌∷◌, arith, ==_refl, ◌∙◌,
}
use network_services_operato.Common.Int.{ℤ, pos}
use network_services_operato.Common.Map.{lookup, insert, lookup-insert}
use network_services_operato.Common.Member.{differs_iff}
use network_services_operato.Common.Result.{ok}
use network_services_operato.Controller.Connector.{
  Condition, Conditions, Fetched, found, not_found, Lease, Status, Connector, World, condition,
  reconcile_connector,
}
use network_services_operato.Controller.ConnectorSafe.{IsWatched, IsResolved}
use network_services_operato.Controller.ConnectorReady.{
  ConditionLaws, reconcile_connector-IsReady, reconcile_connector-becomes_ready,
}

-- Conditions by type; the comparison is one that never finds two alike, so that the status is written.
unfoldable listed : Conditions
listed = record { C = List (String × Condition); find = lookup; set = insert; same = λ a b. false }

listed_laws : ConditionLaws listed
unfolding listed
listed_laws = record {
  find-set = λ t c cs. lookup-insert t t c cs ∙ rw (==_refl t) refl;
  find-same = λ t a b h. absurd (cc);
}

-- A lease of 30 seconds, renewed at 100 seconds.
abbrev sample_lease : Lease
sample_lease = record { renew_time = some 100000000000; duration_seconds = some 30 }

abbrev connector_of_class : String → Connector listed
unfolding listed
connector_of_class class_name = record {
  name = "c";
  generation = 1;
  is_deleted = false;
  class_name = class_name;
  status = record { conditions = []; lease_ref = some "c" };
}

abbrev world_at : ℕ → World listed
world_at now = record {
  cluster_fails = false;
  get_connector = not_found;
  get_class = λ name. if name == "iroh" then found tt else not_found;
  save_lease_fails = λ name seconds. false;
  get_lease = λ name. if name == "c" then found sample_lease else not_found;
  update_fails = false;
  now = now;
  now_again = now + 1;
  jitter = λ n. 0;
  lease_duration_seconds = pos 30;
  quote = λ s. s;
}

abbrev ready_now : Condition
ready_now = condition listed "True" "ConnectorReady" "The connector is ready to tunnel traffic." 1

abbrev ready_status : Status listed
unfolding listed
ready_status = record {
  conditions =
      ("Accepted", condition listed "True" "Accepted" "Connector class resolved" 1)
      ∷ ("Ready", ready_now)
      ∷ [];
  lease_ref = some "c";
}

-- After the lease has run out the connector is not Ready.
expired_is_not_ready :
    (s : Status listed) × (reconcile_connector listed
        (world_at 130000000001)
        (connector_of_class "iroh")
      ≡ ok (s, none))
unfolding reconcile_connector network_services_operato.Controller.Connector.accepted_condition
    connector_of_class network_services_operato.Controller.Connector.reconcile_accepted
    network_services_operato.Controller.Connector.ensure_lease
    network_services_operato.Controller.Connector.connector_lease_ready
    network_services_operato.Controller.Connector.store
expired_is_not_ready = (_, refl)

reconcile_connector-IsReady_example :
    IsResolved listed (world_at 120000000000) (connector_of_class "iroh")
    × IsWatched listed (world_at 120000000000) (some (pos 9999999999))
unfolding reconcile_connector network_services_operato.Controller.Connector.accepted_condition
    connector_of_class network_services_operato.Controller.Connector.reconcile_accepted
    network_services_operato.Controller.Connector.ensure_lease
    network_services_operato.Controller.Connector.connector_lease_ready
    network_services_operato.Controller.Connector.store insert
    network_services_operato.Controller.Connector.lease_jitter lookup
reconcile_connector-IsReady_example =
    reconcile_connector-IsReady listed listed_laws (world_at 120000000000)
      (connector_of_class "iroh") ready_status (some (pos 9999999999)) ready_now refl refl refl

reconcile_connector-becomes_ready_example :
    (s : Status listed) × (q : Option ℤ) × (r : Condition) × (reconcile_connector listed
        (world_at 120000000000)
        (connector_of_class "iroh")
      ≡ ok (s, q))
    × (listed.find "Ready" s.conditions ≡ some r)
    × (r.status ≡ "True")
unfolding connector_of_class
reconcile_connector-becomes_ready_example =
    reconcile_connector-becomes_ready listed listed_laws (world_at 120000000000)
      (connector_of_class "iroh") "c" sample_lease 100000000000 30
      ((differs_iff "iroh" "").0 refl, refl) refl ((differs_iff "c" "").0 refl) refl refl refl
      (omega arith) refl
