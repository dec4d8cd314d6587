-- ===== src/Extension/Connector/First.antt =====
-- The connector that the routes of a virtual host lead to first
-- (internal/extensionserver/mutate/connector.go).
use network_services_operato.Common.{
  String, ◌≡◌, ◌≢◌, refl, subst, sym, List, [], ◌∷◌, none, some, ◌==◌, length, if◌then◌else◌,
  string_eq, arith, Option-cases, inl, inr, ◌⊎◌,
}
use network_services_operato.Extension.Xds.{Route}
use network_services_operato.Extension.Connector.Clusters.{Connectors}
use network_services_operato.Extension.Index.{ConnectorInfo}
use network_services_operato.Common.Map.{lookup}
use network_services_operato.Extension.Connector.Routes.{
  route_cluster, connector_cluster, count_targeting,
}

-- The cluster is of no connector, online or offline.
abbrev pub IsUnknown : (replaced offline : Connectors) → String → Type 0
IsUnknown replaced offline cluster =
    (lookup cluster replaced ≡ none) × (lookup cluster offline ≡ none)

abbrev pub IsOnline : (replaced : Connectors) → String → Type 0
IsOnline replaced cluster = (info : ConnectorInfo) × (lookup cluster replaced ≡ some info)

abbrev pub IsOffline : (replaced offline : Connectors) → String → Type 0
IsOffline replaced offline cluster =
    (lookup cluster replaced ≡ none)
    × ((info : ConnectorInfo) × (lookup cluster offline ≡ some info))

module _ {Any : Type 0} where
  -- The first of the routes that leads to a cluster of a connector leads to this one; "" if there is
  -- none.
  pub data IsFirst (replaced offline : Connectors) : List (Route Any) → String → Type 0 where
    absent : IsFirst replaced offline [] ""
    here :
        (rt : Route Any) (rts : List (Route Any))
        → IsOnline replaced (route_cluster rt) ⊎ IsOffline replaced offline (route_cluster rt)
        → IsFirst replaced offline (rt ∷ rts) (route_cluster rt)
    later :
        (rt : Route Any) (rts : List (Route Any)) (cluster : String)
        → IsUnknown replaced offline (route_cluster rt)
        → IsFirst replaced offline rts cluster
        → IsFirst replaced offline (rt ∷ rts) cluster

  pub connector_cluster-IsFirst :
      (replaced offline : Connectors) (rts : List (Route Any))
      → IsFirst replaced offline rts (connector_cluster replaced offline rts)
  unfolding connector_cluster
  connector_cluster-IsFirst replaced offline [] = absent
  connector_cluster-IsFirst replaced offline (rt ∷ rts) =
      elim (Option-cases (lookup (route_cluster rt) replaced)) [
        | inr (info, on) ↦ to (route_cluster rt) (ground arith) (here rt rts (inl (info, on)))
        | inl not_on ↦ elim (Option-cases (lookup (route_cluster rt) offline)) [
          | inr (info, off) ↦
              to (route_cluster rt) (ground arith) (here rt rts (inr (not_on, (info, off))))
          | inl not_off ↦
              to (connector_cluster replaced offline rts) (ground arith)
                (later rt rts _ (not_on, not_off) (connector_cluster-IsFirst replaced offline rts))
        ]
      ]
    where
      to :
          (cluster : String)
          → connector_cluster replaced offline (rt ∷ rts) ≡ cluster
          → IsFirst replaced offline (rt ∷ rts) cluster
          → IsFirst replaced offline (rt ∷ rts) (connector_cluster replaced offline (rt ∷ rts))
      to cluster e first = subst (IsFirst replaced offline (rt ∷ rts)) (sym e) first

  abbrev pub leading_to : String → List (Route Any) → List (Route Any)
  leading_to cluster [] = []
  leading_to cluster (rt ∷ rts) =
      let rest = leading_to cluster rts in if route_cluster rt == cluster then rt ∷ rest else rest

  pub count_targeting-length :
      (cluster : String) (rts : List (Route Any))
      → count_targeting cluster rts ≡ length (leading_to cluster rts)
  unfolding count_targeting
  count_targeting-length cluster [] = refl
  count_targeting-length cluster (rt ∷ rts) = ground (arith, count_targeting-length cluster rts)

  -- The cluster that is found is one of a connector.
  pub first_known :
      (replaced offline : Connectors) (rts : List (Route Any)) (cluster : String)
      → IsFirst replaced offline rts cluster
      → cluster ≢ ""
      → IsOnline replaced cluster ⊎ IsOffline replaced offline cluster
  first_known replaced offline rts cluster absent h = absurd (h refl)
  first_known replaced offline rts cluster (here rt rest known) h = known
  first_known replaced offline rts cluster (later rt rest _ unknown first) h =
      first_known replaced offline rest cluster first h
