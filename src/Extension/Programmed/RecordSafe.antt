-- ===== src/Extension/Programmed/RecordSafe.antt =====
-- What a recorded set says (internal/extensionserver/server/programmedset.go).
use network_services_operato.Common.{
  ℕ, String, Bool, true, false, List, [], ◌∷◌, ◌++◌, length, Option, none, some, not, ◌&&◌, ◌||◌,
  ◌==◌, string_eq, if◌then◌else◌, ◌≡◌, refl, ◌∙◌, arith, str_eq_iff, Distinct, any,
}
use network_services_operato.Common.Map.{lookup, lookup-insert}
use network_services_operato.Common.Member.{has}
use network_services_operato.Extension.Codec.{Codec}
use network_services_operato.Extension.Hcm.Each.{each_hcm}
use network_services_operato.Extension.Xds.{
  VirtualHost, Route, Hcm, Cluster, Listener, RouteConfiguration,
}
use network_services_operato.Extension.Programmed.Scan.{
  sort_dedup, is_replaced_connector_cluster, TppMark, waf_route_key, connector_route_key,
  listener_chain_key, datum_gateway_tpp, is_connect_route, is_offline_direct_response,
  hcm_has_filter_at_zero,
}
use network_services_operato.Extension.Programmed.Sorted.{
  sort_dedup-has, IsSorted, sort_dedup-IsSorted,
}
use network_services_operato.Extension.Programmed.Record.{
  Keys, TlsCounts, ProgrammedRecorder, snapshot, sorted_keys, counts_of, keys_of, add, add_if,
  add_clusters, add_mark, add_route, add_routes, add_virtual_hosts, add_route_configurations,
  add_hcms, add_listeners, is_given, build_programmed_set, record_set,
}

abbrev pub size : Option (List String) → Option ℕ
size none = none
size (some ks) = some (length ks)

counts_of-lookup :
    (family : String) (keys : Keys) → lookup family (counts_of keys) ≡ size (lookup family keys)
unfolding lookup
counts_of-lookup family [] = refl
counts_of-lookup family ((f, ks) ∷ keys) = ground (arith, counts_of-lookup family keys)

abbrev pub holds : (family key : String) → Keys → Bool
holds family key keys = has (keys_of (lookup family keys)) key

has-append : (k : String) (xs ys : List String) → has (xs ++ ys) k ≡ has xs k || has ys k
has-append k [] ys = refl
has-append k (x ∷ xs) ys = ground (arith, has-append k xs ys)

holds-add :
    (family key f k : String) (keys : Keys)
    → holds f k (add family key keys) ≡ ((family == f) && (key == k)) || holds f k keys
unfolding add
holds-add family key f k keys = ground (
  arith,
  str_eq_iff family f,
  lookup-insert family f (keys_of (lookup family keys) ++ key ∷ []) keys,
  has-append k (keys_of (lookup family keys)) (key ∷ []),
)

holds-add_if :
    (b : Bool) (family key f k : String) (keys : Keys)
    → holds f k (add_if b family key keys) ≡ (b && ((family == f) && (key == k))) || holds f k keys
holds-add_if true family key f k keys = holds-add family key f k keys
holds-add_if false family key f k keys = refl

-- The cluster is recorded under that family and key.
abbrev pub is_from_cluster : (f k : String) → Cluster → Bool
is_from_cluster f k cl =
    is_replaced_connector_cluster cl && (("connector_cluster" == f) && (cl.name == k))

holds-add_clusters :
    (f k : String) (cls : List Cluster) (keys : Keys)
    → holds f k (add_clusters cls keys) ≡ any (is_from_cluster f k) cls || holds f k keys
unfolding add_clusters
holds-add_clusters f k [] keys = refl
holds-add_clusters f k (cl ∷ cls) keys =
    let b = is_replaced_connector_cluster cl in
    let added = add_if b "connector_cluster" cl.name keys in
    ground
      (arith, holds-add_clusters f k cls added, holds-add_if b "connector_cluster" cl.name f k keys)

abbrev pub is_from_mark : (f k rc vh rt : String) → Option TppMark → Bool
is_from_mark f k rc vh rt none = false
is_from_mark f k rc vh rt (some tpp) =
    ("waf_route" == f) && (waf_route_key rc vh rt tpp.namespace tpp.name tpp.mode == k)

module _ {Any : Type 0} where
  abbrev pub is_from_route : (f k rc vh : String) → Route Any → Bool
  is_from_route f k rc vh rt =
      let key = connector_route_key rc vh rt.name in
      (is_offline_direct_response rt && (("connector_offline" == f) && (key == k)))
      || ((is_connect_route rt && (("connector_route" == f) && (key == k)))
          || is_from_mark f k rc vh rt.name (datum_gateway_tpp rt))

  abbrev pub is_from_hcm : (f k coraza listener : String) → String × Hcm Any → Bool
  is_from_hcm f k coraza listener (chain, hcm) =
      let key = listener_chain_key listener chain in
      (is_given hcm.local_reply_config && (("local_reply" == f) && (key == k)))
      || ((not (coraza == "") && hcm_has_filter_at_zero hcm coraza)
          && (("waf_hcm" == f) && (key == k)))

holds-add_mark :
    (f k rc vh rt : String) (mark : Option TppMark) (keys : Keys)
    → holds f k (add_mark rc vh rt mark keys) ≡ is_from_mark f k rc vh rt mark || holds f k keys
holds-add_mark f k rc vh rt none keys = refl
holds-add_mark f k rc vh rt (some tpp) keys =
    holds-add "waf_route" (waf_route_key rc vh rt tpp.namespace tpp.name tpp.mode) f k keys

or_swap : (a b z : Bool) {x y : Bool} → x ≡ a || y → y ≡ b || z → x ≡ (b || a) || z
or_swap a b z h g = ground arith

or_next : (a b c d : Bool) → b ≡ c || d → a || b ≡ (a || c) || d
or_next a b c d h = ground arith

module _ {Any : Type 0} where
  holds-add_route :
      (f k rc vh : String) (rt : Route Any) (keys : Keys)
      → holds f k (add_route rc vh rt keys) ≡ is_from_route f k rc vh rt || holds f k keys
  unfolding add_route
  holds-add_route f k rc vh rt keys =
      let marked = add_mark rc vh rt.name (datum_gateway_tpp rt) keys in
      let key = connector_route_key rc vh rt.name in
      let connected = add_if (is_connect_route rt) "connector_route" key marked in
      holds-add_if (is_offline_direct_response rt) "connector_offline" key f k connected
      ∙ or_next _ _ _ _ (
          holds-add_if (is_connect_route rt) "connector_route" key f k marked
          ∙ or_next _ _ _ _ (holds-add_mark f k rc vh rt.name (datum_gateway_tpp rt) keys))

  holds-add_routes :
      (f k rc vh : String) (rts : List (Route Any)) (keys : Keys)
      → holds f k (add_routes rc vh rts keys) ≡ any (is_from_route f k rc vh) rts || holds f k keys
  unfolding add_routes
  holds-add_routes f k rc vh [] keys = refl
  holds-add_routes f k rc vh (rt ∷ rts) keys =
      or_swap _ _ _ (holds-add_routes f k rc vh rts (add_route rc vh rt keys))
        (holds-add_route f k rc vh rt keys)

  abbrev pub is_from_host : (f k rc : String) → VirtualHost Any → Bool
  is_from_host f k rc vh = any (is_from_route f k rc vh.name) vh.routes

  abbrev pub is_from_configuration : (f k : String) → RouteConfiguration Any → Bool
  is_from_configuration f k rc = any (is_from_host f k rc.name) rc.virtual_hosts

  holds-add_virtual_hosts :
      (f k rc : String) (vhs : List (VirtualHost Any)) (keys : Keys)
      → holds f k (add_virtual_hosts rc vhs keys) ≡ any (is_from_host f k rc) vhs || holds f k keys
  unfolding add_virtual_hosts
  holds-add_virtual_hosts f k rc [] keys = refl
  holds-add_virtual_hosts f k rc (vh ∷ vhs) keys =
      or_swap _ _ _ (holds-add_virtual_hosts f k rc vhs (add_routes rc vh.name vh.routes keys))
        (holds-add_routes f k rc vh.name vh.routes keys)

  holds-add_route_configurations :
      (f k : String) (rcs : List (RouteConfiguration Any)) (keys : Keys)
      → holds f k (add_route_configurations rcs keys)
        ≡ any (is_from_configuration f k) rcs || holds f k keys
  unfolding add_route_configurations
  holds-add_route_configurations f k [] keys = refl
  holds-add_route_configurations f k (rc ∷ rcs) keys =
      or_swap _ _ _
        (holds-add_route_configurations f k rcs (add_virtual_hosts rc.name rc.virtual_hosts keys))
        (holds-add_virtual_hosts f k rc.name rc.virtual_hosts keys)

  holds-add_hcms :
      (f k coraza listener : String) (hcms : List (String × Hcm Any)) (keys : Keys)
      → holds f k (add_hcms coraza listener hcms keys)
        ≡ any (is_from_hcm f k coraza listener) hcms || holds f k keys
  unfolding add_hcms
  holds-add_hcms f k coraza listener [] keys = refl
  holds-add_hcms f k coraza listener ((chain, hcm) ∷ hcms) keys =
      let key = listener_chain_key listener chain in
      let has_waf = not (coraza == "") && hcm_has_filter_at_zero hcm coraza in
      let with_waf = add_if has_waf "waf_hcm" key keys in
      or_swap _ _ _
        (holds-add_hcms f k coraza listener hcms
          (add_if (is_given hcm.local_reply_config) "local_reply" key with_waf))
        (holds-add_if (is_given hcm.local_reply_config) "local_reply" key f k with_waf
          ∙ or_next _ _ _ _ (holds-add_if has_waf "waf_hcm" key f k keys))

sorted_keys-lookup :
    (f : String) (keys : Keys)
    → keys_of (lookup f (sorted_keys keys)) ≡ sort_dedup (keys_of (lookup f keys))
unfolding lookup
sorted_keys-lookup f [] = unfold sort_dedup in refl
sorted_keys-lookup f ((g, ks) ∷ keys) = ground (arith, sorted_keys-lookup f keys)

holds-sorted_keys : (f k : String) (keys : Keys) → holds f k (sorted_keys keys) ≡ holds f k keys
unfolding lookup
holds-sorted_keys f k [] = refl
holds-sorted_keys f k ((g, ks) ∷ keys) =
    ground (arith, sort_dedup-has k ks, holds-sorted_keys f k keys)

module _ (c : Codec) where
  open c use {Any}

  abbrev pub is_from_listener : (f k coraza : String) → Listener Any → Bool
  is_from_listener f k coraza l = any (is_from_hcm f k coraza l.name) (each_hcm c l)

  holds-add_listeners :
      (f k coraza : String) (ls : List (Listener Any)) (keys : Keys)
      → holds f k (add_listeners c coraza ls keys)
        ≡ any (is_from_listener f k coraza) ls || holds f k keys
  unfolding add_listeners
  holds-add_listeners f k coraza [] keys = refl
  holds-add_listeners f k coraza (l ∷ ls) keys =
      or_swap _ _ _ (holds-add_listeners f k coraza ls (add_hcms coraza l.name (each_hcm c l) keys))
        (holds-add_hcms f k coraza l.name (each_hcm c l) keys)

  -- After a build is recorded, the snapshot that is served holds an identity in a family exactly if a
  -- listener, a cluster or a route of the build gives it; each family's identities are sorted and all
  -- different; and for each family but that of the pruned certificates the count is the number of its
  -- identities, for that one the number of pruned filter chains.
  pub record_set-snapshot :
      (listeners : List (Listener Any)) (routes : List (RouteConfiguration Any))
      (clusters : List Cluster) (coraza : String) (tls : TlsCounts) (r : ProgrammedRecorder)
      (f k : String)
      → let ps = snapshot (record_set c listeners routes clusters coraza tls r) in
        (holds f k ps.keys
          ≡ any (is_from_listener f k coraza) listeners
            || (any (is_from_cluster f k) clusters || any (is_from_configuration f k) routes))
        × Distinct (keys_of (lookup f ps.keys))
        × IsSorted (keys_of (lookup f ps.keys))
        × (lookup f ps.counts
            ≡ (if "tls_prune" == f then some tls.pruned_chains else size (lookup f ps.keys)))
  unfolding record_set snapshot build_programmed_set lookup
  record_set-snapshot listeners routes clusters coraza tls r f k =
      let routed = add_route_configurations routes [] in
      let clustered = add_clusters clusters routed in
      let found = add_listeners c coraza listeners clustered in
      let (different, sorted) = sort_dedup-IsSorted (keys_of (lookup f found)) in
      (
        holds-sorted_keys f k found
            ∙ ground (
              arith,
              holds-add_listeners f k coraza listeners clustered,
              holds-add_clusters f k clusters routed,
              holds-add_route_configurations f k routes [],
            ),
        rw (sorted_keys-lookup f found) different,
        rw (sorted_keys-lookup f found) sorted,
        lookup-insert "tls_prune" f tls.pruned_chains (counts_of (sorted_keys found))
            ∙ rw (counts_of-lookup f (sorted_keys found)) refl,
      )
