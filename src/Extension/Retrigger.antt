-- ===== src/Extension/Retrigger.antt =====
-- The reconciler that makes Envoy Gateway translate the gateways of a changed policy again
-- (internal/extensionserver/retrigger/tpp.go); Liveness is the one for connectors. The API server is
-- a parameter: which patches fail, a gateway that does not exist counting as patched. The patches
-- that succeed are listed in order; the generation that a touch writes is left out.
pub mod Targets
pub mod Liveness
pub mod Stamped
use network_services_operato.Common.{
  String, Bool, true, false, ◌||◌, List, [], ◌∷◌, Option, none, some, ◌==◌, Eq, string_eq,
  if◌then◌else◌,
}
use network_services_operato.Common.Map.{lookup, insert, erase}
use network_services_operato.Extension.Connector.Name.{contains}

abbrev pub LastTargets : Type 0
LastTargets = List (String × List String)

pub record Patched : Type 0 where
  pub names : List String
  pub failed : Bool

pub record Reconciled : Type 0 where
  pub last_targets : LastTargets
  pub touched : List String
  pub cleared : List String
  pub failed : Bool

abbrev pub targets_of : Option (List String) → List String
targets_of none = []
targets_of (some names) = names

-- The names of the target references, without empty ones and duplicates.
unfoldable pub current_from : List String → List String → List String
current_from seen [] = []
current_from seen (n ∷ ns) =
    let skip = current_from seen ns in
    let next = n ∷ current_from (n ∷ seen) ns in
    if n == "" then skip else if contains n seen then skip else next

-- A patch of each gateway; a failure does not stop the loop.
unfoldable pub patch_all : (String → Bool) → List String → Patched
patch_all fails [] = record { names = []; failed = false }
patch_all fails (n ∷ ns) =
    let rest = patch_all fails ns in
    if fails n
    then record { names = rest.names; failed = true }
    else record { names = n ∷ rest.names; failed = rest.failed }

unfoldable pub removed_targets : List String → List String → List String
removed_targets [] current = []
removed_targets (n ∷ ns) current =
    let rest = removed_targets ns current in if contains n current then rest else n ∷ rest

abbrev pub store_targets : String → List String → LastTargets → LastTargets
store_targets key [] m = erase key m
store_targets key (n ∷ ns) m = insert key (n ∷ ns) m

-- swapTargets: what is stored afterwards.
abbrev pub swap_targets : String → List String → Bool → LastTargets → LastTargets
swap_targets key current commit m = if commit then store_targets key current m else m

-- The policy is gone.
unfoldable pub reconcile_deleted : (String → Bool) → String → LastTargets → Reconciled
unfolding patch_all
reconcile_deleted clear_fails key m =
    let cleared = patch_all clear_fails (targets_of (lookup key m)) in
    record {
      last_targets = erase key m;
      touched = [];
      cleared = cleared.names;
      failed = cleared.failed;
    }

unfoldable pub reconcile_live :
    (touch_fails clear_fails : String → Bool) → String → List String → LastTargets → Reconciled
unfolding patch_all current_from removed_targets
reconcile_live touch_fails clear_fails key refs m =
    let current = current_from [] refs in
    let touched = patch_all touch_fails current in
    let cleared = patch_all clear_fails (removed_targets (targets_of (lookup key m)) current) in
    record {
      last_targets = swap_targets key current (if touched.failed then false else true) m;
      touched = touched.names;
      cleared = cleared.names;
      failed = touched.failed || cleared.failed;
    }

-- What the API server says of the policy: an error, that it is gone, or its target references.
pub data Fetched : Type 0 where
  fetch_failed gone : Fetched
  found : List String → Fetched

unfoldable pub reconcile :
    Fetched → (touch_fails clear_fails : String → Bool) → String → LastTargets → Reconciled
unfolding reconcile_deleted reconcile_live
reconcile fetch_failed touch_fails clear_fails key m = record {
  last_targets = m;
  touched = [];
  cleared = [];
  failed = true;
}
reconcile gone touch_fails clear_fails key m = reconcile_deleted clear_fails key m
reconcile (found refs) touch_fails clear_fails key m =
    reconcile_live touch_fails clear_fails key refs m
