-- ===== src/Extension/Tls/Prune.antt =====
-- The last line of defence against broken certificates (internal/extensionserver/mutate/tls.go).
-- Reading certificates is crypto/tls and crypto/x509, a parameter; times are numbers.
use network_services_operato.Common.{
  ℕ, ◌+◌, String, Bool, true, false, not, ◌||◌, ltb, List, [], ◌∷◌, ◌++◌, Option, none, some, ◌==◌,
  string_eq, if◌then◌else◌, length,
}
use network_services_operato.Common.Text.{Bytes}
use network_services_operato.Extension.Xds.{
  FilterChain, TransportSocket, Listener, DownstreamTlsContext,
}
use network_services_operato.Extension.Codec.{Codec}
use network_services_operato.Extension.Connector.Name.{contains, append_unique}

pub record TlsCertificate : Type 0 where
  pub certificate_chain : Bytes
  pub private_key : Bytes

pub record Secret : Type 0 where
  pub name : String
  pub tls_certificate : Option TlsCertificate

pub record Leaf : Type 0 where
  pub not_before : ℕ
  pub not_after : ℕ

pub record KeyPair : Type 0 where
  pub leaf : Option Leaf
  pub certificate : List Bytes

-- tls.X509KeyPair and x509.ParseCertificate; `none` is an error.
pub record X509 : Type 0 where
  pub key_pair : Bytes → Bytes → Option KeyPair
  pub parse_certificate : Bytes → Option Leaf

abbrev is_empty : Bytes → Bool
is_empty [] = true
is_empty (b ∷ bs) = false

abbrev pub leaf_usable : ℕ → Option Leaf → Bool
leaf_usable now none = false
leaf_usable now (some leaf) = if ltb now leaf.not_before then false else ltb now leaf.not_after

abbrev pub parsed_leaf : X509 → KeyPair → Option Leaf
parsed_leaf x pair = elim pair.leaf [
  | some leaf ↦ some leaf
  | none ↦ elim pair.certificate [ [] ↦ none | der ∷ ders ↦ x.parse_certificate der ]
]

unfoldable pub tls_certificate_usable : X509 → TlsCertificate → ℕ → Bool
tls_certificate_usable x cert now =
    if is_empty cert.certificate_chain || is_empty cert.private_key
    then true
    else elim (x.key_pair cert.certificate_chain cert.private_key) [
      | none ↦ false
      | some pair ↦ leaf_usable now (parsed_leaf x pair)
    ]

abbrev pub is_broken : X509 → ℕ → Secret → Bool
is_broken x now sec = if sec.name == "" then false else elim sec.tls_certificate [
  | none ↦ false
  | some cert ↦ not (tls_certificate_usable x cert now)
]

-- The set of the names of broken certificates.
unfoldable pub bad_secrets : X509 → ℕ → List Secret → List String
bad_secrets x now [] = []
bad_secrets x now (sec ∷ secs) =
    let rest = bad_secrets x now secs in if is_broken x now sec then sec.name ∷ rest else rest

abbrev pub add_named : List String → List String → List String
add_named names [] = names
add_named names (n ∷ ns) = add_named (if n == "" then names else append_unique names n) ns

-- What a run has counted so far; `pruned_bad` is a set.
pub record PruneState : Type 0 where
  pub pruned_chains : ℕ
  pub left_intact : ℕ
  pub dropped_names : List String
  pub pruned_bad : List String

unfoldable pub kept_secrets : List String → List Secret → List Secret
kept_secrets dropped [] = []
kept_secrets dropped (sec ∷ secs) =
    let rest = kept_secrets dropped secs in if contains sec.name dropped then rest else sec ∷ rest

abbrev pub any_in : List String → List String → Bool
any_in bad [] = false
any_in bad (n ∷ ns) = if contains n bad then true else any_in bad ns

abbrev pub bad_among : List String → List String → List String → List String
bad_among bad out [] = out
bad_among bad out (n ∷ ns) = bad_among bad (if contains n bad then append_unique out n else out) ns

abbrev pub first_or : List String → String → String
first_or [] s = s
first_or (n ∷ ns) s = n

abbrev pub or_unknown : String → String
or_unknown s = if s == "" then "<unknown>" else s

abbrev pub add_set : List String → List String → List String
add_set set [] = set
add_set set (n ∷ ns) = add_set (append_unique set n) ns

module _ (c : Codec) where
  open c use {Any, unpack_tls}

  abbrev pub context_names : Option DownstreamTlsContext → List String
  context_names none = []
  context_names (some dtc) = add_named [] dtc.sds_secret_names

  abbrev pub socket_names : Option (TransportSocket Any) → List String
  socket_names none = []
  socket_names (some ts) = elim ts.typed_config [
    | none ↦ []
    | some a ↦ context_names (unpack_tls a)
  ]

  unfoldable pub chain_sds_secret_names : FilterChain Any → List String
  chain_sds_secret_names fc = socket_names fc.transport_socket

  unfoldable pub chain_references_bad_secret : List String → FilterChain Any → Bool
  chain_references_bad_secret bad fc = any_in bad (chain_sds_secret_names fc)

  unfoldable pub chain_bad_secret_names : List String → FilterChain Any → List String
  chain_bad_secret_names bad fc = bad_among bad [] (chain_sds_secret_names fc)

  unfoldable pub chain_drop_label : List String → FilterChain Any → String
  chain_drop_label bad fc =
      first_or fc.server_names (first_or (chain_bad_secret_names bad fc) (or_unknown fc.name))

  -- dropChain and keptCount
  unfoldable pub kept_chains : List String → List (FilterChain Any) → List (FilterChain Any)
  kept_chains bad [] = []
  kept_chains bad (fc ∷ fcs) =
      let rest = kept_chains bad fcs in
      if chain_references_bad_secret bad fc then rest else fc ∷ rest

  abbrev pub any_dropped : List String → List (FilterChain Any) → Bool
  any_dropped bad [] = false
  any_dropped bad (fc ∷ fcs) =
      if chain_references_bad_secret bad fc then true else any_dropped bad fcs

  -- What the loop that drops the chains records for one chain, and for all.
  abbrev pub drop_step : List String → FilterChain Any → PruneState → PruneState
  drop_step bad fc st =
      if chain_references_bad_secret bad fc
      then record st {
        pruned_chains = st.pruned_chains + 1;
        dropped_names = st.dropped_names ++ chain_drop_label bad fc ∷ [];
        pruned_bad = add_set st.pruned_bad (chain_bad_secret_names bad fc);
      }
      else st

  unfoldable pub record_dropped : List String → List (FilterChain Any) → PruneState → PruneState
  record_dropped bad [] st = st
  record_dropped bad (fc ∷ fcs) st = record_dropped bad fcs (drop_step bad fc st)

  abbrev pub replace_chains :
      List String → Listener Any → PruneState → List (FilterChain Any) → Listener Any × PruneState
  replace_chains bad l st [] = (l, record st { left_intact = st.left_intact + 1 })
  replace_chains bad l st (fc ∷ fcs) =
      (record l { filter_chains = fc ∷ fcs }, record_dropped bad l.filter_chains st)

  -- The body of the loop over the listeners.
  unfoldable pub prune_listener :
      List String → Listener Any → PruneState → Listener Any × PruneState
  unfolding kept_chains record_dropped
  prune_listener bad l st =
      if any_dropped bad l.filter_chains
      then replace_chains bad l st (kept_chains bad l.filter_chains)
      else (l, st)

  unfoldable pub prune_listeners :
      List String → List (Listener Any) → PruneState → List (Listener Any) × PruneState
  prune_listeners bad [] st = ([], st)
  prune_listeners bad (l ∷ ls) st =
      let (l', st') = prune_listener bad l st in
      let (ls', st'') = prune_listeners bad ls st' in (l' ∷ ls', st'')

  pub record Pruned : Type 0 where
    pub listeners : List (Listener Any)
    pub kept : List Secret
    pub pruned_chains : ℕ
    pub pruned_secrets : ℕ
    pub listeners_left_intact : ℕ
    pub dropped_names : List String

  abbrev pub start : PruneState
  start = record { pruned_chains = 0; left_intact = 0; dropped_names = []; pruned_bad = [] }

  abbrev pub finish : List Secret → List (Listener Any) × PruneState → Pruned
  finish secrets (ls, st) = record {
    listeners = ls;
    kept = elim st.pruned_bad [ [] ↦ secrets | n ∷ ns ↦ kept_secrets (n ∷ ns) secrets ];
    pruned_chains = st.pruned_chains;
    pruned_secrets = length st.pruned_bad;
    listeners_left_intact = st.left_intact;
    dropped_names = st.dropped_names;
  }

  abbrev pub prune_bad : List (Listener Any) → List Secret → List String → Pruned
  prune_bad ls secrets [] = record {
    listeners = ls;
    kept = secrets;
    pruned_chains = 0;
    pruned_secrets = 0;
    listeners_left_intact = 0;
    dropped_names = [];
  }
  prune_bad ls secrets (n ∷ ns) = finish secrets (prune_listeners (n ∷ ns) ls start)

  unfoldable pub prune_invalid_tls_secrets : X509 → List (Listener Any) → List Secret → ℕ → Pruned
  unfolding prune_listeners prune_listener bad_secrets
  prune_invalid_tls_secrets x ls secrets now = prune_bad ls secrets (bad_secrets x now secrets)
