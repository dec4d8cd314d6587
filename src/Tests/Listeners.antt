-- ===== src/Tests/Listeners.antt =====
-- The injections and the pruning on a listener (internal/extensionserver/mutate).
use network_services_operato.Common.{
  ℕ, ◌≡◌, refl, true, false, List, [], ◌∷◌, map, Option, none, some, All, str_eq_iff, arith,
}
use network_services_operato.Common.Result.{ok}
use network_services_operato.Common.Text.{Bytes}
use network_services_operato.Extension.Xds.{Hcm, Listener}
use network_services_operato.Extension.Hcm.{visit_listener}
use network_services_operato.Extension.Hcm.Each.{each_hcm}
use network_services_operato.Extension.Hcm.Laws.{apply_change, count_changes, visit_listener-each}
use network_services_operato.Extension.Waf.Listener.{
  coraza_filter, inject_coraza_listener_filters, inject_coraza_filter,
}
use network_services_operato.Extension.Waf.ListenerSafe.{
  IsEnabled, is_covered, count_uncovered, inject_coraza-is_covered, inject_coraza_idempotent,
}
use network_services_operato.Extension.LocalReply.Inject.{
  build_local_reply_config, inject_local_reply_config,
}
use network_services_operato.Extension.LocalReply.InjectSafe.{
  is_branded, count_unbranded, inject_local_reply-is_branded, inject_local_reply_idempotent,
}
use network_services_operato.Extension.Tls.Prune.{
  Secret, X509, Leaf, bad_secrets, prune_invalid_tls_secrets,
}
use network_services_operato.Tests.Samples.{
  Message, golang, plugin, codec, coraza, page, bare_manager, manager_filter, chain_of, listener,
}
use network_services_operato.Extension.Connector.Name.{append_unique}
use network_services_operato.Extension.Hcm.{visit_chain, visit_filter}
use network_services_operato.Extension.Tls.Prune.{
  chain_references_bad_secret, chain_sds_secret_names, tls_certificate_usable,
}

abbrev listener_with : Hcm Message → Listener Message
listener_with h = record listener {
  filter_chains =
      chain_of "good.example" ("good" ∷ []) (manager_filter h ∷ [])
      ∷ chain_of "bad.example" ("bad" ∷ []) (manager_filter h ∷ [])
      ∷ [];
}

abbrev pub packed_coraza : Message
packed_coraza = golang "coraza" "/coraza.so" "coraza-waf" (
    plugin (record {
      log_format = "json";
      directives = "{}";
      default_directive = "coraza";
      trace_route_metadata_extractor = none;
    }))

abbrev covered : Listener Message
covered =
    listener_with (record bare_manager { http_filters = coraza_filter coraza packed_coraza ∷ [] })

abbrev branded : Listener Message
branded =
    listener_with
      (record bare_manager { local_reply_config = some (build_local_reply_config page) })

pub coraza-IsEnabled : IsEnabled coraza
coraza-IsEnabled = record {
  not_disabled = refl;
  named = λ e. ground (arith, str_eq_iff "coraza-waf" "");
}

inject_coraza_run : inject_coraza_listener_filters codec coraza listener ≡ ok (covered, 2)
unfolding inject_coraza_listener_filters visit_listener visit_chain visit_filter
inject_coraza_run = refl

inject_local_reply_run : inject_local_reply_config codec page listener ≡ ok (branded, 2)
unfolding inject_local_reply_config visit_listener visit_chain visit_filter
inject_local_reply_run = refl

inject_coraza-is_covered_example :
    All (λ h. is_covered coraza h ≡ true) (each_hcm codec covered)
    × (2 ≡ count_uncovered coraza (each_hcm codec listener))
inject_coraza-is_covered_example =
    inject_coraza-is_covered codec coraza listener covered 2 coraza-IsEnabled inject_coraza_run

inject_coraza_idempotent_example :
    inject_coraza_listener_filters codec coraza covered ≡ ok (covered, 0)
inject_coraza_idempotent_example =
    inject_coraza_idempotent codec coraza listener covered 2 inject_coraza_run

inject_local_reply-is_branded_example :
    All (λ h. is_branded h ≡ true) (each_hcm codec branded)
    × (2 ≡ count_unbranded (each_hcm codec listener))
inject_local_reply-is_branded_example =
    inject_local_reply-is_branded codec page listener branded 2 refl inject_local_reply_run

inject_local_reply_idempotent_example :
    inject_local_reply_config codec page branded ≡ ok (branded, 0)
inject_local_reply_idempotent_example =
    inject_local_reply_idempotent codec page listener branded 2 inject_local_reply_run

visit_listener_run :
    visit_listener codec (inject_coraza_filter coraza packed_coraza) listener ≡ ok (covered, 2)
unfolding visit_listener inject_coraza_filter visit_chain visit_filter
visit_listener_run = refl

visit_listener-each_example :
    (each_hcm codec covered
      ≡ map
          (apply_change codec (inject_coraza_filter coraza packed_coraza))
          (each_hcm codec listener))
    × (2
        ≡ count_changes codec (inject_coraza_filter coraza packed_coraza) (each_hcm codec listener))
visit_listener-each_example =
    visit_listener-each codec (inject_coraza_filter coraza packed_coraza) listener covered 2
      visit_listener_run

-- A key of one byte is a good one, and a certificate of one byte ends at the time of that number.
abbrev leaf_at : Bytes → Option Leaf
leaf_at [] = none
leaf_at (b ∷ bs) = some (record { not_before = 0; not_after = b })

abbrev pub x509 : X509
x509 = record {
  key_pair = λ cert key. some (record { leaf = leaf_at cert; certificate = [] });
  parse_certificate = λ der. none;
}

abbrev pub secret : network_services_operato.Common.String → ℕ → Secret
secret name end = record {
  name = name;
  tls_certificate = some (record { certificate_chain = end ∷ []; private_key = 1 ∷ [] });
}

abbrev pub secrets : List Secret
secrets = secret "good" 100 ∷ secret "bad" 10 ∷ []

-- At time 50 the certificate "bad" has expired.
pruned_names : bad_secrets x509 50 secrets ≡ "bad" ∷ []
unfolding bad_secrets tls_certificate_usable
pruned_names = refl

pruned_listener :
    (prune_invalid_tls_secrets codec x509 (listener ∷ []) secrets 50).listeners
    ≡ record listener {
      filter_chains = chain_of "good.example" ("good" ∷ []) (manager_filter bare_manager ∷ []) ∷ [];
    }
      ∷ []
unfolding prune_invalid_tls_secrets tls_certificate_usable chain_references_bad_secret
    chain_sds_secret_names append_unique
pruned_listener = refl
