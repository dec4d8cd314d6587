-- ===== src/Extension/LocalReply/InjectSafe.antt =====
-- What the injection of the error page leaves on a listener, and what the check at start-up says
-- (internal/extensionserver/mutate/localreply.go).
use network_services_operato.Common.{
  ℕ, suc, String, Bool, true, false, not, ◌||◌, ◌≡◌, refl, ◌∙◌, List, [], ◌∷◌, map, none, some,
  if◌then◌else◌, All, arith, Bool-cases, inl, inr,
}
use network_services_operato.Common.Result.{ok}
use network_services_operato.Extension.Xds.{Hcm, Listener, LocalReplyConfig}
use network_services_operato.Extension.Codec.{Codec}
use network_services_operato.Extension.Hcm.Each.{each_hcm}
use network_services_operato.Extension.Hcm.Laws.{apply_change, count_changes, visit_listener-each}
use network_services_operato.Extension.Hcm.Rerun.{visit_listener-again}
use network_services_operato.Extension.Waf.Listener.{is_rds}
use network_services_operato.Extension.LocalReply.AssertSafe.{assert-escape}
use network_services_operato.Extension.LocalReply.Inject.{
  ErrorPage, is_off, build_local_reply_config, inject_local_reply, marshal_failed,
  inject_local_reply_config, validate_local_reply_config,
}

module _ {Any : Type 0} where
  abbrev pub has_page : Hcm Any → Bool
  has_page h = elim h.local_reply_config [ none ↦ false | some page ↦ true ]

  -- Without dynamic routes, or with an error page.
  abbrev pub is_branded : String × Hcm Any → Bool
  is_branded (chain, h) = not (is_rds h.route_specifier) || has_page h

  abbrev pub count_unbranded : List (String × Hcm Any) → ℕ
  count_unbranded [] = 0
  count_unbranded (h ∷ hs) = let n = count_unbranded hs in if is_branded h then n else suc n

  inject_local_reply-once :
      (lrc : LocalReplyConfig) (h h' : Hcm Any)
      → inject_local_reply lrc h ≡ some h'
      → inject_local_reply lrc h' ≡ none
  unfolding inject_local_reply
  inject_local_reply-once lrc h h' e = ground arith

module _ (c : Codec) where
  open c use {Any, packs_local_reply}

  changed-is_branded :
      (lrc : LocalReplyConfig) (hs : List (String × Hcm Any))
      → All (λ h. is_branded h ≡ true) (map (apply_change c (inject_local_reply lrc)) hs)
  changed-is_branded lrc [] = tt
  changed-is_branded lrc ((chain, h) ∷ hs) =
      (unfold inject_local_reply in ground arith, changed-is_branded lrc hs)

  count_changes-unbranded :
      (lrc : LocalReplyConfig) (hs : List (String × Hcm Any))
      → count_changes c (inject_local_reply lrc) hs ≡ count_unbranded hs
  unfolding inject_local_reply
  count_changes-unbranded lrc [] = refl
  count_changes-unbranded lrc ((chain, h) ∷ hs) = ground (arith, count_changes-unbranded lrc hs)

  -- If a page is configured and the injection succeeds, every connection manager of the listener
  -- with dynamic routes has an error page, and the number returned is the number of those that had
  -- none.
  pub inject_local_reply-is_branded :
      (cfg : ErrorPage) (l l' : Listener Any) (n : ℕ)
      → is_off cfg ≡ false
      → inject_local_reply_config c cfg l ≡ ok (l', n)
      → All (λ h. is_branded h ≡ true) (each_hcm c l') × (n ≡ count_unbranded (each_hcm c l))
  unfolding inject_local_reply_config
  inject_local_reply-is_branded cfg l l' n on e =
      let lrc = build_local_reply_config cfg in
      let (after, counted) = visit_listener-each c (inject_local_reply lrc) l l' n (rw on at e) in
      (
        rw after (changed-is_branded lrc (each_hcm c l)),
        counted ∙ count_changes-unbranded lrc (each_hcm c l),
      )

  -- Injecting twice is injecting once: the second run succeeds, changes nothing and counts nothing.
  pub inject_local_reply_idempotent :
      (cfg : ErrorPage) (l l' : Listener Any) (n : ℕ)
      → inject_local_reply_config c cfg l ≡ ok (l', n)
      → inject_local_reply_config c cfg l' ≡ ok (l', 0)
  unfolding inject_local_reply_config
  inject_local_reply_idempotent cfg l l' n e = elim (Bool-cases (is_off cfg)) [
    | inl off ↦ rw off
    | inr on ↦ rw on (
        visit_listener-again c (inject_local_reply (build_local_reply_config cfg))
          (inject_local_reply-once (build_local_reply_config cfg)) l l' n (rw on at e))
  ]

  -- The check at start-up can only fail because the settings cannot be packed: whatever the body, it
  -- finds no bare percent sign in what would be injected.
  pub validate_local_reply_lem :
      (cfg : ErrorPage)
      → validate_local_reply_config c cfg ≡ (
          if is_off cfg
          then none
          else if packs_local_reply (build_local_reply_config cfg)
          then none
          else some marshal_failed)
  unfolding validate_local_reply_config
  validate_local_reply_lem cfg = ground (arith, assert-escape cfg.body_html)
