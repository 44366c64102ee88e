-- ===== src/Config/Load/Settled.antt =====
-- config/config.go: a configuration that `Load` has returned, put through `Load` again.
use go2rtc_manager.Prelude.{
  ℕ, ◌+◌, ◌≡◌, refl, sym, ap, subst, ◌∙◌, true, not, ◌⊎◌, inl, inr, List, [], ◌∷◌, ◌++◌,
}
use go2rtc_manager.Prelude.Results.{Result, ok, >>=-eq-ok, wrap}
use go2rtc_manager.Prelude.Text.{Text, CaseTable, codes, is_empty, trim_space, to_lower}
use go2rtc_manager.Prelude.Trims.{trim_space_idem}
use go2rtc_manager.Config.{Config}
use go2rtc_manager.Config.Load.{
  ◌>>◌, require, indexed, is_address, check_crons, check_ips, check_log, check_services,
  check_limits, check_stores, tidy_log, validate, has_crons,
}
use go2rtc_manager.Config.Load.Valid.{>>-ok}
use go2rtc_manager.Config.Load.Passes.{rewritten, Passes, validate-Passes, Passes-validate}
use go2rtc_manager.Config.Load.Ready.{ok_injective, text_or_json}

-- The checks of the two loops on one trimmed text.
abbrev cron_checks : (Text → Result (Unit {0})) → ℕ → Text → Result (Unit {0})
cron_checks parse_cron i spec =
    require (not (is_empty spec)) (indexed (codes "schedule.crons") i ++ codes " is empty")
    >> wrap (indexed (codes "schedule.crons") i ++ codes " is invalid: ") (parse_cron spec)

abbrev ip_checks : ℕ → Text → Result (Unit {0})
ip_checks i allowed_ip =
    require (not (is_empty allowed_ip))
      (indexed (codes "record.allowed_ips") i ++ codes " is empty")
    >> require (is_address allowed_ip)
        (indexed (codes "record.allowed_ips") i ++ codes " must be a valid IP or CIDR")

cron_taken :
    (parse_cron : Text → Result (Unit {0})) (i : ℕ) (s : Text) (more specs : List Text)
    → check_crons parse_cron i (s ∷ more) ≡ ok specs
    → (later : List Text) × (cron_checks parse_cron i (trim_space s) ≡ ok tt)
      × (check_crons parse_cron (i + 1) more ≡ ok later)
      × (trim_space s ∷ later ≡ specs)
unfolding check_crons
cron_taken parse_cron i s more specs h =
    let (checks, last) = >>-ok _ _ h in
    let (later, found, same) = >>=-eq-ok _ _ last in (later, checks, found, ok_injective same)

ip_taken :
    (i : ℕ) (s : Text) (more ips : List Text)
    → check_ips i (s ∷ more) ≡ ok ips
    → (later : List Text) × (ip_checks i (trim_space s) ≡ ok tt)
      × (check_ips (i + 1) more ≡ ok later)
      × (trim_space s ∷ later ≡ ips)
unfolding check_ips
ip_taken i s more ips h =
    let (checks, last) = >>-ok _ _ h in
    let (later, found, same) = >>=-eq-ok _ _ last in (later, checks, found, ok_injective same)

-- A trimmed expression that passed passes again, at any index.
check_crons_idem :
    (parse_cron : Text → Result (Unit {0})) (i : ℕ) (given specs : List Text)
    → check_crons parse_cron i given ≡ ok specs
    → check_crons parse_cron i specs ≡ ok specs
unfolding check_crons
check_crons_idem parse_cron i [] specs h =
    subst (λ r. check_crons parse_cron i r ≡ ok r) (ok_injective h) refl
check_crons_idem parse_cron i (s ∷ more) specs h =
    let (later, checks, found, same) = cron_taken parse_cron i s more specs h in
    subst (λ r. check_crons parse_cron i r ≡ ok r) same
      (rw (trim_space_idem s, check_crons_idem parse_cron (i + 1) more later found, checks) refl)

check_ips_idem :
    (i : ℕ) (given ips : List Text) → check_ips i given ≡ ok ips → check_ips i ips ≡ ok ips
unfolding check_ips
check_ips_idem i [] ips h = subst (λ r. check_ips i r ≡ ok r) (ok_injective h) refl
check_ips_idem i (s ∷ more) ips h =
    let (later, checks, found, same) = ip_taken i s more ips h in
    subst (λ r. check_ips i r ≡ ok r) same
      (rw (trim_space_idem s, check_ips_idem (i + 1) more later found, checks) refl)

pub lower_same :
    (table : CaseTable) (s : Text)
    → (s ≡ codes "text") ⊎ (s ≡ codes "json")
    → to_lower table (trim_space s) ≡ s
unfolding to_lower trim_space
lower_same table s (inl e) = subst (λ t. to_lower table (trim_space t) ≡ t) (sym e) refl
lower_same table s (inr e) = subst (λ t. to_lower table (trim_space t) ≡ t) (sym e) refl

crons_left :
    (parse_cron : Text → Result (Unit {0})) (i : ℕ) (given specs : List Text)
    → check_crons parse_cron i given ≡ ok specs
    → has_crons given ≡ true
    → has_crons specs ≡ true
unfolding check_crons
crons_left parse_cron i [] specs h some_there = cc
crons_left parse_cron i (s ∷ more) specs h some_there =
    let (later, checks, found, same) = cron_taken parse_cron i s more specs h in
    subst (λ r. has_crons r ≡ true) same refl

module _ (table : CaseTable) (parse_cron : Text → Result (Unit {0})) where
  pub tidy_log-same :
      (cfg : Config)
      → to_lower table (trim_space cfg.log.format) ≡ cfg.log.format
      → trim_space cfg.log.file_path ≡ cfg.log.file_path
      → tidy_log table parse_cron cfg ≡ cfg
  unfolding tidy_log
  tidy_log-same cfg format path =
      ap
        (λ f. record cfg {
          log = record cfg.log { format = f; file_path = trim_space cfg.log.file_path };
        })
        format
      ∙ ap (λ p. record cfg { log = record cfg.log { file_path = p } }) path

  Passes-rewritten :
      (cfg : Config) (crons ips : List Text)
      → Passes parse_cron cfg crons ips
      → Passes parse_cron (rewritten cfg crons ips) crons ips
  unfolding check_log check_services check_limits check_stores
  Passes-rewritten cfg crons ips p = record {
    box_ip = p.box_ip;
    format = p.format;
    log = p.log;
    services = p.services;
    some_cron = crons_left parse_cron 0 cfg.schedule.crons crons p.cron_loop p.some_cron;
    cron_loop = check_crons_idem parse_cron 0 cfg.schedule.crons crons p.cron_loop;
    limits = p.limits;
    ip_loop = check_ips_idem 0 cfg.recording.allowed_ips ips p.ip_loop;
    stores = p.stores;
  }

  -- What `validate` returns is settled: given again, it passes and comes back as it is.
  pub validate_idem :
      (given cfg : Config)
      → validate table parse_cron given ≡ ok cfg
      → validate table parse_cron cfg ≡ ok cfg
  unfolding tidy_log
  validate_idem given cfg h =
      let (crons, ips, p, same) = validate-Passes table parse_cron given cfg h in
      let left = rewritten (tidy_log table parse_cron given) crons ips in
      let still : tidy_log table parse_cron left ≡ left =
        tidy_log-same left
          (lower_same table left.log.format (text_or_json left.log.format p.format))
          (trim_space_idem given.log.file_path) in
      subst (λ c. validate table parse_cron c ≡ ok c) (sym same)
        (Passes-validate table parse_cron left crons ips (
            subst (λ c. Passes parse_cron c crons ips) (sym still)
              (Passes-rewritten (tidy_log table parse_cron given) crons ips p))
          ∙ ap (λ c. ok (rewritten c crons ips)) still)
