-- ===== src/Server/Launch/Source.antt =====
-- server.go: where `main` takes its configuration from.
use goldfish.Prelude.{
  ◌≡◌, ◌⊎◌, ◌∙◌, refl, sym, ap, inl, inr, String, Bool, true, false, Bool-cases, ◌==◌,
  if◌then◌else◌,
}
use mathlib.Core.Path.{subst}
use goldfish.World.{World, ok}
use goldfish.Exec.{State, Flow, done, exit, panic}
use goldfish.Exec.Runs.{Returns}
use goldfish.Vault.Settings.Laws.{HasSafeConfig}
use goldfish.Config.{Config, Library, Outcome, parsed, failed, blocked, crashed, lift}
use goldfish.Config.Parse.{parse_config, load_config_file}
use goldfish.Config.Outcomes.{from_bind, lift-parsed}
use goldfish.Config.Spec.{IsConfig}
use goldfish.Config.Correct.{parse_config-IsConfig}
use goldfish.Config.Dev.{load_config_dev}
use goldfish.Config.Wrapped.{IsDevelopment, load_config_dev-IsDevelopment}
use goldfish.Server.Launch.{Flags, initial, from_flow, with_token, load_config}

else-parsed :
    {A : Type 0} (b : Bool) (e : String) (m : Outcome A) (a : A)
    → (if b then failed e else m) ≡ parsed a
    → m ≡ parsed a
else-parsed true e m a h = cc
else-parsed false e m a h = h

module _ ⦃w : World⦄ ⦃lib : Library⦄ where
  -- Where the configuration and the wrapping token came from: development mode, or a file that describes
  -- the configuration and the command line.
  abbrev pub IsSource : Flags → Config → String → State → Type 0
  IsSource flags cfg token s =
      ((flags.dev_mode ≡ true) × IsDevelopment initial cfg token s)
      ⊎ ((flags.dev_mode ≡ false)
          × (token ≡ flags.wrapping_token)
          × (s ≡ initial)
          × ((text : String) × (lib.read_file flags.cfg_path ≡ ok text) × IsConfig text cfg))

  load_config_file-IsConfig :
      (path : String) (cfg : Config)
      → load_config_file path ≡ parsed cfg
      → (text : String) × (lib.read_file path ≡ ok text) × IsConfig text cfg
  unfolding load_config_file
  load_config_file-IsConfig path cfg h =
      from_bind (lift (lib.read_file path)) parse_config cfg (else-parsed (path == "") _ _ cfg h)
        λ text r q. (text, (lift-parsed _ text).0 r, (parse_config-IsConfig text cfg).0 q)

  load_config-dev :
      (flags : Flags) (s : State)
      → flags.dev_mode ≡ true
      → load_config flags s ≡ (from_flow (load_config_dev s).0, (load_config_dev s).1)
  unfolding load_config
  load_config-dev flags s e = rw (e) refl

  load_config-file :
      (flags : Flags) (s : State)
      → flags.dev_mode ≡ false
      → load_config flags s ≡ (with_token flags.wrapping_token (load_config_file flags.cfg_path), s)
  unfolding load_config
  load_config-file flags s e = rw (e) refl

  from_flow-parsed : {A : Type 0} (r : Flow String A) (a : A) → from_flow r ≡ parsed a → r ≡ done a
  from_flow-parsed (done b) a h = cc
  from_flow-parsed (exit e) a h = cc
  from_flow-parsed panic a h = cc

  with_token-parsed :
      (t : String) (o : Outcome Config) (cfg : Config) (token : String)
      → with_token t o ≡ parsed (cfg, token)
      → (o ≡ parsed cfg) × (token ≡ t)
  with_token-parsed t (parsed c) cfg token h = (cc, cc)
  with_token-parsed t (failed e) cfg token h = (cc, cc)
  with_token-parsed t blocked cfg token h = (cc, cc)
  with_token-parsed t crashed cfg token h = (cc, cc)

  safe_start : HasSafeConfig "" initial
  safe_start = record { safe = inr (refl, refl); same_commit = refl }

  pub load_config-IsSource :
      (flags : Flags) (cfg : Config) (token : String) (s : State)
      → load_config flags initial ≡ (parsed (cfg, token), s)
      → IsSource flags cfg token s × HasSafeConfig "" s
  load_config-IsSource flags cfg token s h = elim (Bool-cases flags.dev_mode) [
    | inl e ↦
        let q = sym (load_config-dev flags initial e) ∙ h in
        let x = from_flow-parsed (load_config_dev initial).0 (cfg, token) (ap (λ p. p.0) q) in
        let y : (load_config_dev initial).1 ≡ s = ap (λ p. p.1) q in
        let r : Returns load_config_dev initial (cfg, token) s = cc in
        let d = load_config_dev-IsDevelopment initial cfg token s r in
        (
          inl (e, d),
          subst (HasSafeConfig "") (sym d.wrapped.final)
              (record { safe = inr (refl, refl); same_commit = refl }),
        )
    | inr e ↦
        let q = sym (load_config-file flags initial e) ∙ h in
        let (is_file, is_token) = with_token-parsed _ _ cfg token (ap (λ p. p.0) q) in
        let i : s ≡ initial = sym (ap (λ p. p.1) q) in
        (
          inr (e, is_token, i, load_config_file-IsConfig flags.cfg_path cfg is_file),
          subst (HasSafeConfig "") (sym i) safe_start,
        )
  ]
