-- ===== src/Server/Launch/Laws.antt =====
-- server.go: what holds when `main` serves requests.
use goldfish.Prelude.{◌≡◌, ◌∙◌, refl, sym, ap, inl, inr, String, false, Bool-cases, if◌then◌else◌}
use mathlib.Core.Path.{subst}
use goldfish.World.{World}
use goldfish.Exec.{State, Flow, done, exit, panic}
use goldfish.Exec.Runs.{Returns}
use goldfish.Vault.Settings.Laws.{HasSafeConfig}
use goldfish.Config.{Config, Library, Outcome, parsed, failed, blocked, crashed}
use goldfish.Server.Launch.{
  Flags, Web, exited, serving, initial, web_of, load_config, hook_up, serve_if, launch, main,
}
use goldfish.Server.Launch.Tied.{IsTied, hook_up-Returns}
use goldfish.Vault.Start.Granted.{IsGranted}
use goldfish.Server.Launch.Exposure.{IsExposed, web_of-IsExposed}
use goldfish.Server.Launch.Source.{IsSource, load_config-IsSource}

module _ ⦃w : World⦄ ⦃lib : Library⦄ where
  pub record IsLaunched (flags : Flags) (web : Web) (s : State) : Type 0 where
    pub not_version : flags.print_version ≡ false
    pub cfg : Config
    pub wrapping : String
    pub loaded : State
    pub source : IsSource flags cfg wrapping loaded
    pub tied : IsTied cfg s
    pub safe : HasSafeConfig "" s
    pub granted :
        IsGranted wrapping cfg.vault.approle_login cfg.vault.approle_id s.server.vault_token
    pub exposed : IsExposed cfg.listener.tls_disable cfg.listener web

  launch-serving :
      (o : Outcome (Config × String)) (s0 s : State) (web : Web)
      → launch (o, s0) ≡ serving web s
      → (cfg : Config) × (token : String) × (o ≡ parsed (cfg, token))
        × Returns (hook_up cfg token) s0 tt s
        × (web ≡ web_of (w.random_key s.trace 32) cfg.listener)
  unfolding launch serve_if
  launch-serving (parsed (cfg, token)) s0 s web h =
      go (hook_up cfg token s0).0 (hook_up cfg token s0).1 refl h
    where
      go :
          (r : Flow String Unit) (t : State)
          → hook_up cfg token s0 ≡ (r, t)
          → serve_if cfg (r, t) ≡ serving web s
          → (c : Config) × (k : String) × (◌≡◌ {A = Outcome (Config × String)}
              (parsed (cfg, token))
              (parsed (c, k)))
            × Returns (hook_up c k) s0 tt s
            × (web ≡ web_of (w.random_key s.trace 32) c.listener)
      go (done u) t e q =
          let same : t ≡ s = cc in
          let first : web_of (w.random_key t.trace 32) cfg.listener ≡ web = cc in
          (
            cfg,
            token,
            refl,
            e ∙ ap {B = Flow String Unit × State} (λ x. (done tt, x)) same,
            sym first ∙ ap (λ x. web_of (w.random_key x.trace 32) cfg.listener) same,
          )
      go (exit x) t e q = cc
      go panic t e q = cc
  launch-serving (failed e) s0 s web h = cc
  launch-serving blocked s0 s web h = cc
  launch-serving crashed s0 s web h = cc

  -- When `main` comes to serve requests, whatever Vault and the libraries answer: it was not asked for
  -- its version; the configuration is what the file describes, or that of development mode behind
  -- its set-up, and the wrapping token is that of the command line, or the one that development mode
  -- generated; the package variables name the Vault of that configuration; the server's token, which
  -- its client has, is the one that Vault granted to a login with the role of the configuration and
  -- the secret id that Vault unwrapped for the wrapping token; the run-time settings have a webhook of
  -- Slack or neither webhook nor channel. And the web server is exposed as the listener's section
  -- says: plain http exactly when TLS is disabled, a CSRF cookie that is always there and for https
  -- only unless TLS is disabled, security headers exactly with TLS, a redirect of port 80 only with TLS
  -- and if asked for, certificates fetched for the listener's address alone and exactly when they are
  -- used, and the certificate's files of the section.
  pub main-IsLaunched :
      (flags : Flags) (web : Web) (s : State) → main flags ≡ serving web s → IsLaunched flags web s
  unfolding main
  main-IsLaunched flags web s h = elim (Bool-cases flags.print_version) [
    | inl e ↦
        let bad =
          subst (λ b. (if b then exited else launch (load_config flags initial)) ≡ serving web s) e
            h in
        cc
    | inr e ↦
        let q =
          subst (λ b. (if b then exited else launch (load_config flags initial)) ≡ serving web s) e
            h in
        let (cfg, token, o, r, x) =
          launch-serving (load_config flags initial).0 (load_config flags initial).1 s web q in
        let (source, safe) =
          load_config-IsSource flags cfg token (load_config flags initial).1
            (ap (λ y. (y, (load_config flags initial).1)) o) in
        let (tied, safe', granted) = hook_up-Returns cfg token _ s safe r in
        record {
          not_version = e;
          cfg = cfg;
          wrapping = token;
          loaded = (load_config flags initial).1;
          source = source;
          tied = tied;
          safe = safe';
          granted = granted;
          exposed =
              subst (IsExposed cfg.listener.tls_disable cfg.listener) (sym x)
                (web_of-IsExposed _ cfg.listener);
        }
  ]
