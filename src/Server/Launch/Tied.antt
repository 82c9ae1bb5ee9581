-- ===== src/Server/Launch/Tied.antt =====
-- server.go: the package variables of vault/ behind the start.
use goldfish.Prelude.{ℕ, ◌≡◌, ◌∙◌, refl, sym, ap, String}
use mathlib.Core.Path.{subst}
use goldfish.Types.{Config as Settings}
use goldfish.World.{World, Client, Call, Effect, vault}
use goldfish.Exec.{State, Server, modify, perform}
use goldfish.Exec.Keeps.{Keeps, Keeps-modify, Keeps-perform, Keeps-bind, keeps_rules}
use goldfish.Exec.Runs.{Returns, from_first, Returns-modify}
use goldfish.Vault.Clients.{set_token, new_vault_client, call}
use goldfish.Vault.Start.{set_client, set_server_token, start_goldfish_wrapper, load_runtime_config}
use goldfish.Vault.Start.Ready.{IsReady, start_goldfish_wrapper-IsReady}
use goldfish.Vault.Settings.{install, update_config, update_if_new, load_config_from_vault}
use goldfish.Vault.Settings.Laws.{IsSafe, HasSafeConfig, Keeps-load_config_from_vault}
use goldfish.Vault.Start.Granted.{IsGranted, start_goldfish_wrapper-IsGranted}
use goldfish.Server.Run.Idle.{Keeps-reload}
use goldfish.Config.{Config}
use goldfish.Server.Launch.{set_vault, hook_up}

-- The package variables name the Vault of the configuration, and the settings are safe.
pub record IsLocated (cfg : Config) (s : State) : Type 0 where
  pub address : s.server.vault_address ≡ cfg.vault.address
  pub skip : s.server.vault_skip_tls ≡ cfg.vault.tls_skip_verify
  pub safe : HasSafeConfig "" s

-- The package variables name the Vault of the configuration, and the client has the server's token.
pub record IsTied (cfg : Config) (s : State) : Type 0 where
  pub address : s.server.vault_address ≡ cfg.vault.address
  pub skip : s.server.vault_skip_tls ≡ cfg.vault.tls_skip_verify
  pub same_token : s.server.vault_client.token ≡ s.server.vault_token

-- The server's token is this.
record HasToken (t : String) (s : State) : Type 0 where
  pub same : s.server.vault_token ≡ t

module _ ⦃w : World⦄ (cfg : Config) where
  Keeps-effect : (e : Effect) → Keeps (IsLocated cfg) (perform e)
  Keeps-effect e = Keeps-perform {P = IsLocated cfg} e λ s h. record {
    address = h.address;
    skip = h.skip;
    safe = record { safe = h.safe.safe; same_commit = h.safe.same_commit };
  }

  Keeps-call : (c : Client) (q : Call) → Keeps (IsLocated cfg) (call c q)
  unfolding call
  Keeps-call c q = Keeps-effect (vault c q)

  Keeps-client : Keeps (IsLocated cfg) new_vault_client
  unfolding new_vault_client
  Keeps-client = search (keeps_rules, Keeps-effect) depth 10

  Keeps-server :
      (f : State → State)
      → ((s : State) → (f s).server.vault_address ≡ s.server.vault_address)
      → ((s : State) → (f s).server.vault_skip_tls ≡ s.server.vault_skip_tls)
      → ((s : State) → (f s).server.config ≡ s.server.config)
      → ((s : State) → (f s).server.github_current_commit ≡ s.server.github_current_commit)
      → Keeps {E = String} (IsLocated cfg) (modify f)
  Keeps-server f a k c g = Keeps-modify f λ s h. record {
    address = a s ∙ h.address;
    skip = k s ∙ h.skip;
    safe = record {
      safe = subst IsSafe (sym (c s)) h.safe.safe;
      same_commit = g s ∙ h.safe.same_commit;
    };
  }

  Keeps-start :
      (token login id : String) → Keeps (IsLocated cfg) (start_goldfish_wrapper token login id)
  unfolding start_goldfish_wrapper
  Keeps-start token login id = Keeps-bind _ _ (search (keeps_rules) depth 2) λ _.
      Keeps-bind _ _ Keeps-client λ c.
        Keeps-bind _ _
          (Keeps-server (set_client (set_token c token)) (λ s. refl) (λ s. refl) (λ s. refl)
            (λ s. refl))
          λ _. Keeps-bind _ _ (search (keeps_rules, Keeps-call) depth 4) λ unwrapped.
            Keeps-bind _ _ (search (keeps_rules) depth 2) λ secret.
              Keeps-bind _ _ (search (keeps_rules) depth 2) λ secret_id.
                Keeps-bind _ _ (search (keeps_rules, Keeps-call) depth 4) λ resp.
                  Keeps-bind _ _ (search (keeps_rules) depth 2) λ granted.
                    Keeps-bind _ _ (search (keeps_rules) depth 2) λ auth.
                      Keeps-bind _ _
                        (Keeps-server (set_server_token auth.client_token c) (λ s. refl) (λ s. refl)
                          (λ s. refl) (λ s. refl))
                        λ _. search (keeps_rules, Keeps-call) depth 4

  Keeps-IsTied-call : (c : Client) (q : Call) → Keeps (IsTied cfg) (call c q)
  unfolding call
  Keeps-IsTied-call c q =
      Keeps-perform {P = IsTied cfg} (vault c q)
        λ s h. record { address = h.address; skip = h.skip; same_token = h.same_token }

  Keeps-load : (path : String) → Keeps (IsTied cfg) (load_config_from_vault path)
  unfolding load_config_from_vault update_if_new update_config
  Keeps-load path = search (keeps_rules, Keeps-IsTied-call, installs) depth 24
    where
      installs :
          (c : Settings) (hash : ℕ) → Keeps {E = String} (IsTied cfg) (modify (install c hash))
      installs c hash =
          Keeps-modify _
            λ s h. record { address = h.address; skip = h.skip; same_token = h.same_token }

  -- The settings are loaded with the server's token as it is.
  Keeps-HasToken_load : (t path : String) → Keeps (HasToken t) (load_config_from_vault path)
  Keeps-HasToken_load t path =
      Keeps-reload
        (record {
          acts = λ e h. Keeps-perform e λ s k. record { same = k.same };
          moves = λ s n e f k. record { same = ap (λ (v : Server). v.vault_token) e ∙ k.same };
        })
        path (λ c hash. Keeps-modify _ λ s k. record { same = k.same })

  pub hook_up-Returns :
      (token : String) (s s' : State)
      → HasSafeConfig "" s
      → Returns (hook_up cfg token) s tt s'
      → IsTied cfg s'
        × HasSafeConfig "" s'
        × IsGranted token cfg.vault.approle_login cfg.vault.approle_id s'.server.vault_token
  unfolding hook_up load_runtime_config
  hook_up-Returns token s s' safe h = from_first _ _ s tt s' h λ u s1 hm h1.
      from_first _ _ s1 tt s' h1 λ u2 s2 hs h2.
        let l1 : IsLocated cfg s1 =
          subst (IsLocated cfg) (sym (Returns-modify (set_vault cfg) u s s1 hm)) (record {
            address = refl;
            skip = refl;
            safe = record { safe = safe.safe; same_commit = safe.same_commit };
          }) in
        let l2 : IsLocated cfg s2 =
          subst (IsLocated cfg) (ap (λ p. p.1) hs) ((Keeps-start token _ _).at s1 l1) in
        let ready : IsReady s2 =
          subst IsReady (ap (λ p. p.1) hs)
            (start_goldfish_wrapper-IsReady token _ _ s1 (ap (λ p. p.0) hs)) in
        let tied : IsTied cfg s2 = record {
          address = l2.address;
          skip = l2.skip;
          same_token = ready.same_token;
        } in
        let granted = start_goldfish_wrapper-IsGranted token _ _ s1 s2 hs in
        let kept : HasToken s2.server.vault_token s' =
          subst (HasToken s2.server.vault_token) (ap (λ p. p.1) h2)
            ((Keeps-HasToken_load s2.server.vault_token _).at s2 (record { same = refl })) in
        (
          subst (IsTied cfg) (ap (λ p. p.1) h2) ((Keeps-load _).at s2 tied),
          subst (HasSafeConfig "") (ap (λ p. p.1) h2)
              ((Keeps-load_config_from_vault _).at s2 l2.safe),
          subst (IsGranted token cfg.vault.approle_login cfg.vault.approle_id) (sym kept.same)
              granted,
        )
