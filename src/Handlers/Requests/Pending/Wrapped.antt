-- ===== src/Handlers/Requests/Pending/Wrapped.antt =====
-- vault/helper.go, `WrapData`: which token an unseal key becomes.
use goldfish.Prelude.{◌≡◌, ◌∙◌, refl, sym, ap, String, some, List, [], ◌∷◌}
use goldfish.Json.{str}
use goldfish.World.{World, Client, Call, Secret, Effect, ok, vault}
use goldfish.Exec.{State, Server, gets, ◌>>=◌}
use goldfish.Exec.Runs.{Returns, from_first, Returns-pure, Returns-deref, Returns-perform}
use goldfish.Vault.Clients.{set_token, set_wrapping, new_vault_client, call}
use goldfish.Vault.Clients.Runs.{new_vault_client-Returns}
use goldfish.Vault.Helper.{server_client, wrap_data}

-- the call that wraps an unseal key
abbrev pub wrap_of : String → Call
wrap_of key = Call.write "/sys/wrapping/wrap" (some (("unseal_token", str key) ∷ []))

module _ ⦃w : World⦄ where
  -- Vault answered this token, for an hour, to the server's token that asked it to wrap this key.
  pub record IsWrapped (srv : Server) (key token : String) : Type 0 where
    pub before : List Effect
    pub api : Client
    pub same_token : api.token ≡ srv.vault_token
    pub one_hour : api.wrap_ttl ≡ some "60m"
    pub secret : Secret
    pub answered : w.answer before (vault api (wrap_of key)) ≡ ok (some secret)
    pub wrapped : secret.wrap_token ≡ some token

  server_client-Returns :
      (s : State) (c : Client) (s' : State)
      → Returns server_client s c s'
      → c.token ≡ s.server.vault_token
  unfolding server_client gets ◌>>=◌
  server_client-Returns s c s' h = from_first new_vault_client _ s c s' h λ fresh s1 hn h1.
      let (is_new, q) = new_vault_client-Returns s fresh s1 hn in
      let made = (Returns-pure (set_token fresh s1.server.vault_token) c s1 s' h1).0 in
      ap (λ (x : Client). x.token) (sym made) ∙ ap (λ (x : State). x.server.vault_token) q

  pub wrap_data-IsWrapped :
      (srv : Server) (key : String) (s : State) (token : String) (s' : State)
      → s.server ≡ srv
      → Returns (wrap_data "60m" (("unseal_token", str key) ∷ [])) s token s'
      → IsWrapped srv key token
  unfolding wrap_data call
  wrap_data-IsWrapped srv key s token s' e h = from_first server_client _ s token s' h λ c s1 hc h1.
      from_first _ _ s1 token s' h1 λ o s2 ho h2. from_first _ _ s2 token s' h2 λ secret s3 hs h3.
        let (a, q2) = Returns-perform (vault (set_wrapping c "60m") (wrap_of key)) s1 o s2 ho in
        let (some_secret, q3) = Returns-deref o secret s2 s3 hs in
        record {
          before = s1.trace;
          api = set_wrapping c "60m";
          same_token = server_client-Returns s c s1 hc ∙ ap (λ (x : Server). x.vault_token) e;
          one_hour = refl;
          secret = secret;
          answered = a ∙ ap ok some_secret;
          wrapped = (Returns-deref secret.wrap_token token s3 s' h3).0;
        }
