-- ===== src/Vault/Clients/Runs.antt =====
-- vault/vault.go, `NewVaultClient`, and vault/login.go, `Client`: what a run that returns has done.
use goldfish.Prelude.{◌≡◌, ◌∙◌, sym, ap, none}
use goldfish.Types.{AuthInfo}
use goldfish.World.{World, Client, Call, connect, vault}
use goldfish.Exec.{State, perform, gets, ◌>>=◌}
use goldfish.Exec.Runs.{Returns, performed, from_first, Returns-pure, Returns-perform}
use goldfish.Vault.Clients.{set_token, new_vault_client, client, call}

module _ ⦃w : World⦄ where
  -- the state behind the connection
  abbrev pub connects : State → State
  connects s = performed (connect s.server.vault_skip_tls) s

  -- a client without a token
  abbrev pub new_client : State → Client
  new_client s = record {
    address = s.server.vault_address;
    skip_tls = s.server.vault_skip_tls;
    token = "";
    wrap_ttl = none;
  }

  pub new_vault_client-Returns :
      (s : State) (c : Client) (s' : State)
      → Returns new_vault_client s c s'
      → (new_client s ≡ c) × (s' ≡ connects s)
  unfolding new_vault_client gets ◌>>=◌
  new_vault_client-Returns s c s' h =
      from_first (perform (connect s.server.vault_skip_tls)) _ s c s' h λ u s1 hu h1.
        let (a, q) = Returns-perform (connect s.server.vault_skip_tls) s u s1 hu in
        let (b, r) = Returns-pure _ c s1 s' h1 in (b, r ∙ q)

  -- a client with the token of `auth`
  abbrev pub client_of : AuthInfo → State → Client
  client_of auth s = set_token (new_client s) auth.id

  -- the state behind the lookup of the token
  abbrev pub looked_up : AuthInfo → State → State
  looked_up auth s = performed (vault (client_of auth s) Call.lookup_self) (connects s)

  pub client-Returns :
      (auth : AuthInfo) (s : State) (c : Client) (s' : State)
      → Returns (client auth) s c s'
      → (client_of auth s ≡ c) × (s' ≡ looked_up auth s)
  unfolding client call
  client-Returns auth s c s' h = from_first new_vault_client _ s c s' h λ fresh s1 hn h1.
      from_first (call (set_token fresh auth.id) Call.lookup_self) _ s1 c s' h1 λ self s2 hl h2.
        let (is_new, q1) = new_vault_client-Returns s fresh s1 hn in
        let (a, q2) =
          Returns-perform (vault (set_token fresh auth.id) Call.lookup_self) s1 self s2 hl in
        let (b, q3) = Returns-pure _ c s2 s' h2 in
        (
          ap (λ x. set_token x auth.id) is_new ∙ b,
          q3
              ∙ q2
              ∙ ap (λ x. performed (vault (set_token x auth.id) Call.lookup_self) s1) (sym is_new)
              ∙ ap (performed (vault (client_of auth s) Call.lookup_self)) q1,
        )
