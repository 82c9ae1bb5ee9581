-- ===== src/Vault/Start/Granted.antt =====
-- vault/vault.go, `StartGoldfishWrapper`: whose token the server's token is.
use goldfish.Prelude.{◌≡◌, ◌∙◌, refl, sym, ap, String, some, List, [], ◌∷◌}
use goldfish.Json.{str, get, as_string}
use goldfish.World.{World, Client, Call, Secret, SecretAuth, Effect, ok, vault}
use goldfish.Exec.{State, modify, deref, on_error}
use goldfish.Exec.Runs.{
  Returns, from_first, performed, Returns-pure, Returns-deref, Returns-expect, Returns-modify,
  Returns-perform, Returns-on_error,
}
use goldfish.Vault.Clients.{set_token, new_vault_client, call}
use goldfish.Vault.Start.{set_client, set_server_token, start_goldfish_wrapper}

-- the login of the approle
abbrev pub login_of : String → String → String → Call
login_of login id secret_id =
    Call.write login (some (("role_id", str id) ∷ ("secret_id", str secret_id) ∷ []))

module _ ⦃w : World⦄ where
  -- Vault unwrapped a secret id for the wrapping token, and answered this token to a login with it.
  pub record IsGranted (wrapping login id token : String) : Type 0 where
    pub before : List Effect
    pub api : Client
    pub same_token : api.token ≡ wrapping
    pub secret : Secret
    pub unwrapped : w.answer before (vault api (Call.unwrap "")) ≡ ok (some secret)
    pub secret_id : String
    pub has_id : as_string (get secret.data_map "secret_id") ≡ some secret_id
    pub after : List Effect
    pub granted : Secret
    pub logged_in : w.answer after (vault api (login_of login id secret_id)) ≡ ok (some granted)
    pub auth : SecretAuth
    pub has_auth : granted.auth ≡ some auth
    pub is_token : auth.client_token ≡ token

  -- A start that returns no error: the server's token is the one that Vault granted.
  pub start_goldfish_wrapper-IsGranted :
      (wrapping login id : String) (s s' : State)
      → Returns (start_goldfish_wrapper wrapping login id) s tt s'
      → IsGranted wrapping login id s'.server.vault_token
  unfolding start_goldfish_wrapper call
  start_goldfish_wrapper-IsGranted wrapping login id s s' h = from_first _ _ s tt s' h λ u s1 h1 r1.
      from_first new_vault_client _ s1 tt s' r1 λ c s2 h2 r2.
        from_first (modify (set_client (set_token c wrapping))) _ s2 tt s' r2 λ u3 s3 h3 r3.
          let api = set_token c wrapping in
          from_first (on_error _ (call api (Call.unwrap ""))) _ s3 tt s' r3 λ o s4 h4 r4.
            from_first _ _ s4 tt s' r4 λ secret s5 h5 r5.
              from_first _ _ s5 tt s' r5 λ secret_id s6 h6 r6.
                from_first (call api (login_of login id secret_id)) _ s6 tt s' r6 λ resp s7 h7 r7.
                  from_first (deref resp) _ s7 tt s' r7 λ granted s8 h8 r8.
                    from_first (deref granted.auth) _ s8 tt s' r8 λ auth s9 h9 r9.
                      from_first (modify (set_server_token auth.client_token c)) _ s9 tt s' r9
                        λ u10 s10 h10 r10.
                          from_first (call (set_token c auth.client_token) Call.lookup_self) _ s10
                            tt s' r10
                            λ found s11 h11 r11.
                              let (unwraps, q4) =
                                Returns-perform (vault api (Call.unwrap "")) s3 o s4
                                  (Returns-on_error _ (call api (Call.unwrap "")) s3 o s4 h4) in
                              let (is_secret, q5) = Returns-expect o _ secret s4 s5 h5 in
                              let (logs_in, q7) =
                                Returns-perform (vault api (login_of login id secret_id)) s6 resp s7
                                  h7 in
                              let (is_granted, q8) = Returns-deref resp granted s7 s8 h8 in
                              let set =
                                Returns-modify (set_server_token auth.client_token c) u10 s9 s10
                                  h10 in
                              let (found_answer, q11) =
                                Returns-perform
                                  (vault (set_token c auth.client_token) Call.lookup_self) s10 found
                                  s11 h11 in
                              let ended = (Returns-pure tt tt s11 s' r11).1 in
                              record {
                                before = s3.trace;
                                api = api;
                                same_token = refl;
                                secret = secret;
                                unwrapped = unwraps ∙ ap ok is_secret;
                                secret_id = secret_id;
                                has_id = (Returns-expect _ _ secret_id s5 s6 h6).0;
                                after = s6.trace;
                                granted = granted;
                                logged_in = logs_in ∙ ap ok is_granted;
                                auth = auth;
                                has_auth = (Returns-deref granted.auth auth s8 s9 h9).0;
                                is_token = sym (
                                    ap (λ (x : State). x.server.vault_token)
                                      (ended
                                        ∙ q11
                                        ∙ ap
                                            (performed (
                                              vault (set_token c auth.client_token)
                                                Call.lookup_self))
                                            set));
                              }
