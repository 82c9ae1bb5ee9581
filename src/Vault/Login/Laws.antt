-- ===== src/Vault/Login/Laws.antt =====
-- vault/login.go: what the credentials are behind a login.
use goldfish.Prelude.{Bool, ◌≡◌, refl, String, ◌==◌, Option, List, ◌∷◌, eq_iff, if◌then◌else◌}
use goldfish.Json.{Dict}
use goldfish.Types.{AuthInfo}
use goldfish.World.{World, Client, Call, Effect, connect, vault}
use goldfish.Exec.{State, done, Exec, ◌>>=◌, ◌>>◌, pure, leave, gets, modify, perform}
use goldfish.Exec.Keeps.{Keeps, Keeps-perform, keeps_rules}
use goldfish.Exec.Ends.{
  Anything, nothing_needed, Ends-weaken, Ends, Ends-pure, Ends-leave, Ends-if, Ends-either,
  Ends-bind, Ends-bind_Ends, Ends-bind_gets,
}
use goldfish.Vault.Clients.{set_token, call, new_vault_client}
use goldfish.Vault.Login.{exchange, login_token, login_password, login_github, login_by, login}

-- The credentials are a token, the one that Vault looked up last.
pub record IsLoggedIn (s : State) : Type 0 where
  pub is_token : s.auth.type ≡ "token"
  pub client : Client
  pub earlier : List Effect
  pub is_last : s.trace ≡ vault client Call.lookup_self ∷ earlier
  pub same_token : client.token ≡ s.auth.id

abbrev HasAuth : AuthInfo → State → Type 0
HasAuth auth s = s.auth ≡ auth

module _ ⦃w : World⦄ where
  -- the state behind a call
  abbrev Called : (State → Type 0) → Client → (q : Call) → State → Type 0
  Called P c q s =
      (before : State) × P before × (s ≡ record before { trace = vault c q ∷ before.trace })

  called : (P : State → Type 0) (c : Client) (q : Call) → Ends P (λ _. Called P c q) (call c q)
  unfolding call perform
  called P c q = record { at = λ s a p h. (s, p, refl) }

  token_logs_in :
      (c : Client) (auth : AuthInfo)
      → auth.type ≡ "token"
      → Ends (HasAuth auth) (λ _. IsLoggedIn) (login_token c auth)
  unfolding login_token
  token_logs_in c auth h =
      Ends-bind_Ends _ _ _ (called (HasAuth auth) (set_token c auth.id) Call.lookup_self) λ found.
        Ends-pure _ λ s (before, e, q). record {
          is_token = rw (q, e) h;
          client = set_token c auth.id;
          earlier = before.trace;
          is_last = rw (q) refl;
          same_token = rw (q, e) refl;
        }

  -- the lookup is the last step of the exchange
  abbrev Exchanged : Client → String × Option Dict → State → Type 0
  Exchanged c issued s =
      (t : List Effect) × (s.trace ≡ vault (set_token c issued.0) Call.lookup_self ∷ t)

  exchange-lookup :
      (c : Client) (path : String) (body : Dict)
      → Ends Anything (Exchanged c) (exchange c path body)
  unfolding exchange
  exchange-lookup c path body = Ends-bind _ _ (nothing_needed _) λ resp.
      Ends-bind _ _ (nothing_needed _) λ secret. Ends-bind _ _ (nothing_needed _) λ token.
        Ends-bind_Ends _ _ _ (called Anything (set_token c token) Call.lookup_self)
          λ found. Ends-pure _ λ s (before, _, q). (before.trace, rw (q) refl)

  taken_over :
      (c : Client) (issued : String × Option Dict) (auth : AuthInfo → AuthInfo)
      → ((a : AuthInfo) → ((auth a).type ≡ "token") × ((auth a).id ≡ issued.0))
      → Ends
          (Exchanged c issued)
          (λ _. IsLoggedIn)
          (modify {E = String} (λ s. record s { auth = auth s.auth }) >> pure issued.1)
  unfolding modify ◌>>=◌ pure
  taken_over c issued auth h = record {
    at = λ s a (t, q) e. record {
      is_token = (h s.auth).0;
      client = set_token c issued.0;
      earlier = t;
      is_last = q;
      same_token = rw ((h s.auth).1) refl;
    };
  }

  password_logs_in :
      (path : String) (c : Client) (auth : AuthInfo)
      → Ends Anything (λ _. IsLoggedIn) (login_password path c auth)
  unfolding login_password
  password_logs_in path c auth = Ends-bind_Ends _ _ _ (exchange-lookup c _ _) λ issued.
      taken_over c issued (λ _. record { type = "token"; id = issued.0; pass = "" })
        (λ a. (refl, refl))

  github_logs_in :
      (c : Client) (auth : AuthInfo) → Ends Anything (λ _. IsLoggedIn) (login_github c auth)
  unfolding login_github
  github_logs_in c auth = Ends-bind_Ends _ _ _ (exchange-lookup c _ _) λ issued.
      taken_over c issued (λ a. record a { type = "token"; id = issued.0 }) (λ a. (refl, refl))

  switch_logs_in :
      (c : Client) (auth : AuthInfo) → Ends (HasAuth auth) (λ _. IsLoggedIn) (login_by c auth)
  unfolding login_by
  switch_logs_in c auth =
      let ldap = login_password "auth/ldap/login/" c auth in
      let userpass = login_password "auth/userpass/login/" c auth in
      let unknown : Exec String (Option Dict) = leave "Unsupported authentication type" in
      let ldap_or = if auth.type == "ldap" then ldap else unknown in
      let github_or = if auth.type == "github" then login_github c auth else ldap_or in
      Ends-if (auth.type == "token") _ (if auth.type == "userpass" then userpass else github_or)
        (λ h. token_logs_in c auth ((eq_iff _ _).0 h))
        (λ _. Ends-either (auth.type == "userpass") userpass github_or (by_password _) (
          Ends-either (auth.type == "github") (login_github c auth) ldap_or by_github
            (Ends-either (auth.type == "ldap") ldap unknown (by_password _) (Ends-leave _))))
    where
      by_password :
          (path : String) → Ends (HasAuth auth) (λ _. IsLoggedIn) (login_password path c auth)
      by_password path = Ends-weaken _ (password_logs_in path c auth)

      by_github : Ends (HasAuth auth) (λ _. IsLoggedIn) (login_github c auth)
      by_github = Ends-weaken _ (github_logs_in c auth)

  auth_kept : (auth : AuthInfo) → Keeps (HasAuth auth) new_vault_client
  unfolding new_vault_client
  auth_kept auth = search (keeps_rules, connecting) depth 8
    where
      connecting : (b : Bool) → Keeps (HasAuth auth) (perform (connect b))
      connecting b = Keeps-perform {P = HasAuth auth} (connect b) λ s h. h

  -- A login that returns no error, of any kind: the credentials are then of the kind "token", and
  -- Vault's last call was the lookup of the token that they hold.
  pub login-IsLoggedIn :
      (s : State) (d : Option Dict) → (login s).0 ≡ done d → IsLoggedIn (login s).1
  unfolding login
  login-IsLoggedIn s d h = logs_in.at s d refl h
    where
      logs_in :
          Ends
            (HasAuth s.auth)
            (λ _. IsLoggedIn)
            (new_vault_client >>= λ c. gets (λ t. t.auth) >>= λ auth. login_by c auth)
      logs_in =
          Ends-bind _ _ (auth_kept s.auth)
            λ c. Ends-bind_gets _ _ λ t e. rw (e) (switch_logs_in c s.auth)
