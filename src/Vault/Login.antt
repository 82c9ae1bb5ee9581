-- ===== src/Vault/Login.antt =====
-- vault/login.go. `Login` changes the variable `auth` of the handler.
pub mod Laws
use goldfish.Prelude.{String, ◌<>◌, Option, none, some, [], ◌∷◌, ◌==◌, if◌then◌else◌}
use goldfish.Json.{Dict, str}
use goldfish.Types.{AuthInfo}
use goldfish.World.{World, Client, Secret, write}
use goldfish.World.{Call}
use goldfish.Exec.{Exec, pure, leave, gets, modify, deref, ◌>>=◌, ◌>>◌}
use goldfish.Vault.Clients.{set_token, new_vault_client, client, call}

-- `resp.Auth == nil || resp.Auth.ClientToken == ""`
abbrev pub client_token : Secret → Option String
client_token secret = elim secret.auth [
  | none ↦ none
  | some a ↦ if a.client_token == "" then none else some a.client_token
]

abbrev pub token_or_error : Option String → Exec String String
token_or_error none = leave "Unable to parse vault response"
token_or_error (some t) = pure t

module _ ⦃w : World⦄ where
  -- The part that the three kinds of login share: a login with no token, and a lookup of the token
  -- that it returns.
  unfoldable pub exchange : Client → String → Dict → Exec String (String × Option Dict)
  unfolding leave pure
  exchange c path body = do
    resp ← call (set_token c "") (write path (some body))
    secret ← deref resp
    token ← token_or_error (client_token secret)
    found ← call (set_token c token) Call.lookup_self
    pure (token, found.data_map)

  -- the cases of the switch
  unfoldable pub login_token : Client → AuthInfo → Exec String (Option Dict)
  login_token c auth = do found ← call (set_token c auth.id) Call.lookup_self; pure found.data_map

  unfoldable pub login_password : String → Client → AuthInfo → Exec String (Option Dict)
  login_password path c auth = do
    issued ← exchange c (path <> auth.id) (("password", str auth.pass) ∷ [])
    modify (λ s. record s { auth = record { type = "token"; id = issued.0; pass = "" } })
    pure issued.1

  unfoldable pub login_github : Client → AuthInfo → Exec String (Option Dict)
  login_github c auth = do
    issued ← exchange c "auth/github/login" (("token", str auth.id) ∷ [])
    modify (λ s. record s { auth = record s.auth { type = "token"; id = issued.0 } })
    pure issued.1

  -- the switch on the kind of login
  unfoldable pub login_by : Client → AuthInfo → Exec String (Option Dict)
  unfolding leave
  login_by c auth =
      if auth.type == "token"
      then login_token c auth
      else if auth.type == "userpass"
      then login_password "auth/userpass/login/" c auth
      else if auth.type == "github"
      then login_github c auth
      else if auth.type == "ldap"
      then login_password "auth/ldap/login/" c auth
      else leave "Unsupported authentication type"

  -- `Login`
  unfoldable pub login : Exec String (Option Dict)
  login = do c ← new_vault_client; auth ← gets (λ s. s.auth); login_by c auth

  -- `RenewSelf`
  unfoldable pub renew_self : AuthInfo → Exec String Secret
  renew_self auth = do c ← client auth; call c Call.renew_self

  -- `LookupSelf`
  unfoldable pub lookup_self : AuthInfo → Exec String Secret
  lookup_self auth = do c ← client auth; call c Call.lookup_self
