-- ===== src/Handlers/Accounts.antt =====
-- handlers/handlers.go: logging in, renewing, and the routes that need no session. Also
-- handlers/bulletins.go.
pub mod Cookie
use goldfish.Prelude.{String, Option, none, some, [], ◌∷◌, not, ◌||◌, ◌==◌, map, pos}
use goldfish.Json.{Value, null, str, num, arr, values, Dict, object, get}
use goldfish.World.{World, Request, SecretAuth}
use goldfish.Exec.{State, Exec, pure, gets, modify, deref, require, lift, on_error, ◌>>=◌, ◌>>◌}
use goldfish.Vault.Auth.{encrypt_auth}
use goldfish.Vault.Login.{login, renew_self}
use goldfish.Vault.Helper.{vault_health}
use goldfish.Vault.Users.{from_map}
use goldfish.Vault.Bulletins.{get_bulletins}
use goldfish.Handlers.Responses.{
  Response, error_response, result_response, bad_request, internal_error,
}
use goldfish.Handlers.Session.{enter, with_credentials, checked, send_csrf_token}

abbrev pub status_response : String → Response
status_response text = record { status = pos 200; body = ("status", str text) ∷ [] }

-- an entry of a map that is shown as it is: null if it is missing
abbrev pub shown : Option Dict → String → Value
shown m key = elim (get m key) [ none ↦ null | some v ↦ v ]

abbrev pub logged_in : Option Dict → Response
logged_in m = record {
  status = pos 200;
  body =
      ("status", str "Logged in")
      ∷ (
        "data",
        object (
            ("display_name", shown m "display_name")
            ∷ ("id", shown m "id")
            ∷ ("meta", shown m "meta")
            ∷ ("policies", shown m "policies")
            ∷ ("renewable", shown m "renewable")
            ∷ ("ttl", shown m "ttl")
            ∷ []),
      )
      ∷ [];
}

abbrev pub renewed : SecretAuth → Response
renewed auth = record {
  status = pos 200;
  body =
      (
        "data",
        object (
            ("meta", auth.metadata)
            ∷ ("policies", arr (values (map str auth.policies)))
            ∷ ("ttl", num auth.lease_duration)
            ∷ []),
      )
      ∷ [];
}

-- `http.SetCookie` of the cookie `auth`
abbrev pub set_cookie : String → State → State
set_cookie encoded s = record s { headers = ("Set-Cookie", encoded) ∷ s.headers }

module _ ⦃w : World⦄ where
  -- `FetchCSRF`
  unfoldable pub fetch_csrf : Request → Exec Response Response
  fetch_csrf r = do send_csrf_token r; pure (status_response "fetched")

  -- `VaultHealth`
  unfoldable pub health : Request → Exec Response Response
  health r = do resp ← checked vault_health; pure (result_response (str resp))

  -- `c.Bind(auth)`
  unfoldable pub bind_auth : Request → Exec Response Unit
  bind_auth r = do
    auth ← on_error (λ _. error_response bad_request "Invalid auth format") (lift r.bind_auth)
    modify (λ s. record s { auth = auth })

  -- the encrypted credentials go into the cookie
  unfoldable pub store_session : Exec Response Unit
  store_session = do
    on_error (λ _. error_response internal_error "Goldfish could not use transit key") encrypt_auth
    auth ← gets (λ s. s.auth)
    now ← gets (λ s. w.unix_time s.trace)
    encoded ←
        on_error (λ _. error_response internal_error "Goldfish could not encode cookie")
          (lift (w.encode_cookie now auth))
    modify (set_cookie encoded)

  -- `Login`
  unfoldable pub log_in : Request → Exec Response Response
  log_in r = with_credentials (do
    bind_auth r
    auth ← gets (λ s. s.auth)
    require (not (auth.type == "" || auth.id == ""))
        (error_response bad_request "Empty authentication")
    found ← checked login
    store_session
    pure (logged_in found))

  -- `RenewSelf`
  unfoldable pub renew : Request → Exec Response Response
  renew r = with_credentials (do
    enter r
    auth ← gets (λ s. s.auth)
    resp ← checked (renew_self auth)
    renewal ← deref resp.auth
    pure (renewed renewal))

  -- `GetBulletins`
  unfoldable pub bulletins : Request → Exec Response Response
  bulletins r = with_credentials (do
    enter r
    auth ← gets (λ s. s.auth)
    found ← checked (get_bulletins auth)
    pure (result_response (arr (values (map from_map found)))))
