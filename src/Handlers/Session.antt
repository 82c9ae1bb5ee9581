-- ===== src/Handlers/Session.antt =====
-- handlers/handlers.go, `getSession`, and what nearly every handler begins with.
pub mod Laws
use goldfish.Prelude.{String, ℤ, pos, Option, none, some, ◌∷◌}
use goldfish.Types.{AuthInfo}
use goldfish.World.{World, Request}
use goldfish.Exec.{Exec, leave, gets, modify, lift, on_error, defer, ◌>>=◌, ◌>>◌}
use goldfish.Vault.Auth.{no_credentials, clear, decrypt_auth}
use goldfish.Handlers.Responses.{Response, error_response, forbidden, parse_error}

abbrev pub login_first : Response
login_first = error_response forbidden "Please login first"

-- `scookie.MaxAge(14400)`, in seconds
abbrev pub cookie_max_age : ℤ
cookie_max_age = pos 14400

module _ ⦃w : World⦄ where
  -- the cookie `auth` of the request, decoded
  abbrev pub decode_session : Option String → Exec String AuthInfo
  decode_session none = leave "http: named cookie not present"
  decode_session (some value) = do
    now ← gets (λ s. w.unix_time s.trace)
    lift (w.decode_cookie cookie_max_age now value)

  -- `getSession`, which decodes into the variable `auth`
  unfoldable pub get_session : Request → Exec String Unit
  unfolding leave lift
  get_session r = do auth ← decode_session r.cookie; modify (λ s. record s { auth = auth })

  -- The two tests that come first in the handlers.
  unfoldable pub enter : Request → Exec Response Unit
  enter r = do on_error (λ _. login_first) (get_session r); on_error parse_error decrypt_auth

  -- `var auth = &vault.AuthInfo{}; defer auth.Clear()`
  unfoldable pub with_credentials : Exec Response Response → Exec Response Response
  with_credentials body = defer clear (do modify (λ s. record s { auth = no_credentials }); body)

  -- `if err != nil { return parseError(c, err) }` behind a call
  abbrev pub checked : {A : Type 0} → Exec String A → Exec Response A
  checked m = on_error parse_error m

  -- `c.Response().Writer.Header().Set("X-CSRF-Token", csrf.Token(c.Request()))`
  unfoldable pub send_csrf_token : Request → Exec Response Unit
  send_csrf_token r =
      modify (λ s. record s { headers = ("X-CSRF-Token", w.csrf_token r) ∷ s.headers })
