-- ===== src/Handlers/Transit.antt =====
-- handlers/transit.go
use goldfish.Prelude.{[], ◌∷◌, not, ◌==◌, pos}
use goldfish.Json.{str}
use goldfish.World.{World, Request}
use goldfish.Exec.{Exec, pure, gets, modify, require, ◌>>=◌, ◌>>◌}
use goldfish.Vault.Auth.{get_config}
use goldfish.Vault.Transit.{encrypt_transit, decrypt_transit}
use goldfish.Handlers.Responses.{Response, error_response, result_response, bad_request}
use goldfish.Handlers.Session.{enter, with_credentials, checked, send_csrf_token}

module _ ⦃w : World⦄ where
  -- `TransitInfo`
  unfoldable pub transit_info : Request → Exec Response Response
  transit_info r = with_credentials (do
    enter r
    conf ← get_config
    send_csrf_token r
    modify (λ s. record s { headers = ("UserTransitKey", conf.user_transit_key) ∷ s.headers })
    pure (record { status = pos 200; body = ("status", str "fetched") ∷ [] }))

  -- `EncryptString`
  unfoldable pub encrypt_string : Request → Exec Response Response
  encrypt_string r = with_credentials (do
    enter r
    auth ← gets (λ s. s.auth)
    require (not (r.form "plaintext" == ""))
        (error_response bad_request "Plaintext must not be empty")
    cipher ← checked (encrypt_transit auth (r.form "key") (r.form "plaintext"))
    pure (result_response (str cipher)))

  -- `DecryptString`
  unfoldable pub decrypt_string : Request → Exec Response Response
  decrypt_string r = with_credentials (do
    enter r
    auth ← gets (λ s. s.auth)
    require (not (r.form "cipher" == "")) (error_response bad_request "Cipher must not be empty")
    plaintext ← checked (decrypt_transit auth (r.form "key") (r.form "cipher"))
    pure (result_response (str plaintext)))
