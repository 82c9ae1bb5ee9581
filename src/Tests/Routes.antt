-- ===== src/Tests/Routes.antt =====
-- Runs of routes, and of the login.
use goldfish.Prelude.{
  arith, ◌≡◌, refl, ◌∙◌, sym, ap, inl, inr, eq_iff, String, ◌==◌, Bool, true, false, ◌&&◌, none,
  some, [], ◌∷◌,
}
use goldfish.Prelude.Lists.{Bool-cases}
use goldfish.Types.{AuthInfo}
use goldfish.World.{World, Result, ok, err, vault, write}
use goldfish.Json.{str, get, lookup}
use goldfish.Exec.{State, done, gets, pure, deref, expect, lift, on_error, modify, perform, ◌>>=◌}
use goldfish.Exec.Runs.{Returns}
use goldfish.Vault.Clients.{new_vault_client, call}
use goldfish.Vault.Auth.{get_config, no_credentials, encrypt_auth, decrypt_auth}
use goldfish.Vault.Login.{login, login_by, login_github, exchange}
use goldfish.Vault.Login.Laws.{IsLoggedIn, login-IsLoggedIn}
use goldfish.Vault.Transit.{encrypt_transit, decrypt_transit}
use goldfish.Vault.Transit.Laws.{
  user_client, encrypt_transit-decrypt_transit, IsTransit, encrypt_auth-decrypt_auth,
}
use goldfish.Handlers.Session.{enter}
use goldfish.Handlers.Accounts.{store_session}
use goldfish.Handlers.Accounts.Cookie.{DecodesCookies, store_session-enter}
use goldfish.Server.{Route, serve}
use goldfish.Server.Access.{denial, left, serve_rejected}
use goldfish.Server.Cleared.{serve-clears}
use goldfish.Trust.Calls.{IsTrusted}
use goldfish.Trust.Routes.{user_token}
use goldfish.Trust.Serve.{serve-IsTrusted}
use goldfish.Tests.Sample.{sample, secret, running, visit, user}

serve_rejected_example :
    serve ⦃w = sample 0⦄ Route.get_users (visit none) running
    ≡ (some (denial Route.get_users (visit none)), left running)
serve_rejected_example =
    serve_rejected ⦃w = sample 0⦄ Route.get_users (visit none) running refl refl

serve-IsTrusted_example :
    IsTrusted ⦃w = sample 0⦄ running
      (user_token ⦃w = sample 0⦄ (visit (some "c")) running)
      (serve ⦃w = sample 0⦄ Route.get_policy (visit (some "c")) running).1
serve-IsTrusted_example =
    serve-IsTrusted ⦃w = sample 0⦄ Route.get_policy (visit (some "c")) running refl

serve-clears_example :
    (serve ⦃w = sample 0⦄ Route.get_mounts (visit (some "c")) running).1.auth ≡ no_credentials
serve-clears_example = serve-clears ⦃w = sample 0⦄ Route.get_mounts (visit (some "c")) running refl

abbrev entering : State
entering = record running { auth = record { type = "github"; id = "personal"; pass = "" } }

login_ends :
    (login ⦃w = sample 0⦄ entering).0
    ≡ done (some (("display_name", str "alice") ∷ ("accessor", str "acc") ∷ []))
unfolding login login_by login_github exchange new_vault_client call perform ◌>>=◌ gets pure deref
    modify
login_ends = refl

login-IsLoggedIn_example : IsLoggedIn (login ⦃w = sample 0⦄ entering).1
login-IsLoggedIn_example = login-IsLoggedIn ⦃w = sample 0⦄ entering _ login_ends

-- the sample world with another cookie's library
abbrev with_cookies : (AuthInfo → Result String) → World
with_cookies encode = record (sample 0) { encode_cookie = λ t auth. encode auth }

transit :
    (encode : AuthInfo → Result String)
    → IsTransit ⦃w = with_cookies encode⦄ running.server.vault_client "transit" "goldfish"
unfolding get lookup
transit encode = record {
  seal = λ text. text;
  sealed = λ text. secret (("ciphertext", str text) ∷ ("plaintext", str text) ∷ []);
  opened = λ text. secret (("ciphertext", str text) ∷ ("plaintext", str text) ∷ []);
  encrypts = λ t text. refl;
  has_cipher = λ text. refl;
  decrypts = λ t text. refl;
  has_text = λ text. refl;
}

-- the cookie's credentials, in a later request
abbrev later : State
later = record running { auth = (encrypt_auth ⦃w = sample 0⦄ running).1.auth }

encrypt_auth-decrypt_auth_example :
    ((encrypt_auth ⦃w = sample 0⦄ running).0 ≡ done tt)
    × ((decrypt_auth ⦃w = sample 0⦄ later).0 ≡ done tt)
    × ((decrypt_auth ⦃w = sample 0⦄ later).1.auth ≡ user)
encrypt_auth-decrypt_auth_example =
    encrypt_auth-decrypt_auth ⦃w = sample 0⦄ running later (λ text. refl) (transit _) refl refl

user_transit : IsTransit ⦃w = sample 0⦄ (user_client ⦃w = sample 0⦄ running user) "transit" "k"
unfolding get lookup
user_transit = record {
  seal = λ text. text;
  sealed = λ text. secret (("ciphertext", str text) ∷ ("plaintext", str text) ∷ []);
  opened = λ text. secret (("ciphertext", str text) ∷ ("plaintext", str text) ∷ []);
  encrypts = λ t text. refl;
  has_cipher = λ text. refl;
  decrypts = λ t text. refl;
  has_text = λ text. refl;
}

encrypt_transit-decrypt_transit_example :
    ((encrypt_transit ⦃w = sample 0⦄ user "k" "text" running).0 ≡ done "text")
    × ((decrypt_transit ⦃w = sample 0⦄ user "k" "text" running).0 ≡ done "text")
unfolding user_transit
encrypt_transit-decrypt_transit_example =
    encrypt_transit-decrypt_transit ⦃w = sample 0⦄ user "k" "text" running running (λ text. refl)
      (λ t. refl, λ t. (_, refl)) refl user_transit refl

-- a cookie's library that encodes the credentials of one user
abbrev known : AuthInfo → Bool
known auth = auth.type == "token" && auth.id == "user-token" && auth.pass == ""

abbrev encode : Bool → Result String
encode true = ok "cookie"
encode false = err "unknown user"

abbrev encode_known : AuthInfo → Result String
encode_known auth = encode (known auth)

abbrev keeping : World
keeping = with_cookies encode_known

both : (a b : Bool) → (a && b) ≡ true → (a ≡ true) × (b ≡ true)
both true b h = (refl, h)
both false b h = cc

known_is : (auth : AuthInfo) → known auth ≡ true → user ≡ auth
known_is auth h =
    let (r, e) = both _ _ h in
    let (t, i) = both _ _ r in
    let same_type : auth.type ≡ user.type = (eq_iff _ _).0 t in
    let same_id : auth.id ≡ user.id = (eq_iff _ _).0 i in
    let same_pass : auth.pass ≡ user.pass = (eq_iff _ _).0 e in
    let same : auth ≡ user =
      λ k. record { type = same_type k; id = same_id k; pass = same_pass k } in
    sym same

decodes : DecodesCookies ⦃w = keeping⦄
decodes auth text age made now h young = elim (Bool-cases (known auth)) [
  | inl e ↦ ap ok (known_is auth e)
  | inr e ↦ let refused : err "unknown user" ≡ ok text = ap encode (sym e) ∙ h in cc
]

abbrev stored : State
stored = record later {
  headers = ("Set-Cookie", "cookie") ∷ [];
  trace =
      vault running.server.vault_client
        (write "transit/encrypt/goldfish" (some (("plaintext", str "user-token") ∷ [])))
      ∷ [];
}

stores : Returns (store_session ⦃w = keeping⦄) running tt stored
unfolding store_session ◌>>=◌ on_error encrypt_auth get_config gets call perform deref expect get
    modify lift
stores = refl

store_session-enter_example :
    ((enter ⦃w = keeping⦄ (visit (some "cookie")) running).0 ≡ done tt)
    × ((enter ⦃w = keeping⦄ (visit (some "cookie")) running).1.auth ≡ user)
store_session-enter_example =
    store_session-enter ⦃w = keeping⦄ running stored running (visit (some "cookie")) 0 0
      (λ text. refl) decodes (transit _) stores refl refl refl refl (omega arith)
