-- ===== src/Handlers/Accounts/Cookie.antt =====
-- handlers/handlers.go: the cookie that `Login` sets, and the next request that carries it.
use goldfish.Prelude.{
  sym, ℕ, pos, ◌+◌, ◌≤◌, ◌≡◌, ◌∙◌, refl, ap, String, ◌==◌, Option, none, some, List, [], ◌∷◌,
  if◌then◌else◌,
}
use goldfish.Types.{AuthInfo}
use goldfish.World.{World, Request, ok}
use goldfish.Exec.{State, done, modify, gets, lift, on_error, ◌>>=◌}
use goldfish.Exec.Runs.{Returns, from_first, Returns-lift, Returns-modify, Returns-on_error}
use goldfish.Vault.Auth.{encrypt_auth}
use goldfish.Vault.Transit.Laws.{DecodesBase64, IsTransit, encrypt_auth-decrypt_auth}
use goldfish.Handlers.Session.{cookie_max_age, get_session, enter}
use goldfish.Handlers.Accounts.{set_cookie, store_session}

-- The cookie that a browser takes from a response's headers.
abbrev pub cookie_of : List (String × String) → Option String
cookie_of [] = none
cookie_of ((name, value) ∷ headers) =
    let rest = cookie_of headers in if name == "Set-Cookie" then some value else rest

module _ ⦃w : World⦄ where
  -- What is documented of the cookie's library: it decodes what it encoded, up to the maximal age.
  -- Times are seconds since 1970.
  abbrev pub DecodesCookies : Type 0
  DecodesCookies =
      (auth : AuthInfo) (text : String) (age made now : ℕ)
      → w.encode_cookie (pos made) auth ≡ ok text
      → now ≤ made + age
      → w.decode_cookie (pos age) (pos now) text ≡ ok auth

  stores :
      (s s1 : State)
      → Returns store_session s tt s1
      → (text : String) × (w.encode_cookie
            (w.unix_time (encrypt_auth s).1.trace)
            (encrypt_auth s).1.auth
          ≡ ok text)
        × (cookie_of s1.headers ≡ some text)
  unfolding store_session gets ◌>>=◌
  stores s s1 h = from_first (on_error _ encrypt_auth) _ s tt s1 h λ u sa ha h1.
      from_first (on_error _ (lift (w.encode_cookie (w.unix_time sa.trace) sa.auth))) _ sa tt s1 h1
        λ text sb hb h2.
          let is_sa : (encrypt_auth s).1 ≡ sa =
            ap (λ x. x.1) (Returns-on_error _ encrypt_auth s u sa ha) in
          let (e, q) = Returns-lift _ text sa sb (Returns-on_error _ _ sa text sb hb) in
          let set = Returns-modify (set_cookie text) tt sb s1 h2 in
          (
            text,
            ap (λ (x : State). w.encode_cookie (w.unix_time x.trace) x.auth) is_sa ∙ e,
            ap (λ x. cookie_of x.headers) set,
          )

  session :
      (r : Request) (later : State) (auth : AuthInfo) (text : String)
      → r.cookie ≡ some text
      → w.decode_cookie cookie_max_age (w.unix_time later.trace) text ≡ ok auth
      → get_session r later ≡ (done tt, record later { auth = auth })
  unfolding get_session lift gets modify ◌>>=◌
  session r later auth text c d = rw (c, d) refl

  -- A login's session. If Vault's transit backend answers, base64 and the cookie's library decode what
  -- they encoded, the latter up to the cookie's age, and the session was stored without an error: a
  -- request that carries the cookie of this response to the same server at most 14400 seconds after
  -- it was made is let in, and its credentials are those of the user who logged in.
  pub store_session-enter :
      (s s1 later : State) (r : Request) (made now : ℕ)
      → DecodesBase64
      → DecodesCookies
      → IsTransit s.server.vault_client s.server.config.transit_backend
          s.server.config.server_transit_key
      → Returns store_session s tt s1
      → later.server ≡ s.server
      → r.cookie ≡ cookie_of s1.headers
      → w.unix_time (encrypt_auth s).1.trace ≡ pos made
      → w.unix_time later.trace ≡ pos now
      → now ≤ made + 14400
      → ((enter r later).0 ≡ done tt) × ((enter r later).1.auth ≡ s.auth)
  unfolding enter on_error ◌>>=◌
  store_session-enter s s1 later r made now b d t h same c m n young =
      let (text, e, k) = stores s s1 h in
      let auth = (encrypt_auth s).1.auth in
      let at_door : State = record later { auth = auth } in
      let encoded = ap (λ x. w.encode_cookie x auth) (sym m) ∙ e in
      let decoded =
        ap (λ x. w.decode_cookie cookie_max_age x text) n
        ∙ d auth text 14400 made now encoded young in
      let entered = session r later auth text (c ∙ k) decoded in
      let (x, y, z) = encrypt_auth-decrypt_auth s at_door b t same refl in rw (entered, y) (refl, z)
