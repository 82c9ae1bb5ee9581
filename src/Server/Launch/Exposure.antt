-- ===== src/Server/Launch/Exposure.antt =====
-- server.go: when the web server is reached without TLS.
use goldfish.Prelude.{
  ◌≡◌, ◌↔◌, refl, String, Bool, true, false, not, ◌&&◌, none, some, List, [], ◌∷◌, ◌++◌,
  if◌then◌else◌,
}
use mathlib.Core.List.{Memᴰ}
use goldfish.Config.{ListenerConfig}
use goldfish.Server.Launch.{
  Middleware, logger, recover, csrf, secure, https_redirect, http, auto_tls, tls, Web, no_files,
  web_of,
}

-- What a web server with this configuration of its listener exposes.
pub record IsExposed (disabled : Bool) (l : ListenerConfig) (web : Web) : Type 0 where
  pub plain : ((a : String) × (web.listen ≡ http a)) ↔ disabled ≡ true
  pub secure_cookie :
      (key : String) (b : Bool) → Memᴰ (csrf key b) web.middleware → b ≡ not disabled
  pub has_csrf : (key : String) × Memᴰ (csrf key (not disabled)) web.middleware
  pub has_headers : Memᴰ secure web.middleware ↔ disabled ≡ false
  pub redirects_to_tls : web.redirects ≡ true → (disabled ≡ false) × (l.tls_autoredirect ≡ true)
  pub fetches : (h : String) → web.host_policy ≡ some h ↔ (web.listen ≡ auto_tls) × (h ≡ l.address)
  pub has_files :
      (a c k : String) → web.listen ≡ tls a c k → (c ≡ l.tls_cert_file) × (k ≡ l.tls_key_file)

-- the set-up, with its two tests
abbrev setting_up : String → ListenerConfig → Bool → Bool → Web
setting_up key l disabled bare = record {
  middleware =
      (logger ∷ recover ∷ csrf key (not disabled) ∷ [])
      ++ (if disabled then [] else secure ∷ (if bare then https_redirect ∷ [] else []));
  redirects = not disabled && l.tls_autoredirect;
  host_policy = if not disabled && bare then some l.address else none;
  listen =
      if disabled
      then http l.address
      else if bare
      then auto_tls
      else tls l.address l.tls_cert_file l.tls_key_file;
}

csrf_of :
    (key k : String) (d b : Bool) (rest : List Middleware)
    → (Memᴰ (csrf k b) rest → ⊥)
    → Memᴰ (csrf k b) (logger ∷ recover ∷ csrf key d ∷ rest)
    → b ≡ d
csrf_of key k d b rest n (Memᴰ.head e) = cc
csrf_of key k d b rest n (Memᴰ.tail (Memᴰ.head e)) = cc
csrf_of key k d b rest n (Memᴰ.tail (Memᴰ.tail (Memᴰ.head e))) = cc
csrf_of key k d b rest n (Memᴰ.tail (Memᴰ.tail (Memᴰ.tail m))) = absurd (n m)

no_csrf : (k : String) (b : Bool) → Memᴰ (csrf k b) (secure ∷ https_redirect ∷ []) → ⊥
no_csrf k b (Memᴰ.head e) = cc
no_csrf k b (Memᴰ.tail (Memᴰ.head e)) = cc
no_csrf k b (Memᴰ.tail (Memᴰ.tail m)) = elim m [ ]

only_secure : (k : String) (b : Bool) → Memᴰ (csrf k b) (secure ∷ []) → ⊥
only_secure k b (Memᴰ.head e) = cc
only_secure k b (Memᴰ.tail m) = elim m [ ]

no_secure : (key : String) (d : Bool) → Memᴰ secure (logger ∷ recover ∷ csrf key d ∷ []) → ⊥
no_secure key d (Memᴰ.head e) = cc
no_secure key d (Memᴰ.tail (Memᴰ.head e)) = cc
no_secure key d (Memᴰ.tail (Memᴰ.tail (Memᴰ.head e))) = cc
no_secure key d (Memᴰ.tail (Memᴰ.tail (Memᴰ.tail m))) = elim m [ ]

setting_up-IsExposed :
    (key : String) (l : ListenerConfig) (disabled bare : Bool)
    → IsExposed disabled l (setting_up key l disabled bare)
setting_up-IsExposed key l true bare = record {
  plain = (λ h. refl, λ h. (l.address, refl));
  secure_cookie = λ k b m. csrf_of key k false b [] (λ h. elim h [ ]) m;
  has_csrf = (key, Memᴰ.tail (Memᴰ.tail (Memᴰ.head refl)));
  has_headers = (λ m. absurd (no_secure key false m), λ h. cc);
  redirects_to_tls = λ h. cc;
  fetches = λ h. (λ e. cc, λ (e, q). cc);
  has_files = λ a c k h. cc;
}
setting_up-IsExposed key l false true = record {
  plain = (λ (a, h). cc, λ h. cc);
  secure_cookie = λ k b m. csrf_of key k true b (secure ∷ https_redirect ∷ []) (no_csrf k b) m;
  has_csrf = (key, Memᴰ.tail (Memᴰ.tail (Memᴰ.head refl)));
  has_headers = (λ m. refl, λ h. Memᴰ.tail (Memᴰ.tail (Memᴰ.tail (Memᴰ.head refl))));
  redirects_to_tls = λ h. (refl, h);
  fetches = λ h. (λ e. (refl, cc), λ (e, q). cc);
  has_files = λ a c k h. cc;
}
setting_up-IsExposed key l false false = record {
  plain = (λ (a, h). cc, λ h. cc);
  secure_cookie = λ k b m. csrf_of key k true b (secure ∷ []) (only_secure k b) m;
  has_csrf = (key, Memᴰ.tail (Memᴰ.tail (Memᴰ.head refl)));
  has_headers = (λ m. refl, λ h. Memᴰ.tail (Memᴰ.tail (Memᴰ.tail (Memᴰ.head refl))));
  redirects_to_tls = λ h. (refl, h);
  fetches = λ h. (λ e. cc, λ (e, q). cc);
  has_files = λ a c k h. (cc, cc);
}

-- Of any listener's section: plain http is served exactly when TLS is disabled; the cookie of the CSRF
-- protection, which is always there, is for https only unless TLS is disabled; the security headers are
-- set exactly when TLS is on; port 80 is redirected only with TLS on and the redirect asked for;
-- certificates are fetched for the listener's address alone, exactly when the server uses them; and
-- the files of a certificate are those of the section.
pub web_of-IsExposed :
    (key : String) (l : ListenerConfig) → IsExposed l.tls_disable l (web_of key l)
unfolding web_of
web_of-IsExposed key l = setting_up-IsExposed key l l.tls_disable (no_files l)
