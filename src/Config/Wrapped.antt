-- ===== src/Config/Wrapped.antt =====
-- config/dev.go and `LoadConfigDev` of config/config.go: what the start of development mode returns.
use goldfish.Prelude.{
  ◌≡◌, ◌≢◌, ◌∙◌, refl, sym, ap, inl, inr, String, true, not, ◌==◌, Option, none, some, [], ◌∷◌,
  ◌++◌,
}
use mathlib.Core.Path.{subst}
use mathlib.Core.List.{append-nil}
use goldfish.World.{World, Client, Call, Secret, ok, connect, vault, start_vault}
use goldfish.Exec.{State, done, exit, pure, try, perform, lift, ◌>>=◌}
use goldfish.Exec.Runs.{
  Returns, performed, from_first, Returns-pure, Returns-deref, Returns-expect, Returns-require,
  Returns-lift, Returns-try, Returns-perform,
}
use goldfish.Vault.Clients.{set_token, set_wrapping, call}
use goldfish.Config.{Config, VaultConfig, Library, Url}
use goldfish.Config.Dev.{
  dev_address, dev_arguments, dev_config, wrapping_token, set_address, setup_vault,
  secret_id_client, generate_wrapped_secret_id, init_dev_vault_core, load_config_dev,
}
use goldfish.Config.Setup.{
  setup_calls, effects, root_of, connected, setup_vault-InOrder, answer-cases,
}

abbrev pub secret_id_call : Call
secret_id_call = Call.write "auth/approle/role/goldfish/secret-id" (some [])

wrapping_token-some :
    (o : Option Secret) (id : String)
    → wrapping_token o ≡ some id
    → (secret : Secret) × (o ≡ some secret) × (secret.wrap_token ≡ some id)
wrapping_token-some none id h = cc
wrapping_token-some (some secret) id h = (secret, refl, h)

not_empty : (id : String) → not (id == "") ≡ true → id ≢ ""
not_empty id h e = let r : not ("" == "") ≡ true = subst (λ x. not (x == "") ≡ true) e h in cc

module _ ⦃w : World⦄ ⦃lib : Library⦄ where
  abbrev pub wrapping_client : Url → String → Client
  wrapping_client url token = set_wrapping (root_of url token) "5m"

  -- `id` is the token under which Vault wrapped the answer to a call for a secret id, by a client
  -- that has all answers wrapped for five minutes.
  pub record IsWrapped (v : VaultConfig) (token : String) (s : State) (id : String) (s' : State)
      : Type 0 where
    pub not_empty : id ≢ ""
    pub url : Url
    pub is_url : lib.parse_url v.address ≡ ok url
    pub secret : Secret
    pub answered :
        w.answer (connected s).trace (vault (wrapping_client url token) secret_id_call)
        ≡ ok (some secret)
    pub is_token : secret.wrap_token ≡ some id
    pub final : s' ≡ record s {
      trace = vault (wrapping_client url token) secret_id_call ∷ (connected s).trace;
    }

  set_address-Returns :
      (c : Client) (addr : String) (s : State) (d : Client) (s' : State)
      → Returns (set_address c addr) s d s'
      → (url : Url) × (lib.parse_url addr ≡ ok url)
        × (record c { address = url.text } ≡ d)
        × (s' ≡ s)
  unfolding set_address
  set_address-Returns c addr s d s' h = from_first _ _ s d s' h λ url s1 hu h1.
      let (p, q) = Returns-lift _ url s s1 hu in
      let (e, q1) = Returns-pure _ d s1 s' h1 in (url, p, e, q1 ∙ q)

  secret_id_client-Returns :
      (v : VaultConfig) (token : String) (s : State) (c : Client) (s' : State)
      → Returns (secret_id_client v token) s c s'
      → (url : Url) × (lib.parse_url v.address ≡ ok url)
        × (wrapping_client url token ≡ c)
        × (s' ≡ connected s)
  unfolding secret_id_client
  secret_id_client-Returns v token s c s' h = from_first _ _ s c s' h λ made s1 hm h1.
      from_first _ _ s1 c s' h1 λ u s2 hd h2. from_first _ _ s2 c s' h2 λ d s3 ha h3.
        let (m, q2) = Returns-deref made u s1 s2 hd in
        let (a, q1) = Returns-perform _ s u s1 (
          Returns-try _ s u s1 (
            subst
              (λ o.
                Returns (try {F = String} (perform (connect lib.default_client.skip_tls))) s o s1)
              m hm)) in
        let (url, p, e, q3) = set_address-Returns _ _ s2 d s3 ha in
        let (f, q4) = Returns-pure _ c s3 s' h3 in
        (url, p, ap (λ x. set_wrapping (set_token x token) "5m") e ∙ f, q4 ∙ q3 ∙ q2 ∙ q1)

  generate_wrapped_secret_id-IsWrapped :
      (v : VaultConfig) (token : String) (s : State) (id : String) (s' : State)
      → Returns (generate_wrapped_secret_id v token) s id s'
      → IsWrapped v token s id s'
  unfolding generate_wrapped_secret_id call
  generate_wrapped_secret_id-IsWrapped v token s id s' h = from_first _ _ s id s' h λ c s1 hc h1.
      from_first _ _ s1 id s' h1 λ resp s2 hr h2. from_first _ _ s2 id s' h2 λ t s3 ht h3.
        from_first _ _ s3 id s' h3 λ u s4 hu h4.
          let (url, is_url, ec, q1) = secret_id_client-Returns v token s c s1 hc in
          let (a, q2) = Returns-perform (vault c secret_id_call) s1 resp s2 hr in
          let (et, q3) = Returns-expect _ _ t s2 s3 ht in
          let (ne, q4) = Returns-require _ _ u s3 s4 hu in
          let (ei, q5) = Returns-pure t id s4 s' h4 in
          let (secret, er, ew) = wrapping_token-some resp t et in
          record {
            not_empty = not_empty id (subst (λ x. not (x == "") ≡ true) ei ne);
            url = url;
            is_url = is_url;
            secret = secret;
            answered =
                subst
                  (λ d. w.answer (connected s).trace (vault d secret_id_call) ≡ ok (some secret))
                  (sym ec)
                  (subst (λ x. w.answer x.trace (vault c secret_id_call) ≡ ok (some secret)) q1
                    (a ∙ ap ok er));
            is_token = ew ∙ ap some ei;
            final =
                q5
                ∙ q4
                ∙ q3
                ∙ q2
                ∙ ap (performed (vault c secret_id_call)) q1
                ∙ ap (λ d. performed (vault d secret_id_call) (connected s)) (sym ec);
          }

  -- the state behind a set-up that has made all its calls
  abbrev pub set_up_state : Url → State → State
  set_up_state url s =
      let s0 = performed (start_vault dev_arguments) s in
      record s { trace = effects (root_of url "goldfish") setup_calls (connected s0).trace }

  -- Development mode has started Vault, made all calls of its set-up as root, and returned its
  -- configuration with a wrapped secret id.
  pub record IsDevelopment (s : State) (c : Config) (id : String) (s' : State) : Type 0 where
    pub url : Url
    pub is_url : lib.parse_url dev_address ≡ ok url
    pub config : c ≡ dev_config url.text
    pub wrapped : IsWrapped (dev_config url.text).vault "goldfish" (set_up_state url s) id s'

  init_dev_vault_core-trace :
      (s : State) → (init_dev_vault_core s).1 ≡ performed (start_vault dev_arguments) s
  unfolding init_dev_vault_core try perform pure ◌>>=◌
  init_dev_vault_core-trace s = elim (answer-cases (w.answer s.trace (start_vault dev_arguments))) [
    | inl (a, e) ↦ rw (e) refl
    | inr (x, e) ↦ rw (e) refl
  ]

  setup_vault-Returns :
      (addr token : String) (url : Url) (s : State) (u : Unit) (s' : State)
      → lib.parse_url addr ≡ ok url
      → Returns (setup_vault addr token) s u s'
      → s' ≡ record s { trace = effects (root_of url token) setup_calls (connected s).trace }
  setup_vault-Returns addr token url s u s' h r = elim (setup_vault-InOrder addr token url s h) [
    | inl (e, q, f, g) ↦ let bad : done tt ≡ exit e = sym (ap (λ p. p.0) r) ∙ q in cc
    | inr i ↦
        let none_left : i.rest ≡ [] = i.all_made (ap (λ p. p.0) r) in
        let all : i.made ≡ setup_calls =
          sym (i.split ∙ ap (λ x. i.made ++ x) none_left ∙ append-nil i.made) in
        sym (ap (λ p. p.1) r)
        ∙ i.final
        ∙ ap (λ qs. record s { trace = effects (root_of url token) qs (connected s).trace }) all
  ]

  -- When `LoadConfigDev` returns no error: Vault was started, and all calls of the set-up were made
  -- as root, in their order, before the call for the secret id; the configuration is that of
  -- development at Vault's address; and the returned text is not empty, and is the wrapping token of
  -- Vault's answer, never the secret id itself.
  pub load_config_dev-IsDevelopment :
      (s : State) (c : Config) (id : String) (s' : State)
      → Returns load_config_dev s (c, id) s'
      → IsDevelopment s c id s'
  unfolding load_config_dev
  load_config_dev-IsDevelopment s c id s' h =
      from_first _ _ s (c, id) s' h
        λ u s1 hi h1.
          from_first _ _ s1 (c, id) s' h1
            λ u2 s2 hs h2.
              from_first _ _ s2 (c, id) s' h2
                λ p s3 hp h3.
                  from_first _ _ s3 (c, id) s' h3
                    λ url s4 hd h4.
                      from_first _ _ s4 (c, id) s' h4
                        λ t s5 hg h5.
                          let (ep, q4) = Returns-deref p url s3 s4 hd in
                          let (is_url, q3) = Returns-lift _ url s2 s3 (
                            Returns-try _ s2 url s3 (
                              subst
                                (λ o.
                                  Returns (try {F = String} (lift (lib.parse_url dev_address))) s2 o
                                    s3)
                                ep hp)) in
                          let q2 =
                            setup_vault-Returns dev_address "goldfish" url s1 u2 s2 is_url hs in
                          let q1 : s1 ≡ performed (start_vault dev_arguments) s =
                            sym (ap (λ p. p.1) hi) ∙ init_dev_vault_core-trace s in
                          let (ec, q6) = Returns-pure _ (c, id) s5 s' h5 in
                          let made_all : State → State = λ x. record x {
                            trace =
                                effects (root_of url "goldfish") setup_calls (connected x).trace;
                          } in
                          let q : s4 ≡ set_up_state url s = q4 ∙ q3 ∙ q2 ∙ ap made_all q1 in
                          let generate =
                            generate_wrapped_secret_id (dev_config url.text).vault "goldfish" in
                          let last =
                            subst (λ x. Returns generate s4 id x) (sym q6)
                              (subst (λ x. Returns generate s4 x s5) (ap (λ x. x.1) ec) hg) in
                          record {
                            url = url;
                            is_url = is_url;
                            config = sym (ap (λ x. x.0) ec);
                            wrapped =
                                generate_wrapped_secret_id-IsWrapped _ "goldfish" _ id s'
                                  (subst (λ x. Returns generate x id s') q last);
                          }
