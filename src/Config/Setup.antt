-- ===== src/Config/Setup.antt =====
-- config/dev.go: what reaches the Vault of development mode, and in which order.
use goldfish.Prelude.{◌≡◌, ◌≢◌, ◌⊎◌, refl, inl, inr, ap, String, some, List, [], ◌∷◌, ◌++◌}
use goldfish.World.{World, Client, Call, Reply, Result, ok, err, Effect, connect, vault}
use goldfish.Exec.{
  State, Flow, done, exit, panic, Exec, pure, lift_result, continue, perform, lift, ◌>>=◌, ◌>>◌,
}
use goldfish.Vault.Clients.{set_token, call}
use goldfish.Config.{Library, Url}
use goldfish.Config.Dev.{
  goldfish_policy_rules, write_texts, approle, runtime_settings, bulletin, set_address, root_client,
  set_up, setup_vault,
}

-- The mounts, policies, roles, settings and samples of development mode.
abbrev pub setup_calls : List Call
setup_calls =
    Call.mount "transit" "transit"
    ∷ Call.write "transit/keys/goldfish" (some [])
    ∷ Call.put_policy "goldfish" goldfish_policy_rules
    ∷ Call.enable_auth "approle" "approle"
    ∷ approle
    ∷ write_texts "auth/approle/role/goldfish/role-id" (("role_id", "goldfish") ∷ [])
    ∷ write_texts "secret/goldfish" runtime_settings
    ∷ Call.enable_auth "userpass" "userpass"
    ∷ bulletin "secret/bulletins/bulletina" "hello world" "sampleBulletinA"
    ∷ bulletin "secret/bulletins/bulletinb" "this is sample b" "sampleBulletinB"
    ∷ bulletin "secret/bulletins/bulletinc" "this is sample c" "sampleBulletinc"
    ∷ Call.mount "pki" "pki"
    ∷ write_texts "pki/root/generate/internal" (("common_name", "myvault.com") ∷ [])
    ∷ write_texts "pki/config/urls" (
        ("issuing_certificates", "http://127.0.0.1:8200/v1/pki/ca")
        ∷ ("crl_distribution_points", "http://127.0.0.1:8200/v1/pki/crl")
        ∷ [])
    ∷ write_texts "pki/roles/example-dot-com" (
        ("allowed_domains", "example.com") ∷ ("allow_subdomains", "true") ∷ ("max_ttl", "72h") ∷ [])
    ∷ write_texts "pki/issue/example-dot-com" (("common_name", "blah.example.com") ∷ [])
    ∷ write_texts "pki/issue/example-dot-com" (("common_name", "blah2.example.com") ∷ [])
    ∷ []

-- The trace behind these calls.
abbrev pub effects : Client → List Call → List Effect → List Effect
effects c [] t = t
effects c (q ∷ qs) t = effects c qs (vault c q ∷ t)

pub answer-cases :
    {A : Type 0} (r : Result A) → ((a : A) × (r ≡ ok a)) ⊎ ((e : String) × (r ≡ err e))
answer-cases (ok a) = inl (a, refl)
answer-cases (err e) = inr (e, refl)

module _ ⦃w : World⦄ where
  -- The calls one after the other, up to the first that fails.
  unfoldable pub run_calls : Client → List Call → Exec String Unit
  run_calls c [] = pure tt
  run_calls c (q ∷ qs) = call c q >> run_calls c qs

  -- The newest effect has failed with this error.
  pub record FailedLast (t : List Effect) (e : String) : Type 0 where
    pub last : Effect
    pub earlier : List Effect
    pub is_last : t ≡ last ∷ earlier
    pub is_error : w.answer earlier last ≡ err e

  -- A run of these calls: the first of them were made, all when no error is returned, and an error
  -- is that of the last call made. Nothing else has changed.
  pub record InOrder (c : Client) (qs : List Call) (s : State) (r : Flow String Unit) (s' : State)
      : Type 0 where
    pub made : List Call
    pub rest : List Call
    pub split : qs ≡ made ++ rest
    pub final : s' ≡ record s { trace = effects c made s.trace }
    pub all_made : r ≡ done tt → rest ≡ []
    pub failed : (e : String) → r ≡ exit e → FailedLast s'.trace e
    pub no_panic : r ≢ panic

  InOrder-nil : (c : Client) (s : State) → InOrder c [] s (done tt) s
  InOrder-nil c s = record {
    made = [];
    rest = [];
    split = refl;
    final = refl;
    all_made = λ h. refl;
    failed = λ e h. cc;
    no_panic = λ h. cc;
  }

  InOrder-cons :
      (c : Client) (q : Call) (qs : List Call) (s : State) (r : Result (Reply q))
      (m : Exec String Unit)
      → w.answer s.trace (vault c q) ≡ r
      → ((s1 : State) → InOrder c qs s1 (m s1).0 (m s1).1)
      → let s1 : State = record s { trace = vault c q ∷ s.trace } in
        let out = continue (lift_result r) (λ _. m) s1 in InOrder c (q ∷ qs) s out.0 out.1
  InOrder-cons c q qs s (ok a) m e h =
      let s1 : State = record s { trace = vault c q ∷ s.trace } in
      let i = h s1 in
      record {
        made = q ∷ i.made;
        rest = i.rest;
        split = ap (λ x. q ∷ x) i.split;
        final = i.final;
        all_made = i.all_made;
        failed = i.failed;
        no_panic = i.no_panic;
      }
  InOrder-cons c q qs s (err x) m e h = record {
    made = q ∷ [];
    rest = qs;
    split = refl;
    final = refl;
    all_made = λ z. cc;
    failed = λ y z. record {
      last = vault c q;
      earlier = s.trace;
      is_last = refl;
      is_error = let same : x ≡ y = cc in rw⁻¹ (same) e;
    };
    no_panic = λ z. cc;
  }

  run_calls-InOrder :
      (c : Client) (qs : List Call) (s : State)
      → InOrder c qs s (run_calls c qs s).0 (run_calls c qs s).1
  unfolding run_calls pure ◌>>=◌ call perform
  run_calls-InOrder c [] s = InOrder-nil c s
  run_calls-InOrder c (q ∷ qs) s =
      InOrder-cons c q qs s (w.answer s.trace (vault c q)) (run_calls c qs) refl
        (run_calls-InOrder c qs)

module _ ⦃w : World⦄ ⦃lib : Library⦄ where
  set_up-run_calls : (c : Client) → set_up c ≡ run_calls c setup_calls
  unfolding set_up run_calls
  set_up-run_calls c = refl

  abbrev pub connected : State → State
  connected s = record s { trace = connect lib.default_client.skip_tls ∷ s.trace }

  -- the client with the root token at an address
  abbrev pub root_of : Url → String → Client
  root_of url token = set_token (record lib.default_client { address = url.text }) token

  root_client-ok :
      (addr token : String) (url : Url) (s : State) (a : Unit)
      → lib.parse_url addr ≡ ok url
      → w.answer s.trace (connect lib.default_client.skip_tls) ≡ ok a
      → root_client addr token s ≡ (done (root_of url token), connected s)
  unfolding root_client set_address perform lift pure ◌>>=◌
  root_client-ok addr token url s a h e = rw (e, h) refl

  root_client-err :
      (addr token x : String) (s : State)
      → w.answer s.trace (connect lib.default_client.skip_tls) ≡ err x
      → root_client addr token s ≡ (exit x, connected s)
  unfolding root_client set_address perform lift pure ◌>>=◌
  root_client-err addr token x s e = rw (e) refl

  -- A set-up at an address that can be parsed either fails where the client is made, with that
  -- error and before any call, or makes the calls of development mode in their order, as the root
  -- token, up to the first that fails, whose error it returns; without an error it has made them all.
  -- It never panics, and changes nothing in this process.
  pub setup_vault-InOrder :
      (addr token : String) (url : Url) (s : State)
      → lib.parse_url addr ≡ ok url
      → let (r, s') = setup_vault addr token s in
        ((e : String) × (r ≡ exit e) × (s' ≡ connected s) × FailedLast s'.trace e)
        ⊎ InOrder (root_of url token) setup_calls (connected s) r s'
  unfolding setup_vault ◌>>=◌
  setup_vault-InOrder addr token url s h =
      elim (answer-cases (w.answer s.trace (connect lib.default_client.skip_tls))) [
        | inl (a, e) ↦
            rw (root_client-ok addr token url s a h e, set_up-run_calls (root_of url token))
              (inr (run_calls-InOrder (root_of url token) setup_calls (connected s)))
        | inr (x, e) ↦ rw (root_client-err addr token x s e) (
            inl (
              x,
              refl,
              refl,
              record {
                last = connect lib.default_client.skip_tls;
                earlier = s.trace;
                is_last = refl;
                is_error = e;
              },
            ))
      ]
