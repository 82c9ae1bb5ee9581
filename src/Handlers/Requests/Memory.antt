-- ===== src/Handlers/Requests/Memory.antt =====
-- vault/helper.go: the cubbyhole as a memory. It is Vault's, so what it holds is read off the effects.
pub mod Cells
use goldfish.Prelude.{
  arith, ℕ, nat_eq, ◌≡◌, ◌≢◌, ◌∙◌, refl, sym, ap, inl, inr, String, ◌<>◌, ◌==◌, eq_iff, eq_refl,
  Bool, true, false, Bool-cases, ◌&&◌, Option, none, some, List, [], ◌∷◌, if◌then◌else◌,
}
use Prim.Native.Char.{Char, code}
use mathlib.Core.Bool.{and-false}
use mathlib.Core.Path.{subst}
use text.Mathlib.TextLemmas.{cons-append, nil-append}
use goldfish.Prelude.Text.{has_prefix}
use goldfish.Json.{Dict}
use goldfish.Types.{AuthInfo}
use goldfish.World.{World, Client, Call, Secret, Result, ok, err, Effect, Answer, connect, vault}
use goldfish.Exec.{State, Server, perform, pure, gets, deref, ◌>>=◌}
use goldfish.Exec.Keeps.{Keeps, Keeps-perform, Keeps-bind, keeps_rules}
use goldfish.Exec.Runs.{Returns, performed, from_first, Returns-perform}
use goldfish.Vault.Clients.{new_vault_client, client, call}
use goldfish.Vault.Policies.{get_policy}
use goldfish.Vault.Helper.{
  server_client, generate_root_status, read_from_cubbyhole, write_to_cubbyhole, wrap_data,
}
use goldfish.Handlers.Requests.Tokens.{requests_path, tokens_path}
use goldfish.Handlers.Requests.Verify.{is_ok, answer_verdict, load_request}

abbrev pub in_cubbyhole : String → String
in_cubbyhole name = "cubbyhole/" <> name

-- the body of a secret, which may be nil
abbrev pub contents : Option Secret → Option Dict
contents none = none
contents (some secret) = secret.data_map

module _ ⦃w : World⦄ where
  -- What a token's calls have stored at a path: the last body that was written, unless the path was
  -- deleted since. Each token has a cubbyhole of its own, and a call that fails stores nothing.
  abbrev pub stored : String → String → List Effect → Option Dict
  stored token path [] = none
  stored token path (vault c (Call.write p body) ∷ t) =
      let earlier = stored token path t in
      if c.token == token && (p == path && is_ok (w.answer t (vault c (Call.write p body))))
      then body
      else earlier
  stored token path (vault c (Call.delete p) ∷ t) =
      let earlier = stored token path t in
      if c.token == token && (p == path && is_ok (w.answer t (vault c (Call.delete p))))
      then none
      else earlier
  stored token path (_ ∷ t) = stored token path t

  -- Vault's cubbyhole: a read that succeeds answers what is stored.
  pub record IsCubbyhole : Type 0 where
    pub reads :
        (t : List Effect) (c : Client) (name : String) (o : Option Secret)
        → w.answer t (vault c (Call.read (in_cubbyhole name))) ≡ ok o
        → contents o ≡ stored c.token (in_cubbyhole name) t

  -- At this name the cubbyhole of the server's token holds `v`.
  pub record HasStored (srv : Server) (name : String) (v : Option Dict) (s : State) : Type 0 where
    pub same_server : s.server ≡ srv
    pub is_stored : stored srv.vault_client.token (in_cubbyhole name) s.trace ≡ v

nat_eq_self : (n : ℕ) → nat_eq n n ≡ true
nat_eq_self n = ground arith

has_prefix-append : (p q s : String) → has_prefix (p <> q) (p <> s) ≡ has_prefix q s
unfolding has_prefix
has_prefix-append String.[] q s = rw (nil-append q, nil-append s) refl
has_prefix-append (String.◌∷◌ c p) q s =
    rw (cons-append c p q, cons-append c p s, nat_eq_self (code c)) (has_prefix-append p q s)

wrap_path : (name : String) → ("/sys/wrapping/wrap" == in_cubbyhole name) ≡ false
unfolding has_prefix
wrap_path name = elim (Bool-cases ("/sys/wrapping/wrap" == in_cubbyhole name)) [
  | inl e ↦
      let same : "/sys/wrapping/wrap" ≡ "cubbyhole/" <> name = (eq_iff _ _).0 e in
      let bad : true ≡ has_prefix "/" ("cubbyhole/" <> name) = ap (has_prefix "/") same in
      let worse : true ≡ has_prefix "/" (String.◌∷◌ "c" ("ubbyhole/" <> name)) =
        rw (cons-append "c" "ubbyhole/" name) at bad in
      cc
  | inr e ↦ e
]

-- the requests and the tokens of a hash have different paths
pub requests-tokens :
    (hash : String) → (in_cubbyhole (requests_path hash) == in_cubbyhole (tokens_path hash)) ≡ false
unfolding has_prefix
requests-tokens hash =
    elim (Bool-cases (in_cubbyhole (requests_path hash) == in_cubbyhole (tokens_path hash))) [
      | inl e ↦
          let same = ap (has_prefix ("cubbyhole/" <> "r")) ((eq_iff _ _).0 e) in
          let left = has_prefix-append "cubbyhole/" "r" (requests_path hash) in
          let right = has_prefix-append "cubbyhole/" "r" (tokens_path hash) in
          let both : has_prefix "r" (requests_path hash) ≡ has_prefix "r" (tokens_path hash) =
            sym left ∙ same ∙ right in
          let worse : has_prefix "r" (String.◌∷◌ "r" ("equests/" <> hash))
              ≡ has_prefix "r" (String.◌∷◌ "u" ("nseal_wrapping_tokens/" <> hash)) =
            rw (cons-append "r" "equests/" hash, cons-append "u" "nseal_wrapping_tokens/" hash) at
              both in
          cc
      | inr e ↦ e
    ]

eq_false_comm : (a b : String) → (a == b) ≡ false → (b == a) ≡ false
eq_false_comm a b h = elim (Bool-cases (b == a)) [
  | inl e ↦ let t : (a == b) ≡ true = (eq_iff a b).1 (sym ((eq_iff b a).0 e)) in cc
  | inr e ↦ e
]

pub tokens-requests :
    (hash : String) → (in_cubbyhole (tokens_path hash) == in_cubbyhole (requests_path hash)) ≡ false
tokens-requests hash = eq_false_comm _ _ (requests-tokens hash)

-- a call that neither writes nor deletes
abbrev pub IsReading : Call → Type 0
IsReading (Call.write _ _) = ⊥
IsReading (Call.delete _) = ⊥
IsReading _ = Unit

module _ ⦃w : World⦄ where
  stored-reading :
      (token path : String) (c : Client) (q : Call) (t : List Effect)
      → IsReading q
      → stored token path (vault c q ∷ t) ≡ stored token path t
  stored-reading token path c (Call.write _ _) t h = absurd h
  stored-reading token path c (Call.delete _) t h = absurd h
  stored-reading token path c _ t h = refl

module _ ⦃w : World⦄ {srv : Server} {name : String} {v : Option Dict} where
  pub Keeps-connect : (b : Bool) → Keeps (HasStored srv name v) (perform (connect b))
  Keeps-connect b =
      Keeps-perform {P = HasStored srv name v} (connect b)
        λ s h. record { same_server = h.same_server; is_stored = h.is_stored }

  pub Keeps-reading :
      (c : Client) (q : Call) → IsReading q → Keeps (HasStored srv name v) (call c q)
  unfolding call
  Keeps-reading c q r = Keeps-perform {P = HasStored srv name v} (vault c q) λ s h. record {
    same_server = h.same_server;
    is_stored = stored-reading _ _ c q s.trace r ∙ h.is_stored;
  }

  Keeps-wrapping :
      (c : Client) (body : Option Dict)
      → Keeps (HasStored srv name v) (call c (Call.write "/sys/wrapping/wrap" body))
  unfolding call
  Keeps-wrapping c body =
      Keeps-perform {P = HasStored srv name v} (vault c (Call.write "/sys/wrapping/wrap" body))
        λ s h. record {
          same_server = h.same_server;
          is_stored =
              rw (wrap_path name, and-false (c.token == srv.vault_client.token)) h.is_stored;
        }

  pub Keeps-new_vault_client : Keeps (HasStored srv name v) new_vault_client
  unfolding new_vault_client
  Keeps-new_vault_client = search (keeps_rules, Keeps-connect) depth 10

  pub Keeps-status : Keeps (HasStored srv name v) generate_root_status
  unfolding generate_root_status
  Keeps-status = Keeps-bind _ _ Keeps-new_vault_client λ c. Keeps-reading c Call.root_status tt

  pub Keeps-get_policy :
      (auth : AuthInfo) (policy : String) → Keeps (HasStored srv name v) (get_policy auth policy)
  unfolding get_policy client
  Keeps-get_policy auth policy =
      search (keeps_rules, Keeps-new_vault_client, looking, asking) depth 12
    where
      looking : (c : Client) → Keeps (HasStored srv name v) (call c Call.lookup_self)
      looking c = Keeps-reading c Call.lookup_self tt

      asking : (c : Client) → Keeps (HasStored srv name v) (call c (Call.get_policy policy))
      asking c = Keeps-reading c (Call.get_policy policy) tt

  pub Keeps-wrap_data :
      (ttl : String) (body : Dict) → Keeps (HasStored srv name v) (wrap_data ttl body)
  unfolding wrap_data server_client
  Keeps-wrap_data ttl body = search (keeps_rules, Keeps-new_vault_client, Keeps-wrapping) depth 12

  pub Keeps-read : (other : String) → Keeps (HasStored srv name v) (read_from_cubbyhole other)
  unfolding read_from_cubbyhole
  Keeps-read other = search (keeps_rules, Keeps-new_vault_client, reading) depth 8
    where
      reading :
          (c : Client) → Keeps (HasStored srv name v) (call c (Call.read (in_cubbyhole other)))
      reading c = Keeps-reading c (Call.read (in_cubbyhole other)) tt

  pub Keeps-load_request :
      (auth : AuthInfo) (hash malformed outdated : String)
      → Keeps (HasStored srv name v) (load_request auth hash malformed outdated)
  unfolding load_request
  Keeps-load_request auth hash malformed outdated =
      search (keeps_rules, Keeps-read, Keeps-get_policy, Keeps-status, verdict) depth 20
    where
      verdict : (o : Option String) → Keeps (HasStored srv name v) (answer_verdict o)
      verdict none = search (keeps_rules) depth 2
      verdict (some text) = search (keeps_rules) depth 2
