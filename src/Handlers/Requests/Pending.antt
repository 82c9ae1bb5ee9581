-- ===== src/Handlers/Requests/Pending.antt =====
-- handlers/policy.go: a request that waits for its unseal keys, as it stands in the cubbyhole, and
-- what the steps of `updatePolicyRequestByChangeID` read of it.
pub mod Wrapped
pub mod Steps
pub mod Advance
pub mod Rounds
pub mod Submitted
pub mod Reading
pub mod Held
pub mod Commits
use goldfish.Prelude.{
  ◌≡◌, ◌≢◌, ◌∙◌, arith, refl, sym, ap, ℕ, zero, suc, nat_eq, String, Bool, true, false, Option,
  none, some, List, [], ◌∷◌, ◌++◌, All, length,
}
use mathlib.Core.Path.{subst}
use goldfish.Json.{Dict, Value, str, get, lookup, as_string}
use goldfish.Types.{AuthInfo, PolicyRequest}
use goldfish.World.{World, Client, Call, Secret, RootStatus, Result, ok, err, Effect, vault}
use goldfish.Exec.{
  State, Server, Exec, Flow, done, perform, pure, gets, deref, expect, lift, require, on_error,
  ◌>>=◌, ◌>>◌,
}
use goldfish.Exec.Runs.{
  Returns, from_first, Returns-pure, Returns-deref, Returns-expect, Returns-require, Returns-lift,
  Returns-on_error, Returns-perform,
}
use goldfish.Vault.Clients.{set_wrapping, call}
use goldfish.Vault.Policies.{get_policy}
use goldfish.Vault.Helper.{read_from_cubbyhole, generate_root_status, server_client, wrap_data}
use goldfish.Handlers.Responses.{Response}
use goldfish.Handlers.Session.{checked}
use goldfish.Handlers.Requests.Tokens.{requests_path, tokens_path, encode_tokens, decode_tokens}
use goldfish.Handlers.Requests.Tokens.Pieces.{IsToken}
use goldfish.Handlers.Requests.Tokens.RoundTrip.{decode_tokens-encode_tokens}
use goldfish.Handlers.Requests.Verify.{answer_verdict, verify_request, load_request}
use goldfish.Handlers.Requests.Update.{earlier_tokens}
use goldfish.Handlers.Requests.Memory.{contents, IsCubbyhole, HasStored}
use goldfish.Handlers.Requests.Memory.Cells.{read-contents}

-- the body that is stored for these tokens
unfoldable pub tokens_body : List String → Dict
tokens_body tokens = ("wrapping_tokens", str (encode_tokens tokens)) ∷ []

abbrev pub with_progress : PolicyRequest → List String → PolicyRequest
with_progress request tokens = record request { progress = length tokens }

pub ok-inj : {A : Type 0} (a b : A) → ok a ≡ ok b → a ≡ b
ok-inj a b h = cc

pub some-inj : {A : Type 0} (a b : A) → some a ≡ some b → a ≡ b
some-inj a b h = cc

cons-ne-nil : {A : Type 0} (x : A) (xs : List A) → x ∷ xs ≢ []
cons-ne-nil x xs h = cc

nat_eq-eq : (a b : ℕ) → nat_eq a b ≡ true → a ≡ b
nat_eq-eq a b h = ground arith

module _ ⦃w : World⦄ where
  -- What is documented of the outside: Vault's cubbyhole stores, a request survives the map that it
  -- is stored as, and Vault's wrapping tokens are plain texts.
  pub record IsReliable : Type 0 where
    pub cubbyhole : IsCubbyhole
    pub decodes :
        (request : PolicyRequest) → w.decode_request (some (w.map_request request)) ≡ ok request
    pub wraps :
        (t : List Effect) (c : Client) (body : Option Dict) (secret : Secret) (token : String)
        → w.answer t (vault c (Call.write "/sys/wrapping/wrap" body)) ≡ ok (some secret)
        → secret.wrap_token ≡ some token
        → IsToken token

  -- The request is stored with as much progress as there are tokens; if there are any, they are
  -- stored beside it.
  pub record IsPending (srv : Server) (hash : String) (request : PolicyRequest)
      (tokens : List String) (s : State) : Type 0 where
    pub request_stored :
        HasStored srv (requests_path hash) (some (w.map_request (with_progress request tokens))) s
    pub body : Option Dict
    pub tokens_stored : HasStored srv (tokens_path hash) body s
    pub same_tokens : tokens ≢ [] → body ≡ some (tokens_body tokens)
    pub plain : All IsToken tokens

  pub load_request-Returns :
      {srv : Server} (v : IsReliable) (auth : AuthInfo) (hash malformed outdated : String)
      (q : PolicyRequest) (s : State) (request : PolicyRequest) (status : RootStatus) (s' : State)
      → HasStored srv (requests_path hash) (some (w.map_request q)) s
      → Returns (load_request auth hash malformed outdated) s (request, status) s'
      → (request ≡ q) × (q.required ≡ status.required)
  unfolding load_request
  load_request-Returns v auth hash malformed outdated q s request status s' k h =
      from_first _ _ s (request, status) s' h
        λ o s1 ho h1.
          from_first _ _ s1 (request, status) s' h1
            λ secret s2 hs h2.
              from_first _ _ s2 (request, status) s' h2
                λ found s3 hf h3.
                  from_first _ _ s3 (request, status) s' h3
                    λ policy s4 hp h4.
                      from_first _ _ s4 (request, status) s' h4
                        λ u s5 hv h5.
                          from_first _ _ s5 (request, status) s' h5
                            λ st s6 hst h6.
                              from_first _ _ s6 (request, status) s' h6
                                λ u2 s7 hr h7.
                                  let stored =
                                    read-contents v.cubbyhole s o s1 k
                                      (Returns-on_error _ _ s o s1 ho) in
                                  let (some_secret, q2) = Returns-expect o _ secret s1 s2 hs in
                                  let holds : secret.data_map ≡ some (w.map_request q) =
                                    subst (λ x. contents x ≡ some (w.map_request q)) some_secret
                                      stored in
                                  let (decoded, q3) =
                                    Returns-lift _ found s2 s3
                                      (Returns-on_error _ _ s2 found s3 hf) in
                                  let same : ok found ≡ ok q =
                                    sym decoded ∙ ap w.decode_request holds ∙ v.decodes q in
                                  let (agrees, q7) = Returns-require _ _ u2 s6 s7 hr in
                                  let (pair, q8) =
                                    Returns-pure (found, st) (request, status) s7 s' h7 in
                                  let is_found : found ≡ request = ap (λ x. x.0) pair in
                                  let is_status : st ≡ status = ap (λ x. x.1) pair in
                                  let is_q : found ≡ q = ok-inj found q same in
                                  (
                                    sym is_found ∙ is_q,
                                    ap (λ x. x.required) (sym is_q)
                                        ∙ nat_eq-eq _ _ agrees
                                        ∙ ap (λ x. x.required) is_status,
                                  )

  pub earlier_tokens-Returns :
      {srv : Server} (v : IsReliable) (hash : String) (tokens : List String) (body : Option Dict)
      (s : State) (earlier : List String) (s' : State)
      → HasStored srv (tokens_path hash) body s
      → (tokens ≢ [] → body ≡ some (tokens_body tokens))
      → All IsToken tokens
      → Returns (earlier_tokens hash (length tokens)) s earlier s'
      → earlier ≡ tokens
  unfolding earlier_tokens tokens_body get lookup
  earlier_tokens-Returns v hash [] body s earlier s' k same plain h =
      let (e, q) = Returns-pure [] earlier s s' h in sym e
  earlier_tokens-Returns v hash (p ∷ ps) body s earlier s' k same plain h =
      from_first _ _ s earlier s' h λ o s1 ho h1. from_first _ _ s1 earlier s' h1 λ secret s2 hs h2.
        from_first _ _ s2 earlier s' h2 λ text s3 ht h3.
          let stored =
            read-contents v.cubbyhole s o s1 k (Returns-on_error _ _ s o s1 ho)
            ∙ same (λ e. cons-ne-nil p ps e) in
          let (some_secret, q2) = Returns-deref o secret s1 s2 hs in
          let holds : secret.data_map ≡ some (tokens_body (p ∷ ps)) =
            subst (λ x. contents x ≡ some (tokens_body (p ∷ ps))) some_secret stored in
          let (some_text, q3) =
            Returns-deref (as_string (get secret.data_map "wrapping_tokens")) text s2 s3 ht in
          let is_text : encode_tokens (p ∷ ps) ≡ text =
            some-inj _ _
              (subst (λ x. as_string (get x "wrapping_tokens") ≡ some text) holds some_text) in
          let (e, q4) = Returns-pure (decode_tokens text) earlier s3 s' h3 in
          sym e ∙ ap decode_tokens (sym is_text) ∙ decode_tokens-encode_tokens p ps plain

  pub wrap_data-Returns :
      (v : IsReliable) (ttl : String) (body : Dict) (s : State) (token : String) (s' : State)
      → Returns (wrap_data ttl body) s token s'
      → IsToken token
  unfolding wrap_data call
  wrap_data-Returns v ttl body s token s' h = from_first _ _ s token s' h λ c s1 hc h1.
      from_first _ _ s1 token s' h1 λ o s2 ho h2. from_first _ _ s2 token s' h2 λ secret s3 hs h3.
        let e : Effect = vault (set_wrapping c ttl) (Call.write "/sys/wrapping/wrap" (some body)) in
        let (a, q2) = Returns-perform e s1 o s2 ho in
        let (some_secret, q3) = Returns-deref o secret s2 s3 hs in
        let (some_token, q4) = Returns-deref secret.wrap_token token s3 s' h3 in
        v.wraps s1.trace _ _ secret token (a ∙ ap ok some_secret) some_token
