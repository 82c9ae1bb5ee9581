-- ===== src/Handlers/Requests/Pending/Advance.antt =====
-- handlers/policy.go, `updatePolicyRequestByChangeID`: one unseal key for a request that waits.
use goldfish.Prelude.{
  ◌≡◌, ◌⊎◌, arith, sym, inl, inr, ℕ, suc, ◌≤◌, ◌<◌, ltb, String, true, false, Bool-cases, List, [],
  ◌∷◌, ◌++◌, All-append, length, if◌then◌else◌,
}
use mathlib.Core.Path.{subst}
use goldfish.Json.{str}
use goldfish.Types.{AuthInfo, PolicyRequest}
use goldfish.World.{World, Request, RootStatus}
use goldfish.Exec.{State, Server}
use goldfish.Exec.Keeps.{Keeps-on_error}
use goldfish.Exec.Runs.{Returns, from_first, Returns-on_error}
use goldfish.Vault.Helper.{wrap_data}
use goldfish.Handlers.Responses.{Response, parse_error}
use goldfish.Handlers.Session.{checked}
use goldfish.Handlers.Requests.Tokens.Pieces.{IsToken}
use goldfish.Handlers.Requests.Verify.{load_request}
use goldfish.Handlers.Requests.Update.{
  progress_response, earlier_tokens, store_progress, attempt_change, with_tokens,
  update_by_change_id,
}
use goldfish.Handlers.Requests.Memory.{Keeps-load_request, Keeps-wrap_data}
use goldfish.Handlers.Requests.Pending.{
  with_progress, IsReliable, IsPending, load_request-Returns, earlier_tokens-Returns,
  wrap_data-Returns,
}
use goldfish.Handlers.Requests.Pending.Wrapped.{IsWrapped, wrap_data-IsWrapped}
use goldfish.Handlers.Requests.Pending.Steps.{
  length-append_one, Keeps-earlier_tokens, IsPending-at, store_progress-Returns,
}

abbrev malformed : String
malformed = "Change appears to be malformed"

abbrev outdated : String
outdated = "Request outdated by vault rekey"

pub ltb-lt : (a b : ℕ) → ltb a b ≡ true → a < b
ltb-lt a b h = ground arith

pub ltb-le : (a b : ℕ) → ltb a b ≡ false → b ≤ a
ltb-le a b h = ground arith

module _ ⦃w : World⦄ (srv : Server) where
  -- How a request goes on with one more key, whose token is the one in which Vault wrapped it: it waits
  -- with that progress, or it is attempted.
  pub record Advances (r : Request) (auth : AuthInfo) (hash key : String) (request : PolicyRequest)
      (tokens : List String) (response : Response) (s' : State) : Type 0 where
    pub token : String
    pub is_token : IsToken token
    pub is_wrapped : IsWrapped srv key token
    pub next :
        ((suc (length tokens) < request.required)
          × (progress_response (suc (length tokens)) request.required ≡ response)
          × IsPending srv hash request (tokens ++ token ∷ []) s')
        ⊎ ((request.required ≤ suc (length tokens))
            × ((s1 : State) × IsPending srv hash request tokens s1
                × Returns
                    (attempt_change r auth hash
                      (with_progress request tokens)
                      (tokens ++ token ∷ []))
                    s1
                    response
                    s'))

  with_tokens-Advances :
      (r : Request) (auth : AuthInfo) (hash key : String) (request : PolicyRequest)
      (status : RootStatus) (tokens : List String) (token : String) (s : State)
      (response : Response) (s' : State)
      → IsPending srv hash request tokens s
      → IsToken token
      → IsWrapped srv key token
      → request.required ≡ status.required
      → Returns
          (with_tokens r auth hash (with_progress request tokens) status (tokens ++ token ∷ []))
          s
          response
          s'
      → Advances r auth hash key request tokens response s'
  unfolding with_tokens
  with_tokens-Advances r auth hash key request status tokens token s response s' p t wrapped req h =
      let ts = tokens ++ token ∷ [] in
      let one = length-append_one tokens token in
      let store = store_progress hash (with_progress request tokens) status ts in
      let attempt = attempt_change r auth hash (with_progress request tokens) ts in
      elim (Bool-cases (ltb (length ts) request.required)) [
        | inl b ↦
            let stores = subst (λ x. Returns (if x then store else attempt) s response s') b h in
            let (e, q) =
              store_progress-Returns hash request (length tokens) status tokens ts s response s' p
                (All-append IsToken tokens (token ∷ []) p.plain (t, tt)) stores in
            record {
              token = token;
              is_token = t;
              is_wrapped = wrapped;
              next = inl (
                subst (λ n. n < request.required) one (ltb-lt _ _ b),
                subst (λ n. progress_response n request.required ≡ response) one
                    (subst (λ n. progress_response (length ts) n ≡ response) (sym req) e),
                q,
              );
            }
        | inr b ↦ record {
          token = token;
          is_token = t;
          is_wrapped = wrapped;
          next = inr (
            subst (λ n. request.required ≤ n) one (ltb-le _ _ b),
            (s, p, subst (λ x. Returns (if x then store else attempt) s response s') b h),
          );
        }
      ]

  -- The number of tokens decides. If Vault's cubbyhole stores, requests survive it, and Vault's tokens
  -- are plain: from a state in which a request waits with these tokens, an unseal key for which an
  -- answer is returned adds one token, the one that Vault answered, for an hour, to the server's token
  -- that asked it to wrap this key. While there are too few, the request then waits with the longer
  -- list, and the answer is its length and the number required; else the change is attempted with
  -- exactly the tokens with which it waited, in their order, and the new one behind them.
  pub update_by_change_id-Advances :
      (v : IsReliable) (r : Request) (auth : AuthInfo) (hash key : String) (request : PolicyRequest)
      (tokens : List String) (s : State) (response : Response) (s' : State)
      → IsPending srv hash request tokens s
      → Returns (update_by_change_id r auth hash key) s response s'
      → Advances r auth hash key request tokens response s'
  unfolding update_by_change_id
  update_by_change_id-Advances v r auth hash key request tokens s response s' p h =
      from_first _ _ s response s' h λ found s1 hl h1.
        from_first _ _ s1 response s' h1 λ earlier s2 he h2.
          from_first _ _ s2 response s' h2 λ token s3 hw h3.
            let (same, req) =
              load_request-Returns v auth hash malformed outdated (with_progress request tokens) s
                found.0 found.1 s1 p.request_stored hl in
            let p1 =
              IsPending-at (load_request auth hash malformed outdated) hash request tokens s found
                s1 (λ name o. Keeps-load_request auth hash malformed outdated) hl p in
            let he' = subst (λ q. Returns (earlier_tokens hash q.progress) s1 earlier s2) same he in
            let is_earlier =
              earlier_tokens-Returns v hash tokens p1.body s1 earlier s2 p1.tokens_stored
                p1.same_tokens p1.plain he' in
            let p2 =
              IsPending-at (earlier_tokens hash found.0.progress) hash request tokens s1 earlier s2
                (λ name o. Keeps-earlier_tokens hash found.0.progress) he p1 in
            let wrap = wrap_data "60m" (("unseal_token", str key) ∷ []) in
            let wraps = Returns-on_error parse_error wrap s2 token s3 hw in
            let p3 =
              IsPending-at (checked wrap) hash request tokens s2 token s3
                (λ name o. Keeps-on_error parse_error wrap (Keeps-wrap_data _ _)) hw p2 in
            let last : Returns (with_tokens r auth hash found.0 found.1 (earlier ++ token ∷ [])) s3
                response s' =
              h3 in
            with_tokens-Advances r auth hash key request found.1 tokens token s3 response s' p3
              (wrap_data-Returns v _ _ s2 token s3 wraps)
              (wrap_data-IsWrapped srv key s2 token s3 p2.request_stored.same_server wraps) req
              (subst
                (λ q.
                  Returns (with_tokens r auth hash q found.1 (tokens ++ token ∷ [])) s3 response s')
                same
                (subst
                  (λ ts.
                    Returns (with_tokens r auth hash found.0 found.1 (ts ++ token ∷ [])) s3 response
                      s')
                  is_earlier last))
