-- ===== src/Handlers/Requests/Pending/Steps.antt =====
-- handlers/policy.go, `updatePolicyRequestByChangeID`: what an unseal key does to a request that waits.
use goldfish.Prelude.{
  ◌≡◌, refl, sym, ap, ℕ, zero, suc, String, Option, some, List, [], ◌∷◌, ◌++◌, All, length,
}
use mathlib.Core.Path.{subst}
use goldfish.Json.{Dict}
use goldfish.Types.{PolicyRequest}
use goldfish.World.{World, RootStatus}
use goldfish.Exec.{State, Server, Exec}
use goldfish.Exec.Keeps.{Keeps, keeps_rules}
use goldfish.Exec.Runs.{Returns, from_first, Returns-pure, Returns-on_error}
use goldfish.Vault.Helper.{write_to_cubbyhole}
use goldfish.Handlers.Responses.{Response}
use goldfish.Handlers.Requests.Tokens.{requests_path, tokens_path, store_tokens}
use goldfish.Handlers.Requests.Tokens.Pieces.{IsToken}
use goldfish.Handlers.Requests.Update.{progress_response, earlier_tokens, store_progress}
use goldfish.Handlers.Requests.Memory.{HasStored, Keeps-read, requests-tokens, tokens-requests}
use goldfish.Handlers.Requests.Memory.Cells.{write-HasStored, write-HasStored_other}
use goldfish.Handlers.Requests.Pending.{tokens_body, IsPending}

pub length-append_one {ℓ} :
    {A : Type ℓ} (ts : List A) (t : A) → length (ts ++ t ∷ []) ≡ suc (length ts)
length-append_one [] t = refl
length-append_one (x ∷ ts) t = ap suc (length-append_one ts t)

module _ ⦃w : World⦄ {srv : Server} where
  pub Keeps-earlier_tokens :
      {name : String} {v : Option Dict} (hash : String) (n : ℕ)
      → Keeps (HasStored srv name v) (earlier_tokens hash n)
  unfolding earlier_tokens
  Keeps-earlier_tokens hash zero = search (keeps_rules) depth 2
  Keeps-earlier_tokens hash (suc n) = search (keeps_rules, Keeps-read) depth 8

  -- what an action that keeps both cells does to a request that waits
  pub IsPending-at :
      {A : Type 0} (m : Exec Response A) (hash : String) (request : PolicyRequest)
      (tokens : List String) (s : State) (a : A) (s' : State)
      → ((name : String) (v : Option Dict) → Keeps (HasStored srv name v) m)
      → Returns m s a s'
      → IsPending srv hash request tokens s
      → IsPending srv hash request tokens s'
  IsPending-at m hash request tokens s a s' k h p = record {
    request_stored = subst (HasStored srv _ _) (ap (λ x. x.1) h) ((k _ _).at s p.request_stored);
    body = p.body;
    tokens_stored = subst (HasStored srv _ _) (ap (λ x. x.1) h) ((k _ _).at s p.tokens_stored);
    same_tokens = p.same_tokens;
    plain = p.plain;
  }

  pub store_progress-Returns :
      (hash : String) (request : PolicyRequest) (progress : ℕ) (status : RootStatus)
      (tokens new : List String) (s : State) (response : Response) (s' : State)
      → IsPending srv hash request tokens s
      → All IsToken new
      → Returns
          (store_progress hash (record request { progress = progress }) status new)
          s
          response
          s'
      → (progress_response (length new) status.required ≡ response)
        × IsPending srv hash request new s'
  unfolding store_progress store_tokens tokens_body
  store_progress-Returns hash request progress status tokens new s response s' p plain h =
      from_first _ _ s response s' h λ o s1 h1 r1. from_first _ _ s1 response s' r1 λ o2 s2 h2 r2.
        let w1 = Returns-on_error _ (store_tokens hash new) s o s1 h1 in
        let w2 = Returns-on_error _ (write_to_cubbyhole (requests_path hash) _) s1 o2 s2 h2 in
        let (e, q) = Returns-pure _ response s2 s' r2 in
        let tokens1 : HasStored srv (tokens_path hash) (some (tokens_body new)) s1 =
          write-HasStored (tokens_body new) s o s1 p.tokens_stored w1 in
        let request1 =
          write-HasStored_other (tokens_path hash) (tokens_body new) s o s1 (tokens-requests hash)
            p.request_stored w1 in
        (
          e,
          record {
            request_stored =
                subst (HasStored srv _ _) (sym q) (write-HasStored _ s1 o2 s2 request1 w2);
            body = some (tokens_body new);
            tokens_stored = subst (HasStored srv _ _) (sym q) (
                write-HasStored_other (requests_path hash) _ s1 o2 s2 (requests-tokens hash) tokens1
                  w2);
            same_tokens = λ n. refl;
            plain = plain;
          },
        )
