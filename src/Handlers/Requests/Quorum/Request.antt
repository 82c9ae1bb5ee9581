-- ===== src/Handlers/Requests/Quorum/Request.antt =====
-- handlers/policy.go, `updatePolicyRequestByChangeID`: what the policies that it writes are.
use goldfish.Prelude.{
  ◌≡◌, refl, arith, ℕ, ◌+◌, ◌≤◌, zero, suc, String, Option, none, some, List, length,
}
use goldfish.Types.{AuthInfo, PolicyRequest}
use goldfish.World.{World, Request, RootStatus, Effect}
use goldfish.Exec.{State, Exec, pure, leave, ◌>>=◌}
use goldfish.Exec.Trace.{Since, none_yet}
use goldfish.Exec.Keeps.{
  Keeps, Ensures, Ensures-bind, Keeps-bind, Keeps-bind_Ensures, Keeps-on_error, Keeps-defer,
  Keeps-if_eq, Keeps-leave, Keeps-pure, keeps_rules,
}
use goldfish.Vault.Policies
use goldfish.Handlers.Responses.{Response}
use goldfish.Handlers.Requests.Tokens.{store_tokens}
use goldfish.Handlers.Requests.Verify.{verify_request, answer_verdict, load_request}
use goldfish.Handlers.Requests.Update.{
  earlier_tokens, store_progress, discard_request, apply_change, attempt_change, with_tokens,
  update_by_change_id,
}
use goldfish.Handlers.Requests.Quorum.Calls.{
  unwraps, Justification, Writes, IsFair, Keeps-generate_root_status, Keeps-revoke_self,
  Keeps-read_from_cubbyhole, Keeps-write_to_cubbyhole, Keeps-delete_from_cubbyhole,
  Keeps-get_policy, Keeps-wrap_data, Keeps-put_policy,
}
use goldfish.Handlers.Requests.Quorum.Steps.{
  Unwraps-unwrap_all, Keeps-bind_Unwraps, Keeps-unwrap_all, Keeps-generate_root,
  Keeps-discard_tokens, Keeps-send_csrf_token, ltb-false,
}

module _ ⦃w : World⦄ where
  -- The request that justifies a write of a policy, `before` which unwraps were made.
  pub record Justifies (hash name rules : String) (base before : List Effect)
      (request : PolicyRequest) : Type 0 where
    pub current : String
    pub verified : verify_request request hash current ≡ none
    pub same_name : name ≡ request.policy
    pub same_rules : rules ≡ request.new
    pub enough : unwraps base + request.required ≤ unwraps before

  abbrev pub ByRequest : String → List Effect → Justification
  ByRequest hash base name rules before =
      (request : PolicyRequest) × Justifies hash name rules base before request

module _ ⦃w : World⦄ {J : Justification} {base : List Effect} {n : ℕ} where
  verdict_kept : (o : Option String) → Keeps (IsFair J base n) (answer_verdict o)
  verdict_kept none = Keeps-pure tt
  verdict_kept (some e) = Keeps-leave _

  Keeps-load_request :
      (hash : String) (auth : AuthInfo) (a b : String)
      → Keeps (IsFair J base n) (load_request auth hash a b)
  unfolding load_request
  Keeps-load_request hash auth a b =
      search
        (
          keeps_rules, Keeps-read_from_cubbyhole, Keeps-get_policy, Keeps-generate_root_status,
          verdict_kept,
        )
        depth 12

  Keeps-earlier_tokens :
      (hash : String) (progress : ℕ) → Keeps (IsFair J base n) (earlier_tokens hash progress)
  unfolding earlier_tokens
  Keeps-earlier_tokens hash zero = Keeps-pure _
  Keeps-earlier_tokens hash (suc p) = search (keeps_rules, Keeps-read_from_cubbyhole) depth 9

  Keeps-store_progress :
      (hash : String) (request : PolicyRequest) (status : RootStatus) (tokens : List String)
      → Keeps (IsFair J base n) (store_progress hash request status tokens)
  unfolding store_progress store_tokens
  Keeps-store_progress hash request status tokens =
      search (keeps_rules, Keeps-write_to_cubbyhole) depth 9

  Keeps-discard_request : (hash : String) → Keeps (IsFair J base n) (discard_request hash)
  unfolding discard_request
  Keeps-discard_request hash = search (keeps_rules, Keeps-delete_from_cubbyhole) depth 6

module _ ⦃w : World⦄ where
  Ensures-verdict :
      {B : Type 0} (Q : B → Type 0) (o : Option String) (m : Exec Response B)
      → (o ≡ none → Ensures (λ _. Unit {0}) Q m)
      → Ensures (λ _. Unit {0}) Q (answer_verdict o >>= λ _. m)
  unfolding ◌>>=◌ pure leave
  Ensures-verdict Q none m k = record { at = λ s b p h. (k refl).at s b tt h }
  Ensures-verdict Q (some e) m k = record { at = λ s b p h. cc }

-- A request that was found to be valid for some text of the policy.
module _ ⦃w : World⦄ (hash : String) where
  abbrev IsVerified : PolicyRequest × RootStatus → Type 0
  IsVerified (request, status) = (current : String) × (verify_request request hash current ≡ none)

  found-IsVerified :
      {P : State → Type 0} (pair : PolicyRequest × RootStatus)
      → IsVerified pair
      → Ensures P IsVerified (pure {E = Response} pair)
  unfolding pure
  found-IsVerified pair v = record { at = λ s b p h. let e : b ≡ pair = cc in rw (e) v }

  Ensures-load_request :
      {P : State → Type 0} (auth : AuthInfo) (a b : String)
      → Ensures P IsVerified (load_request auth hash a b)
  unfolding load_request
  Ensures-load_request auth a b = Ensures-bind _ _ _ λ resp. Ensures-bind _ _ _ λ secret.
      Ensures-bind _ _ _ λ request. Ensures-bind _ _ _ λ current.
        Ensures-verdict IsVerified (verify_request request hash current) _ λ v.
          Ensures-bind _ _ _
            λ status. Ensures-bind _ _ _ λ same. found-IsVerified (request, status) (current, v)

module _ ⦃w : World⦄ (hash : String) (base : List Effect) {n : ℕ} where
  Keeps-apply_change :
      (r : Request) (auth : AuthInfo) (request : PolicyRequest) (token current : String)
      → verify_request request hash current ≡ none
      → unwraps base + request.required ≤ n
      → Keeps (IsFair (ByRequest hash base) base n) (apply_change r auth hash request token)
  unfolding apply_change
  Keeps-apply_change r auth request token current v enough =
      search
        (
          keeps_rules, Keeps-discard_request, Keeps-revoke_self, put, Keeps-get_policy,
          Keeps-send_csrf_token,
        )
        depth 12
    where
      put :
          (user : AuthInfo)
          → Keeps
              (IsFair (ByRequest hash base) base n)
              (Policies.put_policy user request.policy request.new)
      put user = Keeps-put_policy user request.policy request.new λ t many. (
        request,
        record {
          current = current;
          verified = v;
          same_name = refl;
          same_rules = refl;
          enough = omega (arith, enough, many);
        },
      )

module _ ⦃w : World⦄ (hash : String) (base : List Effect) {n : ℕ} where
  Keeps-attempt_change :
      (r : Request) (auth : AuthInfo) (request : PolicyRequest) (tokens : List String)
      (current : String)
      → verify_request request hash current ≡ none
      → unwraps base + request.required ≤ n + length tokens
      → Keeps (IsFair (ByRequest hash base) base n) (attempt_change r auth hash request tokens)
  unfolding attempt_change
  Keeps-attempt_change r auth request tokens current v enough =
      Keeps-defer _ _ (Keeps-discard_tokens hash) (
        Keeps-bind_Unwraps (length tokens) _ _ (Keeps-unwrap_all tokens) (Unwraps-unwrap_all tokens)
          λ unseals.
            Keeps-bind _ _ (Keeps-generate_root _ unseals)
              λ token. Keeps-apply_change hash base r auth request token current v enough)

module _ ⦃w : World⦄ (hash : String) (base : List Effect) where
  Keeps-with_tokens :
      (r : Request) (auth : AuthInfo) (request : PolicyRequest) (status : RootStatus)
      (tokens : List String)
      → IsVerified hash (request, status)
      → Keeps
          (IsFair (ByRequest hash base) base (unwraps base))
          (with_tokens r auth hash request status tokens)
  unfolding with_tokens
  Keeps-with_tokens r auth request status tokens (current, v) =
      Keeps-if_eq _ _ _ (λ less. Keeps-store_progress hash request status tokens)
        λ enough.
          let many = ltb-false (length tokens) request.required enough in
          Keeps-attempt_change hash base r auth request tokens current v (omega (arith, many))

  Keeps-update :
      (r : Request) (auth : AuthInfo) (key : String)
      → Keeps
          (IsFair (ByRequest hash base) base (unwraps base))
          (update_by_change_id r auth hash key)
  unfolding update_by_change_id
  Keeps-update r auth key =
      Keeps-bind_Ensures (IsVerified hash) _ _ (Keeps-load_request hash auth _ _)
        (Ensures-load_request hash auth _ _)
        λ pair verified. Keeps-bind _ _ (Keeps-earlier_tokens hash pair.0.progress) λ earlier.
          Keeps-bind _ _ (Keeps-on_error _ _ (Keeps-wrap_data _ _))
            λ token. Keeps-with_tokens r auth pair.0 pair.1 _ verified

  -- An update by a change id, in any state and whatever the outside answers: each policy that it
  -- writes since its start, if any, has the name and the text of a request that `verifyRequest`
  -- accepted for this hash, and before the write at least as many unseal tokens were unwrapped, in
  -- this same update, as that request requires.
  pub update_by_change_id-ByRequest :
      (r : Request) (auth : AuthInfo) (key : String) (s : State)
      → s.trace ≡ base
      → Since (Writes (ByRequest hash base)) base (update_by_change_id r auth hash key s).1.trace
  update_by_change_id-ByRequest r auth key s e =
      let start : IsFair (ByRequest hash base) base (unwraps base) s = record {
        justified = rw (e) none_yet;
        counted = rw (e) omega arith;
      } in
      ((Keeps-update r auth key).at s start).justified
