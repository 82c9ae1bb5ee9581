-- ===== src/Handlers/Requests/Add/Laws.antt =====
-- handlers/policy.go: the requests that `AddPolicyRequest` makes, and `verifyRequest`.
use goldfish.Prelude.{◌≡◌, refl, arith, ℕ, String, Bool, true, false, not, ◌==◌, none}
use goldfish.Prelude.Text.{format_hex}
use goldfish.Types.{AuthInfo, PolicyRequest}
use goldfish.World.{World, ok}
use goldfish.Exec.{State, done}
use goldfish.Exec.Ends.{
  Ends, Ends-pure, Ends-bind, Ends-bind_Ends, Ends-fact, Ends-lift, Ends-require, Anything,
  nothing_needed,
}
use goldfish.Handlers.Requests.Verify.{verify_request}
use goldfish.Handlers.Requests.Verify.Laws.{verify_request-IsValid}
use goldfish.Handlers.Requests.Add.{new_request}

module _ ⦃w : World⦄ where
  -- What a new request is.
  pub record IsNew (policy rules : String) (request : PolicyRequest) : Type 0 where
    pub same_policy : request.policy ≡ policy
    pub same_rules : request.new ≡ rules
    pub parses : w.parse_hcl rules ≡ ok tt
    pub changes : (request.current == rules) ≡ false
    pub no_progress : request.progress ≡ 0

  not-true : (b : Bool) → not b ≡ true → b ≡ false
  not-true b h = ground arith

  made :
      (auth : AuthInfo) (policy rules : String)
      → Ends Anything (λ request _. IsNew policy rules request) (new_request auth policy rules)
  unfolding new_request
  made auth policy rules = Ends-bind _ _ (nothing_needed _) λ current.
      Ends-bind_Ends _ _ _ (Ends-lift _ (w.parse_hcl rules)) λ _. Ends-fact _ λ parses.
        Ends-bind_Ends _ _ _ (Ends-require _ _) λ _. Ends-fact _ λ changes.
          Ends-bind _ _ (nothing_needed _) λ self. Ends-bind _ _ (nothing_needed _) λ status.
            Ends-bind _ _ (nothing_needed _) λ requester.
              Ends-bind _ _ (nothing_needed _) λ accessor. Ends-pure _ λ s _. record {
                same_policy = refl;
                same_rules = refl;
                parses = parses;
                changes = not-true _ changes;
                no_progress = refl;
              }

  -- A request that the handler makes: it is for the policy and the text that were submitted and has
  -- no progress, and if its hash can be computed then `verifyRequest` accepts it under that hash, as
  -- long as the policy is what it was.
  pub new_request-verify_request :
      (auth : AuthInfo) (policy rules : String) (s : State) (request : PolicyRequest) (n : ℕ)
      → (new_request auth policy rules s).0 ≡ done request
      → w.hash_request request ≡ ok n
      → IsNew policy rules request × (verify_request request (format_hex n) request.current ≡ none)
  new_request-verify_request auth policy rules s request n h hashed =
      let new = (made auth policy rules).at s request tt h in
      (
        new,
        (verify_request-IsValid request (format_hex n) request.current).1 (record {
          number = n;
          hashed = hashed;
          same_hash = refl;
          not_outdated = refl;
          parses = rw (new.same_rules) new.parses;
          changes = rw (new.same_rules) new.changes;
        }),
      )
