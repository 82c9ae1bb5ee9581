-- ===== src/Handlers/Requests/Quorum/Commit.antt =====
-- handlers/policy.go, `updatePolicyRequestByCommitHash`: what the policies that it writes are.
use goldfish.Prelude.{
  ◌≡◌, refl, arith, ℕ, suc, ◌+◌, ◌≤◌, String, Option, none, some, List, [], ◌∷◌, length, get_elem?,
  All,
}
use goldfish.Json.{Value}
use goldfish.Types.{AuthInfo, PolicyDiff}
use goldfish.World.{World, Request, RootStatus, Client, Call, Effect, ok, vault}
use goldfish.Exec.{State, done, ◌>>=◌}
use goldfish.Exec.Trace.{Since, none_yet}
use goldfish.Exec.Keeps.{
  Keeps, Ensures, bind_at, Ensures-bind, Keeps-bind, Keeps-bind_Ensures, Keeps-on_error,
  Keeps-defer, Keeps-if_eq, Keeps-pure, keeps_rules,
}
use goldfish.Exec.Ends.{answered}
use goldfish.Vault.Clients.{new_vault_client, call}
use goldfish.Vault.Helper.{generate_root_status}
use goldfish.Handlers.Session.{checked}
use goldfish.Handlers.Requests.Tokens.{store_tokens}
use goldfish.Handlers.Requests.Diffs.{compare_github_vault}
use goldfish.Handlers.Requests.Commit.{
  tokens_in, bad_comparison, put_all, apply_changes, attempt_changes, keep_tokens,
  with_commit_tokens, update_by_commit_hash,
}
use goldfish.Handlers.Requests.Quorum.Calls.{
  unwraps, Justification, Writes, IsFair, Keeps-generate_root_status, Keeps-revoke_self,
  Keeps-read_from_cubbyhole, Keeps-write_to_cubbyhole, Keeps-wrap_data, Keeps-put_policy,
}
use goldfish.Handlers.Requests.Quorum.Compare.{Keeps-compare_github_vault}
use goldfish.Handlers.Requests.Quorum.Steps.{
  on_error-done, Unwraps-unwrap_all, Keeps-bind_Unwraps, Keeps-unwrap_all, Keeps-generate_root,
  Keeps-discard_tokens, Keeps-send_csrf_token, ltb-false,
}

module _ ⦃w : World⦄ where
  -- The change that justifies a write of a policy: one of those by which the commit and Vault differed
  -- at the start, behind as many unwraps as Vault then required keys.
  pub record Differs (hash : String) (auth : AuthInfo) (start : State) (name rules : String)
      (before : List Effect) : Type 0 where
    pub changes : List PolicyDiff
    pub compared : (compare_github_vault auth hash start).0 ≡ done changes
    pub index : ℕ
    pub diff : PolicyDiff
    pub is_change : get_elem? changes index ≡ some diff
    pub same_name : name ≡ diff.policy
    pub same_rules : rules ≡ diff.new
    pub status : RootStatus
    pub asked : List Effect
    pub client : Client
    pub answered : w.answer asked (vault client Call.root_status) ≡ ok status
    pub enough : unwraps start.trace + status.required ≤ unwraps before

module _ ⦃w : World⦄ {J : Justification} {base : List Effect} {n : ℕ} where
  Keeps-tokens_in : (o : Option Value) → Keeps (IsFair J base n) (tokens_in o)
  unfolding tokens_in
  Keeps-tokens_in none = Keeps-pure _
  Keeps-tokens_in (some v) = search keeps_rules depth 6

  Keeps-keep_tokens :
      (hash : String) (status : RootStatus) (tokens : List String)
      → Keeps (IsFair J base n) (keep_tokens hash status tokens)
  unfolding keep_tokens store_tokens
  Keeps-keep_tokens hash status tokens = search (keeps_rules, Keeps-write_to_cubbyhole) depth 9

  -- the loop of writes, each of them justified
  Keeps-put_all :
      (root : AuthInfo) (changes : List PolicyDiff)
      → All (λ d. (t : List Effect) → n ≤ unwraps t → J d.policy d.new t) changes
      → Keeps (IsFair J base n) (put_all root changes)
  unfolding put_all
  Keeps-put_all root [] h = Keeps-pure _
  Keeps-put_all root (d ∷ changes) (j, h) =
      Keeps-bind _ _ (Keeps-put_policy root d.policy d.new j) λ _. Keeps-put_all root changes h

  Keeps-apply_changes :
      (r : Request) (changes : List PolicyDiff) (token : String)
      → All (λ d. (t : List Effect) → n ≤ unwraps t → J d.policy d.new t) changes
      → Keeps (IsFair J base n) (apply_changes r changes token)
  unfolding apply_changes
  Keeps-apply_changes r changes token h =
      search (keeps_rules, Keeps-revoke_self, writing, Keeps-send_csrf_token) depth 10
    where
      writing : (root : AuthInfo) → Keeps (IsFair J base n) (put_all root changes)
      writing root = Keeps-put_all root changes h

module _ ⦃w : World⦄ {J : Justification} {base : List Effect} {n : ℕ} where
  Keeps-attempt_changes :
      (r : Request) (hash : String) (changes : List PolicyDiff) (tokens : List String)
      → All (λ d. (t : List Effect) → n + length tokens ≤ unwraps t → J d.policy d.new t) changes
      → Keeps (IsFair J base n) (attempt_changes r hash changes tokens)
  unfolding attempt_changes
  Keeps-attempt_changes r hash changes tokens h = Keeps-defer _ _ (Keeps-discard_tokens hash) (
      Keeps-bind_Unwraps (length tokens) _ _ (Keeps-unwrap_all tokens) (Unwraps-unwrap_all tokens)
        λ unseals.
          Keeps-bind _ _ (Keeps-generate_root _ unseals)
            λ token. Keeps-apply_changes r changes token h)

indexed :
    {A : Type 0} (P : A → Type 0) (xs : List A)
    → ((i : ℕ) (x : A) → get_elem? xs i ≡ some x → P x)
    → All P xs
indexed P [] h = tt
indexed P (x ∷ xs) h = (h 0 x refl, indexed P xs λ i y e. h (suc i) y e)

module _ ⦃w : World⦄ where
  abbrev IsStatus : RootStatus → Type 0
  IsStatus status =
      (t : List Effect) × (c : Client) × (w.answer t (vault c Call.root_status) ≡ ok status)

  asked-IsStatus : {P : State → Type 0} (c : Client) → Ensures P IsStatus (call c Call.root_status)
  unfolding call
  asked-IsStatus c = record {
    at = λ s status p h. (s.trace, c, answered (vault c Call.root_status) s.trace s status refl h);
  }

  Ensures-IsStatus : {P : State → Type 0} → Ensures P IsStatus (checked generate_root_status)
  unfolding generate_root_status
  Ensures-IsStatus {P = P} = record {
    at = λ s status p h. asked.at s status p (on_error-done _ _ s status h);
  }
    where
      asked : Ensures P IsStatus (new_vault_client >>= λ c. call c Call.root_status)
      asked = Ensures-bind IsStatus _ _ λ c. asked-IsStatus c

module _ ⦃w : World⦄ (hash : String) (auth : AuthInfo) (start : State) where
  Keeps-with_tokens :
      (r : Request) (changes : List PolicyDiff) (status : RootStatus) (tokens : List String)
      → (compare_github_vault auth hash start).0 ≡ done changes
      → IsStatus status
      → Keeps
          (IsFair (Differs hash auth start) start.trace (unwraps start.trace))
          (with_commit_tokens r hash changes status tokens)
  unfolding with_commit_tokens
  Keeps-with_tokens r changes status tokens compared (asked, client, answered) =
      Keeps-if_eq _ _ _ (λ less. Keeps-keep_tokens hash status tokens)
        λ enough.
          let many = ltb-false (length tokens) status.required enough in
          Keeps-attempt_changes r hash changes tokens (
            indexed _ changes λ i d e t more. record {
              changes = changes;
              compared = compared;
              index = i;
              diff = d;
              is_change = e;
              same_name = refl;
              same_rules = refl;
              status = status;
              asked = asked;
              client = client;
              answered = answered;
              enough = omega (arith, many, more);
            })

  -- An update by a commit hash, in any state and whatever the outside answers: each policy that it
  -- writes, if any, has the name and the text of one of the changes that the comparison with GitHub
  -- gave at the start of this update, and before the write at least as many unseal tokens were
  -- unwrapped, in this same update, as a status of root generation that Vault answered requires.
  pub update_by_commit_hash-Differs :
      (r : Request) (key : String)
      → Since
          (Writes (Differs hash auth start))
          start.trace
          (update_by_commit_hash r auth hash key start).1.trace
  unfolding update_by_commit_hash
  update_by_commit_hash-Differs r key =
      (bind_at {P = IsFair (Differs hash auth start) start.trace (unwraps start.trace)} _ _ start
        ((Keeps-on_error bad_comparison _ (Keeps-compare_github_vault auth hash)).at start
          unchanged)
        λ changes e. Keeps-bind _ _ (Keeps-on_error _ _ (Keeps-read_from_cubbyhole _)) λ cubbyhole.
          Keeps-bind _ _ (Keeps-on_error _ _ (Keeps-wrap_data _ _)) λ token.
            Keeps-bind _ _ (Keeps-tokens_in _) λ earlier.
              Keeps-bind_Ensures IsStatus _ _ (Keeps-on_error _ _ Keeps-generate_root_status)
                Ensures-IsStatus
                λ status asked.
                  Keeps-with_tokens r changes status _ (on_error-done _ _ start changes e)
                    asked).justified
    where
      unchanged : IsFair (Differs hash auth start) start.trace (unwraps start.trace) start
      unchanged = record { justified = none_yet; counted = omega arith }
