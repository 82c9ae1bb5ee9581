-- ===== src/Handlers/Requests/Pending/Commits.antt =====
-- handlers/policy.go, `updatePolicyRequestByCommitHash`: one unseal key for a commit.
use goldfish.Prelude.{
  ◌≡◌, ◌⊎◌, ap, inl, inr, suc, ◌≤◌, ◌<◌, ltb, String, Bool-cases, List, [], ◌∷◌, ◌++◌, All-append,
  length, if◌then◌else◌,
}
use mathlib.Core.Path.{subst}
use goldfish.Json.{str}
use goldfish.Types.{AuthInfo, PolicyDiff}
use goldfish.World.{World, Request, RootStatus, Client, Call, Effect, ok, vault}
use goldfish.Exec.{State, Server, done, on_error}
use goldfish.Exec.Keeps.{Keeps-on_error}
use goldfish.Exec.Runs.{Returns, from_first, Returns-perform, Returns-on_error}
use goldfish.Vault.Clients.{call}
use goldfish.Vault.Helper.{read_from_cubbyhole, wrap_data, generate_root_status}
use goldfish.Handlers.Responses.{Response, parse_error}
use goldfish.Handlers.Session.{checked}
use goldfish.Handlers.Requests.Tokens.{tokens_path}
use goldfish.Handlers.Requests.Tokens.Pieces.{IsToken}
use goldfish.Handlers.Requests.Update.{progress_response}
use goldfish.Handlers.Requests.Diffs.{compare_github_vault}
use goldfish.Handlers.Requests.Commit.{
  bad_comparison, stored_tokens, tokens_in, attempt_changes, keep_tokens, with_commit_tokens,
  update_by_commit_hash,
}
use goldfish.Handlers.Requests.Memory.{Keeps-read, Keeps-wrap_data, Keeps-status}
use goldfish.Handlers.Requests.Memory.Cells.{read-contents}
use goldfish.Handlers.Requests.Pending.{IsReliable, wrap_data-Returns}
use goldfish.Handlers.Requests.Pending.Wrapped.{IsWrapped, wrap_data-IsWrapped}
use goldfish.Handlers.Requests.Pending.Steps.{length-append_one}
use goldfish.Handlers.Requests.Pending.Advance.{ltb-lt, ltb-le}
use goldfish.Handlers.Requests.Pending.Reading.{Keeps-compare_github_vault, Keeps-tokens_in}
use goldfish.Handlers.Requests.Pending.Held.{
  append_one-ne-nil, HoldsTokens, HoldsTokens-at, tokens_in-Returns, keep_tokens-Returns,
}

module _ ⦃w : World⦄ where
  status-Returns :
      (s : State) (status : RootStatus) (s' : State)
      → Returns generate_root_status s status s'
      → (c : Client) × (t : List Effect) × (w.answer t (vault c Call.root_status) ≡ ok status)
  unfolding generate_root_status call
  status-Returns s status s' h =
      from_first _ _ s status s' h
        λ c s1 hc h1. (c, s1.trace, (Returns-perform (vault c Call.root_status) s1 status s' h1).0)

module _ ⦃w : World⦄ (srv : Server) (hash : String) where
  -- How the update goes on with one more key, whose token is the one in which Vault wrapped it: the tokens are kept, or the changes by which the
  -- commit and Vault differ are attempted.
  pub record Continues (r : Request) (auth : AuthInfo) (key : String) (start : State)
      (tokens : List String) (response : Response) (s' : State) : Type 0 where
    pub changes : List PolicyDiff
    pub compared : (compare_github_vault auth hash start).0 ≡ done changes
    pub token : String
    pub is_token : IsToken token
    pub is_wrapped : IsWrapped srv key token
    pub status : RootStatus
    pub asked : List Effect
    pub client : Client
    pub answered : w.answer asked (vault client Call.root_status) ≡ ok status
    pub next :
        ((suc (length tokens) < status.required)
          × (progress_response (suc (length tokens)) status.required ≡ response)
          × HoldsTokens srv hash (tokens ++ token ∷ []) s')
        ⊎ ((status.required ≤ suc (length tokens))
            × ((s1 : State) × HoldsTokens srv hash tokens s1
                × Returns (attempt_changes r hash changes (tokens ++ token ∷ [])) s1 response s'))

  with_commit_tokens-next :
      (r : Request) (changes : List PolicyDiff) (status : RootStatus) (tokens : List String)
      (token : String) (s : State) (response : Response) (s' : State)
      → HoldsTokens srv hash tokens s
      → IsToken token
      → Returns (with_commit_tokens r hash changes status (tokens ++ token ∷ [])) s response s'
      → ((suc (length tokens) < status.required)
          × (progress_response (suc (length tokens)) status.required ≡ response)
          × HoldsTokens srv hash (tokens ++ token ∷ []) s')
        ⊎ ((status.required ≤ suc (length tokens))
            × ((s1 : State) × HoldsTokens srv hash tokens s1
                × Returns (attempt_changes r hash changes (tokens ++ token ∷ [])) s1 response s'))
  unfolding with_commit_tokens
  with_commit_tokens-next r changes status tokens token s response s' p t h =
      let ts = tokens ++ token ∷ [] in
      let one = length-append_one tokens token in
      let keep = keep_tokens hash status ts in
      let attempt = attempt_changes r hash changes ts in
      elim (Bool-cases (ltb (length ts) status.required)) [
        | inl b ↦
            let keeps = subst (λ x. Returns (if x then keep else attempt) s response s') b h in
            let (e, q) =
              keep_tokens-Returns srv hash status tokens ts s response s' p
                (append_one-ne-nil tokens token)
                (All-append IsToken tokens (token ∷ []) p.plain (t, tt)) keeps in
            inl (
              subst (λ n. n < status.required) one (ltb-lt _ _ b),
              subst (λ n. progress_response n status.required ≡ response) one e,
              q,
            )
        | inr b ↦ inr (
          subst (λ n. status.required ≤ n) one (ltb-le _ _ b),
          (s, p, subst (λ x. Returns (if x then keep else attempt) s response s') b h),
        )
      ]

  -- Of a commit's update. If Vault's cubbyhole stores and its tokens are plain: from a state in which
  -- these tokens are stored for the commit, an unseal key for which an answer is returned adds one
  -- token, the one that Vault answered, for an hour, to the server's token that asked it to wrap this
  -- key. While there are fewer than Vault requires, the longer list is stored and the answer is its
  -- length and the number required; else the changes by which the commit and Vault differed at the
  -- start are attempted, with exactly the stored tokens, in their order, and the new one behind them.
  pub update_by_commit_hash-Continues :
      (v : IsReliable) (r : Request) (auth : AuthInfo) (key : String) (tokens : List String)
      (s : State) (response : Response) (s' : State)
      → HoldsTokens srv hash tokens s
      → Returns (update_by_commit_hash r auth hash key) s response s'
      → Continues r auth key s tokens response s'
  unfolding update_by_commit_hash
  update_by_commit_hash-Continues v r auth key tokens s response s' p h =
      from_first _ _ s response s' h λ changes s1 hc h1.
        from_first _ _ s1 response s' h1 λ o s2 hr h2.
          from_first _ _ s2 response s' h2 λ token s3 hw h3.
            from_first _ _ s3 response s' h3 λ earlier s4 he h4.
              from_first _ _ s4 response s' h4 λ status s5 hs h5.
                let compare = compare_github_vault auth hash in
                let read = read_from_cubbyhole (tokens_path hash) in
                let wrap = wrap_data "60m" (("unseal_token", str key) ∷ []) in
                let p1 =
                  HoldsTokens-at srv hash (on_error bad_comparison compare) tokens s changes s1
                    (λ x.
                      Keeps-on_error bad_comparison compare (Keeps-compare_github_vault auth hash))
                    hc p in
                let p2 =
                  HoldsTokens-at srv hash (checked read) tokens s1 o s2
                    (λ x. Keeps-on_error parse_error read (Keeps-read (tokens_path hash))) hr p1 in
                let p3 =
                  HoldsTokens-at srv hash (checked wrap) tokens s2 token s3
                    (λ x. Keeps-on_error parse_error wrap (Keeps-wrap_data _ _)) hw p2 in
                let p4 =
                  HoldsTokens-at srv hash (tokens_in (stored_tokens o)) tokens s3 earlier s4
                    (λ x. Keeps-tokens_in (stored_tokens o)) he p3 in
                let p5 =
                  HoldsTokens-at srv hash (checked generate_root_status) tokens s4 status s5
                    (λ x. Keeps-on_error parse_error generate_root_status Keeps-status) hs p4 in
                let holds =
                  read-contents v.cubbyhole s1 o s2 p1.is_stored
                    (Returns-on_error parse_error read s1 o s2 hr) in
                let is_earlier =
                  tokens_in-Returns srv hash tokens o p1.body s3 earlier s4 holds p1.nothing_yet
                    p1.same_tokens p1.plain he in
                let t =
                  wrap_data-Returns v _ _ s2 token s3
                    (Returns-on_error parse_error wrap s2 token s3 hw) in
                let (c, asked, answered) =
                  status-Returns s4 status s5
                    (Returns-on_error parse_error generate_root_status s4 status s5 hs) in
                let last =
                  subst
                    (λ ts.
                      Returns (with_commit_tokens r hash changes status (ts ++ token ∷ [])) s5
                        response s')
                    is_earlier h5 in
                record {
                  changes = changes;
                  compared =
                      ap (λ x. x.0) (Returns-on_error bad_comparison compare s changes s1 hc);
                  token = token;
                  is_token = t;
                  is_wrapped =
                      wrap_data-IsWrapped srv key s2 token s3 p2.is_stored.same_server
                        (Returns-on_error parse_error wrap s2 token s3 hw);
                  status = status;
                  asked = asked;
                  client = c;
                  answered = answered;
                  next =
                      with_commit_tokens-next r changes status tokens token s5 response s' p5 t
                        last;
                }
