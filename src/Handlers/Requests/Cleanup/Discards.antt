-- ===== src/Handlers/Requests/Cleanup/Discards.antt =====
-- The wrapping tokens behind an attempt to change a policy: handlers/policy.go, the deferred deletion of
-- the two updates.
use goldfish.Prelude.{◌≡◌, ◌∙◌, sym, refl, String, false, ltb, List, length}
use goldfish.Types.{AuthInfo, PolicyRequest, PolicyDiff}
use goldfish.World.{World, Request, RootStatus}
use goldfish.Exec.{State, Server, Exec, defer}
use goldfish.Handlers.Responses.{Response}
use goldfish.Handlers.Requests.Tokens.{tokens_path}
use mathlib.Core.Path.{subst}
use goldfish.Exec.Trace.{none_yet}
use goldfish.Trust.Calls.{IsTrusted}
use goldfish.Trust.Requests.{Keeps-discard_tokens, Keeps-attempt_changes}
use goldfish.Trust.Changes.{Keeps-attempt_change}
use goldfish.Handlers.Requests.Commit.{attempt_changes, with_commit_tokens}
use goldfish.Handlers.Requests.Update.{discard_tokens, attempt_change, with_tokens}
use goldfish.Handlers.Requests.Cleanup.{Connects, Deleted, discards}

module _ ⦃w : World⦄ where
  -- the state in which nothing has been done yet
  untouched : (s : State) (user : String) → IsTrusted s user s
  untouched s user = record { same_server = refl; allowed = none_yet }

  discard_tokens-server : (hash : String) (s : State) → (discard_tokens hash s).1.server ≡ s.server
  discard_tokens-server hash s =
      let k : IsTrusted s "" (discard_tokens hash s).1 =
        (Keeps-discard_tokens hash).at s (untouched s "") in
      k.same_server

  -- A block that leaves the server's variables as they are, behind which the tokens are discarded.
  defer-discards :
      (hash : String) (m : Exec Response Response) (s : State)
      → Connects
      → (defer (discard_tokens hash) m s).1.server ≡ s.server
      → Deleted s.server.vault_client (tokens_path hash) (defer (discard_tokens hash) m s).1.trace
  unfolding defer
  defer-discards hash m s c e =
      subst
        (λ (v : Server).
          Deleted v.vault_client (tokens_path hash) (discard_tokens hash (m s).1).1.trace)
        (sym (discard_tokens-server hash (m s).1) ∙ e) (discards hash (m s).1 c)

  attempt-discards :
      (r : Request) (auth : AuthInfo) (hash : String) (request : PolicyRequest)
      (tokens : List String) (s : State)
      → Connects
      → Deleted s.server.vault_client
          (tokens_path hash)
          (attempt_change r auth hash request tokens s).1.trace
  unfolding attempt_change
  attempt-discards r auth hash request tokens s c =
      let k = (Keeps-attempt_change auth r hash request tokens).at s (untouched s auth.id) in
      defer-discards hash _ s c k.same_server

  -- If clients can be made: the last call to Vault of an update that has as many tokens as its
  -- request requires is the deletion of the wrapping tokens of this request, by the client that the
  -- server had at the start, so from the cubbyhole of the server's token, in which they are stored,
  -- whether the update succeeds, ends in an error at any of its steps, or panics.
  pub with_tokens-discards :
      (r : Request) (auth : AuthInfo) (hash : String) (request : PolicyRequest)
      (status : RootStatus) (tokens : List String) (s : State)
      → Connects
      → ltb (length tokens) request.required ≡ false
      → Deleted s.server.vault_client
          (tokens_path hash)
          (with_tokens r auth hash request status tokens s).1.trace
  unfolding with_tokens
  with_tokens-discards r auth hash request status tokens s c h =
      rw (h) (attempt-discards r auth hash request tokens s c)

  attempt_changes-discards :
      (r : Request) (hash : String) (changes : List PolicyDiff) (tokens : List String) (s : State)
      → Connects
      → Deleted s.server.vault_client
          (tokens_path hash)
          (attempt_changes r hash changes tokens s).1.trace
  unfolding attempt_changes
  attempt_changes-discards r hash changes tokens s c =
      let k : IsTrusted s "" (attempt_changes r hash changes tokens s).1 =
        (Keeps-attempt_changes r hash changes tokens).at s (untouched s "") in
      defer-discards hash _ s c k.same_server

  -- If clients can be made: the last call to Vault of an update by a commit hash that has as many tokens
  -- as Vault requires keys is the deletion of the wrapping tokens of this commit, by the client that
  -- the server had at the start, so from the cubbyhole of the server's token, in which they are stored,
  -- whether the update succeeds, ends in an error at any of its steps, or panics.
  pub with_commit_tokens-discards :
      (r : Request) (hash : String) (changes : List PolicyDiff) (status : RootStatus)
      (tokens : List String) (s : State)
      → Connects
      → ltb (length tokens) status.required ≡ false
      → Deleted s.server.vault_client
          (tokens_path hash)
          (with_commit_tokens r hash changes status tokens s).1.trace
  unfolding with_commit_tokens
  with_commit_tokens-discards r hash changes status tokens s c h =
      rw (h) (attempt_changes-discards r hash changes tokens s c)
