-- ===== src/Handlers/Requests/Cleanup.antt =====
-- What an attempt to change a policy leaves behind: handlers/policy.go, the deferred calls of
-- `updatePolicyRequestByChangeID`.
pub mod Discards
use goldfish.Prelude.{none, ◌≡◌, ◌∙◌, sym, refl, String, ◌<>◌, Bool, false, ltb, List, ◌∷◌, length}
use goldfish.Types.{AuthInfo, PolicyRequest, PolicyDiff}
use goldfish.World.{World, Request, RootStatus, ok, Client, Secret, Call, Effect, connect, vault}
use goldfish.Exec.{
  State, Server, Flow, continue, done, exit, panic, Exec, gets, pure, perform, defer, ◌>>=◌,
}
use goldfish.Vault.Clients.{new_vault_client, client, call}
use goldfish.Vault.Auth.{revoke_self}
use goldfish.Vault.Helper.{delete_from_cubbyhole}
use goldfish.Handlers.Responses.{Response}
use goldfish.Handlers.Requests.Tokens.{requests_path, tokens_path}
use mathlib.Core.Path.{subst}
use goldfish.Exec.Trace.{none_yet}
use goldfish.Trust.Calls.{IsTrusted}
use goldfish.Trust.Requests.{Keeps-discard_tokens, Keeps-attempt_changes}
use goldfish.Trust.Changes.{Keeps-attempt_change}
use goldfish.Handlers.Requests.Root.{root_auth}
use goldfish.Handlers.Requests.Commit.{apply_changes, attempt_changes, with_commit_tokens}
use goldfish.Handlers.Requests.Update.{
  discard_request, discard_tokens, apply_change, attempt_change, with_tokens,
}

module _ ⦃w : World⦄ where
  -- Clients can be made: `api.NewClient` has only local reasons to fail.
  abbrev pub Connects : Type 0
  Connects = (t : List Effect) (skip_tls : Bool) → w.answer t (connect skip_tls) ≡ ok tt

  -- The last call was by this client and deleted this path of its cubbyhole.
  pub record Deleted (api : Client) (path : String) (t : List Effect) : Type 0 where
    pub earlier : List Effect
    pub is_last : t ≡ vault api (Call.delete ("cubbyhole/" <> path)) ∷ earlier

  delete-trace :
      (path : String) (s : State)
      → Connects
      → (delete_from_cubbyhole path s).1.trace
        ≡ vault s.server.vault_client (Call.delete ("cubbyhole/" <> path))
          ∷ connect s.server.vault_skip_tls
          ∷ s.trace
  unfolding delete_from_cubbyhole new_vault_client perform ◌>>=◌ gets pure call
  delete-trace path s c = rw (c s.trace s.server.vault_skip_tls) refl

  continue-state :
      {E A : Type 0} (r : Flow E A) (s : State) → (continue r (λ _. pure {E = E} tt) s).1 ≡ s
  unfolding pure
  continue-state (done a) s = refl
  continue-state (exit e) s = refl
  continue-state panic s = refl

  discard_tokens-trace :
      (hash : String) (s : State)
      → (discard_tokens hash s).1 ≡ (delete_from_cubbyhole (tokens_path hash) s).1
  unfolding discard_tokens ◌>>=◌
  discard_tokens-trace hash s = continue-state _ _

  discard_request-trace :
      (hash : String) (s : State)
      → (discard_request hash s).1 ≡ (delete_from_cubbyhole (requests_path hash) s).1
  unfolding discard_request ◌>>=◌
  discard_request-trace hash s = continue-state _ _

  pub discards :
      (hash : String) (s : State)
      → Connects
      → Deleted s.server.vault_client (tokens_path hash) (discard_tokens hash s).1.trace
  discards hash s c = record {
    earlier = connect s.server.vault_skip_tls ∷ s.trace;
    is_last = rw (discard_tokens-trace hash s) (delete-trace (tokens_path hash) s c);
  }

  -- Vault answers the lookup of the token.
  abbrev pub LooksUp : String → Type 0
  LooksUp token =
      (t : List Effect) (c : Client)
      → c.token ≡ token
      → (found : Secret) × (w.answer t (vault c Call.lookup_self) ≡ ok found)

  -- The last calls revoked this token and then deleted this path.
  pub record Revoked (token path : String) (t : List Effect) : Type 0 where
    pub user : Client
    pub api : Client
    pub skip_tls : Bool
    pub earlier : List Effect
    pub same_token : user.token ≡ token
    pub are_last :
        t
        ≡ vault api (Call.delete ("cubbyhole/" <> path))
          ∷ connect skip_tls
          ∷ vault user Call.revoke_self
          ∷ earlier

  revokes :
      (token : String) (s : State)
      → Connects
      → LooksUp token
      → (user : Client) × (t : List Effect) × (user.token ≡ token)
        × ((revoke_self (root_auth token) s).1.trace ≡ vault user Call.revoke_self ∷ t)
  unfolding revoke_self client new_vault_client call perform ◌>>=◌ gets pure
  revokes token s c l =
      let user : Client = record {
        address = s.server.vault_address;
        skip_tls = s.server.vault_skip_tls;
        token = token;
        wrap_ttl = none;
      } in
      let t = connect s.server.vault_skip_tls ∷ s.trace in
      let (found, e) = l t user refl in
      (user, vault user Call.lookup_self ∷ t, refl, rw (c s.trace s.server.vault_skip_tls, e) refl)

  deferred :
      (hash token : String) (m : Exec Response Response) (s : State)
      → Connects
      → LooksUp token
      → Revoked token
          (requests_path hash)
          (defer (discard_request hash) (defer (revoke_self (root_auth token)) m) s).1.trace
  unfolding defer
  deferred hash token m s c l =
      let (user, t, e, q) = revokes token (m s).1 c l in
      let s2 = (revoke_self (root_auth token) (m s).1).1 in
      record {
        user = user;
        api = s2.server.vault_client;
        skip_tls = s2.server.vault_skip_tls;
        earlier = t;
        same_token = e;
        are_last =
            rw (discard_request-trace hash s2, delete-trace (requests_path hash) s2 c, q) refl;
      }

  -- If clients can be made and Vault answers the lookup of the generated root token: whether the
  -- change succeeds, fails or panics, its last calls to Vault are the revocation of the root token
  -- and, behind it, the deletion of the request.
  pub apply_change-revokes :
      (r : Request) (auth : AuthInfo) (hash : String) (request : PolicyRequest) (token : String)
      (s : State)
      → Connects
      → LooksUp token
      → Revoked token (requests_path hash) (apply_change r auth hash request token s).1.trace
  unfolding apply_change
  apply_change-revokes r auth hash request token s c l = deferred hash token _ s c l

  -- The last call revoked this token.
  pub record IsRevoked (token : String) (t : List Effect) : Type 0 where
    pub user : Client
    pub earlier : List Effect
    pub same_token : user.token ≡ token
    pub is_last : t ≡ vault user Call.revoke_self ∷ earlier

  defer-IsRevoked :
      (token : String) (m : Exec Response Response) (s : State)
      → Connects
      → LooksUp token
      → IsRevoked token (defer (revoke_self (root_auth token)) m s).1.trace
  unfolding defer
  defer-IsRevoked token m s c l =
      let (user, t, e, q) = revokes token (m s).1 c l in
      record { user = user; earlier = t; same_token = e; is_last = q }

  -- If clients can be made and Vault answers the lookup of the generated root token: the last call to
  -- Vault behind the changes of a commit is the revocation of the root token, however many of the
  -- changes were made and whether they succeed, fail or panic.
  pub apply_changes-revokes :
      (r : Request) (changes : List PolicyDiff) (token : String) (s : State)
      → Connects
      → LooksUp token
      → IsRevoked token (apply_changes r changes token s).1.trace
  unfolding apply_changes
  apply_changes-revokes r changes token s c l = defer-IsRevoked token _ s c l
