-- ===== src/Handlers/Requests/Progress.antt =====
-- The progress of a request: handlers/policy.go, `updatePolicyRequestByChangeID` on a request for
-- which unseal keys were entered before.
use goldfish.Prelude.{◌≡◌, refl, ℕ, suc, String, none}
use goldfish.Types.{AuthInfo, PolicyRequest}
use goldfish.World.{World, Request, RootStatus}
use goldfish.Exec.{State, done, panic, crash, deref, on_error, ◌>>=◌}
use goldfish.Vault.Helper.{read_from_cubbyhole}
use goldfish.Handlers.Requests.Tokens.{tokens_path}
use goldfish.Handlers.Requests.Verify.{load_request}
use goldfish.Handlers.Requests.Update.{earlier_tokens, update_by_change_id}

module _ ⦃w : World⦄ where
  no_tokens :
      (hash : String) (n : ℕ) (s t : State)
      → read_from_cubbyhole (tokens_path hash) s ≡ (done none, t)
      → earlier_tokens hash (suc n) s ≡ (panic, t)
  unfolding earlier_tokens on_error ◌>>=◌ deref crash
  no_tokens hash n s t h = rw (h) refl

  -- A request with progress whose wrapping tokens are gone, as they are behind an attempt that failed:
  -- if the request is found and valid and Vault answers that there is no secret with tokens, then
  -- the update panics, and does nothing behind that answer. So it does for every key that is entered.
  pub update_by_change_id-panics :
      (r : Request) (auth : AuthInfo) (hash key : String) (request : PolicyRequest)
      (status : RootStatus) (n : ℕ) (s t u : State)
      → load_request auth hash "Change appears to be malformed" "Request outdated by vault rekey" s
        ≡ (done (request, status), t)
      → request.progress ≡ suc n
      → read_from_cubbyhole (tokens_path hash) t ≡ (done none, u)
      → update_by_change_id r auth hash key s ≡ (panic, u)
  unfolding update_by_change_id ◌>>=◌
  update_by_change_id-panics r auth hash key request status n s t u found progress gone =
      rw (found, progress, no_tokens hash n t u gone) refl
