-- ===== src/Handlers/Requests/Root.antt =====
-- handlers/policy.go: the generation of a root token from unseal keys, which the two updates share
-- but for the status beside a token that cannot be decoded.
use goldfish.Prelude.{String, Option, none, some, List, [], ◌∷◌, not, ◌==◌, if◌then◌else◌}
use goldfish.Types.{AuthInfo}
use goldfish.World.{World, RootStatus}
use goldfish.Exec.{Exec, pure, leave, gets, require, lift, on_error, try, ◌>>=◌, ◌>>◌}
use goldfish.Vault.Helper.{generate_root_init, generate_root_update, generate_root_cancel}
use goldfish.Handlers.Responses.{Response, error_response, bad_request, internal_error}
use goldfish.Handlers.Session.{checked}

abbrev pub invalid_key : Response
invalid_key =
    error_response bad_request "At least one unseal key was invalid. Progress has been reset."

abbrev pub generation_failed : Response
generation_failed =
    error_response internal_error "Root generation failed. Was vault re-keyed just now?"

-- The credentials of the generated token.
abbrev pub root_auth : String → AuthInfo
root_auth token = record { type = "token"; id = token; pass = "" }

module _ ⦃w : World⦄ where
  -- an invalid key ends the generation
  unfoldable pub cancel_generation : {A : Type 0} → Exec Response A
  cancel_generation = do checked generate_root_cancel; leave invalid_key

  abbrev pub next_status : Option RootStatus → Exec Response RootStatus
  next_status none = cancel_generation
  next_status (some status) = pure status

  -- The loop that feeds the unseal keys, each with the nonce of the answer before.
  unfoldable pub feed : List String → RootStatus → Exec Response RootStatus
  unfolding pure
  feed [] status = pure status
  feed (s ∷ unseals) status = do
    answer ← try (generate_root_update s status.nonce)
    next ← next_status answer
    feed unseals next

  -- `if status.EncodedRootToken == ""`
  unfoldable pub feed_if_needed : List String → RootStatus → Exec Response RootStatus
  unfolding pure
  feed_if_needed unseals status =
      if status.encoded_root_token == "" then feed unseals status else pure status

  -- From the unseal keys to the root token. `undecodable` answers a token that cannot be decoded.
  unfoldable pub generate_root : Response → List String → Exec Response String
  generate_root undecodable unseals = do
    otp ← gets (λ s. w.encode_base64 (w.random_key s.trace 16))
    started ← checked (generate_root_init otp)
    status ← feed_if_needed unseals started
    require (not (status.encoded_root_token == "")) generation_failed
    bytes ← on_error (λ _. undecodable) (lift (w.xor_base64 status.encoded_root_token otp))
    on_error (λ _. undecodable) (lift (w.format_uuid bytes))
