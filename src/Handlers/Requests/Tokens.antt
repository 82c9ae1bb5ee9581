-- ===== src/Handlers/Requests/Tokens.antt =====
-- handlers/policy.go: the wrapping tokens of the unseal keys that were entered so far, kept in the
-- cubbyhole as one text.
pub mod Pieces
pub mod RoundTrip
use goldfish.Prelude.{ℕ, String, ◌<>◌, ◌||◌, Bool, Option, some, List, [], ◌∷◌, nat_eq}
use goldfish.Prelude.Text.{split, join, split_fields, sprint, trim}
use goldfish.Json.{str, get, as_string}
use goldfish.World.{World, Secret}
use goldfish.Exec.{Exec, pure, deref, expect, ◌>>=◌}
use goldfish.Vault.Helper.{unwrap_data, write_to_cubbyhole}
use goldfish.Handlers.Responses.{Response, error_response, internal_error}
use goldfish.Handlers.Session.{checked}

abbrev pub is_bracket : ℕ → Bool
is_bracket c = nat_eq c b'[' || nat_eq c b']'

-- `strings.Trim(strings.Join(strings.Fields(fmt.Sprint(wrappingTokens)), ";"), "[]")`
unfoldable pub encode_tokens : List String → String
unfolding split_fields sprint trim join
encode_tokens tokens = trim is_bracket (join ";" (split_fields (sprint tokens)))

-- `strings.Split(_, ";")`
unfoldable pub decode_tokens : String → List String
unfolding split
decode_tokens text = split text ";"

abbrev pub requests_path : String → String
requests_path hash = "requests/" <> hash

abbrev pub tokens_path : String → String
tokens_path hash = "unseal_wrapping_tokens/" <> hash

abbrev pub timed_out : Response
timed_out = error_response internal_error "One of the wrapping tokens timed out. Progress reset"

module _ ⦃w : World⦄ where
  unfoldable pub store_tokens : String → List String → Exec String (Option Secret)
  unfolding encode_tokens
  store_tokens hash tokens =
      write_to_cubbyhole (tokens_path hash) (("wrapping_tokens", str (encode_tokens tokens)) ∷ [])

  -- The loop that unwraps the unseal keys.
  unfoldable pub unwrap_all : List String → Exec Response (List String)
  unwrap_all [] = pure []
  unwrap_all (token ∷ tokens) = do
    body ← checked (unwrap_data token)
    unseal ← expect (get body "unseal_token") timed_out
    key ← deref (as_string (some unseal))
    keys ← unwrap_all tokens
    pure (key ∷ keys)
