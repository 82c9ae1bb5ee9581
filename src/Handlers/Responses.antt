-- ===== src/Handlers/Responses.antt =====
-- handlers/handlers.go: JSON responses, and the translation of Vault's errors.
use goldfish.Prelude.{ℕ, String, ◌<>◌, Option, none, some, List, [], ◌∷◌, ℤ, pos, get_elem?}
use goldfish.Prelude.Text.{split, scan_int}
use goldfish.Json.{Value, str, Dict}

-- `c.JSON(status, body)`
pub record Response : Type 0 where
  pub status : ℤ
  pub body : Dict

abbrev pub error_response : ℕ → String → Response
error_response status text = record { status = pos status; body = ("error", str text) ∷ [] }

abbrev pub result_response : Value → Response
result_response v = record { status = pos 200; body = ("result", v) ∷ [] }

abbrev pub bad_request : ℕ
bad_request = 400

abbrev pub forbidden : ℕ
forbidden = 403

abbrev pub internal_error : ℕ
internal_error = 500

abbrev pub second : List String → Option String
second parts = get_elem? parts 1

-- `code := 500; fmt.Sscanf(text, "%d", &code)`
abbrev pub code_in : String → ℤ
code_in text = elim (scan_int text) [ none ↦ pos 500 | some code ↦ code ]

abbrev pub vault_response : Option String → Option String → Response
vault_response (some code) (some message) = record {
  status = code_in code;
  body = ("error", str ("Vault: " <> message)) ∷ [];
}
vault_response _ _ = error_response internal_error "Invalid vault response"

-- `parseError`: the status that Vault's error names, and its first message
unfoldable pub parse_error : String → Response
parse_error text = vault_response (second (split text "Code:")) (second (split text "*"))
