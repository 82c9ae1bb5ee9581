-- ===== src/Handlers/Requests/Verify/Ids.antt =====
-- handlers/policy.go, `verifyRequest`: which requests an id may name.
use goldfish.Prelude.{◌≡◌, ◌∙◌, sym, ap, ℕ, ◌^◌, ◌<◌, String, none}
use goldfish.Prelude.Text.Hex.{read_hex, read_hex-format_hex}
use goldfish.Types.{PolicyRequest}
use goldfish.World.{World, ok}
use goldfish.Handlers.Requests.Verify.{verify_request}
use goldfish.Handlers.Requests.Verify.Laws.{verify_request-IsValid}

module _ ⦃w : World⦄ where
  -- the library's hashes are numbers of 64 bits
  abbrev pub HasShortHashes : Type 0
  HasShortHashes = (q : PolicyRequest) (n : ℕ) → w.hash_request q ≡ ok n → n < 2 ^ 64

  -- The id, read as a number in base 16, is the hash.
  read_hex-id :
      (bits : HasShortHashes) (q : PolicyRequest) (id current : String)
      → verify_request q id current ≡ none
      → w.hash_request q ≡ ok (read_hex 0 id)
  read_hex-id bits q id current h =
      let v = (verify_request-IsValid q id current).0 h in
      let e = read_hex-format_hex v.number (bits q v.number v.hashed) in
      v.hashed ∙ ap ok (sym e ∙ ap (read_hex 0) v.same_hash)

  -- If the library's hashes have 64 bits: two requests that `verifyRequest` accepts under the same id,
  -- whatever the policies were then, have the same hash. An id never stands for requests whose hashes
  -- differ, although it is only a text without leading zeros.
  pub verify_request-same_hash :
      (bits : HasShortHashes) (p q : PolicyRequest) (id current later : String)
      → verify_request p id current ≡ none
      → verify_request q id later ≡ none
      → w.hash_request p ≡ w.hash_request q
  verify_request-same_hash bits p q id current later h k =
      read_hex-id bits p id current h ∙ sym (read_hex-id bits q id later k)
