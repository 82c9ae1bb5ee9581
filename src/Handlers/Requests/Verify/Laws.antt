-- ===== src/Handlers/Requests/Verify/Laws.antt =====
-- handlers/policy.go: what `verifyRequest` accepts.
use goldfish.Prelude.{◌≡◌, ◌↔◌, refl, arith, ℕ, String, true, false, ◌==◌, eq_iff, none}
use goldfish.Prelude.Text.{format_hex}
use goldfish.Types.{PolicyRequest}
use goldfish.World.{World, Result, ok, err}
use goldfish.Handlers.Requests.Verify.{is_ok, hash_matches, verify_request}

module _ ⦃w : World⦄ where
  -- What a request has to be to be shown or applied.
  pub record IsValid (request : PolicyRequest) (hash policy_current : String) : Type 0 where
    pub number : ℕ
    pub hashed : w.hash_request request ≡ ok number
    pub same_hash : format_hex number ≡ hash
    pub not_outdated : policy_current ≡ request.current
    pub parses : w.parse_hcl request.new ≡ ok tt
    pub changes : policy_current == request.new ≡ false

  matches-hash :
      (r : Result ℕ) (hash : String)
      → hash_matches r hash ≡ true
      → (n : ℕ) × (r ≡ ok n) × (format_hex n ≡ hash)
  matches-hash (ok n) hash h = (n, refl, (eq_iff _ _).0 h)
  matches-hash (err e) hash h = cc

  -- `verifyRequest` accepts a request if and only if: its hash can be computed, and is the change id in
  -- hexadecimal; the policy is still as it was when the request was made; the proposed text parses
  -- as HCL; and it is not what the policy is already.
  pub verify_request-IsValid :
      (request : PolicyRequest) (hash policy_current : String)
      → (verify_request request hash policy_current ≡ none) ↔ IsValid request hash policy_current
  unfolding verify_request
  verify_request-IsValid request hash policy_current = (accepted, accepts)
    where
      tests :
          verify_request request hash policy_current ≡ none
          → (hash_matches (w.hash_request request) hash ≡ true)
            × ((policy_current == request.current) ≡ true)
            × (is_ok (w.parse_hcl request.new) ≡ true)
            × ((policy_current == request.new) ≡ false)
      tests h = ground (arith, h)

      parsed : (r : Result (Unit {0})) → is_ok r ≡ true → r ≡ ok tt
      parsed (ok tt) h = refl
      parsed (err e) h = cc

      accepted :
          verify_request request hash policy_current ≡ none → IsValid request hash policy_current
      accepted h =
          let (a, b, c, d) = tests h in
          let (n, e, q) = matches-hash (w.hash_request request) hash a in
          record {
            number = n;
            hashed = e;
            same_hash = q;
            not_outdated = (eq_iff _ _).0 b;
            parses = parsed (w.parse_hcl request.new) c;
            changes = d;
          }

      accepts :
          IsValid request hash policy_current → verify_request request hash policy_current ≡ none
      accepts v =
          rw
            (
              v.hashed,
              (eq_iff _ _).1 v.same_hash,
              (eq_iff _ _).1 v.not_outdated,
              v.parses,
              v.changes,
            )
            refl
