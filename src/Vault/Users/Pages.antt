-- ===== src/Vault/Users/Pages.antt =====
-- vault/user.go: which accessors `ListUsers` reads for an offset.
use goldfish.Prelude.{
  ◌≡◌, refl, ap, arith, ℕ, zero, suc, ◌+◌, ◌≤◌, ◌<◌, ◌⊎◌, true, false, some, List, [], ◌∷◌, ltb,
  length, get_elem?, if◌then◌else◌, pos, negsuc,
}
use goldfish.Json.{Value}
use goldfish.World.{World, Client}
use goldfish.Exec.{State, done, panic, pure, crash, deref, expect, ◌>>=◌}
use goldfish.Vault.Users.{page_size, page_limit, accessor_at, list_keys, fetch_tokens, list_tokens}

in_range : {A : Type 0} (xs : List A) (i : ℕ) → i < length xs → (x : A) × (get_elem? xs i ≡ some x)
in_range [] i h = let e : ⊥ = omega (arith, h) in absurd e
in_range (x ∷ xs) zero h = (x, refl)
in_range (x ∷ xs) (suc i) h = in_range xs i (omega (arith, h))

-- What a limit is right for: the rounds stay in range, and stop at 300 or at the end.
pub record Page (n offset limit : ℕ) : Type 0 where
  pub fits : offset + limit ≤ n
  pub small : limit ≤ page_size
  pub fills : (limit ≡ page_size) ⊎ (offset + limit ≡ n)

-- An offset that is not negative and that passes the tests: the page has at most 300 accessors, has
-- 300 or reaches the end of the list, and every round of the loop finds its accessor.
pub page_limit-in_range :
    (accessors : List Value) (offset limit : ℕ)
    → page_limit (length accessors) (pos offset) ≡ some limit
    → Page (length accessors) offset limit
      × ((i : ℕ) → i < limit → (a : Value) × (accessor_at accessors (pos offset) i ≡ some a))
unfolding page_limit accessor_at
page_limit-in_range accessors offset limit h =
    let page : Page (length accessors) offset limit = record {
      fits = ground (arith, h);
      small = ground (arith, h);
      fills = ground (arith, h);
    } in
    (page, λ i l. in_range accessors (i + offset) (omega (arith, l, page.fits)))

module _ ⦃w : World⦄ where
  fetch-panics :
      (c : Client) (accessors : List Value) (k rounds : ℕ) (s : State)
      → fetch_tokens c accessors (negsuc k) (suc rounds) 0 s ≡ (panic, s)
  unfolding fetch_tokens accessor_at deref crash ◌>>=◌
  fetch-panics c accessors k rounds s = ground arith

  negative_limit : (n k : ℕ) → (rounds : ℕ) × (page_limit n (negsuc k) ≡ some (suc rounds))
  unfolding page_limit
  negative_limit n k =
      elim (ltb (n + suc k) page_size)
        as (λ b.
          (rounds : ℕ) × ((if b then some (n + suc k) else some page_size) ≡ some (suc rounds))) [
            | true ↦ (n + k, ap some (omega arith))
            | false ↦ (299, refl)
          ]

  -- A negative offset: once the list of accessors is read, the listing of tokens panics, with no
  -- lookup made.
  pub list_tokens-panics :
      (c : Client) (accessors : List Value) (k : ℕ) (s t : State)
      → list_keys c "auth/token/accessors" s ≡ (done accessors, t)
      → list_tokens c (negsuc k) s ≡ (panic, t)
  unfolding list_tokens expect ◌>>=◌ pure
  list_tokens-panics c accessors k s t h =
      let (rounds, e) = negative_limit (length accessors) k in
      rw (h, e, fetch-panics c accessors k rounds t) refl
