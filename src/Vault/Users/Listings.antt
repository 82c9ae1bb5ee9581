-- ===== src/Vault/Users/Listings.antt =====
-- vault/user.go: which tokens `ListUsers` returns.
use goldfish.Prelude.{
  ◌≡◌, ◌∙◌, ◌⊎◌, arith, refl, sym, ap, inl, inr, ℕ, zero, suc, ◌+◌, ◌<◌, String, Option, none, some,
  List, [], ◌∷◌, length, get_elem?, ℤ, pos,
}
use mathlib.Core.Path.{subst}
use goldfish.Json.{Value, null}
use goldfish.World.{World, Result, ok, err, Client, Call, Secret, Effect, Answer, vault}
use goldfish.Exec.{State, Flow, done, caught, lift_result, expect, deref, perform, try}
use goldfish.Exec.Runs.{
  Returns, from_first, performed, Returns-pure, Returns-deref, Returns-expect, Returns-try,
  Returns-perform,
}
use goldfish.Vault.Clients.{call}
use goldfish.Vault.Users.{
  Listing, tokens, page_limit, accessor_at, from_map, token_entry, list_keys, lookup_accessor,
  fetch_tokens, list_tokens,
}
use goldfish.Vault.Users.Pages.{Page, page_limit-in_range}

-- the call that looks an accessor up
abbrev pub lookup_of : Value → Call
lookup_of accessor = Call.write "auth/token/lookup-accessor" (some (("accessor", accessor) ∷ []))

module _ ⦃w : World⦄ where
  -- What the listing has for an accessor: what Vault answered of it, or nothing if Vault answered by an
  -- error.
  pub record IsEntry (c : Client) (accessor entry : Value) : Type 0 where
    pub before : List Effect
    pub answered :
        ((e : String) × (w.answer before (vault c (lookup_of accessor)) ≡ err e) × (entry ≡ null))
        ⊎ ((secret : Secret) × (w.answer before (vault c (lookup_of accessor)) ≡ ok (some secret))
            × (entry ≡ from_map secret.data_map))

  -- a place of the list of accessors, and the place of the listing that belongs to it
  pub record IsEntryAt (c : Client) (from to : Option Value) : Type 0 where
    pub accessor : Value
    pub entry : Value
    pub has_accessor : from ≡ some accessor
    pub has_entry : to ≡ some entry
    pub is_entry : IsEntry c accessor entry

  -- A page of a listing of tokens: each of its places has the entry for the accessor at the place behind
  -- the offset.
  pub record IsPage (c : Client) (accessors : List Value) (offset : ℕ) (listing : Listing)
      : Type 0 where
    pub found : List Value
    pub is_tokens : listing ≡ tokens found
    pub page : Page (length accessors) offset (length found)
    pub entries :
        (i : ℕ)
        → i < length found
        → IsEntryAt c (get_elem? accessors (i + offset)) (get_elem? found i)

  tried :
      (e : Effect) (s s' : State)
      → Returns {E = String} (try (perform e)) s none s'
      → (m : String) × (w.answer s.trace e ≡ err m)
  unfolding try perform
  tried e s s' h = go (w.answer s.trace e) refl h
    where
      go :
          (r : Result (Answer e))
          → w.answer s.trace e ≡ r
          → ◌≡◌ {A = Flow String (Option (Answer e)) × State}
              (caught {F = String} (lift_result r), performed e s)
              (done none, s')
          → (m : String) × (w.answer s.trace e ≡ err m)
      go (ok a) q h = cc
      go (err m) q h = (m, q)

  lookup_accessor-IsEntry :
      (c : Client) (accessor entry : Value) (s s' : State)
      → Returns (lookup_accessor c accessor) s entry s'
      → IsEntry c accessor entry
  unfolding lookup_accessor call
  lookup_accessor-IsEntry c accessor entry s s' h =
      from_first (try (perform (vault c (lookup_of accessor)))) token_entry s entry s' h go
    where
      go :
          (o : Option (Option Secret)) (s1 : State)
          → Returns {E = String} (try (perform (vault c (lookup_of accessor)))) s o s1
          → Returns (token_entry o) s1 entry s'
          → IsEntry c accessor entry
      go none s1 h1 h2 =
          let (m, e) = tried (vault c (lookup_of accessor)) s s1 h1 in
          record {
            before = s.trace;
            answered = inl (m, e, sym (Returns-pure null entry s1 s' h2).0);
          }
      go (some resp) s1 h1 h2 = from_first (deref resp) _ s1 entry s' h2 λ secret s2 hd h3.
          let (a, q) =
            Returns-perform (vault c (lookup_of accessor)) s resp s1 (Returns-try _ s resp s1 h1) in
          let (is_some, q2) = Returns-deref resp secret s1 s2 hd in
          record {
            before = s.trace;
            answered = inr (secret, a ∙ ap ok is_some, sym (Returns-pure _ entry s2 s' h3).0);
          }

  fetched :
      (c : Client) (accessors : List Value) (offset : ℤ) (rounds i : ℕ) (s : State)
      (found : List Value) (s' : State)
      → Returns (fetch_tokens c accessors offset rounds i) s found s'
      → (length found ≡ rounds)
        × ((j : ℕ)
            → j < rounds
            → IsEntryAt c (accessor_at accessors offset (i + j)) (get_elem? found j))
  unfolding fetch_tokens
  fetched c accessors offset zero i s found s' h =
      let e = (Returns-pure [] found s s' h).0 in
      (ap length (sym e), λ j l. absurd (omega (arith, l)))
  fetched c accessors offset (suc rounds) i s found s' h =
      from_first (deref (accessor_at accessors offset i)) _ s found s' h λ a s1 ha h1.
        from_first (lookup_accessor c a) _ s1 found s' h1 λ v s2 hv h2.
          from_first (fetch_tokens c accessors offset rounds (i + 1)) _ s2 found s' h2
            λ rest s3 hr h3.
              let e = (Returns-pure (v ∷ rest) found s3 s' h3).0 in
              let (long, each) = fetched c accessors offset rounds (i + 1) s2 rest s3 hr in
              let first : IsEntryAt c (accessor_at accessors offset i) (some v) = record {
                accessor = a;
                entry = v;
                has_accessor = (Returns-deref _ a s s1 ha).0;
                has_entry = refl;
                is_entry = lookup_accessor-IsEntry c a v s1 s2 hv;
              } in
              subst
                (λ xs.
                  (length xs ≡ suc rounds)
                  × ((j : ℕ)
                      → j < suc rounds
                      → IsEntryAt c (accessor_at accessors offset (i + j)) (get_elem? xs j)))
                e (ap suc long, place i rest first each)
    where
      place :
          {rounds : ℕ} {v : Value} (i : ℕ) (rest : List Value)
          → IsEntryAt c (accessor_at accessors offset i) (some v)
          → ((j : ℕ)
              → j < rounds
              → IsEntryAt c (accessor_at accessors offset (i + 1 + j)) (get_elem? rest j))
          → (j : ℕ) → j < suc rounds
          → IsEntryAt c (accessor_at accessors offset (i + j)) (get_elem? (v ∷ rest) j)
      place {v = v} i rest first each zero l =
          let e : i ≡ i + 0 = omega arith in
          subst (λ n. IsEntryAt c (accessor_at accessors offset n) (some v)) e first
      place i rest first each (suc j) l =
          let e : i + 1 + j ≡ i + suc j = omega arith in
          subst (λ n. IsEntryAt c (accessor_at accessors offset n) (get_elem? rest j)) e
            (each j (omega (arith, l)))

  -- A listing of tokens from an offset that is not negative: if the list of accessors is read and
  -- the listing returns, its place i has what Vault answered, to this client, for the accessor at the
  -- place offset + i, or nothing if Vault answered by an error; and it has 300 places or all from the
  -- offset to the end, and never more than 300.
  pub list_tokens-IsPage :
      (c : Client) (accessors : List Value) (offset : ℕ) (s t : State) (listing : Listing)
      → list_keys c "auth/token/accessors" s ≡ (done accessors, t)
      → (list_tokens c (pos offset) s).0 ≡ done listing
      → IsPage c accessors offset listing
  unfolding list_tokens accessor_at
  list_tokens-IsPage c accessors offset s t listing h e =
      let s' = (list_tokens c (pos offset) s).1 in
      let run : Returns (list_tokens c (pos offset)) s listing s' =
        ap {B = Flow String Listing × State} (λ r. (r, s')) e in
      from_first (list_keys c "auth/token/accessors") _ s listing s' run λ xs s1 hx h1.
        let same : xs ≡ accessors = cc in
        from_first (expect (page_limit (length xs) (pos offset)) "Offset out of bound") _ s1 listing
          s' h1
          λ limit s2 hl h2.
            from_first (fetch_tokens c xs (pos offset) limit 0) _ s2 listing s' h2 λ found s3 hf h3.
              let in_bounds = (Returns-expect _ _ limit s1 s2 hl).0 in
              let (long, each) = fetched c xs (pos offset) limit 0 s2 found s3 hf in
              let behind : (j : ℕ) → 0 + j + offset ≡ j + offset = λ j. omega arith in
              let is_tokens = (Returns-pure (tokens found) listing s3 s' h3).0 in
              subst (λ ys. IsPage c ys offset listing) same
                (record {
                  found = found;
                  is_tokens = sym is_tokens;
                  page =
                      subst (Page (length xs) offset) (sym long)
                        (page_limit-in_range xs offset limit in_bounds).0;
                  entries = λ j l.
                      subst (λ n. IsEntryAt c (get_elem? xs n) (get_elem? found j)) (behind j)
                        (each j (subst (λ n. j < n) long l));
                })
