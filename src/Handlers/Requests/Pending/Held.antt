-- ===== src/Handlers/Requests/Pending/Held.antt =====
-- handlers/policy.go, `updatePolicyRequestByCommitHash`: the tokens that are held for a commit.
use goldfish.Prelude.{
  ◌≡◌, ◌≢◌, ◌∙◌, refl, sym, ap, String, Option, none, some, List, [], ◌∷◌, ◌++◌, All, length,
}
use mathlib.Core.Path.{subst}
use goldfish.Json.{Dict, get, lookup}
use goldfish.World.{World, RootStatus, Secret}
use goldfish.Exec.{State, Server, Exec}
use goldfish.Exec.Keeps.{Keeps}
use goldfish.Exec.Runs.{Returns, from_first, Returns-pure, Returns-deref, Returns-on_error}
use goldfish.Handlers.Responses.{Response}
use goldfish.Handlers.Requests.Tokens.{tokens_path, encode_tokens, decode_tokens, store_tokens}
use goldfish.Handlers.Requests.Tokens.Pieces.{IsToken}
use goldfish.Handlers.Requests.Tokens.RoundTrip.{decode_tokens-encode_tokens}
use goldfish.Handlers.Requests.Update.{progress_response}
use goldfish.Handlers.Requests.Commit.{stored_tokens, tokens_in, keep_tokens}
use goldfish.Handlers.Requests.Memory.{contents, HasStored}
use goldfish.Handlers.Requests.Memory.Cells.{write-HasStored}
use goldfish.Handlers.Requests.Pending.{some-inj, tokens_body}

pub append_one-ne-nil : (ts : List String) (t : String) → ts ++ t ∷ [] ≢ []
append_one-ne-nil [] t h = cc
append_one-ne-nil (x ∷ ts) t h = cc

module _ ⦃w : World⦄ (srv : Server) (hash : String) where
  -- The tokens that are stored for a commit; nothing is stored before the first.
  pub record HoldsTokens (tokens : List String) (s : State) : Type 0 where
    pub body : Option Dict
    pub is_stored : HasStored srv (tokens_path hash) body s
    pub nothing_yet : tokens ≡ [] → body ≡ none
    pub same_tokens : tokens ≢ [] → body ≡ some (tokens_body tokens)
    pub plain : All IsToken tokens

  pub HoldsTokens-at :
      {A : Type 0} (m : Exec Response A) (tokens : List String) (s : State) (a : A) (s' : State)
      → ((v : Option Dict) → Keeps (HasStored srv (tokens_path hash) v) m)
      → Returns m s a s'
      → HoldsTokens tokens s
      → HoldsTokens tokens s'
  HoldsTokens-at m tokens s a s' k h p = record {
    body = p.body;
    is_stored = subst (HasStored srv _ _) (ap (λ x. x.1) h) ((k _).at s p.is_stored);
    nothing_yet = p.nothing_yet;
    same_tokens = p.same_tokens;
    plain = p.plain;
  }

  -- the tokens that are read are those that are stored
  pub tokens_in-Returns :
      (tokens : List String) (o : Option Secret) (body : Option Dict) (s : State)
      (earlier : List String) (s' : State)
      → contents o ≡ body
      → (tokens ≡ [] → body ≡ none)
      → (tokens ≢ [] → body ≡ some (tokens_body tokens))
      → All IsToken tokens
      → Returns (tokens_in (stored_tokens o)) s earlier s'
      → earlier ≡ tokens
  unfolding tokens_in get lookup tokens_body
  tokens_in-Returns [] none body s earlier s' c e n plain h =
      let (q, r) = Returns-pure [] earlier s s' h in sym q
  tokens_in-Returns [] (some secret) body s earlier s' c e n plain h =
      let holds : secret.data_map ≡ none = c ∙ e refl in
      let h' = subst (λ x. Returns (tokens_in (get x "wrapping_tokens")) s earlier s') holds h in
      let (q, r) = Returns-pure [] earlier s s' h' in sym q
  tokens_in-Returns (p ∷ ps) none body s earlier s' c e n plain h =
      let bad : none ≡ some (tokens_body (p ∷ ps)) = c ∙ n (λ z. cc) in cc
  tokens_in-Returns (p ∷ ps) (some secret) body s earlier s' c e n plain h =
      let holds : secret.data_map ≡ some (tokens_body (p ∷ ps)) = c ∙ n (λ z. cc) in
      let h' = subst (λ x. Returns (tokens_in (get x "wrapping_tokens")) s earlier s') holds h in
      from_first _ _ s earlier s' h' λ text s1 ht h1.
        let (is_text, q1) = Returns-deref (some (encode_tokens (p ∷ ps))) text s s1 ht in
        let (q, r) = Returns-pure (decode_tokens text) earlier s1 s' h1 in
        sym q
        ∙ ap decode_tokens (some-inj _ _ (sym is_text))
        ∙ decode_tokens-encode_tokens p ps plain

  pub keep_tokens-Returns :
      (status : RootStatus) (tokens new : List String) (s : State) (response : Response)
      (s' : State)
      → HoldsTokens tokens s
      → new ≢ []
      → All IsToken new
      → Returns (keep_tokens hash status new) s response s'
      → (progress_response (length new) status.required ≡ response) × HoldsTokens new s'
  unfolding keep_tokens store_tokens tokens_body
  keep_tokens-Returns status tokens new s response s' p some_new plain h =
      from_first _ _ s response s' h λ o s1 h1 r1.
        let w1 = Returns-on_error _ (store_tokens hash new) s o s1 h1 in
        let (e, q) = Returns-pure _ response s1 s' r1 in
        (
          e,
          record {
            body = some (tokens_body new);
            is_stored =
                subst (HasStored srv _ _) (sym q)
                  (write-HasStored (tokens_body new) s o s1 p.is_stored w1);
            nothing_yet = λ n. absurd (some_new n);
            same_tokens = λ n. refl;
            plain = plain;
          },
        )
