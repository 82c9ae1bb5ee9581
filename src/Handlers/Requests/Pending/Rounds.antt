-- ===== src/Handlers/Requests/Pending/Rounds.antt =====
-- handlers/policy.go, `UpdatePolicyRequest`: a request from its first unseal key to its last.
use goldfish.Prelude.{
  ◌≡◌, ◌∙◌, arith, refl, sym, ap, inl, inr, ℕ, zero, suc, ◌+◌, String, List, [], ◌∷◌, ◌++◌, length,
}
use mathlib.Core.Path.{subst}
use mathlib.Core.List.{append_assoc}
use goldfish.Types.{AuthInfo, PolicyRequest}
use goldfish.World.{World, Request}
use goldfish.Exec.{State, Server, Exec, pure, ◌>>=◌}
use goldfish.Exec.Runs.{Returns, from_first, Returns-pure}
use goldfish.Handlers.Responses.{Response}
use goldfish.Handlers.Requests.Update.{progress_response, attempt_change, update_by_change_id}
use goldfish.Handlers.Requests.Pending.{with_progress, IsReliable, IsPending}
use goldfish.Handlers.Requests.Pending.Steps.{length-append_one}
use goldfish.Handlers.Requests.Pending.Advance.{update_by_change_id-Advances}

-- An unseal key with the request and the credentials of the user who enters it.
pub record Entry : Type 0 where
  pub request : Request
  pub auth : AuthInfo
  pub key : String

-- the answers to so many keys behind `n` others
abbrev pub progress_answers : ℕ → ℕ → ℕ → List Response
progress_answers required n zero = []
progress_answers required n (suc k) =
    progress_response (suc n) required ∷ progress_answers required (suc n) k

module _ ⦃w : World⦄ where
  -- the keys one after the other
  unfoldable pub enter_keys : String → List Entry → Exec Response (List Response)
  enter_keys hash [] = pure []
  enter_keys hash (e ∷ es) = do
    response ← update_by_change_id e.request e.auth hash e.key
    rest ← enter_keys hash es
    pure (response ∷ rest)

  -- The last key has led to an attempt with one token for each key, and the keys before it to answers
  -- with the progress.
  pub record IsAttempted (hash : String) (request : PolicyRequest) (tokens : List String)
      (es : List Entry) (last : Entry) (responses : List Response) (s' : State) : Type 0 where
    pub new : List String
    pub earlier : PolicyRequest
    pub same_request : record earlier { progress = 0 } ≡ record request { progress = 0 }
    pub as_many : length (tokens ++ new) ≡ request.required
    pub response : Response
    pub answers :
        responses ≡ progress_answers request.required (length tokens) (length es) ++ response ∷ []
    pub before : State
    pub attempt :
        Returns
          (attempt_change last.request last.auth hash earlier (tokens ++ new))
          before
          response
          s'

module _ ⦃w : World⦄ (srv : Server) (v : IsReliable) (hash : String) (request : PolicyRequest)
    (last : Entry) where
  -- A request that waits is attempted at exactly the last of the keys that it requires. If keys of any
  -- users are entered one after the other, as many as are missing, and each is answered: all but the
  -- last are answered by the progress, counted up by one each time, and the last leads to an attempt of
  -- the change, with as many tokens as the request requires, one for each key.
  pub enter_keys-IsAttempted :
      (tokens : List String) (es : List Entry) (s : State) (responses : List Response) (s' : State)
      → IsPending srv hash request tokens s
      → length tokens + suc (length es) ≡ request.required
      → Returns (enter_keys hash (es ++ last ∷ [])) s responses s'
      → IsAttempted hash request tokens es last responses s'
  unfolding enter_keys
  enter_keys-IsAttempted tokens [] s responses s' p n h =
      from_first _ _ s responses s' h λ response s1 hu h1.
        from_first _ _ s1 responses s' h1 λ rest s2 hr h2.
          let (no_rest, q1) = Returns-pure [] rest s1 s2 hr in
          let (e, q2) = Returns-pure (response ∷ rest) responses s2 s' h2 in
          let a =
            update_by_change_id-Advances srv v last.request last.auth hash last.key request tokens s
              response s1 p hu in
          elim a.next [
            | inl (less, same, p') ↦ absurd (omega arith)
            | inr (enough, (before, p', attempt)) ↦ record {
              new = a.token ∷ [];
              earlier = with_progress request tokens;
              same_request = refl;
              as_many = length-append_one tokens a.token ∙ omega (arith, n);
              response = response;
              answers = sym e ∙ ap (λ x. response ∷ x) (sym no_rest);
              before = before;
              attempt =
                  subst
                    (Returns
                      (attempt_change last.request last.auth hash (with_progress request tokens)
                        (tokens ++ a.token ∷ []))
                      before response)
                    (sym (q2 ∙ q1)) attempt;
            }
          ]
  enter_keys-IsAttempted tokens (e ∷ es) s responses s' p n h =
      from_first _ _ s responses s' h λ response s1 hu h1.
        from_first _ _ s1 responses s' h1 λ rest s2 hr h2.
          let (eq, q2) = Returns-pure (response ∷ rest) responses s2 s' h2 in
          let a =
            update_by_change_id-Advances srv v e.request e.auth hash e.key request tokens s response
              s1 p hu in
          let one = length-append_one tokens a.token in
          elim a.next [
            | inl (less, same, p') ↦
                let i =
                  enter_keys-IsAttempted (tokens ++ a.token ∷ []) es s1 rest s2 p'
                    (omega (arith, one)) hr in
                let assoc : (tokens ++ a.token ∷ []) ++ i.new ≡ tokens ++ a.token ∷ i.new =
                  append_assoc tokens (a.token ∷ []) i.new in
                record {
                  new = a.token ∷ i.new;
                  earlier = i.earlier;
                  same_request = i.same_request;
                  as_many = ap length (sym assoc) ∙ i.as_many;
                  response = i.response;
                  answers =
                      sym eq
                      ∙ ap (λ x. x ∷ rest) (sym same)
                      ∙ ap (λ x. progress_response (suc (length tokens)) request.required ∷ x)
                          (i.answers
                            ∙ ap
                                (λ m.
                                  progress_answers request.required m (length es)
                                  ++ i.response ∷ [])
                                one);
                  before = i.before;
                  attempt =
                      subst
                        (λ ts.
                          Returns (attempt_change last.request last.auth hash i.earlier ts) i.before
                            i.response s')
                        assoc
                        (subst
                          (Returns
                            (attempt_change last.request last.auth hash i.earlier
                              ((tokens ++ a.token ∷ []) ++ i.new))
                            i.before i.response)
                          (sym q2) i.attempt);
                }
            | inr (enough, rest) ↦ absurd (omega arith)
          ]
