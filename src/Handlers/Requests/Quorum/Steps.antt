-- ===== src/Handlers/Requests/Quorum/Steps.antt =====
-- The steps that the two updates share.
use goldfish.Prelude.{
  ◌≡◌, refl, arith, ℕ, ◌+◌, ◌≤◌, suc, String, ltb, false, Option, none, some, List, [], ◌∷◌, length,
}
use goldfish.World.{World, Request, RootStatus, Effect}
use goldfish.Exec.{
  State, Flow, continue, redirect, done, exit, panic, Exec, pure, leave, crash, expect, deref,
  on_error, ◌>>=◌,
}
use goldfish.Exec.Keeps.{
  Keeps, bind-done, Keeps-bind, Keeps-deref, Keeps-expect, Keeps-on_error, Keeps-modify, Keeps-pure,
  Keeps-try, keeps_rules,
}
use goldfish.Vault.Helper.{unwrap_data}
use goldfish.Handlers.Responses.{Response}
use goldfish.Handlers.Session.{checked, send_csrf_token}
use goldfish.Handlers.Requests.Tokens.{unwrap_all}
use goldfish.Handlers.Requests.Root.{
  cancel_generation, next_status, feed, feed_if_needed, generate_root,
}
use goldfish.Handlers.Requests.Update.{discard_tokens}
use goldfish.Handlers.Requests.Quorum.Calls.{
  Justification, unwraps, IsFair, unwraps-unwrap_data, Keeps-generate_root_init,
  Keeps-generate_root_update, Keeps-generate_root_cancel, Keeps-delete_from_cubbyhole,
  Keeps-unwrap_data,
}

pub ltb-false : (a b : ℕ) → ltb a b ≡ false → b ≤ a
ltb-false a b h = ground arith

module _ {E F A : Type 0} where
  redirect-done : (f : E → F) (r : Flow E A) (a : A) → redirect f r ≡ done a → r ≡ done a
  redirect-done f (done b) a h = cc
  redirect-done f (exit e) a h = cc
  redirect-done f panic a h = cc

  pub on_error-done :
      (f : E → F) (m : Exec E A) (s : State) (a : A)
      → (on_error f m s).0 ≡ done a
      → (m s).0 ≡ done a
  unfolding on_error
  on_error-done f m s a h = redirect-done f (m s).0 a h

-- A run of `m` that returns has unwrapped at least `k` tokens.
pub record Unwraps {E A : Type 0} (k : ℕ) (m : Exec E A) : Type 0 where
  pub at : (s : State) (a : A) → (m s).0 ≡ done a → unwraps s.trace + k ≤ unwraps (m s).1.trace

module _ {E A B : Type 0} where
  Unwraps-bind :
      (j k l : ℕ) (m : Exec E A) (f : A → Exec E B)
      → j + k ≡ l
      → Unwraps j m
      → ((a : A) → Unwraps k (f a))
      → Unwraps l (m >>= f)
  Unwraps-bind j k l m f e um uf = record {
    at = λ s b h.
        let (a, h1, h2, q) = bind-done m f s b h in
        let first = um.at s a h1 in
        let second = (uf a).at (m s).1 b h2 in rw (q) omega (arith, first, second, e);
  }

module _ {E A : Type 0} where
  Unwraps-pure : (a : A) → Unwraps 0 (pure {E = E} a)
  unfolding pure
  Unwraps-pure a = record { at = λ s b h. omega arith }

  Unwraps-expect : (o : Option A) (e : E) → Unwraps 0 (expect o e)
  unfolding expect pure leave
  Unwraps-expect none e = record { at = λ s b h. omega arith }
  Unwraps-expect (some a) e = record { at = λ s b h. omega arith }

  Unwraps-deref : (o : Option A) → Unwraps 0 (deref {E = E} o)
  unfolding deref pure crash
  Unwraps-deref none = record { at = λ s b h. omega arith }
  Unwraps-deref (some a) = record { at = λ s b h. omega arith }

module _ ⦃w : World⦄ where
  Unwraps-unwrap_data : (token : String) → Unwraps 1 (checked (unwrap_data token))
  unfolding on_error
  Unwraps-unwrap_data token = record {
    at = λ s a h. unwraps-unwrap_data token s a (redirect-done _ _ a h);
  }

  -- The loop unwraps every token.
  pub Unwraps-unwrap_all : (tokens : List String) → Unwraps (length tokens) (unwrap_all tokens)
  unfolding unwrap_all
  Unwraps-unwrap_all [] = Unwraps-pure []
  Unwraps-unwrap_all (token ∷ tokens) =
      let n = length tokens in
      Unwraps-bind 1 n (suc n) _ _ (omega arith) (Unwraps-unwrap_data token) λ body.
        Unwraps-bind 0 n n _ _ (omega arith) (Unwraps-expect _ _) λ unseal.
          Unwraps-bind 0 n n _ _ (omega arith) (Unwraps-deref _) λ key.
            Unwraps-bind n 0 n _ _ (omega arith) (Unwraps-unwrap_all tokens)
              λ keys. Unwraps-pure (key ∷ keys)

module _ ⦃w : World⦄ {J : Justification} {base : List Effect} {n : ℕ} where
  -- A block whose first statement unwraps `k` tokens.
  pub Keeps-bind_Unwraps :
      {E A B : Type 0} (k : ℕ) (m : Exec E A) (f : A → Exec E B)
      → Keeps (IsFair J base n) m
      → Unwraps k m
      → ((a : A) → Keeps (IsFair J base (n + k)) (f a))
      → Keeps (IsFair J base n) (m >>= f)
  unfolding ◌>>=◌
  Keeps-bind_Unwraps k m f km um kf = record {
    at = λ s h. go s h (m s).0 (m s).1 refl (km.at s h) (um.at s);
  }
    where
      go :
          (s : State) (h : IsFair J base n s) (r : Flow _ _) (t : State)
          → (m s).0 ≡ r
          → IsFair J base n t
          → ((a : _) → (m s).0 ≡ done a → unwraps s.trace + k ≤ unwraps t.trace)
          → IsFair J base n (continue r f t).1
      go s h (done a) t e i u =
          let more = u a e in
          let j : IsFair J base (n + k) t = record {
            justified = i.justified;
            counted = omega (arith, more, h.counted);
          } in
          let l = (kf a).at t j in
          record { justified = l.justified; counted = omega (arith, l.counted) }
      go s h (exit x) t e i u = i
      go s h panic t e i u = i

  pub Keeps-unwrap_all : (tokens : List String) → Keeps (IsFair J base n) (unwrap_all tokens)
  unfolding unwrap_all
  Keeps-unwrap_all [] = Keeps-pure _
  Keeps-unwrap_all (token ∷ tokens) =
      Keeps-bind _ _ (Keeps-on_error _ _ (Keeps-unwrap_data token)) λ body.
        Keeps-bind _ _ (Keeps-expect _ _) λ unseal.
          Keeps-bind _ _ (Keeps-deref _)
            λ key. Keeps-bind _ _ (Keeps-unwrap_all tokens) λ keys. Keeps-pure _

  Keeps-next_status : (o : Option RootStatus) → Keeps (IsFair J base n) (next_status o)
  unfolding cancel_generation
  Keeps-next_status none = search (keeps_rules, Keeps-generate_root_cancel) depth 6
  Keeps-next_status (some status) = Keeps-pure _

  Keeps-feed :
      (unseals : List String) (status : RootStatus) → Keeps (IsFair J base n) (feed unseals status)
  unfolding feed
  Keeps-feed [] status = Keeps-pure _
  Keeps-feed (u ∷ unseals) status =
      Keeps-bind _ _ (Keeps-try _ (Keeps-generate_root_update _ _))
        λ answer. Keeps-bind _ _ (Keeps-next_status answer) λ next. Keeps-feed unseals next

  Keeps-feed_if_needed :
      (unseals : List String) (status : RootStatus)
      → Keeps (IsFair J base n) (feed_if_needed unseals status)
  unfolding feed_if_needed
  Keeps-feed_if_needed unseals status = search (keeps_rules, Keeps-feed) depth 6

  pub Keeps-generate_root :
      (e : Response) (unseals : List String) → Keeps (IsFair J base n) (generate_root e unseals)
  unfolding generate_root
  Keeps-generate_root e unseals =
      search (keeps_rules, Keeps-generate_root_init, Keeps-feed_if_needed) depth 10

  pub Keeps-discard_tokens : (hash : String) → Keeps (IsFair J base n) (discard_tokens hash)
  unfolding discard_tokens
  Keeps-discard_tokens hash = search (keeps_rules, Keeps-delete_from_cubbyhole) depth 6

  pub Keeps-send_csrf_token : (r : Request) → Keeps (IsFair J base n) (send_csrf_token r)
  unfolding send_csrf_token
  Keeps-send_csrf_token r =
      Keeps-modify _ λ s f. record { justified = f.justified; counted = f.counted }
