-- ===== src/Exec/Runs.antt =====
-- A run of an action that returns, step by step: `m s ≡ (done a, s')`.
use goldfish.Prelude.{◌≡◌, refl, String, Bool, true, false, Option, none, some, ◌∷◌}
use goldfish.World.{World, Result, ok, err, Effect, Answer}
use goldfish.Exec.{
  State, Flow, done, exit, panic, Exec, continue, pure, deref, expect, modify, require, redirect,
  on_error, caught, try, lift_result, lift, perform, ◌>>=◌,
}

abbrev pub Returns : {E A : Type 0} → Exec E A → State → A → State → Type 0
Returns m s a s' = m s ≡ (done a, s')

-- the state behind an effect
abbrev pub performed : Effect → State → State
performed e s = record s { trace = e ∷ s.trace }

module _ {E A B C : Type 0} where
  -- a block that returns has returned from its first statement
  pub from_first :
      (m : Exec E A) (f : A → Exec E B) (s : State) (b : B) (s' : State)
      → Returns (m >>= f) s b s'
      → ((a : A) (s1 : State) → Returns m s a s1 → Returns (f a) s1 b s' → C)
      → C
  unfolding ◌>>=◌
  from_first m f s b s' h k = go (m s).0 (m s).1 refl h
    where
      go : (r : Flow E A) (t : State) → m s ≡ (r, t) → continue r f t ≡ (done b, s') → C
      go (done a) t e h = k a t e h
      go (exit x) t e h = cc
      go panic t e h = cc

module _ {E A : Type 0} where
  pub Returns-pure : (a b : A) (s s' : State) → Returns (pure {E = E} a) s b s' → (a ≡ b) × (s' ≡ s)
  unfolding pure
  Returns-pure a b s s' h = (cc, cc)

  pub Returns-deref :
      (o : Option A) (a : A) (s s' : State)
      → Returns (deref {E = E} o) s a s'
      → (o ≡ some a) × (s' ≡ s)
  unfolding deref
  Returns-deref none a s s' h = cc
  Returns-deref (some x) a s s' h = (cc, cc)

  pub Returns-expect :
      (o : Option A) (e : E) (a : A) (s s' : State)
      → Returns (expect o e) s a s'
      → (o ≡ some a) × (s' ≡ s)
  unfolding expect
  Returns-expect none e a s s' h = cc
  Returns-expect (some x) e a s s' h = (cc, cc)

module _ {E : Type 0} where
  pub Returns-require :
      (b : Bool) (e : E) (u : Unit) (s s' : State)
      → Returns (require b e) s u s'
      → (b ≡ true) × (s' ≡ s)
  unfolding require
  Returns-require true e u s s' h = (refl, cc)
  Returns-require false e u s s' h = cc

  pub Returns-modify :
      (f : State → State) (u : Unit) (s s' : State) → Returns (modify {E = E} f) s u s' → s' ≡ f s
  unfolding modify
  Returns-modify f u s s' h = cc

module _ {A : Type 0} where
  pub Returns-lift :
      (r : Result A) (a : A) (s s' : State) → Returns (lift r) s a s' → (r ≡ ok a) × (s' ≡ s)
  unfolding lift
  Returns-lift (ok x) a s s' h = (cc, cc)
  Returns-lift (err e) a s s' h = cc

module _ {E F A : Type 0} where
  pub Returns-on_error :
      (f : E → F) (m : Exec E A) (s : State) (a : A) (s' : State)
      → Returns (on_error f m) s a s'
      → Returns m s a s'
  unfolding on_error
  Returns-on_error f m s a s' h = go (m s).0 (m s).1 refl h
    where
      go :
          (r : Flow E A) (t : State)
          → m s ≡ (r, t)
          → ◌≡◌ {A = Flow F A × State} (redirect f r, t) (done a, s')
          → m s ≡ (done a, s')
      go (done x) t e h = let (p, q) : (x ≡ a) × (t ≡ s') = (cc, cc) in rw (e, p, q) refl
      go (exit x) t e h = cc
      go panic t e h = cc

  pub Returns-try :
      (m : Exec E A) (s : State) (a : A) (s' : State)
      → Returns (try {F = F} m) s (some a) s'
      → Returns m s a s'
  unfolding try
  Returns-try m s a s' h = go (m s).0 (m s).1 refl h
    where
      go :
          (r : Flow E A) (t : State)
          → m s ≡ (r, t)
          → ◌≡◌ {A = Flow F (Option A) × State} (caught {F = F} r, t) (done (some a), s')
          → m s ≡ (done a, s')
      go (done x) t e h = let (p, q) : (x ≡ a) × (t ≡ s') = (cc, cc) in rw (e, p, q) refl
      go (exit x) t e h = cc
      go panic t e h = cc

module _ ⦃w : World⦄ where
  pub Returns-perform :
      (e : Effect) (s : State) (a : Answer e) (s' : State)
      → Returns (perform e) s a s'
      → (w.answer s.trace e ≡ ok a) × (s' ≡ performed e s)
  unfolding perform
  Returns-perform e s a s' h = go (w.answer s.trace e) refl h
    where
      go :
          (r : Result (Answer e))
          → w.answer s.trace e ≡ r
          → ◌≡◌ {A = Flow String (Answer e) × State} (lift_result r, performed e s) (done a, s')
          → (w.answer s.trace e ≡ ok a) × (s' ≡ performed e s)
      go (ok x) q h = let p : x ≡ a = cc in (rw⁻¹ (p) q, cc)
      go (err x) q h = cc
