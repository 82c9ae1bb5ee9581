-- ===== src/Exec/Keeps.antt =====
-- Invariants of actions: a rule for each way to build one, so that a proof about a function of the
-- program is a search over the rules.
use goldfish.Prelude.{◌≡◌, refl, ◌∷◌, Bool, true, false, Option, none, some, if◌then◌else◌}
use goldfish.World.{World, Result, Effect}
use goldfish.Exec.{
  State, Flow, continue, done, exit, panic, Exec, pure, leave, crash, deref, expect, gets, modify,
  require, lift, on_error, defer, try, perform, ◌>>=◌,
}

-- `m` keeps `P` on every way out.
pub record Keeps {E A : Type 0} (P : State → Type 0) (m : Exec E A) : Type 0 where
  pub at : (s : State) → P s → P (m s).1

-- From a state with `P`, what `m` returns satisfies `Q`, if it returns.
pub record Ensures {E A : Type 0} (P : State → Type 0) (Q : A → Type 0) (m : Exec E A)
    : Type 0 where
  pub at : (s : State) (a : A) → P s → (m s).0 ≡ done a → Q a

module _ {E A : Type 0} {P : State → Type 0} where
  pub Keeps-pure : (a : A) → Keeps P (pure {E = E} a)
  unfolding pure
  Keeps-pure a = record { at = λ s h. h }

  pub Keeps-leave : (e : E) → Keeps P (leave {A = A} e)
  unfolding leave
  Keeps-leave e = record { at = λ s h. h }

  pub Keeps-crash : Keeps P (crash {E = E} {A = A})
  unfolding crash
  Keeps-crash = record { at = λ s h. h }

  pub Keeps-deref : (o : Option A) → Keeps P (deref {E = E} o)
  unfolding deref
  Keeps-deref none = record { at = λ s h. h }
  Keeps-deref (some a) = record { at = λ s h. h }

  pub Keeps-expect : (o : Option A) (e : E) → Keeps P (expect o e)
  unfolding expect
  Keeps-expect none e = record { at = λ s h. h }
  Keeps-expect (some a) e = record { at = λ s h. h }

  pub Keeps-gets : (f : State → A) → Keeps P (gets {E = E} f)
  unfolding gets
  Keeps-gets f = record { at = λ s h. h }

  pub Keeps-if : (b : Bool) (m n : Exec E A) → Keeps P m → Keeps P n → Keeps P (if b then m else n)
  Keeps-if true m n km kn = km
  Keeps-if false m n km kn = kn

  pub Keeps-if_eq :
      (b : Bool) (m n : Exec E A)
      → (b ≡ true → Keeps P m)
      → (b ≡ false → Keeps P n)
      → Keeps P (if b then m else n)
  Keeps-if_eq true m n km kn = km refl
  Keeps-if_eq false m n km kn = kn refl

module _ {E : Type 0} {P : State → Type 0} where
  pub Keeps-modify :
      (f : State → State) → ((s : State) → P s → P (f s)) → Keeps P (modify {E = E} f)
  unfolding modify
  Keeps-modify f h = record { at = h }

  pub Keeps-require : (b : Bool) (e : E) → Keeps P (require b e)
  unfolding require
  Keeps-require true e = record { at = λ s h. h }
  Keeps-require false e = record { at = λ s h. h }

module _ {A : Type 0} {P : State → Type 0} where
  pub Keeps-lift : (r : Result A) → Keeps P (lift r)
  unfolding lift
  Keeps-lift r = record { at = λ s h. h }

module _ {E F A : Type 0} {P : State → Type 0} where
  pub Keeps-on_error : (f : E → F) (m : Exec E A) → Keeps P m → Keeps P (on_error f m)
  unfolding on_error
  Keeps-on_error f m k = record { at = k.at }

  pub Keeps-try : (m : Exec E A) → Keeps P m → Keeps P (try {F = F} m)
  unfolding try
  Keeps-try m k = record { at = k.at }

  pub Keeps-defer :
      (cleanup : Exec F Unit) (m : Exec E A)
      → Keeps P cleanup
      → Keeps P m
      → Keeps P (defer cleanup m)
  unfolding defer
  Keeps-defer cleanup m kc km = record { at = λ s h. kc.at (m s).1 (km.at s h) }

module _ {E A B : Type 0} {P : State → Type 0} where
  continue_at :
      (f : A → Exec E B) (r : Flow E A) (s : State)
      → ((a : A) → r ≡ done a → Keeps P (f a))
      → P s
      → P (continue r f s).1
  continue_at f (done a) s kf h = (kf a refl).at s h
  continue_at f (exit e) s kf h = h
  continue_at f panic s kf h = h

  pub Keeps-bind :
      (m : Exec E A) (f : A → Exec E B) → Keeps P m → ((a : A) → Keeps P (f a)) → Keeps P (m >>= f)
  unfolding ◌>>=◌
  Keeps-bind m f km kf = record {
    at = λ s h. continue_at f (m s).0 (m s).1 (λ a _. kf a) (km.at s h);
  }

  -- what a `gets` returns is known of the state
  pub Keeps-bind_gets :
      (g : State → A) (f : A → Exec E B)
      → ((s : State) → P s → Keeps P (f (g s)))
      → Keeps P (gets g >>= f)
  unfolding ◌>>=◌ gets
  Keeps-bind_gets g f kf = record { at = λ s h. (kf s h).at s h }

  -- the rest of the block may use what `m` ensures
  pub Keeps-bind_Ensures :
      (Q : A → Type 0) (m : Exec E A) (f : A → Exec E B)
      → Keeps P m
      → Ensures P Q m
      → ((a : A) → Q a → Keeps P (f a))
      → Keeps P (m >>= f)
  unfolding ◌>>=◌
  Keeps-bind_Ensures Q m f km em kf = record {
    at = λ s h. continue_at f (m s).0 (m s).1 (λ a e. kf a (em.at s a h e)) (km.at s h);
  }

module _ {E A B : Type 0} where
  -- A block that returns has returned from its first statement.
  pub bind-done :
      (m : Exec E A) (f : A → Exec E B) (s : State) (b : B)
      → ((m >>= f) s).0 ≡ done b
      → (a : A) × ((m s).0 ≡ done a)
        × ((f a (m s).1).0 ≡ done b)
        × (((m >>= f) s).1 ≡ (f a (m s).1).1)
  unfolding ◌>>=◌
  bind-done m f s b = go (m s).0 (m s).1 refl
    where
      go :
          (r : Flow E A) (t : State)
          → (m s).0 ≡ r
          → (continue r f t).0 ≡ done b
          → (a : A) × (r ≡ done a) × ((f a t).0 ≡ done b) × ((continue r f t).1 ≡ (f a t).1)
      go (done a) t e h = (a, refl, h, refl)
      go (exit x) t e h = cc
      go panic t e h = cc

module _ {E A B : Type 0} {P : State → Type 0} where
  -- what the last statement ensures in every state
  pub Ensures-bind :
      (Q : B → Type 0) (m : Exec E A) (f : A → Exec E B)
      → ((a : A) → Ensures (λ _. Unit {0}) Q (f a))
      → Ensures P Q (m >>= f)
  Ensures-bind Q m f k = record {
    at = λ s b p h. let (a, e, h', q) = bind-done m f s b h in (k a).at (m s).1 b tt h';
  }

module _ {E A B : Type 0} {P : State → Type 0} where
  -- A block from a given state, of whose first statement the value is known.
  pub bind_at :
      (m : Exec E A) (f : A → Exec E B) (s : State)
      → P (m s).1
      → ((a : A) → (m s).0 ≡ done a → Keeps P (f a))
      → P ((m >>= f) s).1
  unfolding ◌>>=◌
  bind_at m f s p kf = continue_at f (m s).0 (m s).1 kf p

module _ ⦃w : World⦄ {P : State → Type 0} where
  pub Keeps-perform :
      (e : Effect)
      → ((s : State) → P s → P (record s { trace = e ∷ s.trace }))
      → Keeps P (perform e)
  unfolding perform
  Keeps-perform e h = record { at = h }

-- All but the rules for effects and for changes of the state.
pub ruleset keeps_rules = (
  Keeps-pure, Keeps-leave, Keeps-crash, Keeps-deref, Keeps-expect, Keeps-gets, Keeps-if,
  Keeps-require, Keeps-lift, Keeps-on_error, Keeps-try, Keeps-defer, Keeps-bind,
)
