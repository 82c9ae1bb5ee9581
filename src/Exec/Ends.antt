-- ===== src/Exec/Ends.antt =====
-- What holds when an action returns: of its value and of the state then.
use goldfish.Prelude.{◌≡◌, refl, String, Bool, true, false, Option, none, some, List, if◌then◌else◌}
use goldfish.World.{World, Result, ok, err, Effect, Answer}
use goldfish.Exec.{
  lift_result, expect, lift, on_error, require, perform, State, done, Exec, pure, leave, gets,
  ◌>>=◌,
}
use goldfish.Exec.Keeps.{Keeps, bind-done}

pub record Ends {E A : Type 0} (P : State → Type 0) (Q : A → State → Type 0) (m : Exec E A)
    : Type 0 where
  pub at : (s : State) (a : A) → P s → (m s).0 ≡ done a → Q a (m s).1

module _ {E A : Type 0} {P : State → Type 0} {Q : A → State → Type 0} where
  pub Ends-pure : (a : A) → ((s : State) → P s → Q a s) → Ends P Q (pure {E = E} a)
  unfolding pure
  Ends-pure a h = record { at = λ s b p e. let q : a ≡ b = cc in rw⁻¹ (q) (h s p) }

  pub Ends-leave : (e : E) → Ends P Q (leave e)
  unfolding leave
  Ends-leave e = record { at = λ s b p h. cc }

  pub Ends-if :
      (b : Bool) (m n : Exec E A)
      → (b ≡ true → Ends P Q m)
      → (b ≡ false → Ends P Q n)
      → Ends P Q (if b then m else n)
  Ends-if true m n km kn = km refl
  Ends-if false m n km kn = kn refl

  pub Ends-either :
      (b : Bool) (m n : Exec E A) → Ends P Q m → Ends P Q n → Ends P Q (if b then m else n)
  Ends-either true m n km kn = km
  Ends-either false m n km kn = kn

module _ {E A B : Type 0} {P : State → Type 0} {Q : B → State → Type 0} where
  -- the end is that of the last statement
  pub Ends-bind :
      (m : Exec E A) (f : A → Exec E B)
      → Keeps P m
      → ((a : A) → Ends P Q (f a))
      → Ends P Q (m >>= f)
  Ends-bind m f km kf = record {
    at = λ s b p h.
        let (a, h1, h2, q) = bind-done m f s b h in rw (q) ((kf a).at (m s).1 b (km.at s p) h2);
  }

  pub Ends-bind_Ends :
      (R : A → State → Type 0) (m : Exec E A) (f : A → Exec E B)
      → Ends P R m
      → ((a : A) → Ends (R a) Q (f a))
      → Ends P Q (m >>= f)
  Ends-bind_Ends R m f em kf = record {
    at = λ s b p h.
        let (a, h1, h2, q) = bind-done m f s b h in
        rw (q) ((kf a).at (m s).1 b (em.at s a p h1) h2);
  }

  pub Ends-bind_gets :
      (g : State → A) (f : A → Exec E B)
      → ((s : State) → P s → Ends P Q (f (g s)))
      → Ends P Q (gets g >>= f)
  unfolding ◌>>=◌ gets
  Ends-bind_gets g f kf = record { at = λ s b p h. (kf s p).at s b p h }

module _ ⦃w : World⦄ where
  lifted : {A : Type 0} (r : Result A) (a : A) → lift_result r ≡ done a → r ≡ ok a
  lifted (ok b) a h = cc
  lifted (err e) a h = cc

  -- what an effect returns is the answer of the world
  pub answered :
      (e : Effect) (t : List Effect) (s : State) (a : Answer e)
      → s.trace ≡ t
      → (perform e s).0 ≡ done a
      → w.answer t e ≡ ok a
  unfolding perform
  answered e t s a p h = rw⁻¹ (p) (lifted (w.answer s.trace e) a h)

-- no condition on the state
abbrev pub Anything : State → Type 0
Anything _ = Unit

module _ {E A : Type 0} where
  pub nothing_needed : (m : Exec E A) → Keeps Anything m
  nothing_needed m = record { at = λ s h. tt }

  pub Ends-weaken :
      {P : State → Type 0} {Q : A → State → Type 0} (m : Exec E A) → Ends Anything Q m → Ends P Q m
  Ends-weaken m e = record { at = λ s a p h. e.at s a tt h }

module _ {F A : Type 0} where
  pub Ends-lift :
      (f : String → F) (r : Result A) → Ends Anything (λ a _. r ≡ ok a) (on_error f (lift r))
  unfolding on_error lift
  Ends-lift f (ok b) = record { at = λ s a p h. cc }
  Ends-lift f (err e) = record { at = λ s a p h. cc }

module _ {E : Type 0} where
  pub Ends-require : (b : Bool) (e : E) → Ends Anything (λ _ _. b ≡ true) (require b e)
  unfolding require leave
  Ends-require true e = record { at = λ s a p h. refl }
  Ends-require false e = record { at = λ s a p h. cc }

module _ {E A : Type 0} where
  pub Ends-expect : (o : Option A) (e : E) → Ends Anything (λ a _. o ≡ some a) (expect o e)
  unfolding expect pure leave
  Ends-expect none e = record { at = λ s a p h. cc }
  Ends-expect (some b) e = record { at = λ s a p h. cc }

  -- a precondition that does not speak of the state
  pub Ends-fact :
      {X : Type 0} {Q : A → State → Type 0} (m : Exec E A)
      → (X → Ends Anything Q m)
      → Ends (λ _. X) Q m
  Ends-fact m k = record { at = λ s a p h. (k p).at s a tt h }
