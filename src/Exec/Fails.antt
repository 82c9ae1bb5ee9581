-- ===== src/Exec/Fails.antt =====
-- What holds when an action does not return: for functions that change the state last.
use goldfish.Prelude.{◌≡◌, refl, ◌⊎◌, inl, inr, Bool, true, false, if◌then◌else◌}
use goldfish.Exec.{State, Flow, done, exit, panic, continue, Exec, modify, ◌>>=◌}
use goldfish.Exec.Keeps.{Keeps}

-- `m` returns, or keeps `P`.
pub record Fails {E A : Type 0} (P : State → Type 0) (m : Exec E A) : Type 0 where
  pub at : (s : State) → P s → ((a : A) × ((m s).0 ≡ done a)) ⊎ P (m s).1

module _ {E A : Type 0} {P : State → Type 0} where
  pub Fails-Keeps : (m : Exec E A) → Keeps P m → Fails P m
  Fails-Keeps m k = record { at = λ s p. inr (k.at s p) }

  pub Fails-if : (b : Bool) (m n : Exec E A) → Fails P m → Fails P n → Fails P (if b then m else n)
  Fails-if true m n km kn = km
  Fails-if false m n km kn = kn

module _ {E : Type 0} {P : State → Type 0} where
  pub Fails-modify : (f : State → State) → Fails P (modify {E = E} f)
  unfolding modify
  Fails-modify f = record { at = λ s p. inl (tt, refl) }

module _ {E A B : Type 0} {P : State → Type 0} where
  pub Fails-bind :
      (m : Exec E A) (f : A → Exec E B) → Keeps P m → ((a : A) → Fails P (f a)) → Fails P (m >>= f)
  unfolding ◌>>=◌
  Fails-bind m f km kf = record { at = λ s p. go (m s).0 (m s).1 (km.at s p) }
    where
      go :
          (r : Flow E A) (t : State)
          → P t
          → ((b : B) × ((continue r f t).0 ≡ done b)) ⊎ P (continue r f t).1
      go (done a) t p = (kf a).at t p
      go (exit e) t p = inr p
      go panic t p = inr p
