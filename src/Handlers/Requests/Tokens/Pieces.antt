-- ===== src/Handlers/Requests/Tokens/Pieces.antt =====
-- handlers/policy.go: the list of wrapping tokens as `fmt` prints it, and its pieces.
use Prim.Native.Char.{Char, code}
use text.Mathlib.TextLemmas.{cons-ne-nil, cons-append, nil-append, append_assoc}
use goldfish.Prelude.{
  ◌≡◌, refl, String, ◌<>◌, ◌==◌, eq_iff, true, false, List, [], ◌∷◌, All, nat_eq,
}
use goldfish.Prelude.Text.{is_space, push, pieces, not_empty, join}
use goldfish.Handlers.Requests.Tokens.{is_bracket}

-- a character that none of the separators is
pub record IsPlain (c : Char) : Type 0 where
  pub no_space : is_space (code c) ≡ false
  pub no_semicolon : nat_eq 59 (code c) ≡ false
  pub no_bracket : is_bracket (code c) ≡ false

abbrev pub IsClean : String → Type 0
IsClean String.[] = Unit
IsClean (String.◌∷◌ c s) = IsPlain c × IsClean s

-- A token as Vault issues them: not empty, and of plain characters.
abbrev pub IsToken : String → Type 0
IsToken String.[] = ⊥
IsToken (String.◌∷◌ c s) = IsPlain c × IsClean s

lead :
    (c : Char) (t : String)
    → is_space (code c) ≡ true
    → pieces (String.◌∷◌ c "" <> t) ≡ "" ∷ pieces t
unfolding pieces
lead c t h = rw (cons-append c "" t, nil-append t, h) refl

pieces-space : (s t : String) → IsClean s → pieces (s <> (" " <> t)) ≡ s ∷ pieces t
unfolding pieces is_space
pieces-space String.[] t h = rw (nil-append (" " <> t)) (lead _ t refl)
pieces-space (String.◌∷◌ c s) t (p, h) =
    rw (cons-append c s (" " <> t), p.no_space, pieces-space s t h) refl

pieces-bracket : (s : String) → IsClean s → pieces (s <> "]") ≡ (s <> "]") ∷ []
unfolding pieces is_space
pieces-bracket String.[] h = refl
pieces-bracket (String.◌∷◌ c s) (p, h) =
    rw (cons-append c s "]", p.no_space, pieces-bracket s h) refl

-- the closing bracket, behind the last
abbrev pub close : List String → List String
close [] = "]" ∷ []
close (p ∷ []) = (p <> "]") ∷ []
close (p ∷ q ∷ ps) = p ∷ close (q ∷ ps)

pub pieces-join : (ps : List String) → All IsClean ps → pieces (join " " ps <> "]") ≡ close ps
unfolding join
pieces-join [] h = pieces-bracket "" tt
pieces-join (p ∷ []) (h, _) = pieces-bracket p h
pieces-join (p ∷ q ∷ ps) (h, k) =
    rw
      (
        append_assoc p (" " <> join " " (q ∷ ps)) "]",
        append_assoc " " (join " " (q ∷ ps)) "]",
        pieces-space p (join " " (q ∷ ps) <> "]") h,
        pieces-join (q ∷ ps) k,
      )
      refl

pub first :
    (c : Char) (t : String)
    → is_space (code c) ≡ false
    → pieces (String.◌∷◌ c "" <> t) ≡ push c (pieces t)
unfolding pieces
first c t h = rw (cons-append c "" t, nil-append t, h) refl

cons-not_empty : (c : Char) (s : String) → (String.◌∷◌ c s == "") ≡ false
cons-not_empty c s =
    elim (String.◌∷◌ c s == "") as (λ b. ((String.◌∷◌ c s == "") ≡ b) → b ≡ false) [
      | true ↦ λ e. absurd (cons-ne-nil c s ((eq_iff _ _).0 e))
      | false ↦ λ e. refl
    ]
      refl

token-IsClean : (p : String) → IsToken p → IsClean p
token-IsClean String.[] h = absurd h
token-IsClean (String.◌∷◌ c s) h = h

pub tokens-IsClean : (ps : List String) → All IsToken ps → All IsClean ps
tokens-IsClean [] h = tt
tokens-IsClean (p ∷ ps) (h, k) = (token-IsClean p h, tokens-IsClean ps k)

not_empty-close : (ps : List String) → All IsToken ps → not_empty (close ps) ≡ close ps
not_empty-close [] h = refl
not_empty-close (String.[] ∷ ps) (h, k) = absurd h
not_empty-close (String.◌∷◌ c s ∷ []) (h, k) =
    rw (cons-append c s "]", cons-not_empty c (s <> "]")) refl
not_empty-close (String.◌∷◌ c s ∷ q ∷ ps) (h, k) =
    rw (not_empty-close (q ∷ ps) k, cons-not_empty c _) refl

pub not_empty-push :
    (c : Char) (ps : List String)
    → All IsToken ps
    → not_empty (push c (close ps)) ≡ push c (close ps)
not_empty-push c [] h = rw (cons-not_empty c _) refl
not_empty-push c (p ∷ []) h = rw (cons-not_empty c _) refl
not_empty-push c (p ∷ q ∷ ps) (h, k) = rw (not_empty-close (q ∷ ps) k, cons-not_empty c _) refl
