-- ===== src/Handlers/Requests/Tokens/RoundTrip.antt =====
-- handlers/policy.go: the way of the list of wrapping tokens through the cubbyhole.
use Prim.Native.Char.{Char, code}
use text.Mathlib.TextLemmas.{cons-append, nil-append, append_assoc}
use goldfish.Prelude.{
  ◌≡◌, refl, String, ◌<>◌, ◌==◌, Bool, true, false, ◌&&◌, List, [], ◌∷◌, All, nat_eq,
}
use goldfish.Prelude.Text.{
  push, split_fields, sprint, join, trim_left, trim_right, trim, has_prefix, size, parts, split,
}
use goldfish.Handlers.Requests.Tokens.{is_bracket, encode_tokens, decode_tokens}
use goldfish.Handlers.Requests.Tokens.Pieces.{
  IsPlain, IsClean, IsToken, close, first, pieces-join, tokens-IsClean, not_empty-push,
}

join-next :
    (p q : String) (ps : List String)
    → join ";" (p ∷ close (q ∷ ps)) ≡ p <> (";" <> join ";" (close (q ∷ ps)))
unfolding join
join-next p q [] = refl
join-next p q (r ∷ ps) = refl

join-close : (p : String) (ps : List String) → join ";" (close (p ∷ ps)) ≡ join ";" (p ∷ ps) <> "]"
unfolding join
join-close p [] = refl
join-close p (q ∷ ps) =
    rw
      (
        join-next p q ps,
        join-close q ps,
        append_assoc p (";" <> join ";" (q ∷ ps)) "]",
        append_assoc ";" (join ";" (q ∷ ps)) "]",
      )
      refl

join-push :
    (c : Char) (p : String) (ps : List String)
    → join ";" (push c (close (p ∷ ps))) ≡ String.◌∷◌ c (join ";" (p ∷ ps) <> "]")
unfolding join
join-push c p [] = refl
join-push c p (q ∷ ps) =
    rw
      (
        join-next (String.◌∷◌ c p) q ps,
        join-close q ps,
        cons-append c p,
        append_assoc p (";" <> join ";" (q ∷ ps)) "]",
        append_assoc ";" (join ";" (q ∷ ps)) "]",
      )
      refl

abbrev NoBracket : String → Type 0
NoBracket String.[] = Unit
NoBracket (String.◌∷◌ c s) = (is_bracket (code c) ≡ false) × NoBracket s

NoBracket-append : (s t : String) → NoBracket s → NoBracket t → NoBracket (s <> t)
NoBracket-append String.[] t h k = rw (nil-append t) k
NoBracket-append (String.◌∷◌ c s) t (b, h) k = rw (cons-append c s t) (b, NoBracket-append s t h k)

clean-NoBracket : (s : String) → IsClean s → NoBracket s
clean-NoBracket String.[] h = tt
clean-NoBracket (String.◌∷◌ c s) (p, h) = (p.no_bracket, clean-NoBracket s h)

join-NoBracket : (ps : List String) → All IsClean ps → NoBracket (join ";" ps)
unfolding join
join-NoBracket [] h = tt
join-NoBracket (p ∷ []) (h, _) = clean-NoBracket p h
join-NoBracket (p ∷ q ∷ ps) (h, k) =
    NoBracket-append p _ (clean-NoBracket p h)
      (NoBracket-append ";" _ (refl, tt) (join-NoBracket (q ∷ ps) k))

and_false : (b : Bool) → (b && false) ≡ false
and_false true = refl
and_false false = refl

trim_right-close : (s : String) → NoBracket s → trim_right is_bracket (s <> "]") ≡ s
unfolding trim_right
trim_right-close String.[] h = refl
trim_right-close (String.◌∷◌ c s) (b, h) =
    rw (cons-append c s "]", trim_right-close s h, b, and_false (s == "")) refl

taken :
    (b : Bool) (x y : List String)
    → b ≡ true
    → elim (b && true) as (λ _. List String) [ false ↦ x | true ↦ y ] ≡ y
taken true x y h = refl
taken false x y h = cc

skipped :
    (b : Bool) (x y : List String)
    → b ≡ false
    → elim (b && true) as (λ _. List String) [ false ↦ x | true ↦ y ] ≡ x
skipped true x y h = cc
skipped false x y h = refl

parts-lead :
    (c : Char) (t : String)
    → nat_eq 59 (code c) ≡ true
    → parts ";" (String.◌∷◌ c "" <> t) 0 ≡ "" ∷ parts ";" t 0
unfolding parts has_prefix size
parts-lead c t h = rw (cons-append c "" t, nil-append t) (taken (nat_eq 59 (code c)) _ _ h)

parts-push :
    (c : Char) (s : String) → IsPlain c → parts ";" (String.◌∷◌ c s) 0 ≡ push c (parts ";" s 0)
unfolding parts has_prefix size
parts-push c s p = skipped (nat_eq 59 (code c)) _ _ p.no_semicolon

parts-next : (p t : String) → IsClean p → parts ";" (p <> (";" <> t)) 0 ≡ p ∷ parts ";" t 0
parts-next String.[] t h = rw (nil-append (";" <> t)) (parts-lead _ t refl)
parts-next (String.◌∷◌ c s) t (p, h) =
    rw (cons-append c s (";" <> t), parts-push c (s <> (";" <> t)) p, parts-next s t h) refl

parts-last : (p : String) → IsClean p → parts ";" p 0 ≡ p ∷ []
unfolding parts
parts-last String.[] h = refl
parts-last (String.◌∷◌ c s) (p, h) = rw (parts-push c s p, parts-last s h) refl

parts-join :
    (p : String) (ps : List String)
    → All IsClean (p ∷ ps)
    → parts ";" (join ";" (p ∷ ps)) 0 ≡ p ∷ ps
unfolding join
parts-join p [] (h, k) = parts-last p h
parts-join p (q ∷ ps) (h, k) = rw (parts-next p (join ";" (q ∷ ps)) h, parts-join q ps k) refl

trim-brackets :
    (c d : Char) (s : String)
    → is_bracket (code c) ≡ true
    → NoBracket (String.◌∷◌ d s)
    → trim is_bracket (String.◌∷◌ c (String.◌∷◌ d s <> "]")) ≡ String.◌∷◌ d s
unfolding trim trim_left trim_right
trim-brackets c d s b n =
    rw (cons-append d s "]", b, n.0, trim_right-close s n.1, n.0, and_false (s == "")) refl

trimmed :
    (c : Char) (p : String) (ps : List String)
    → is_bracket (code c) ≡ true
    → All IsToken (p ∷ ps)
    → trim is_bracket (String.◌∷◌ c (join ";" (p ∷ ps) <> "]")) ≡ join ";" (p ∷ ps)
unfolding join
trimmed c String.[] ps b (h, k) = absurd h
trimmed c (String.◌∷◌ d s) [] b (h, k) = trim-brackets c d s b (clean-NoBracket (String.◌∷◌ d s) h)
trimmed c (String.◌∷◌ d s) (q ∷ ps) b (h, k) =
    let n = join-NoBracket (String.◌∷◌ d s ∷ q ∷ ps) (h, tokens-IsClean (q ∷ ps) k) in
    let e = cons-append d s (";" <> join ";" (q ∷ ps)) in
    rw (e) (trim-brackets c d (s <> (";" <> join ";" (q ∷ ps))) b (rw (e) at n))

-- A list of tokens, as Vault issues them, is stored and read back as it was: if there is at least
-- one token and each has a character and neither spaces, semicolons nor brackets, then decoding the
-- text that encodes them gives the same tokens in the same order.
pub decode_tokens-encode_tokens :
    (p : String) (ps : List String)
    → All IsToken (p ∷ ps)
    → decode_tokens (encode_tokens (p ∷ ps)) ≡ p ∷ ps
unfolding decode_tokens encode_tokens split_fields sprint split
decode_tokens-encode_tokens p ps h =
    rw
      (
        first _ (join " " (p ∷ ps) <> "]") refl,
        pieces-join (p ∷ ps) (tokens-IsClean (p ∷ ps) h),
        not_empty-push _ (p ∷ ps) h,
        join-push _ p ps,
        trimmed _ p ps refl h,
      )
      (parts-join p ps (tokens-IsClean (p ∷ ps) h))
