-- ===== src/Prelude/Text/Hex.antt =====
-- The package `strconv`: a number is read back from what `FormatUint` writes in base 16.
use Prim.Native.Nat.{ℕ, zero, suc, ◌+◌, ◌-◌, ◌*◌, ◌/◌, ◌%◌, ◌^◌, ◌<◌}
use Prim.Native.Char.{code}
use Prim.Native.String.{String, ◌++◌ as ◌<>◌}
use mathlib.Core.Path.{◌≡◌, refl, ap, ◌∙◌}
use mathlib.Core.Logic.{inl, inr}
use mathlib.Core.Bool.{true}
use native.Mathlib.Omega.{arith}
use text.Mathlib.TextLemmas.{cons-append, nil-append}
use goldfish.Prelude.Lists.{leb, nat_eq, if◌then◌else◌, Bool-cases}
use goldfish.Prelude.Text.{hex_digit, hex_loop, format_hex}

abbrev digit : ℕ → ℕ
digit c = if leb c 57 then c - 48 else c - 87

-- the number that the digits of a text make behind `n`
abbrev pub read_hex : ℕ → String → ℕ
read_hex n String.[] = n
read_hex n (String.◌∷◌ c s) = read_hex (n * 16 + digit (code c)) s

read_hex-digit :
    (d n : ℕ) (s : String) → d < 16 → read_hex n (hex_digit d <> s) ≡ read_hex (n * 16 + d) s
read_hex-digit zero n s h = rw (cons-append "0" "" s, nil-append s) refl
read_hex-digit (suc zero) n s h = rw (cons-append "1" "" s, nil-append s) refl
read_hex-digit (suc (suc zero)) n s h = rw (cons-append "2" "" s, nil-append s) refl
read_hex-digit (suc (suc (suc zero))) n s h = rw (cons-append "3" "" s, nil-append s) refl
read_hex-digit (suc (suc (suc (suc zero)))) n s h = rw (cons-append "4" "" s, nil-append s) refl
read_hex-digit (suc (suc (suc (suc (suc zero))))) n s h =
    rw (cons-append "5" "" s, nil-append s) refl
read_hex-digit (suc (suc (suc (suc (suc (suc zero)))))) n s h =
    rw (cons-append "6" "" s, nil-append s) refl
read_hex-digit (suc (suc (suc (suc (suc (suc (suc zero))))))) n s h =
    rw (cons-append "7" "" s, nil-append s) refl
read_hex-digit (suc (suc (suc (suc (suc (suc (suc (suc zero)))))))) n s h =
    rw (cons-append "8" "" s, nil-append s) refl
read_hex-digit (suc (suc (suc (suc (suc (suc (suc (suc (suc zero))))))))) n s h =
    rw (cons-append "9" "" s, nil-append s) refl
read_hex-digit (suc (suc (suc (suc (suc (suc (suc (suc (suc (suc zero)))))))))) n s h =
    rw (cons-append "a" "" s, nil-append s) refl
read_hex-digit (suc (suc (suc (suc (suc (suc (suc (suc (suc (suc (suc zero))))))))))) n s h =
    rw (cons-append "b" "" s, nil-append s) refl
read_hex-digit (suc (suc (suc (suc (suc (suc (suc (suc (suc (suc (suc (suc zero)))))))))))) n s h =
    rw (cons-append "c" "" s, nil-append s) refl
read_hex-digit (suc (suc (suc (suc (suc (suc (suc (suc (suc (suc (suc (suc (suc zero))))))))))))) n
      s h =
    rw (cons-append "d" "" s, nil-append s) refl
read_hex-digit
      (suc (suc (suc (suc (suc (suc (suc (suc (suc (suc (suc (suc (suc (suc zero)))))))))))))) n s
      h =
    rw (cons-append "e" "" s, nil-append s) refl
read_hex-digit
      (suc (suc (suc (suc (suc (suc (suc (suc (suc (suc (suc (suc (suc (suc (suc zero)))))))))))))))
      n s h =
    rw (cons-append "f" "" s, nil-append s) refl
read_hex-digit
      (suc
        (suc (suc (suc (suc (suc (suc (suc (suc (suc (suc (suc (suc (suc (suc (suc d))))))))))))))))
      n s h =
    absurd (omega arith)

-- `16 ^ r`, by its rounds
abbrev power : ℕ → ℕ
power zero = 1
power (suc r) = 16 * power r

nat_eq-eq : (a b : ℕ) → nat_eq a b ≡ true → a ≡ b
nat_eq-eq a b h = ground arith

read_hex-hex_loop :
    (r n : ℕ) (out : String) → n < power r → read_hex 0 (hex_loop r n out) ≡ read_hex n out
unfolding hex_loop
read_hex-hex_loop zero n out h = let e : n ≡ 0 = omega arith in rw (e) refl
read_hex-hex_loop (suc r) n out h = elim (Bool-cases (nat_eq (n / 16) 0)) [
  | inl b ↦
      let small : n / 16 ≡ 0 = nat_eq-eq (n / 16) 0 b in
      let same : 0 * 16 + n % 16 ≡ n = omega arith in
      rw (b) (read_hex-digit (n % 16) 0 out (omega arith) ∙ ap (λ m. read_hex m out) same)
  | inr b ↦
      let same : n / 16 * 16 + n % 16 ≡ n = omega arith in
      rw (b) (
        read_hex-hex_loop r (n / 16) (hex_digit (n % 16) <> out) (omega arith)
        ∙ read_hex-digit (n % 16) (n / 16) out (omega arith)
        ∙ ap (λ m. read_hex m out) same)
]

-- Sixteen rounds are enough: the digits of a number of 64 bits make that number.
pub read_hex-format_hex : (n : ℕ) → n < 2 ^ 64 → read_hex 0 (format_hex n) ≡ n
unfolding format_hex
read_hex-format_hex n h = read_hex-hex_loop 16 n "" h
