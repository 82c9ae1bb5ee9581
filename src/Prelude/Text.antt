-- ===== src/Prelude/Text.antt =====
-- What the program uses of the packages `strings`, `strconv` and `fmt`. A text is walked character
-- by character.
pub mod Hex
use Prim.Native.Nat.{ℕ, zero, suc, ◌+◌, ◌-◌, ◌*◌, ◌/◌, ◌%◌, ◌^◌}
use Prim.Native.Char.{Char, code}
use Prim.Native.String.{String, ◌++◌ as ◌<>◌}
use mathlib.Core.Bool.{Bool, true, false, ◌&&◌, ◌||◌}
use mathlib.Core.List.{List, [], ◌∷◌}
use mathlib.Core.Option.{Option, none, some}
use text.Mathlib.Text.{◌==◌}
use goldfish.Prelude.Int.{ℤ, pos, negsuc}
use goldfish.Prelude.Lists.{leb, nat_eq, get_elem?, if◌then◌else◌}

-- The last character is `c`. For an ASCII `c` and a text that is not empty this is the test
-- `s[len(s)-1:] == "c"`.
unfoldable pub ends_in : ℕ → String → Bool
ends_in c String.[] = false
ends_in c (String.◌∷◌ x String.[]) = nat_eq (code x) c
ends_in c (String.◌∷◌ x (String.◌∷◌ y s)) = ends_in c (String.◌∷◌ y s)

-- strings.HasPrefix, character by character
unfoldable pub has_prefix : String → String → Bool
has_prefix String.[] s = true
has_prefix (String.◌∷◌ c p) String.[] = false
has_prefix (String.◌∷◌ c p) (String.◌∷◌ x s) = nat_eq (code c) (code x) && has_prefix p s

-- a character in front of the first part
abbrev pub push : Char → List String → List String
push c [] = String.◌∷◌ c String.[] ∷ []
push c (p ∷ ps) = String.◌∷◌ c p ∷ ps

unfoldable pub size : String → ℕ
size String.[] = 0
size (String.◌∷◌ c s) = suc (size s)

-- The parts of a text, with so many characters of a separator still to skip.
unfoldable pub parts : String → String → ℕ → List String
parts sep String.[] skip = "" ∷ []
parts sep (String.◌∷◌ c s) (suc skip) = parts sep s skip
parts sep (String.◌∷◌ c s) zero = elim (has_prefix sep (String.◌∷◌ c s)) [
  | true ↦ "" ∷ parts sep s (size sep - 1)
  | false ↦ push c (parts sep s zero)
]

-- strings.Split for a separator that is not empty
unfoldable pub split : String → String → List String
unfolding parts has_prefix size
split s sep = parts sep s 0

-- strings.HasSuffix and strings.TrimSuffix: the text before the suffix
unfoldable pub trim_suffix : String → String → Option String
trim_suffix suffix String.[] = if has_prefix suffix "" then some "" else none
trim_suffix suffix (String.◌∷◌ c s) =
    if has_prefix suffix (String.◌∷◌ c s) && nat_eq (size suffix) (suc (size s))
    then some ""
    else elim (trim_suffix suffix s) [ none ↦ none | some p ↦ some (String.◌∷◌ c p) ]

-- `isSpace` of the package `fmt`
unfoldable pub is_space : ℕ → Bool
is_space c =
    (leb 9 c && leb c 13)
    || nat_eq c 32
    || nat_eq c 0x85
    || nat_eq c 0xa0
    || nat_eq c 0x1680
    || (leb 0x2000 c && leb c 0x200a)
    || (leb 0x2028 c && leb c 0x2029)
    || nat_eq c 0x202f
    || nat_eq c 0x205f
    || nat_eq c 0x3000

abbrev pub is_digit : ℕ → Bool
is_digit c = leb b'0' c && leb c b'9'

-- `SkipSpace` where a line's end is no space: `none` is its error.
unfoldable pub skip_space : String → Option String
skip_space String.[] = some ""
skip_space (String.◌∷◌ c s) =
    let rest = skip_space s in
    if nat_eq (code c) 10 then none else if is_space (code c) then rest else some (String.◌∷◌ c s)

-- the digits that a text begins with, as a number behind `n`
unfoldable pub read_digits : ℕ → String → ℕ
read_digits n String.[] = n
read_digits n (String.◌∷◌ c s) =
    let rest = read_digits (n * 10 + (code c - b'0')) s in if is_digit (code c) then rest else n

unfoldable pub starts_with_digit : String → Bool
starts_with_digit String.[] = false
starts_with_digit (String.◌∷◌ c s) = is_digit (code c)

unfoldable pub all_digits : String → Bool
all_digits String.[] = true
all_digits (String.◌∷◌ c s) = is_digit (code c) && all_digits s

-- A sign and a size, in the range of `int64`.
unfoldable pub int64 : Bool → ℕ → Option ℤ
int64 false n = if leb (2 ^ 63) n then none else some (pos n)
int64 true zero = some (pos 0)
int64 true (suc n) = if leb (2 ^ 63) n then none else some (negsuc n)

-- an optional sign: whether it is a minus, and the text behind it
unfoldable pub sign : String → String × Bool
sign String.[] = ("", false)
sign (String.◌∷◌ c s) =
    if nat_eq (code c) b'-'
    then (s, true)
    else if nat_eq (code c) b'+'
    then (s, false)
    else (String.◌∷◌ c s, false)

-- fmt.Sscanf with `%d`: the number that a text begins with
unfoldable pub scan_int : String → Option ℤ
scan_int s = elim (skip_space s) [
  | none ↦ none
  | some t ↦
      let (digits, minus) = sign t in
      if starts_with_digit digits then int64 minus (read_digits 0 digits) else none
]

-- strconv.Atoi
unfoldable pub atoi : String → Option ℤ
atoi s =
    let (digits, minus) = sign s in
    if starts_with_digit digits && all_digits digits
    then int64 minus (read_digits 0 digits)
    else none

abbrev hex_alphabet : List String
hex_alphabet =
    "0" ∷ "1" ∷ "2" ∷ "3" ∷ "4" ∷ "5" ∷ "6" ∷ "7" ∷ "8" ∷ "9" ∷ "a" ∷ "b" ∷ "c" ∷ "d" ∷ "e" ∷ "f"
    ∷ []

abbrev hex_digit : ℕ → String
hex_digit d = elim (get_elem? hex_alphabet d) [ none ↦ "" | some t ↦ t ]

-- in front of the digits so far; sixteen rounds are enough for a `uint64`
hex_loop : ℕ → ℕ → String → String
hex_loop zero n out = out
hex_loop (suc rounds) n out =
    let more = hex_loop rounds (n / 16) (hex_digit (n % 16) <> out) in
    if nat_eq (n / 16) 0 then hex_digit (n % 16) <> out else more

-- strconv.FormatUint in base 16
unfoldable pub format_hex : ℕ → String
unfolding hex_loop
format_hex n = hex_loop 16 n ""

-- strings.Trim: without the characters of a set at both ends
unfoldable pub trim_left : (ℕ → Bool) → String → String
trim_left cut String.[] = ""
trim_left cut (String.◌∷◌ c s) =
    let rest = trim_left cut s in if cut (code c) then rest else String.◌∷◌ c s

unfoldable pub trim_right : (ℕ → Bool) → String → String
trim_right cut String.[] = ""
trim_right cut (String.◌∷◌ c s) =
    let rest = trim_right cut s in if rest == "" && cut (code c) then "" else String.◌∷◌ c rest

unfoldable pub trim : (ℕ → Bool) → String → String
unfolding trim_left trim_right
trim cut s = trim_right cut (trim_left cut s)

-- strings.Join
unfoldable pub join : String → List String → String
join sep [] = ""
join sep (p ∷ []) = p
join sep (p ∷ q ∷ ps) = p <> sep <> join sep (q ∷ ps)

-- strings.Fields: the pieces between runs of spaces
abbrev pub not_empty : List String → List String
not_empty [] = []
not_empty (p ∷ ps) = let rest = not_empty ps in if p == "" then rest else p ∷ rest

unfoldable pub pieces : String → List String
pieces String.[] = "" ∷ []
pieces (String.◌∷◌ c s) =
    let rest = pieces s in if is_space (code c) then "" ∷ rest else push c rest

unfoldable pub split_fields : String → List String
unfolding pieces is_space
split_fields s = not_empty (pieces s)

-- fmt.Sprint of a slice of texts
unfoldable pub sprint : List String → String
unfolding join
sprint ps = "[" <> join " " ps <> "]"
