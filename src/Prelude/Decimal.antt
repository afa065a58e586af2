-- ===== src/Prelude/Decimal.antt =====
-- Numbers as texts: `String(n)` and `parseInt(s)` of whole numbers. A double rounds them from 2^53 on; here they are exact.
use Prim.Native.Nat.{ℕ, zero, suc, ◌+◌, ◌-◌, ◌*◌, ◌/◌, ◌%◌, ◌<◌, ◌≤◌}
use mathlib.Core.Path.{◌≡◌, refl, ◌∙◌}
use mathlib.Core.Logic.{inl, inr}
use mathlib.Core.Bool.{Bool, true, false, ◌&&◌, ◌||◌}
use mathlib.Core.Option.{Option, none, some}
use mathlib.Core.List.{[], ◌∷◌, ◌++◌}
use native.Mathlib.Omega.{arith}
use iot_miniservers.Prelude.Tests.{ltb, leb, nat_eqb, if◌then◌else◌, Bool-cases}
use iot_miniservers.Prelude.Lists.{any, every, drop, length, length-append}
use iot_miniservers.Prelude.Search.{every-append}
use iot_miniservers.Prelude.Strings.{Text, text, starts_with}
use iot_miniservers.Prelude.Int.{ℤ, pos, negsuc}

-- The digits of a number, with fuel for each of them.
abbrev digits : ℕ → ℕ → Text
digits zero n = []
digits (suc fuel) n =
    let front = digits fuel (n / 10) in
    if ltb n 10 then (48 + n) ∷ [] else front ++ (48 + n % 10) ∷ []

unfoldable pub decimal : ℕ → Text
decimal n = digits (n + 1) n

-- `String(z)`
unfoldable pub show_int : ℤ → Text
show_int (pos n) = decimal n
show_int (negsuc n) = 45 ∷ decimal (n + 1)

abbrev is_digit : ℕ → Bool
is_digit c = leb 48 c && leb c 57

-- The value of a digit in base 16, or what is none.
abbrev hex_value : ℕ → ℕ
hex_value c =
    if is_digit c
    then c - 48
    else if leb 97 c && leb c 102
    then c - 87
    else if leb 65 c && leb c 70
    then c - 55
    else 16

-- The value of the longest front of digits.
abbrev read_digits : ℕ → ℕ → Text → ℕ
read_digits base acc [] = acc
read_digits base acc (c ∷ cs) =
    let rest = read_digits base (acc * base + hex_value c) cs in
    if ltb (hex_value c) base then rest else acc

abbrev read_base : ℕ → Text → Option ℕ
read_base base [] = none
read_base base (c ∷ cs) =
    if ltb (hex_value c) base then some (read_digits base 0 (c ∷ cs)) else none

-- A `0x` in front makes the number hexadecimal.
abbrev read_unsigned : Text → Option ℕ
read_unsigned s =
    if starts_with s (text "0x") || starts_with s (text "0X")
    then read_base 16 (drop 2 s)
    else read_base 10 s

abbrev negated : ℕ → ℤ
negated zero = pos 0
negated (suc n) = negsuc n

abbrev with_sign : (ℕ → ℤ) → Option ℕ → Option ℤ
with_sign sign none = none
with_sign sign (some n) = some (sign n)

abbrev read_signed : Text → Option ℤ
read_signed [] = none
read_signed (c ∷ cs) =
    if nat_eqb c 45
    then with_sign negated (read_unsigned cs)
    else if nat_eqb c 43
    then with_sign pos (read_unsigned cs)
    else with_sign pos (read_unsigned (c ∷ cs))

-- White space and line ends.
abbrev is_blank : ℕ → Bool
is_blank c =
    (leb 9 c && leb c 13)
    || ((leb 8192 c && leb c 8202)
        || any (nat_eqb c) (32 ∷ 160 ∷ 5760 ∷ 8232 ∷ 8233 ∷ 8239 ∷ 8287 ∷ 12288 ∷ 65279 ∷ []))

abbrev skip_blanks : Text → Text
skip_blanks [] = []
skip_blanks (c ∷ cs) = let rest = skip_blanks cs in if is_blank c then rest else c ∷ cs

-- `parseInt(s)`: `none` is NaN.
unfoldable pub parse_int : Text → Option ℤ
parse_int s = read_signed (skip_blanks s)

read_digits-append :
    (acc : ℕ) (xs ys : Text)
    → every is_digit xs ≡ true
    → read_digits 10 acc (xs ++ ys) ≡ read_digits 10 (read_digits 10 acc xs) ys
read_digits-append acc [] ys h = refl
read_digits-append acc (x ∷ xs) ys h =
    let front : is_digit x ≡ true = ground (arith, h) in
    let small : ltb (hex_value x) 10 ≡ true = ground (arith, front) in
    rw small (read_digits-append (acc * 10 + hex_value x) xs ys (ground (arith, h)))

last_digit : (d : ℕ) → d < 10 → is_digit (48 + d) ≡ true
last_digit d h = ground (arith, h)

every-digits : (fuel n : ℕ) → every is_digit (digits fuel n) ≡ true
every-digits zero n = refl
every-digits (suc fuel) n = elim (Bool-cases (ltb n 10)) [
  | inl small ↦ rw small (ground (arith, small))
  | inr large ↦
      rw
        (
          large,
          every-append is_digit (digits fuel (n / 10)) ((48 + n % 10) ∷ []),
          every-digits fuel (n / 10),
          last_digit (n % 10) (omega arith),
        )
        refl
]

read_digit : (acc d : ℕ) → d < 10 → read_digits 10 acc ((48 + d) ∷ []) ≡ acc * 10 + d
read_digit acc d h = ground (arith, h)

read_digits-digits : (fuel n : ℕ) → n < fuel → read_digits 10 0 (digits fuel n) ≡ n
read_digits-digits zero n h = absurd (omega (arith, h))
read_digits-digits (suc fuel) n h = elim (Bool-cases (ltb n 10)) [
  | inl small ↦ rw small (read_digit 0 n (ground (arith, small)) ∙ omega arith)
  | inr large ↦
      let big : 10 ≤ n = ground (arith, large) in
      rw
        (
          large,
          read_digits-append 0 (digits fuel (n / 10)) ((48 + n % 10) ∷ [])
              (every-digits fuel (n / 10)),
          read_digits-digits fuel (n / 10) (omega (arith, h, big)),
          read_digit (n / 10) (n % 10) (omega arith),
        )
        (omega arith)
]

digits_nonempty : (fuel n : ℕ) → 0 < length (digits (suc fuel) n)
digits_nonempty fuel n = ground (arith, length-append (digits fuel (n / 10)) ((48 + n % 10) ∷ []))

digit_first :
    (c : ℕ)
    → is_digit c ≡ true
    → (is_blank c ≡ false) × (nat_eqb c 45 ≡ false) × (nat_eqb c 43 ≡ false)
digit_first c h = ground (arith, h)

digit_small : (c : ℕ) → is_digit c ≡ true → ltb (hex_value c) 10 ≡ true
digit_small c h = ground (arith, h)

unprefixed :
    (t : Text)
    → every is_digit t ≡ true
    → (starts_with t (text "0x") || starts_with t (text "0X")) ≡ false
unprefixed [] h = refl
unprefixed (c ∷ []) h = ground (arith, h)
unprefixed (c ∷ d ∷ t) h = ground (arith, h)

read_unsigned-digits :
    (t : Text)
    → every is_digit t ≡ true
    → 0 < length t
    → read_unsigned t ≡ some (read_digits 10 0 t)
read_unsigned-digits [] h l = absurd (omega (arith, l))
read_unsigned-digits (c ∷ t) h l = rw (unprefixed (c ∷ t) h, digit_small c (ground (arith, h))) refl

read_signed-digits :
    (t : Text)
    → every is_digit t ≡ true
    → 0 < length t
    → read_signed (skip_blanks t) ≡ some (pos (read_digits 10 0 t))
read_signed-digits [] h l = absurd (omega (arith, l))
read_signed-digits (c ∷ t) h l =
    let (blank, minus, plus) = digit_first c (ground (arith, h)) in
    rw (blank, minus, plus, read_unsigned-digits (c ∷ t) h l) refl

decimal_digits :
    (n : ℕ)
    → (every is_digit (decimal n) ≡ true)
      × (0 < length (decimal n))
      × (read_digits 10 0 (decimal n) ≡ n)
unfolding decimal
decimal_digits n =
    let e : n + 1 ≡ suc n = omega arith in
    (every-digits (n + 1) n, rw e (digits_nonempty n n), read_digits-digits (n + 1) n (omega arith))

pub parse_int-show_int : (z : ℤ) → parse_int (show_int z) ≡ some z
unfolding parse_int show_int
parse_int-show_int (pos n) =
    let (all, some_, value) = decimal_digits n in
    rw (read_signed-digits (decimal n) all some_, value) refl
parse_int-show_int (negsuc n) =
    let (all, some_, value) = decimal_digits (n + 1) in
    rw (read_unsigned-digits (decimal (n + 1)) all some_, value)
      (let e : n + 1 ≡ suc n = omega arith in rw e refl)
