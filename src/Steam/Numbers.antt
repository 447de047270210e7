-- ===== src/Steam/Numbers.antt =====
-- libdbsteam/rs.cpp: numbers of 32 bits as text, by `util::Printf` and by `strtoul` to base 10.
use chorale.Base.{
  ℕ, zero, suc, ◌+◌, ◌-◌, ◌*◌, ◌/◌, ◌%◌, ◌<◌, ◌≡◌, refl, ◌∙◌, ap, sym, Bool, true, false, [], ◌∷◌,
  Bytes, u32, u64, ltb, leb, ◌==◌, if◌then◌else◌, arith, Bool-cases, inl, inr,
}
use chorale.Text.Scan.{is_decimal, skip_spaces}
use chorale.Text.UrlText.{is_space}

-- The digits of `n`, `fuel` of them at most, before `rest`.
unfoldable pub print_from : ℕ → ℕ → Bytes → Bytes
print_from zero n rest = rest
print_from (suc fuel) n rest =
    let more = print_from fuel (n / 10) ((b'0' + n % 10) ∷ rest) in
    if ltb n 10 then (b'0' + n % 10) ∷ rest else more

-- A number of 32 bits has ten digits at most.
unfoldable pub print : ℕ → Bytes
unfolding print_from
print n = print_from 10 n []

unfoldable pub digits_value : ℕ → Bytes → ℕ
digits_value v [] = v
digits_value v (c ∷ s) =
    let rest = digits_value (v * 10 + (c - b'0')) s in if is_decimal c then rest else v

-- The result as `uint32_t`; `strtoul` gives ULONG_MAX where the number does not fit.
unfoldable pub clamp32 : Bool → ℕ → ℕ
clamp32 negative v =
    if leb u64 v then u32 - 1 else if negative then (u32 - v % u32) % u32 else v % u32

unfoldable pub strtoul : Bytes → ℕ
unfolding digits_value clamp32 skip_spaces
strtoul s = elim (skip_spaces s) [
  | [] ↦ 0
  | c ∷ p ↦
      if c == b'-'
      then clamp32 true (digits_value 0 p)
      else if c == b'+'
      then clamp32 false (digits_value 0 p)
      else clamp32 false (digits_value 0 (c ∷ p))
]

-- Numbers of `fuel` digits lie below this.
abbrev power_of_ten : ℕ → ℕ
power_of_ten zero = 1
power_of_ten (suc fuel) = 10 * power_of_ten fuel

digits_value-digit :
    (v d : ℕ) (rest : Bytes)
    → d < 10
    → digits_value v ((b'0' + d) ∷ rest) ≡ digits_value (v * 10 + d) rest
unfolding digits_value
digits_value-digit v d rest h =
    let test : is_decimal (b'0' + d) ≡ true = ground (arith, h) in
    let digit : b'0' + d - b'0' ≡ d = omega arith in rw (digit, test) refl

digits_value-print_from :
    (fuel n : ℕ) (rest : Bytes)
    → n < power_of_ten fuel
    → digits_value 0 (print_from fuel n rest) ≡ digits_value n rest
unfolding print_from
digits_value-print_from zero n rest h = let none_left : n ≡ 0 = omega arith in rw none_left refl
digits_value-print_from (suc fuel) n rest h = elim (Bool-cases (ltb n 10)) [
  | inl last ↦
      let itself : 0 * 10 + n % 10 ≡ n = ground (arith, last) in
      rw last (digits_value-digit 0 (n % 10) rest (omega arith) ∙ rw itself refl)
  | inr more ↦
      let itself : n / 10 * 10 + n % 10 ≡ n = omega arith in
      rw more (
        digits_value-print_from fuel (n / 10) ((b'0' + n % 10) ∷ rest) (omega (arith, h))
        ∙ digits_value-digit (n / 10) (n % 10) rest (omega arith)
        ∙ rw itself refl)
]

digits_value-nil : (v : ℕ) → digits_value v [] ≡ v
unfolding digits_value
digits_value-nil v = refl

clamp32-small : (v : ℕ) → v < u32 → clamp32 false v ≡ v
unfolding clamp32
clamp32-small v h = ground (arith, h)

-- Printed text starts with a digit.
print_from-starts :
    (fuel n c : ℕ) (s rest : Bytes)
    → is_decimal c ≡ true
    → (d : ℕ) × (t : Bytes) × (is_decimal d ≡ true) × (print_from fuel n (c ∷ rest) ≡ d ∷ t)
unfolding print_from
print_from-starts zero n c s rest h = (c, rest, h, refl)
print_from-starts (suc fuel) n c s rest h = elim (Bool-cases (ltb n 10)) [
  | inl last ↦ rw last (b'0' + n % 10, c ∷ rest, ground arith, refl)
  | inr more ↦ rw more (print_from-starts fuel (n / 10) (b'0' + n % 10) s (c ∷ rest) (ground arith))
]

digit_no_space : (c : ℕ) → is_decimal c ≡ true → is_space c ≡ false
unfolding is_space
digit_no_space c h = ground (arith, h)

strtoul-decimal :
    (c : ℕ) (s : Bytes)
    → is_decimal c ≡ true
    → strtoul (c ∷ s) ≡ clamp32 false (digits_value 0 (c ∷ s))
unfolding strtoul skip_spaces
strtoul-decimal c s h =
    let signed : (c == b'-') ≡ false = ground (arith, h) in
    let plus : (c == b'+') ≡ false = ground (arith, h) in
    rw (strtoul, skip_spaces, digit_no_space c h, signed, plus) refl

print_from-digits :
    (fuel n : ℕ)
    → (d : ℕ) × (t : Bytes) × (is_decimal d ≡ true) × (print_from (suc fuel) n [] ≡ d ∷ t)
unfolding print_from
print_from-digits fuel n = elim (Bool-cases (ltb n 10)) [
  | inl last ↦ rw last (b'0' + n % 10, [], ground arith, refl)
  | inr more ↦ rw more (print_from-starts fuel (n / 10) (b'0' + n % 10) [] [] (ground arith))
]

strtoul-print_from :
    (fuel n : ℕ) → n < power_of_ten (suc fuel) → n < u32 → strtoul (print_from (suc fuel) n []) ≡ n
strtoul-print_from fuel n h fits =
    let (d, t, digit, e) = print_from-digits fuel n in
    let value : digits_value 0 (d ∷ t) ≡ n =
      ap (digits_value 0) (sym e)
      ∙ digits_value-print_from (suc fuel) n [] h
      ∙ digits_value-nil n in
    ap strtoul e ∙ strtoul-decimal d t digit ∙ ap (clamp32 false) value ∙ clamp32-small n fits

-- What is printed is read back.
pub strtoul-print : (n : ℕ) → n < u32 → strtoul (print n) ≡ n
unfolding print
strtoul-print n h = strtoul-print_from 9 n (omega (arith, h)) h
