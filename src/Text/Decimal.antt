-- ===== src/Text/Decimal.antt =====
-- A number that is printed is read back, with the text behind it.
use automaton_state_machine.Base.{
  ℕ, zero, suc, ◌+◌, ◌/◌, ◌%◌, ◌<◌, ◌≡◌, refl, true, false, [], ◌∷◌, ◌++◌, ◌==◌, ltb, arith,
  Bool-cases, inl, inr, ap, ◌∙◌,
}
use automaton_state_machine.Base.Int.{ℤ, pos, negsuc, neg}
use automaton_state_machine.Text.Gets.{IsLine}
use automaton_state_machine.Text.Scan.{
  Text, is_space, is_digit, skip, scan_digits, number, scan_unsigned, scan_signed, scan_int, digits,
  print_nat, print_int,
}

-- the text does not go on with a digit
abbrev pub IsBreak : Text → Type 0
IsBreak [] = Unit {0}
IsBreak (c ∷ s) = is_digit c ≡ false

scan_digits-IsBreak : (n : ℕ) (s : Text) → IsBreak s → scan_digits n s ≡ (n, s)
unfolding scan_digits
scan_digits-IsBreak n [] h = refl
scan_digits-IsBreak n (c ∷ s) h = rw h refl

-- reading the digits of a number in front of a text
scan_digits-digits :
    (fuel n : ℕ) (s : Text) → n < fuel → scan_digits 0 (digits fuel n s) ≡ scan_digits n s
unfolding digits scan_digits
scan_digits-digits zero n s h = absurd (omega arith)
scan_digits-digits (suc fuel) n s h =
    ground (arith, scan_digits-digits fuel (n / 10) ((b'0' + n % 10) ∷ s))

digits-append : (fuel n : ℕ) (s t : Text) → digits fuel n s ++ t ≡ digits fuel n (s ++ t)
unfolding digits
digits-append zero n s t = refl
digits-append (suc fuel) n s t = ground (arith, digits-append fuel (n / 10) ((b'0' + n % 10) ∷ s) t)

-- a text that begins with a digit
abbrev pub IsDigits : Text → Type 0
IsDigits s = (c : ℕ) × (t : Text) × (s ≡ c ∷ t) × (is_digit c ≡ true)

digits-IsDigits : (fuel n : ℕ) (s : Text) → n < fuel → IsDigits (digits fuel n s)
unfolding digits
digits-IsDigits zero n s h = absurd (omega arith)
digits-IsDigits (suc fuel) n s h = elim (Bool-cases (ltb n 10)) [
  | inl e ↦ (b'0' + n, s, rw (e, digits) refl, ground arith)
  | inr e ↦ rw (e, digits) (digits-IsDigits fuel (n / 10) ((b'0' + n % 10) ∷ s) (ground arith))
]

scan_int-IsDigits :
    (s : Text) → IsDigits s → scan_int s ≡ (let (n, rest) = scan_digits 0 s in number (pos n) rest)
unfolding scan_int scan_signed scan_unsigned skip
scan_int-IsDigits s (c, t, e, d) =
    let plain : is_space c ≡ false = ground arith in
    let not_minus : (c == b'-') ≡ false = ground arith in
    let not_plus : (c == b'+') ≡ false = ground arith in rw (e, plain, not_minus, not_plus, d) refl

-- a number that is printed is read back, up to the text behind it
pub scan_int-print_nat :
    (n : ℕ) (rest : Text) → IsBreak rest → scan_int (print_nat n ++ rest) ≡ number (pos n) rest
unfolding print_nat
scan_int-print_nat n rest h = rw (digits-append (n + 1) n [] rest) (
    rw (scan_int-IsDigits (digits (n + 1) n rest) (digits-IsDigits (n + 1) n rest (omega arith)))
      (rw (scan_digits-digits (n + 1) n rest (omega arith), scan_digits-IsBreak n rest h) refl))

-- the same behind a blank
pub scan_int-blank :
    (n : ℕ) (rest : Text)
    → IsBreak rest
    → scan_int (b' ' ∷ print_nat n ++ rest) ≡ number (pos n) rest
unfolding scan_int skip
scan_int-blank n rest h = scan_int-print_nat n rest h

digits-IsLine : (fuel n : ℕ) (s : Text) → IsLine s → IsLine (digits fuel n s)
unfolding digits
digits-IsLine zero n s h = h
digits-IsLine (suc fuel) n s h = elim (Bool-cases (ltb n 10)) [
  | inl e ↦ rw (e, digits) (ground arith, h)
  | inr e ↦ rw (e, digits) (digits-IsLine fuel (n / 10) ((b'0' + n % 10) ∷ s) (ground arith, h))
]

pub print_nat-IsLine : (n : ℕ) → IsLine (print_nat n)
unfolding print_nat
print_nat-IsLine n = digits-IsLine (n + 1) n [] tt

pub IsLine-append : (s t : Text) → IsLine s → IsLine t → IsLine (s ++ t)
IsLine-append [] t h k = k
IsLine-append (c ∷ s) t h k = (h.0, IsLine-append s t h.1 k)

scan_unsigned-IsDigits :
    (sign : ℕ → ℤ) (s : Text)
    → IsDigits s
    → scan_unsigned sign s ≡ (let (n, rest) = scan_digits 0 s in number (sign n) rest)
unfolding scan_unsigned
scan_unsigned-IsDigits sign s (c, t, e, d) = rw (e, d) refl

scan_unsigned-print_nat :
    (sign : ℕ → ℤ) (n : ℕ) (rest : Text)
    → IsBreak rest
    → scan_unsigned sign (print_nat n ++ rest) ≡ number (sign n) rest
unfolding print_nat
scan_unsigned-print_nat sign n rest h = rw (digits-append (n + 1) n [] rest) (
    rw
      (scan_unsigned-IsDigits sign (digits (n + 1) n rest)
        (digits-IsDigits (n + 1) n rest (omega arith)))
      (rw (scan_digits-digits (n + 1) n rest (omega arith), scan_digits-IsBreak n rest h) refl))

minus-print_nat :
    (n : ℕ) (rest : Text)
    → IsBreak rest
    → scan_int (b'-' ∷ print_nat (n + 1) ++ rest) ≡ number (neg (pos (n + 1))) rest
unfolding scan_int skip scan_signed
minus-print_nat n rest h = scan_unsigned-print_nat (λ k. neg (pos k)) (n + 1) rest h

-- an integer that is printed is read back, up to the text behind it
pub scan_int-print_int :
    (z : ℤ) (rest : Text) → IsBreak rest → scan_int (print_int z ++ rest) ≡ number z rest
unfolding print_int
scan_int-print_int (pos n) rest h = scan_int-print_nat n rest h
scan_int-print_int (negsuc n) rest h =
    let back : neg (pos (n + 1)) ≡ negsuc n = ground arith in
    minus-print_nat n rest h ∙ ap (λ z. number z rest) back
