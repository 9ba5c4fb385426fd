-- ===== src/Text/Scan.antt =====
-- What `sscanf` does at the directives `%d`, `%c` and white space, and what `sprintf` prints at `%d`.
-- A number that does not fit an `int` is not modelled: it keeps its value.
use automaton_state_machine.Base.{
  ℕ, zero, suc, ◌+◌, ◌-◌, ◌*◌, ◌/◌, ◌%◌, Bool, true, false, ◌&&◌, ◌||◌, List, [], ◌∷◌, ◌==◌, ltb,
  leb, if◌then◌else◌, Option, none, some,
}
use automaton_state_machine.Base.Int.{ℤ, pos, negsuc, neg}

abbrev pub Text : Type 0
Text = List ℕ

-- `isspace` and `isdigit`
abbrev pub is_space : ℕ → Bool
is_space c = c == b' ' || (leb b'\t' c && leb c b'\r')

abbrev pub is_digit : ℕ → Bool
is_digit c = leb b'0' c && leb c b'9'

-- white space in a format, and what `%d` skips
unfoldable pub skip : Text → Text
skip [] = []
skip (c ∷ s) = if is_space c then skip s else c ∷ s

-- the digits of a number, behind a part of it whose value is `n`
unfoldable pub scan_digits : ℕ → Text → ℕ × Text
scan_digits n [] = (n, [])
scan_digits n (c ∷ s) = if is_digit c then scan_digits (n * 10 + (c - b'0')) s else (n, c ∷ s)

-- The end of a directive `%d`: a number and the input behind it, a character that does not fit, or
-- the end of the input, on which `sscanf` returns EOF if it has read nothing.
pub data Scanned : Type 0 where
  number : ℤ → Text → Scanned
  mismatch : Scanned
  ended : Scanned

-- one digit at least
unfoldable pub scan_unsigned : (ℕ → ℤ) → Text → Scanned
unfolding scan_digits
scan_unsigned sign [] = mismatch
scan_unsigned sign (c ∷ s) =
    if is_digit c then (let (n, rest) = scan_digits 0 (c ∷ s) in number (sign n) rest) else mismatch

-- behind the white space
unfoldable pub scan_signed : Text → Scanned
unfolding scan_unsigned
scan_signed [] = ended
scan_signed (c ∷ s) =
    if c == b'-'
    then scan_unsigned (λ n. neg (pos n)) s
    else if c == b'+'
    then scan_unsigned pos s
    else scan_unsigned pos (c ∷ s)

-- `%d`
unfoldable pub scan_int : Text → Scanned
unfolding skip scan_signed
scan_int s = scan_signed (skip s)

-- the digits of `n`, in front of a text; the fuel bounds their number
unfoldable pub digits : ℕ → ℕ → Text → Text
digits zero n s = s
digits (suc fuel) n s = elim (ltb n 10) [
  | true ↦ (b'0' + n) ∷ s
  | false ↦ digits fuel (n / 10) ((b'0' + n % 10) ∷ s)
]

-- `%d`
unfoldable pub print_nat : ℕ → Text
unfolding digits
print_nat n = digits (n + 1) n []

unfoldable pub print_int : ℤ → Text
unfolding print_nat
print_int (pos n) = print_nat n
print_int (negsuc n) = b'-' ∷ print_nat (n + 1)

-- `strcmp(s, t) == 0`
abbrev pub eq_text : Text → Text → Bool
eq_text [] [] = true
eq_text [] (d ∷ t) = false
eq_text (c ∷ s) [] = false
eq_text (c ∷ s) (d ∷ t) = c == d && eq_text s t

-- characters of a format other than white space: the input behind them
abbrev pub scan_literal : Text → Text → Option Text
scan_literal [] s = some s
scan_literal (d ∷ t) [] = none
scan_literal (d ∷ t) (c ∷ s) = if c == d then scan_literal t s else none
