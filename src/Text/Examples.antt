-- ===== src/Text/Examples.antt =====
-- The theorems about lines at small inputs.
use automaton_state_machine.Base.{
  ℕ, zero, suc, ◌≡◌, refl, ◌≤◌, false, List, [], ◌∷◌, ◌++◌, arith, length, replicate,
}
use automaton_state_machine.Base.Int.{pos}
use automaton_state_machine.Base.Outcome.{ok, undefined}
use automaton_state_machine.Text.Gets.{IsLine}
use automaton_state_machine.Text.Getline.{
  LineBuf, static_size, str_getline, getline, cut, str_getline-line, str_getline-overrun,
  getline_total,
}

abbrev buffer : LineBuf
buffer = record { cap = 1020; text = [] }

-- "ab\ncd"
abbrev input : List ℕ
input = b'a' ∷ b'b' ∷ b'\n' ∷ b'c' ∷ b'd' ∷ []

str_getline-line_example :
    str_getline buffer input
    ≡ ok (record {
      size = pos 2;
      buf = record { cap = 256; text = b'a' ∷ b'b' ∷ [] };
      rest = b'c' ∷ b'd' ∷ [];
    })
str_getline-line_example =
    str_getline-line buffer (b'a' ∷ b'b' ∷ []) (b'c' ∷ b'd' ∷ []) (refl, (refl, tt)) (omega arith)

IsLine-replicate : (n : ℕ) → IsLine (replicate n b'a')
IsLine-replicate zero = tt
IsLine-replicate (suc n) = (refl, IsLine-replicate n)

str_getline-overrun_example : str_getline buffer (replicate 255 b'a' ++ b'\n' ∷ []) ≡ undefined
str_getline-overrun_example =
    str_getline-overrun buffer (replicate 255 b'a') [] (IsLine-replicate 255) (omega arith)

getline_total_example :
    (cap : ℕ) × (line rest : List ℕ) × (getline false buffer input
      ≡ ok (record {
        size = pos (length (cut line));
        buf = record { cap = cap; text = cut line };
        rest = rest;
      }))
    × (static_size ≤ cap)
    × (line ++ rest ≡ input)
getline_total_example = getline_total buffer b'a' (b'b' ∷ b'\n' ∷ b'c' ∷ b'd' ∷ []) (omega arith)
