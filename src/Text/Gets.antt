-- ===== src/Text/Gets.antt =====
-- `strGets` of src/getline.h, and the library's `fgets` as `getline` uses it.
use automaton_state_machine.Base.{
  ℕ, zero, suc, ◌+◌, ◌<◌, ◌≡◌, refl, Bool, true, false, not, List, [], ◌∷◌, ◌++◌, arith, ◌==◌,
  if◌then◌else◌, length, ap, add-zero, zero-add,
}

-- What a call leaves: the string in the output buffer, the rest of the input, whether the result is
-- `out` and not NULL, and how many cells of the output buffer it wrote.
pub record Gets : Type 0 where
  pub line : List ℕ
  pub rest : List ℕ
  pub found : Bool
  pub cells : ℕ

-- the loop of `strGets` at position `i`, with `n` rounds left
unfoldable pub str_gets_loop : ℕ → ℕ → List ℕ → Gets
str_gets_loop zero i s = record { line = []; rest = s; found = true; cells = i + 1 }
str_gets_loop (suc n) i [] = record { line = []; rest = []; found = not (i == 0); cells = i + 1 }
str_gets_loop (suc n) i (c ∷ s) =
    let more = str_gets_loop n (i + 1) s in
    if c == b'\n'
    then record { line = c ∷ []; rest = s; found = true; cells = i + 2 }
    else record more { line = c ∷ more.line }

-- `strGets`
unfoldable pub str_gets : ℕ → List ℕ → Gets
unfolding str_gets_loop
str_gets n s = str_gets_loop n 0 s

-- no character of the text ends a line
abbrev pub IsLine : List ℕ → Type 0
IsLine [] = Unit {0}
IsLine (c ∷ s) = ((c == b'\n') ≡ false) × IsLine s

loop-append : (n i : ℕ) (s : List ℕ) → (str_gets_loop n i s).line ++ (str_gets_loop n i s).rest ≡ s
unfolding str_gets_loop
loop-append zero i s = refl
loop-append (suc n) i [] = refl
loop-append (suc n) i (c ∷ s) = ground (arith, loop-append n (i + 1) s)

-- `strGets` splits the input: what it copies and what it leaves are the input, in order.
pub str_gets-append : (n : ℕ) (s : List ℕ) → (str_gets n s).line ++ (str_gets n s).rest ≡ s
unfolding str_gets
str_gets-append n s = loop-append n 0 s

loop-line :
    (n i : ℕ) (l s : List ℕ)
    → IsLine l
    → length l < n
    → str_gets_loop n i (l ++ b'\n' ∷ s)
      ≡ record { line = l ++ b'\n' ∷ []; rest = s; found = true; cells = i + length l + 2 }
unfolding str_gets_loop
loop-line zero i l s plain h = absurd (omega arith)
loop-line (suc n) i [] s plain h = rw (add-zero i)
loop-line (suc n) i (c ∷ l) s plain h =
    rw (plain.0, loop-line n (i + 1) l s plain.1 (omega arith))
      (ap (λ k. record { line = c ∷ (l ++ b'\n' ∷ []); rest = s; found = true; cells = k })
        (omega arith))

loop-last :
    (n i : ℕ) (l : List ℕ)
    → IsLine l
    → length l < n
    → str_gets_loop n i l
      ≡ record { line = l; rest = []; found = not (i + length l == 0); cells = i + length l + 1 }
unfolding str_gets_loop
loop-last zero i l plain h = absurd (omega arith)
loop-last (suc n) i [] plain h = rw (add-zero i)
loop-last (suc n) i (c ∷ l) plain h =
    rw (plain.0, loop-last n (i + 1) l plain.1 (omega arith))
      (ap (λ k. record { line = c ∷ l; rest = []; found = not (k == 0); cells = k + 1 })
        (omega arith))

loop-long :
    (n i : ℕ) (l s : List ℕ)
    → IsLine l
    → length l ≡ n
    → str_gets_loop n i (l ++ s) ≡ record { line = l; rest = s; found = true; cells = i + n + 1 }
unfolding str_gets_loop
loop-long zero i [] s plain h = rw (add-zero i)
loop-long zero i (c ∷ l) s plain h = absurd (omega arith)
loop-long (suc n) i [] s plain h = absurd (omega arith)
loop-long (suc n) i (c ∷ l) s plain h =
    rw (plain.0, loop-long n (i + 1) l s plain.1 (omega arith))
      (ap (λ k. record { line = c ∷ l; rest = s; found = true; cells = k }) (omega arith))

-- A line that ends within the limit is copied with its newline; two cells more are written.
pub str_gets-line :
    (n : ℕ) (l s : List ℕ)
    → IsLine l
    → length l < n
    → str_gets n (l ++ b'\n' ∷ s)
      ≡ record { line = l ++ b'\n' ∷ []; rest = s; found = true; cells = length l + 2 }
unfolding str_gets
str_gets-line n l s plain h = rw (loop-line n 0 l s plain h, zero-add)

-- A last line with no newline is copied whole; the result is NULL if it is empty.
pub str_gets-last :
    (n : ℕ) (l : List ℕ)
    → IsLine l
    → length l < n
    → str_gets n l
      ≡ record { line = l; rest = []; found = not (length l == 0); cells = length l + 1 }
unfolding str_gets
str_gets-last n l plain h = rw (loop-last n 0 l plain h, zero-add)

-- A longer line is cut after `n` characters, and the null byte goes into cell `n`: `n + 1` cells.
pub str_gets-long :
    (n : ℕ) (l s : List ℕ)
    → IsLine l
    → length l ≡ n
    → str_gets n (l ++ s) ≡ record { line = l; rest = s; found = true; cells = n + 1 }
unfolding str_gets
str_gets-long n l s plain h = rw (loop-long n 0 l s plain h, zero-add)
