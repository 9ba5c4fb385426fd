-- ===== src/Text/Getline.antt =====
-- `strGetline` and `getline` of src/getline.h. Both read through a static buffer of 256 cells, and
-- copy the line into the caller's buffer, which they make 256 cells large first if the line fits.
use automaton_state_machine.Base.{
  ℕ, zero, suc, ◌+◌, ◌-◌, ◌≤◌, ◌<◌, ◌≡◌, refl, Bool, true, false, List, [], ◌∷◌, ◌++◌, arith, ◌==◌,
  ltb, if◌then◌else◌, length, ap, sym, subst, append_assoc, take, drop, take-append-drop,
  length-take, ◌∙◌, Bool-cases, inl, inr, ltb→lt,
}
use automaton_state_machine.Base.Int.{ℤ, pos, negsuc}
use automaton_state_machine.Base.Outcome.{Outcome, ok, undefined}
use automaton_state_machine.Text.Gets.{
  Gets, IsLine, str_gets, str_gets-line, str_gets-last, str_gets-long,
}

-- the size of the static buffer `line`
abbrev pub static_size : ℕ
static_size = 256

-- the caller's buffer, `*lineptr`: how many cells it has, and the string in it
pub record LineBuf : Type 0 where
  pub cap : ℕ
  pub text : List ℕ

-- the result of a call, the caller's buffer after it, and the input that is left
pub record Read : Type 0 where
  pub size : ℤ
  pub buf : LineBuf
  pub rest : List ℕ

-- `strchr(line, '\n')` and `*ptr = '\0'`: the string up to its first newline
abbrev pub cut : List ℕ → List ℕ
cut [] = []
cut (c ∷ s) = if c == b'\n' then [] else c ∷ cut s

-- the second half of both functions: make room, `strcpy(*lineptr, line)`, return the length
abbrev pub copy_line : LineBuf → List ℕ → List ℕ → Outcome Read
copy_line buf line rest =
    let len = length line in
    let cap = if ltb (len + 1) static_size then static_size else buf.cap in
    if ltb cap (len + 1)
    then undefined
    else ok (record { size = pos len; buf = record { cap = cap; text = line }; rest = rest })

-- `strGetline`
unfoldable pub str_getline : LineBuf → List ℕ → Outcome Read
unfolding str_gets
str_getline buf s =
    let g = str_gets static_size s in
    if ltb static_size g.cells
    then undefined
    else if g.found
    then copy_line buf (cut g.line) g.rest
    else ok (record { size = negsuc 0; buf = buf; rest = g.rest })

-- `fgets`: at most `n` characters, to the end of the line
abbrev pub fgets_line : ℕ → List ℕ → List ℕ
fgets_line zero s = []
fgets_line (suc n) [] = []
fgets_line (suc n) (c ∷ s) = if c == b'\n' then c ∷ [] else c ∷ fgets_line n s

abbrev pub fgets_rest : ℕ → List ℕ → List ℕ
fgets_rest zero s = s
fgets_rest (suc n) [] = []
fgets_rest (suc n) (c ∷ s) = if c == b'\n' then s else fgets_rest n s

-- `getline` on a file, given whether the stream is in error. At the end of the file `fgets` returns
-- NULL, which is also what the test of `feof` before it comes to.
unfoldable pub getline : Bool → LineBuf → List ℕ → Outcome Read
getline error buf [] = ok (record { size = negsuc 0; buf = buf; rest = [] })
getline error buf (c ∷ s) =
    if error
    then ok (record { size = negsuc 0; buf = buf; rest = c ∷ s })
    else copy_line buf (cut (fgets_line (static_size - 1) (c ∷ s)))
        (fgets_rest (static_size - 1) (c ∷ s))

cut-line : (l s : List ℕ) → IsLine l → cut (l ++ b'\n' ∷ s) ≡ l
cut-line [] s plain = refl
cut-line (c ∷ l) s plain = rw (plain.0, cut-line l s plain.1)

cut-IsLine : (l : List ℕ) → IsLine l → cut l ≡ l
cut-IsLine [] plain = refl
cut-IsLine (c ∷ l) plain = rw (plain.0, cut-IsLine l plain.1)

copy_line-short :
    (buf : LineBuf) (l s : List ℕ)
    → length l + 1 < static_size
    → copy_line buf l s
      ≡ ok
          (record { size = pos (length l); buf = record { cap = static_size; text = l }; rest = s })
copy_line-short buf l s h = ground arith

-- `strGetline` reads a line of at most 254 characters without its newline, into a buffer that it
-- makes 256 cells large, and leaves the input behind the newline.
pub str_getline-line :
    (buf : LineBuf) (l s : List ℕ)
    → IsLine l
    → length l + 1 < static_size
    → str_getline buf (l ++ b'\n' ∷ s)
      ≡ ok
          (record { size = pos (length l); buf = record { cap = static_size; text = l }; rest = s })
unfolding str_getline
str_getline-line buf l s plain h =
    let fits : ltb static_size (length l + 2) ≡ false = ground arith in
    rw (str_gets-line static_size l s plain (omega arith), fits, cut-line l [] plain)
      (copy_line-short buf l s h)

-- `strGetline` reads a last line of 1 to 254 characters that has no newline whole, and leaves no
-- input.
pub str_getline-last :
    (buf : LineBuf) (c : ℕ) (l : List ℕ)
    → IsLine (c ∷ l)
    → length (c ∷ l) + 1 < static_size
    → str_getline buf (c ∷ l)
      ≡ ok (record {
        size = pos (length (c ∷ l));
        buf = record { cap = static_size; text = c ∷ l };
        rest = [];
      })
unfolding str_getline
str_getline-last buf c l plain h =
    let fits : ltb static_size (length (c ∷ l) + 1) ≡ false = ground arith in
    let more : (length (c ∷ l) == 0) ≡ false = ground arith in
    rw (str_gets-last static_size (c ∷ l) plain (omega arith), fits, more, cut-IsLine (c ∷ l) plain)
      (copy_line-short buf (c ∷ l) [] h)

-- At the end of the input the result is -1, and the buffer keeps the last line.
pub str_getline-end :
    (buf : LineBuf) → str_getline buf [] ≡ ok (record { size = negsuc 0; buf = buf; rest = [] })
unfolding str_getline
str_getline-end buf = refl

IsLine-take : (n : ℕ) (l : List ℕ) → IsLine l → IsLine (take n l)
IsLine-take zero l plain = tt
IsLine-take (suc n) [] plain = tt
IsLine-take (suc n) (c ∷ l) plain = (plain.0, IsLine-take n l plain.1)

-- A line of 256 characters or more is cut, one cell too late.
str_gets-cells :
    (l s : List ℕ)
    → IsLine l
    → static_size ≤ length l
    → (str_gets static_size (l ++ s)).cells ≡ static_size + 1
str_gets-cells l s plain h =
    subst (λ t. (str_gets static_size t).cells ≡ static_size + 1)
      (sym (append_assoc (take static_size l) (drop static_size l) s)
        ∙ ap (λ t. t ++ s) (take-append-drop static_size l))
      (ap (λ (g : Gets). g.cells)
        (str_gets-long static_size (take static_size l) (drop static_size l ++ s)
          (IsLine-take static_size l plain) (omega (arith, length-take static_size l))))

-- On a line of 255 characters or more `strGetline` overruns its static buffer, by the null byte
-- behind the newline or by the one behind the cut.
pub str_getline-overrun :
    (buf : LineBuf) (l s : List ℕ)
    → IsLine l
    → static_size ≤ length l + 1
    → str_getline buf (l ++ b'\n' ∷ s) ≡ undefined
unfolding str_getline
str_getline-overrun buf l s plain h = elim (Bool-cases (ltb (length l) static_size)) [
  | inl short ↦
      let over : ltb static_size (length l + 2) ≡ true = ground arith in
      rw (str_gets-line static_size l s plain (ltb→lt _ _ short), over)
  | inr long ↦
      let over : ltb static_size (str_gets static_size (l ++ b'\n' ∷ s)).cells ≡ true =
        rw (str_gets-cells l (b'\n' ∷ s) plain (ground arith)) in
      rw over
]

length-cut_fgets : (n : ℕ) (s : List ℕ) → length (cut (fgets_line n s)) ≤ n
length-cut_fgets zero s = omega arith
length-cut_fgets (suc n) [] = omega arith
length-cut_fgets (suc n) (c ∷ s) = elim (Bool-cases (c == b'\n')) [
  | inl e ↦ rw (e, e) (omega arith)
  | inr e ↦ rw (e, e) (omega (arith, length-cut_fgets n s))
]

-- `fgets` splits the input.
pub fgets-append : (n : ℕ) (s : List ℕ) → fgets_line n s ++ fgets_rest n s ≡ s
fgets-append zero s = refl
fgets-append (suc n) [] = refl
fgets-append (suc n) (c ∷ s) = elim (Bool-cases (c == b'\n')) [
  | inl e ↦ rw e
  | inr e ↦ rw (e, fgets-append n s)
]

copy_line_total :
    (buf : LineBuf) (l s : List ℕ)
    → length l < static_size
    → static_size ≤ buf.cap
    → (cap : ℕ) × (copy_line buf l s
        ≡ ok (record { size = pos (length l); buf = record { cap = cap; text = l }; rest = s }))
      × (static_size ≤ cap)
copy_line_total buf l s h roomy =
    (if ltb (length l + 1) static_size then static_size else buf.cap, ground arith, ground arith)

-- On a buffer of at least 256 cells `getline` stays in bounds, whatever the length of the line: it
-- returns the number of characters that it put into the buffer, the buffer keeps its room, and the
-- input that it consumed is a piece that begins with them.
pub getline_total :
    (buf : LineBuf) (c : ℕ) (s : List ℕ)
    → static_size ≤ buf.cap
    → (cap : ℕ) × (line rest : List ℕ) × (getline false buf (c ∷ s)
        ≡ ok (record {
          size = pos (length (cut line));
          buf = record { cap = cap; text = cut line };
          rest = rest;
        }))
      × (static_size ≤ cap)
      × (line ++ rest ≡ c ∷ s)
unfolding getline
getline_total buf c s roomy =
    let n : ℕ = static_size - 1 in
    let line = fgets_line n (c ∷ s) in
    let short = length-cut_fgets n (c ∷ s) in
    let (cap, e, room) =
      copy_line_total buf (cut line) (fgets_rest n (c ∷ s)) (omega arith) roomy in
    (cap, line, fgets_rest n (c ∷ s), e, room, fgets-append n (c ∷ s))
