-- ===== src/Automaton/Loader/Input.antt =====
-- `loadTransitionGraphDescFromStdin` and `loadTransitionGraphDescFromFile` of src/automaton.h: the whole
-- input as one string.
use automaton_state_machine.Base.{
  ℕ, zero, suc, ◌+◌, ◌-◌, ◌<◌, ◌≡◌, refl, Bool, false, [], ◌∷◌, ◌++◌, ◌==◌, ltb, if◌then◌else◌,
  length, length-append, arith, append_assoc, append-nil, ap, ◌∙◌, Bool-cases, inl, inr, take, drop,
  take-append,
}
use automaton_state_machine.Base.Int.{ℤ, pos, negsuc}
use automaton_state_machine.Base.Step.{Step, continues, exits}
use automaton_state_machine.Base.Outcome.{Outcome, ok, out_of_fuel, undefined, ◌>>=◌}
use automaton_state_machine.Text.Getline.{fgets_line, fgets_rest, fgets-append}
use automaton_state_machine.Text.Scan.{Text}

-- `FILE_BUF_SIZE`
abbrev pub file_buf_size : ℕ
file_buf_size = 3000007

-- The loop over the calls of `fgets`, which read at most `n` characters; the input holds no null byte.
-- `size` is `contentSize`: a round adds what it reads, and the content gets that many cells. The loop
-- goes on while `fgets` reads something.
unfoldable pub append_lines : ℕ → ℕ → ℕ → Text → Text → Outcome Text
append_lines zero n size content input = out_of_fuel
append_lines (suc fuel) n size content [] = ok content
append_lines (suc fuel) n size content (c ∷ s) =
    let line = fgets_line n (c ∷ s) in
    if ltb (size + length line) (length content + length line + 1)
    then undefined
    else append_lines fuel n (size + length line) (content ++ line) (fgets_rest n (c ∷ s))

-- `loadTransitionGraphDescFromStdin`, given whether the stream is in error behind the loop
unfoldable pub load_transition_graph_desc_from_stdin : Bool → Text → Outcome (Step Text)
load_transition_graph_desc_from_stdin error input =
    append_lines (length input + 1) (file_buf_size - 1) 1 [] input >>= λ content.
    ok (if error then exits else continues content)

fgets-progress : (n c : ℕ) (s : Text) → 0 < n → length (fgets_rest n (c ∷ s)) < length (c ∷ s)
fgets-progress zero c s h = absurd (omega arith)
fgets-progress (suc n) c s h = elim (Bool-cases (c == b'\n')) [
  | inl e ↦ rw e (omega arith)
  | inr e ↦
      rw e (
        omega
          (arith, ap length (fgets-append n s), length-append (fgets_line n s) (fgets_rest n s)))
]

pub append_lines-append :
    (fuel n : ℕ) (content input : Text)
    → 0 < n
    → length input < fuel
    → append_lines fuel n (length content + 1) content input ≡ ok (content ++ input)
unfolding append_lines
append_lines-append zero n content input h enough = absurd (omega arith)
append_lines-append (suc fuel) n content [] h enough = rw append-nil refl
append_lines-append (suc fuel) n content (c ∷ s) h enough =
    let line : Text = fgets_line n (c ∷ s) in
    let rest : Text = fgets_rest n (c ∷ s) in
    let fits : ltb (length content + 1 + length line) (length content + length line + 1) ≡ false =
      ground arith in
    let size : length content + 1 + length line ≡ length (content ++ line) + 1 =
      omega (arith, length-append content line) in
    rw (fits, size)
      (append_lines-append fuel n (content ++ line) rest h (omega (arith, fgets-progress n c s h))
        ∙ ap ok (append_assoc content line rest)
        ∙ ap (λ t. ok (content ++ t)) (fgets-append n (c ∷ s)))

-- `loadTransitionGraphDescFromStdin` ends on every input, stays in the memory that it allocates, and
-- returns the whole input if that holds no null byte and the stream is not in error.
pub load_transition_graph_desc_from_stdin-whole :
    (input : Text) → load_transition_graph_desc_from_stdin false input ≡ ok (continues input)
unfolding load_transition_graph_desc_from_stdin
load_transition_graph_desc_from_stdin-whole input =
    rw
      (append_lines-append (length input + 1) (file_buf_size - 1) [] input (omega arith)
        (omega arith))
      refl

-- the string in cells of memory: up to the first null byte
unfoldable pub text_in : Text → Text
text_in [] = []
text_in (c ∷ cells) = let rest = text_in cells in if c == 0 then [] else c ∷ rest

-- `loadTransitionGraphDescFromFile`, given the size that `ftell` returns, the characters that `fread`
-- reads, and what is in the new memory. A null byte is set behind `fsize` cells. A negative size, which
-- is an error of `ftell`, is used as a length.
unfoldable pub load_transition_graph_desc_from_file : ℤ → Text → Text → Outcome Text
load_transition_graph_desc_from_file (negsuc n) read memory = undefined
load_transition_graph_desc_from_file (pos fsize) read memory =
    ok (text_in (take fsize (read ++ drop (length read) memory) ++ 0 ∷ []))

-- no character is the null byte
abbrev pub NoNull : Text → Type 0
NoNull [] = Unit {0}
NoNull (c ∷ s) = (0 < c) × NoNull s

text_in-null : (s : Text) → NoNull s → text_in (s ++ 0 ∷ []) ≡ s
unfolding text_in
text_in-null [] h = refl
text_in-null (c ∷ s) (h, hs) =
    let character : (c == 0) ≡ false = ground arith in rw (character, text_in-null s hs) refl

-- If `ftell` returns the length of a file without null bytes and `fread` reads all of it, then
-- `loadTransitionGraphDescFromFile` returns it, whatever was in the memory.
pub load_transition_graph_desc_from_file-whole :
    (s memory : Text)
    → NoNull s
    → load_transition_graph_desc_from_file (pos (length s)) s memory ≡ ok s
unfolding load_transition_graph_desc_from_file
load_transition_graph_desc_from_file-whole s memory h =
    rw (take-append s (drop (length s) memory), text_in-null s h) refl
