-- ===== src/Automaton/Loader.antt =====
-- `loadTransitionGraph` of src/automaton.h. A text is the list of its characters, codes below 256, up
-- to the null byte. The pointer that the caller passes is advanced for no use. A read behind the end
-- of the string in the line buffer, which finds what an earlier line has left there, counts as
-- undefined.
pub mod Format
pub mod Marks
pub mod Grow
pub mod Lines
pub mod Correct
pub mod Input
pub mod Examples
use automaton_state_machine.Base.{
  ℕ, zero, suc, ◌+◌, ◌-◌, Bool, true, false, List, [], ◌∷◌, ltb, leb, if◌then◌else◌, Option, none,
  some, length, drop,
}
use automaton_state_machine.Base.Int.{ℤ, pos, negsuc, pos_part, ltb_ℤ, sub_ℕ}
use automaton_state_machine.Base.Outcome.{Outcome, ok, undefined, out_of_fuel, ◌>>=◌, index, store}
use automaton_state_machine.Text.Getline.{LineBuf, Read, str_getline}
use automaton_state_machine.Text.Scan.{Text, skip, Scanned, number, mismatch, ended, scan_int}
use automaton_state_machine.Automaton.Graph.{TransitionGraph, max_q, max_a, size_at}

-- The local variables that outlive a line: `q`, `a`, `r` and `npos` have no value at first, and
-- keep their value where a call of `sscanf` does not assign them. `offset` is `pos`.
pub record Vars : Type 0 where
  pub q : Option ℤ
  pub a : Option ℕ
  pub r : Option ℤ
  pub npos : Option ℕ
  pub offset : ℕ

-- the value of a variable, which is undefined before the first assignment
abbrev pub assigned {ℓ} : {A : Type ℓ} → Option A → Outcome A
assigned none = undefined
assigned (some x) = ok x

-- `line_buf + pos`
abbrev pub text_at : Text → ℕ → Outcome Text
text_at line n = if leb n (length line) then ok (drop n line) else undefined

-- `sscanf(line_buf, "%d %d %d %d %d", &N, &(tg->A), &(tg->Q), &(tg->U), &(tg->F))`: the numbers up
-- to the first that fails, and the fields that they are for
abbrev pub scan_ints : ℕ → Text → List ℤ
scan_ints zero s = []
scan_ints (suc n) s = elim (scan_int s) [
  | number i rest ↦ i ∷ scan_ints n rest
  | mismatch ↦ []
  | ended ↦ []
]

abbrev pub set_sizes : List ℤ → TransitionGraph → TransitionGraph
set_sizes [] tg = tg
set_sizes (n ∷ []) tg = tg
set_sizes (n ∷ a ∷ []) tg = record tg { alphabet = a }
set_sizes (n ∷ a ∷ q ∷ []) tg = record tg { alphabet = a; states = q }
set_sizes (n ∷ a ∷ q ∷ u ∷ []) tg = record tg { alphabet = a; states = q; universal = u }
set_sizes (n ∷ a ∷ q ∷ u ∷ f ∷ rest) tg = record tg {
  alphabet = a;
  states = q;
  universal = u;
  finals = f;
}

-- `sscanf(line_buf, "%d", &(tg->q0))`
abbrev pub set_start : Scanned → TransitionGraph → TransitionGraph
set_start (number i rest) tg = record tg { q0 = i }
set_start mismatch tg = tg
set_start ended tg = tg

-- `sscanf(line_buf+pos, "%d%n", &q, &npos)`
abbrev pub set_q : Text → Scanned → Vars → Vars
set_q s (number i rest) v = record v { q = some i; npos = some (length s - length rest) }
set_q s mismatch v = v
set_q s ended v = v

-- the loop over the accepting states, with `n` rounds left; no round looks at what `sscanf` returns
unfoldable pub load_finals : ℕ → Text → TransitionGraph → Vars → Outcome (TransitionGraph × Vars)
load_finals zero line tg v = ok (tg, v)
load_finals (suc n) line tg v = text_at line v.offset >>= λ s.
    let w = set_q s (scan_int s) v in
    assigned w.q >>= λ q. store max_q tg.accepting_states q 1 >>= λ flags.
    assigned w.npos >>= λ step.
    load_finals n line (record tg { accepting_states = flags })
      (record w { offset = w.offset + step })

-- `a - 'a'` for a `char`, which is signed
abbrev pub letter_index : ℕ → ℤ
letter_index c = if ltb c 128 then sub_ℕ c b'a' else negsuc (352 - c)

-- `tg->graph[q][a][tg->size[q][a]++] = r`
abbrev pub add_target : TransitionGraph → ℤ → ℤ → ℤ → Outcome TransitionGraph
add_target tg q a r = size_at tg q a >>= λ n. index max_q tg.graph q >>= λ plane.
    index max_a plane a >>= λ row. store max_q row (pos n) r >>= λ row.
    store max_a plane a row >>= λ plane. store max_q tg.graph q plane >>= λ graph.
    index max_q tg.size q >>= λ sizes. store max_a sizes a (n + 1) >>= λ sizes.
    store max_q tg.size q sizes >>= λ size. ok (record tg { graph = graph; size = size })

-- `sscanf(line_buf+pos, "%d%n", &r, &npos)`
abbrev pub set_r : Text → Scanned → Vars → Vars
set_r s (number i rest) v = record v { r = some i; npos = some (length s - length rest) }
set_r s mismatch v = v
set_r s ended v = v

-- `sscanf` returns 0, which is false, and not EOF
abbrev pub is_mismatch : Scanned → Bool
is_mismatch (number i rest) = false
is_mismatch mismatch = true
is_mismatch ended = false

abbrev pub is_empty : Text → Bool
is_empty [] = true
is_empty (c ∷ s) = false

-- the body of the loop over the targets of a line, and whether it breaks
unfoldable pub load_target :
    Text → Text → TransitionGraph → Vars → Outcome (Bool × TransitionGraph × Vars)
load_target line s tg v =
    if is_mismatch (scan_int s)
    then ok (true, tg, v)
    else let w = set_r s (scan_int s) v in
      assigned w.npos >>= λ step. assigned w.q >>= λ q. assigned w.a >>= λ a. assigned w.r >>= λ r.
      add_target tg q (letter_index a) r >>= λ tg.
      let u = record w { offset = w.offset + step } in
      text_at line u.offset >>= λ rest. ok (is_empty rest, tg, u)

unfoldable pub load_targets : ℕ → Text → TransitionGraph → Vars → Outcome (TransitionGraph × Vars)
unfolding load_target
load_targets zero line tg v = out_of_fuel
load_targets (suc fuel) line tg v = text_at line v.offset >>= λ s.
    load_target line s tg v >>= λ (done, tg, v). elim done [
      | true ↦ ok (tg, v)
      | false ↦ load_targets fuel line tg v
    ]

-- `sscanf(line_buf, "%d %c%n", &q, &a, &pos)`
abbrev pub set_letter : Text → Text → Vars → Vars
set_letter line [] v = v
set_letter line (c ∷ rest) v = record v { a = some c; offset = length line - length rest }

abbrev pub set_edge : Text → Scanned → Vars → Vars
set_edge line (number i rest) v = set_letter line (skip rest) (record v { q = some i })
set_edge line mismatch v = v
set_edge line ended v = v

-- what the loop over the lines does with a line that is not empty, and whether it breaks
unfoldable pub load_edge : Text → TransitionGraph → Vars → Outcome (Bool × TransitionGraph × Vars)
unfolding load_targets skip
load_edge line tg v =
    if is_mismatch (scan_int line)
    then ok (false, tg, v)
    else let w = set_edge line (scan_int line) v in
      text_at line w.offset >>= λ s.
      if is_empty s
      then ok (true, tg, w)
      else (load_targets (length line + 1) line tg w >>= λ (tg, w). ok (false, tg, w))

abbrev pub is_end : ℤ → Bool
is_end (pos n) = false
is_end (negsuc zero) = true
is_end (negsuc (suc n)) = false

-- the body of the loop over the lines, behind the call of `strGetline`, and whether it breaks
unfoldable pub load_line : Read → TransitionGraph → Vars → Outcome (Bool × TransitionGraph × Vars)
unfolding load_edge
load_line read tg v =
    if is_end read.size
    then ok (true, tg, v)
    else if ltb_ℤ (pos 0) read.size
    then load_edge read.buf.text tg v
    else ok (false, tg, v)

-- the loop over the lines
unfoldable pub load_edges : ℕ → LineBuf → Text → TransitionGraph → Vars → Outcome TransitionGraph
unfolding load_line
load_edges zero buf input tg v = out_of_fuel
load_edges (suc fuel) buf input tg v = str_getline buf input >>= λ read.
    load_line read tg v >>= λ (done, tg, v). elim done [
      | true ↦ ok tg
      | false ↦ load_edges fuel read.buf read.rest tg v
    ]

-- `LINE_BUF_SIZE`; the buffer is cleared when it is allocated
abbrev pub line_buf_size : ℕ
line_buf_size = 1020

-- The lines behind the first three are no more than the characters of the input.
unfoldable pub load_lines : Text → TransitionGraph → Outcome TransitionGraph
load_lines input tg = str_getline (record { cap = line_buf_size; text = [] }) input >>= λ first.
    let tg = set_sizes (scan_ints 5 first.buf.text) tg in
    str_getline first.buf first.rest >>= λ second.
    let tg = set_start (scan_int second.buf.text) tg in
    str_getline second.buf second.rest >>= λ third.
    load_finals (pos_part tg.finals) third.buf.text tg
      (record { q = none; a = none; r = none; npos = none; offset = 0 })
    >>= λ (tg, v). load_edges (length third.rest + 1) third.buf third.rest tg v

-- `loadTransitionGraph`
unfoldable pub load_transition_graph : Option Text → TransitionGraph → Outcome TransitionGraph
unfolding load_lines
load_transition_graph none tg = ok tg
load_transition_graph (some input) tg = load_lines input tg
