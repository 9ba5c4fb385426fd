-- ===== src/Automaton/Loader/Marks.antt =====
-- A position in a line that is read number by number, and the loop over the accepting states.
use automaton_state_machine.Base.{
  ℕ, suc, ◌+◌, ◌-◌, ◌≤◌, ◌<◌, ◌≡◌, refl, true, List, [], ◌∷◌, ◌++◌, ◌==◌, leb, if◌then◌else◌, not,
  ◌||◌, Bool-cases, inl, inr, lt→ltb, length, drop, arith, append_assoc, length-append, sym, ◌∙◌,
  map,
}
use automaton_state_machine.Base.Int.{pos}
use automaton_state_machine.Base.Outcome.{ok}
use automaton_state_machine.Text.Scan.{Text, number, print_nat, scan_int}
use automaton_state_machine.Text.Decimal.{IsBreak, scan_int-print_nat, scan_int-blank}
use automaton_state_machine.Automaton.Graph.{TransitionGraph, max_q}
use automaton_state_machine.Automaton.Spec.{any}
use automaton_state_machine.Automaton.Loader.{Vars, set_q, text_at, scan_ints, load_finals}
use automaton_state_machine.Automaton.Loader.Format.{blanks, numbers, AllBelow}

-- the text at an offset of a line
abbrev pub At : Text → ℕ → Text → Type 0
At line n s = (before : Text) × (line ≡ before ++ s) × (n ≡ length before)

pub At-start : (line : Text) → At line 0 line
At-start line = ([], refl, refl)

leb-append : (before s : Text) → leb (length before) (length (before ++ s)) ≡ true
leb-append before s = ground (arith, length-append before s)

drop-append : (before s : Text) → drop (length before) (before ++ s) ≡ s
drop-append [] s = refl
drop-append (c ∷ before) s = drop-append before s

pub text_at-At : (line : Text) (n : ℕ) (s : Text) → At line n s → text_at line n ≡ ok s
text_at-At line n s (before, e, k) = rw (e, k, leb-append before s, drop-append before s) refl

pub At-next :
    (line : Text) (n : ℕ) (piece rest : Text)
    → At line n (piece ++ rest)
    → At line (n + (length (piece ++ rest) - length rest)) rest
At-next line n piece rest (before, e, k) = (
  before ++ piece,
  e ∙ sym (append_assoc before piece rest),
  omega (arith, length-append piece rest, length-append before piece),
)

pub blanks-IsBreak : (ns : List ℕ) → IsBreak (blanks ns)
unfolding blanks
blanks-IsBreak [] = tt
blanks-IsBreak (n ∷ ns) = refl

scan_ints-blanks : (ns : List ℕ) → scan_ints (length ns) (blanks ns) ≡ map pos ns
unfolding blanks
scan_ints-blanks [] = refl
scan_ints-blanks (n ∷ ns) =
    rw (scan_int-blank n (blanks ns) (blanks-IsBreak ns), scan_ints, scan_ints-blanks ns) refl

-- a line of numbers is read number by number
pub scan_ints-numbers : (ns : List ℕ) → scan_ints (length ns) (numbers ns) ≡ map pos ns
unfolding numbers
scan_ints-numbers [] = refl
scan_ints-numbers (n ∷ ns) =
    rw (scan_int-print_nat n (blanks ns) (blanks-IsBreak ns), scan_ints, scan_ints-blanks ns) refl

-- the flags with the accepting states marked
unfoldable pub marks : List ℕ → (ℕ → ℕ) → ℕ → ℕ
marks [] flags = flags
marks (q ∷ qs) flags = marks qs λ j. if q == j then 1 else flags j

abbrev pub mark_all : List ℕ → TransitionGraph → TransitionGraph
mark_all qs tg = record tg { accepting_states = marks qs tg.accepting_states }

load_finals-round :
    (n : ℕ) (line : Text) (tg : TransitionGraph) (v : Vars) (q : ℕ) (piece rest : Text)
    → q < max_q
    → At line v.offset (piece ++ rest)
    → scan_int (piece ++ rest) ≡ number (pos q) rest
    → (w : Vars) × (At line w.offset rest)
      × (load_finals (suc n) line tg v
          ≡ load_finals n line
              (record tg { accepting_states = λ j. if q == j then 1 else tg.accepting_states j })
              w)
unfolding load_finals
load_finals-round n line tg v q piece rest h at e =
    let w : Vars = set_q (piece ++ rest) (number (pos q) rest) v in
    (
      record w { offset = w.offset + (length (piece ++ rest) - length rest) },
      At-next line v.offset piece rest at,
      rw (text_at-At line v.offset (piece ++ rest) at, e, lt→ltb _ _ h) refl,
    )

load_finals-blanks :
    (qs : List ℕ) (line : Text) (tg : TransitionGraph) (v : Vars)
    → AllBelow max_q qs
    → At line v.offset (blanks qs)
    → (w : Vars) × (load_finals (length qs) line tg v ≡ ok (mark_all qs tg, w))
unfolding load_finals marks blanks
load_finals-blanks [] line tg v low at = (v, refl)
load_finals-blanks (q ∷ qs) line tg v low at =
    let (w, next, e) =
      load_finals-round (length qs) line tg v q (b' ' ∷ print_nat q) (blanks qs) low.0 at
        (scan_int-blank q (blanks qs) (blanks-IsBreak qs)) in
    let (u, f) = load_finals-blanks qs line _ w low.1 next in (u, e ∙ f)

-- The loop over the accepting states marks those that the line lists.
pub load_finals-numbers :
    (qs : List ℕ) (tg : TransitionGraph) (v : Vars)
    → AllBelow max_q qs
    → v.offset ≡ 0
    → (w : Vars) × (load_finals (length qs) (numbers qs) tg v ≡ ok (mark_all qs tg, w))
unfolding load_finals marks numbers
load_finals-numbers [] tg v low start = (v, refl)
load_finals-numbers (q ∷ qs) tg v low start =
    let line : Text = numbers (q ∷ qs) in
    let (w, next, e) =
      load_finals-round (length qs) line tg v q (print_nat q) (blanks qs) low.0 ([], refl, start)
        (scan_int-print_nat q (blanks qs) (blanks-IsBreak qs)) in
    let (u, f) = load_finals-blanks qs line _ w low.1 next in (u, e ∙ f)

-- a marked state is one that the line lists, or was marked before
pub marks-any :
    (qs : List ℕ) (flags : ℕ → ℕ) (j : ℕ)
    → not (marks qs flags j == 0) ≡ any (λ f. f == j) qs || not (flags j == 0)
unfolding marks
marks-any [] flags j = refl
marks-any (q ∷ qs) flags j = elim (Bool-cases (q == j)) [
  | inl e ↦ rw (marks-any qs (λ i. if q == i then 1 else flags i) j, e) (ground arith)
  | inr e ↦ rw (marks-any qs (λ i. if q == i then 1 else flags i) j, e) refl
]

pub marks_flag : (qs : List ℕ) (flags : ℕ → ℕ) (j : ℕ) → flags j ≤ 1 → marks qs flags j ≤ 1
unfolding marks
marks_flag [] flags j h = h
marks_flag (q ∷ qs) flags j h = marks_flag qs _ j (ground arith)
