-- ===== src/Automaton/Loader/Format.antt =====
-- The description of an automaton as README.md defines it, written as `loadTransitionGraph` of
-- src/automaton.h reads it, and the automaton that it stands for.
use automaton_state_machine.Base.{
  ℕ, ◌+◌, ◌≤◌, ◌<◌, if◌then◌else◌, ◌&&◌, List, [], ◌∷◌, ◌++◌, ◌==◌, ltb, length,
}
use automaton_state_machine.Text.Getline.{static_size}
use automaton_state_machine.Text.Scan.{Text, print_nat}
use automaton_state_machine.Automaton.Graph.{max_q}
use automaton_state_machine.Automaton.Spec.{Automaton, any}

-- a line `q a p1 ... pk` of the transition function, with k at least 1
pub record Edge : Type 0 where
  pub source : ℕ
  pub letter : ℕ
  pub target : ℕ
  pub others : List ℕ

pub record Description : Type 0 where
  pub lines : ℕ
  pub alphabet : ℕ
  pub states : ℕ
  pub universal : ℕ
  pub start : ℕ
  pub finals : List ℕ
  pub edges : List Edge

abbrev pub targets_of : Edge → List ℕ
targets_of e = e.target ∷ e.others

-- numbers with a blank in front of each, and with a blank between them
unfoldable pub blanks : List ℕ → Text
blanks [] = []
blanks (n ∷ ns) = b' ' ∷ print_nat n ++ blanks ns

unfoldable pub numbers : List ℕ → Text
unfolding blanks
numbers [] = []
numbers (n ∷ ns) = print_nat n ++ blanks ns

abbrev pub sizes_line : Description → Text
sizes_line d = numbers (d.lines ∷ d.alphabet ∷ d.states ∷ d.universal ∷ length d.finals ∷ [])

abbrev pub edge_line : Edge → Text
edge_line e = print_nat e.source ++ b' ' ∷ (b'a' + e.letter) ∷ blanks (targets_of e)

abbrev pub edge_lines : List Edge → Text
edge_lines [] = []
edge_lines (e ∷ es) = edge_line e ++ b'\n' ∷ edge_lines es

unfoldable pub print : Description → Text
print d =
    sizes_line d
    ++ b'\n' ∷ (print_nat d.start ++ b'\n' ∷ (numbers d.finals ++ b'\n' ∷ edge_lines d.edges))

-- the targets that an edge adds to the list of a state and a letter
abbrev pub added : Edge → ℕ → ℕ → List ℕ
added e q a = if e.source == q && e.letter == a then targets_of e else []

-- T(q, a): the targets of all lines for the state and the letter, in order
unfoldable pub row : List Edge → ℕ → ℕ → List ℕ
row [] q a = []
row (e ∷ es) q a = added e q a ++ row es q a

unfoldable pub machine : Description → Automaton
unfolding row
machine d = record {
  universal = λ q. ltb q d.universal;
  final = λ q. any (λ f. f == q) d.finals;
  next = row d.edges;
}

-- what the line buffer of 256 cells takes
abbrev pub IsShort : Text → Type 0
IsShort s = length s + 1 < static_size

abbrev pub AllBelow : ℕ → List ℕ → Type 0
AllBelow n [] = Unit {0}
AllBelow n (i ∷ is) = (i < n) × AllBelow n is

pub record IsEdge (e : Edge) : Type 0 where
  pub source_fits : e.source < max_q
  pub letter_fits : b'a' + e.letter < 128
  pub targets_fit : AllBelow max_q (targets_of e)
  pub line_fits : IsShort (edge_line e)

abbrev pub AreEdges : List Edge → Type 0
AreEdges [] = Unit {0}
AreEdges (e ∷ es) = IsEdge e × AreEdges es

-- States and letters are in the arrays' bounds, lines in the buffer's, and no list of targets is
-- longer than the row of the array.
pub record IsDescription (d : Description) : Type 0 where
  pub start_fits : d.start < max_q
  pub finals_fit : AllBelow max_q d.finals
  pub edges_fit : AreEdges d.edges
  pub rows_fit : (q a : ℕ) → length (row d.edges q a) ≤ max_q
  pub sizes_short : IsShort (sizes_line d)
  pub start_short : IsShort (print_nat d.start)
  pub finals_short : IsShort (numbers d.finals)
