-- ===== src/Automaton/Loader/Examples.antt =====
-- A description of an automaton, its text and the graph that is loaded from it.
use automaton_state_machine.Base.{ℕ, ◌≡◌, ◌≤◌, refl, List, [], ◌∷◌, arith, some, none, length}
use automaton_state_machine.Base.Int.{pos}
use automaton_state_machine.Base.Outcome.{ok, undefined}
use automaton_state_machine.Automaton.Graph.{TransitionGraph, IsGraph, max_q, init_transition_graph}
use automaton_state_machine.Text.Scan.{print_nat, scan_int}
use automaton_state_machine.Automaton.View.{view}
use automaton_state_machine.Automaton.Loader.{
  Vars, load_transition_graph, load_edge, load_targets, load_target,
}
use automaton_state_machine.Automaton.Loader.Format.{
  Description, IsDescription, machine, print, numbers, row,
}
use automaton_state_machine.Automaton.Loader.Correct.{load_transition_graph-print}

-- State 0 is universal and goes by 'a' to 1 and 2; 1 goes by 'b' to 2; 2 is final.
abbrev pub small : Description
small = record {
  lines = 5;
  alphabet = 2;
  states = 3;
  universal = 1;
  start = 0;
  finals = 2 ∷ [];
  edges =
      record { source = 0; letter = 0; target = 1; others = 2 ∷ [] }
      ∷ record { source = 1; letter = 1; target = 2; others = [] }
      ∷ [];
}

-- "5 2 3 1 1", "0", "2", "0 a 1 2" and "1 b 2", each with a newline
abbrev small_text : List ℕ
small_text =
    b'5' ∷ b' ' ∷ b'2' ∷ b' ' ∷ b'3' ∷ b' ' ∷ b'1' ∷ b' ' ∷ b'1' ∷ b'\n' ∷ b'0' ∷ b'\n' ∷ b'2'
    ∷ b'\n' ∷ b'0' ∷ b' ' ∷ b'a' ∷ b' ' ∷ b'1' ∷ b' ' ∷ b'2' ∷ b'\n' ∷ b'1' ∷ b' ' ∷ b'b' ∷ b' '
    ∷ b'2' ∷ b'\n' ∷ []

print-small : print small ≡ small_text
unfolding print numbers print_nat
print-small = refl

abbrev pub blank_graph : TransitionGraph
blank_graph = record {
  graph = λ q a i. pos 0;
  size = λ q a. 0;
  accepting_states = λ q. 0;
  q0 = pos 0;
  alphabet = pos 0;
  states = pos 0;
  universal = pos 0;
  finals = pos 0;
}

small-rows : (q a : ℕ) → length (row small.edges q a) ≤ max_q
unfolding row
small-rows q a = ground arith

pub small-IsDescription : IsDescription small
unfolding numbers print_nat
small-IsDescription = record {
  start_fits = omega arith;
  finals_fit = (omega arith, tt);
  edges_fit = (
    record {
      source_fits = omega arith;
      letter_fits = omega arith;
      targets_fit = (omega arith, (omega arith, tt));
      line_fits = omega arith;
    },
    (
      record {
        source_fits = omega arith;
        letter_fits = omega arith;
        targets_fit = (omega arith, tt);
        line_fits = omega arith;
      },
      tt,
    ),
  );
  rows_fit = small-rows;
  sizes_short = omega arith;
  start_short = omega arith;
  finals_short = omega arith;
}

load_transition_graph-print_example :
    (after : TransitionGraph) × (load_transition_graph
        (some (print small))
        (init_transition_graph blank_graph)
      ≡ ok after)
    × IsGraph after
    × (after.q0 ≡ pos 0)
    × (view after ≡ machine small)
load_transition_graph-print_example =
    load_transition_graph-print small blank_graph small-IsDescription

abbrev fresh_vars : Vars
fresh_vars = record { q = none; a = none; r = none; npos = none; offset = 0 }

-- "0 a 1 ", with a blank behind the last target: the loop comes back to it, takes the target again and
-- goes on behind the end of the string.
load_edge_trailing_blank :
    load_edge (b'0' ∷ b' ' ∷ b'a' ∷ b' ' ∷ b'1' ∷ b' ' ∷ []) blank_graph fresh_vars ≡ undefined
unfolding load_edge load_targets load_target scan_int
load_edge_trailing_blank = refl
