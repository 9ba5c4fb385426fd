-- ===== src/Automaton/Loader/Correct.antt =====
-- `loadTransitionGraph` of src/automaton.h on the description of an automaton.
use automaton_state_machine.Base.{
  ℕ, ◌+◌, ◌≤◌, ◌≡◌, refl, true, [], ◌∷◌, ◌++◌, ◌==◌, ltb, not, ◌||◌, length, arith, sym, ap, ◌∙◌,
  some, none, append-nil,
}
use automaton_state_machine.Base.Int.{pos, pos_part, leb_ℤ}
use automaton_state_machine.Base.Outcome.{ok}
use automaton_state_machine.Text.Getline.{LineBuf, Read, static_size, str_getline, str_getline-line}
use automaton_state_machine.Text.Scan.{Text, number, print_nat, scan_int}
use automaton_state_machine.Text.Decimal.{scan_int-print_nat, print_nat-IsLine}
use automaton_state_machine.Automaton.Graph.{TransitionGraph, IsGraph, max_q, init_transition_graph}
use automaton_state_machine.Automaton.Spec.{Automaton, any}
use automaton_state_machine.Automaton.View.{view, targets}
use automaton_state_machine.Automaton.Loader.{
  Vars, line_buf_size, set_sizes, set_start, scan_ints, load_finals, load_edges, load_lines,
  load_transition_graph,
}
use automaton_state_machine.Automaton.Loader.Format.{
  Description, IsDescription, machine, row, print, numbers, sizes_line, edge_lines,
}
use automaton_state_machine.Automaton.Loader.Marks.{
  scan_ints-numbers, mark_all, load_finals-numbers, marks-any, marks_flag,
}
use automaton_state_machine.Automaton.Loader.Grow.{
  grow_edges, held, held-grow_edges, length-held, grow_edges-Fits, grow_edges-SameHead,
}
use automaton_state_machine.Automaton.Loader.Lines.{numbers-IsLine, load_edges-lines}

-- the graph before its edges
abbrev sized : Description → TransitionGraph → TransitionGraph
sized d tg = record tg {
  alphabet = pos d.alphabet;
  states = pos d.states;
  universal = pos d.universal;
  finals = pos (length d.finals);
  q0 = pos d.start;
}

abbrev headed : Description → TransitionGraph → TransitionGraph
headed d tg = mark_all d.finals (sized d tg)

-- the graph that `loadTransitionGraph` leaves
abbrev full : Description → TransitionGraph → TransitionGraph
full d tg = grow_edges d.edges (headed d tg)

scan_sizes :
    (d : Description) (tg : TransitionGraph)
    → set_start (number (pos d.start) []) (set_sizes (scan_ints 5 (sizes_line d)) tg) ≡ sized d tg
scan_sizes d tg =
    rw (scan_ints-numbers (d.lines ∷ d.alphabet ∷ d.states ∷ d.universal ∷ length d.finals ∷ []))
      refl

scan_start : (n : ℕ) → scan_int (print_nat n) ≡ number (pos n) []
scan_start n = ap scan_int (sym (append-nil (print_nat n))) ∙ scan_int-print_nat n [] tt

abbrev no_vars : Vars
no_vars = record { q = none; a = none; r = none; npos = none; offset = 0 }

load_lines-steps :
    (input : Text) (tg sizes marked : TransitionGraph) (first second third : Read) (w : Vars)
    → str_getline (record { cap = line_buf_size; text = [] }) input ≡ ok first
    → str_getline first.buf first.rest ≡ ok second
    → str_getline second.buf second.rest ≡ ok third
    → set_start (scan_int second.buf.text) (set_sizes (scan_ints 5 first.buf.text) tg) ≡ sizes
    → load_finals (pos_part sizes.finals) third.buf.text sizes no_vars ≡ ok (marked, w)
    → load_lines input tg ≡ load_edges (length third.rest + 1) third.buf third.rest marked w
unfolding load_lines
load_lines-steps input tg sizes marked first second third w e f g k h = rw (e, f, g, k, h) refl

load_lines-print :
    (d : Description) (tg : TransitionGraph)
    → IsDescription d
    → ((q a : ℕ) → tg.size q a ≡ 0)
    → load_lines (print d) tg ≡ ok (full d tg)
unfolding print
load_lines-print d tg fits fresh =
    let rest : Text = edge_lines d.edges in
    let finals_rest : Text = numbers d.finals ++ b'\n' ∷ rest in
    let start_rest : Text = print_nat d.start ++ b'\n' ∷ finals_rest in
    let filled : Text → LineBuf = λ t. record { cap = static_size; text = t } in
    let (w, f) = load_finals-numbers d.finals (sized d tg) no_vars fits.finals_fit refl in
    let room : (q a : ℕ) → (headed d tg).size q a + length (row d.edges q a) ≤ max_q =
      λ q a. omega (arith, fresh q a, fits.rows_fit q a) in
    load_lines-steps (print d) tg (sized d tg) (headed d tg)
      (record {
        size = pos (length (sizes_line d));
        buf = filled (sizes_line d);
        rest = start_rest;
      })
      (record {
        size = pos (length (print_nat d.start));
        buf = filled (print_nat d.start);
        rest = finals_rest;
      })
      (record {
        size = pos (length (numbers d.finals));
        buf = filled (numbers d.finals);
        rest = rest;
      })
      w
      (str_getline-line (record { cap = line_buf_size; text = [] }) (sizes_line d) start_rest
        (numbers-IsLine (d.lines ∷ d.alphabet ∷ d.states ∷ d.universal ∷ length d.finals ∷ []))
        fits.sizes_short)
      (str_getline-line (filled (sizes_line d)) (print_nat d.start) finals_rest
        (print_nat-IsLine d.start) fits.start_short)
      (str_getline-line (filled (print_nat d.start)) (numbers d.finals) rest
        (numbers-IsLine d.finals) fits.finals_short)
      (rw (scan_start d.start) (scan_sizes d tg)) f
    ∙ load_edges-lines d.edges (length rest + 1) (filled (numbers d.finals)) (headed d tg) w
        fits.edges_fit room (omega arith)

-- the order on integers at a natural number
universal-ltb : (u q : ℕ) → not (leb_ℤ (pos u) (pos q)) ≡ ltb q u
universal-ltb u q = ground arith

no_targets : (tg : TransitionGraph) → ((q a : ℕ) → tg.size q a ≡ 0) → (q a : ℕ) → held tg q a ≡ []
unfolding targets
no_targets tg fresh q a = rw (fresh q a) refl

Automaton-ext :
    (m n : Automaton)
    → ((q : ℕ) → m.universal q ≡ n.universal q)
    → ((q : ℕ) → m.final q ≡ n.final q)
    → ((q a : ℕ) → m.next q a ≡ n.next q a)
    → m ≡ n
Automaton-ext m n h k l =
    λ i. record { universal = λ q. h q i; final = λ q. k q i; next = λ q a. l q a i }

-- The graph of a description: what `loadTransitionGraph` leaves.
module _ (d : Description) (tg : TransitionGraph) (fits : IsDescription d)
    (empty : (q a : ℕ) → tg.size q a ≡ 0) (unmarked : (q : ℕ) → tg.accepting_states q ≡ 0) where
  only :
      (q : ℕ)
      → (any (λ f. f == q) d.finals || not (tg.accepting_states q == 0))
        ≡ any (λ f. f == q) d.finals
  only q =
      let none_before : (tg.accepting_states q == 0) ≡ true = ground (arith, unmarked q) in
      rw none_before (ground arith)

  held-row : (q a : ℕ) → held (full d tg) q a ≡ row d.edges q a
  held-row q a =
      held-grow_edges d.edges (headed d tg) q a
      ∙ ap (λ xs. xs ++ row d.edges q a) (no_targets (headed d tg) empty q a)

  full-IsGraph : IsGraph (full d tg)
  full-IsGraph =
      let (u, start, flags) = grow_edges-SameHead d.edges (headed d tg) in
      record {
        size_fits = λ q a.
            omega (arith, fits.rows_fit q a, ap length (held-row q a), length-held (full d tg) q a);
        target_fits =
            grow_edges-Fits d.edges (headed d tg) fits.edges_fit
              λ q a i h. absurd (omega (arith, empty q a));
        flag =
            λ q. rw flags (marks_flag d.finals tg.accepting_states q (omega (arith, unmarked q)));
        start = rw start (fits.start_fits);
      }

  full-machine : view (full d tg) ≡ machine d
  unfolding view machine
  full-machine =
      let (u, start, flags) = grow_edges-SameHead d.edges (headed d tg) in
      Automaton-ext (view (full d tg)) (machine d) (λ q. rw u (universal-ltb d.universal q))
        (λ q. rw flags (marks-any d.finals tg.accepting_states q ∙ only q)) held-row

-- An initialised graph that `loadTransitionGraph` fills from the description of an automaton is well
-- formed, has the described start state, and stands for the described automaton, if every state is
-- below MAX_Q, every letter is a character below 128, every line of the transition function has a
-- target, no list of targets is longer than MAX_Q, and no line has more than 254 characters.
pub load_transition_graph-print :
    (d : Description) (tg : TransitionGraph)
    → IsDescription d
    → (after : TransitionGraph) × (load_transition_graph (some (print d)) (init_transition_graph tg)
        ≡ ok after)
      × IsGraph after
      × (after.q0 ≡ pos d.start)
      × (view after ≡ machine d)
unfolding load_transition_graph init_transition_graph
load_transition_graph-print d tg fits =
    let fresh : TransitionGraph = init_transition_graph tg in
    let (u, start, flags) = grow_edges-SameHead d.edges (headed d fresh) in
    (
      full d fresh,
      load_lines-print d fresh fits (λ q a. refl),
      full-IsGraph d fresh fits (λ q a. refl) (λ q. refl),
      start,
      full-machine d fresh fits (λ q a. refl) (λ q. refl),
    )
