-- ===== src/Automaton/Printer.antt =====
-- `printTransitionGraph` of src/automaton.h, as the text that it prints, and `newTransitionGraph`.
use automaton_state_machine.Base.{
  ℕ, zero, suc, ◌+◌, ◌<◌, ◌≡◌, refl, false, List, [], ◌∷◌, ◌++◌, ◌==◌, if◌then◌else◌, arith,
}
use automaton_state_machine.Base.Int.{ℤ, pos, negsuc, pos_part}
use automaton_state_machine.Base.Outcome.{Outcome, ok, ◌>>=◌}
use automaton_state_machine.Text.Scan.{Text, print_nat, print_int}
use automaton_state_machine.Automaton.Graph.{
  TransitionGraph, IsGraph, max_q, max_a, size_at, graph_at, size_at-ok, graph_at-ok, InRange_pos,
  init_transition_graph,
}
use automaton_state_machine.Automaton.Spec.{Automaton}
use automaton_state_machine.Automaton.View.{view, targets}

-- `newTransitionGraph`, given what is in the new memory
abbrev pub new_transition_graph : TransitionGraph → TransitionGraph
new_transition_graph memory = init_transition_graph memory

-- the rounds of a loop from `i` on, `n` of them, one text behind the other
unfoldable pub collect_text : (ℕ → Outcome Text) → ℕ → ℕ → Outcome Text
collect_text f zero i = ok []
collect_text f (suc n) i = f i >>= λ s. collect_text f n (i + 1) >>= λ t. ok (s ++ t)

-- `"%d "`
unfoldable pub print_target : TransitionGraph → ℕ → ℕ → ℕ → Outcome Text
print_target tg q a r = graph_at tg (pos q) (pos a) r >>= λ z. ok (print_int z ++ b' ' ∷ [])

-- `"  %d --[%c]--> { "`, and `"}\n"` behind the targets
abbrev pub row_text : ℕ → ℕ → Text → Text
row_text q a s =
    b' '
    ∷ b' '
    ∷ (print_nat q
        ++ (b' '
            ∷ b'-'
            ∷ b'-'
            ∷ b'['
            ∷ (a + b'a')
            ∷ b']'
            ∷ b'-'
            ∷ b'-'
            ∷ b'>'
            ∷ b' '
            ∷ b'{'
            ∷ b' '
            ∷ (s ++ (b'}' ∷ b'\n' ∷ []))))

unfoldable pub print_row : TransitionGraph → ℕ → ℕ → Outcome Text
print_row tg q a = size_at tg (pos q) (pos a) >>= λ size.
    if size == 0
    then ok []
    else (collect_text (print_target tg q a) size 0 >>= λ s. ok (row_text q a s))

-- "Transition graph: {\n"
abbrev pub graph_text : Text
graph_text =
    b'T' ∷ b'r' ∷ b'a' ∷ b'n' ∷ b's' ∷ b'i' ∷ b't' ∷ b'i' ∷ b'o' ∷ b'n' ∷ b' ' ∷ b'g' ∷ b'r' ∷ b'a'
    ∷ b'p' ∷ b'h' ∷ b':' ∷ b' ' ∷ b'{' ∷ b'\n' ∷ []

-- `printTransitionGraph`
unfoldable pub print_transition_graph : TransitionGraph → Outcome Text
print_transition_graph tg =
    collect_text (λ q. collect_text (print_row tg q) max_a 0) max_q 0 >>= λ s.
    ok (graph_text ++ (s ++ (b'}' ∷ b'\n' ∷ [])))

-- the same of an automaton: a line for every state and letter that has a next state
unfoldable pub texts : (ℕ → Text) → ℕ → ℕ → Text
texts f zero i = []
texts f (suc n) i = f i ++ texts f n (i + 1)

abbrev pub numbers_text : List ℕ → Text
numbers_text [] = []
numbers_text (p ∷ ps) = (print_nat p ++ b' ' ∷ []) ++ numbers_text ps

abbrev pub line_text : ℕ → ℕ → List ℕ → Text
line_text q a [] = []
line_text q a (p ∷ ps) = row_text q a (numbers_text (p ∷ ps))

unfoldable pub show : Automaton → Text
show m =
    graph_text
    ++ (texts (λ q. texts (λ a. line_text q a (m.next q a)) max_a 0) max_q 0 ++ (b'}' ∷ b'\n' ∷ []))

collect_text-texts :
    (f : ℕ → Outcome Text) (g : ℕ → Text) (n i m : ℕ)
    → i + n ≡ m
    → ((k : ℕ) → k < m → f k ≡ ok (g k))
    → collect_text f n i ≡ ok (texts g n i)
unfolding collect_text texts
collect_text-texts f g zero i m e h = refl
collect_text-texts f g (suc n) i m e h =
    rw (h i (omega arith), collect_text-texts f g n (i + 1) m (omega arith) h) refl

print_int-pos : (z : ℤ) → z ≡ pos (pos_part z) → print_int z ≡ print_nat (pos_part z)
unfolding print_int
print_int-pos (pos n) h = refl
print_int-pos (negsuc n) h = cc

module _ (tg : TransitionGraph) (valid : IsGraph tg) (q a : ℕ) (low : q < max_q)
    (lower : a < max_a) where
  print_targets :
      (n i : ℕ)
      → i + n ≡ tg.size q a
      → collect_text (print_target tg q a) n i ≡ ok (numbers_text (targets (tg.graph q a) n i))
  unfolding collect_text print_target targets
  print_targets zero i e = refl
  print_targets (suc n) i e =
      let inside : i < max_q = omega (arith, valid.size_fits q a) in
      let (same, fits) =
        InRange_pos max_q (tg.graph q a i) (valid.target_fits q a i (omega arith)) in
      rw
        (
          graph_at-ok tg q a low lower i inside,
          print_targets n (i + 1) (omega arith),
          print_int-pos (tg.graph q a i) same,
        )
        refl

  row-line :
      (n : ℕ) → tg.size q a ≡ n → print_row tg q a ≡ ok (line_text q a (targets (tg.graph q a) n 0))
  unfolding print_row targets
  row-line zero e = rw (size_at-ok tg q a low lower, e) refl
  row-line (suc n) e =
      let some_targets : (suc n == 0) ≡ false = ground arith in
      rw (size_at-ok tg q a low lower, e, some_targets, print_targets (suc n) 0 (omega (arith, e)))
        refl

  print_row-line : print_row tg q a ≡ ok (line_text q a (targets (tg.graph q a) (tg.size q a) 0))
  unfolding print_row
  print_row-line = row-line (tg.size q a) refl

-- On a well-formed graph `printTransitionGraph` reads no cell out of bounds, and prints a line for every
-- state and letter that has a next state in the automaton that the graph stands for, with the next
-- states in order.
pub print_transition_graph-show :
    (tg : TransitionGraph) → IsGraph tg → print_transition_graph tg ≡ ok (show (view tg))
unfolding print_transition_graph show view
print_transition_graph-show tg valid =
    rw
      (collect_text-texts (λ q. collect_text (print_row tg q) max_a 0)
        (λ q. texts (λ a. line_text q a (targets (tg.graph q a) (tg.size q a) 0)) max_a 0) max_q 0
        max_q (omega arith)
        (λ q low.
          collect_text-texts (print_row tg q)
            (λ a. line_text q a (targets (tg.graph q a) (tg.size q a) 0)) max_a 0 max_a
            (omega arith) (λ a lower. print_row-line tg valid q a low lower)))
      refl
