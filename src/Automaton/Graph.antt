-- ===== src/Automaton/Graph.antt =====
-- The transition graph of src/automaton.h and its initialisation.
use automaton_state_machine.Base.{ℕ, ◌≤◌, ◌<◌, ◌≡◌, refl, arith, lt→ltb}
use automaton_state_machine.Base.Int.{ℤ, pos, negsuc, pos_part}
use automaton_state_machine.Base.Outcome.{Outcome, ok, ◌>>=◌, index}

-- `MAX_Q` and `MAX_A`, the bounds of the arrays
abbrev pub max_q : ℕ
max_q = 107

abbrev pub max_a : ℕ
max_a = 37

-- `TransitionGraphImpl`. An array is a function on its indices, read and written through `index`
-- and `store`, which check the bounds.
pub record TransitionGraph : Type 0 where
  pub graph : ℕ → ℕ → ℕ → ℤ
  pub size : ℕ → ℕ → ℕ
  pub accepting_states : ℕ → ℕ
  pub q0 : ℤ
  pub alphabet : ℤ
  pub states : ℤ
  pub universal : ℤ
  pub finals : ℤ

-- `initTransitionGraph`, which writes every cell of every array
unfoldable pub init_transition_graph : TransitionGraph → TransitionGraph
init_transition_graph tg = record tg {
  graph = λ q a p. negsuc 0;
  size = λ q a. 0;
  accepting_states = λ q. 0;
  q0 = pos 0;
  alphabet = pos 0;
  states = pos 0;
  universal = pos 0;
  finals = pos 0;
}

-- `tg->acceptingStates[q]`
abbrev pub accepting_at : TransitionGraph → ℤ → Outcome ℕ
accepting_at tg q = index max_q tg.accepting_states q

-- `tg->size[q][a]`
abbrev pub size_at : TransitionGraph → ℤ → ℤ → Outcome ℕ
size_at tg q a = index max_q tg.size q >>= λ row. index max_a row a

-- `tg->graph[q][a][i]`
abbrev pub graph_at : TransitionGraph → ℤ → ℤ → ℕ → Outcome ℤ
graph_at tg q a i =
    index max_q tg.graph q >>= λ plane. index max_a plane a >>= λ row. index max_q row (pos i)

-- an index of an array of `n` cells
abbrev pub InRange : ℕ → ℤ → Type 0
InRange n (pos i) = i < n
InRange n (negsuc i) = ⊥

-- Every edge leads to a state of the arrays, no list of edges is longer than its row, and an
-- accepting flag is 0 or 1.
pub record IsGraph (tg : TransitionGraph) : Type 0 where
  pub size_fits : (q a : ℕ) → tg.size q a ≤ max_q
  pub target_fits : (q a i : ℕ) → i < tg.size q a → InRange max_q (tg.graph q a i)
  pub flag : (q : ℕ) → tg.accepting_states q ≤ 1
  pub start : InRange max_q tg.q0

-- `initTransitionGraph` leaves a graph that is well formed: sizes and states in range, and flags 0
-- or 1.
pub init_transition_graph-IsGraph : (tg : TransitionGraph) → IsGraph (init_transition_graph tg)
unfolding init_transition_graph
init_transition_graph-IsGraph tg = record {
  size_fits = λ q a. omega arith;
  target_fits = λ q a i h. absurd (omega arith);
  flag = λ q. omega arith;
  start = omega arith;
}

pub InRange_pos : (n : ℕ) (z : ℤ) → InRange n z → (z ≡ pos (pos_part z)) × (pos_part z < n)
InRange_pos n (pos i) h = (refl, h)
InRange_pos n (negsuc i) h = absurd h

-- The reads of the graph in bounds.
pub index-ok {ℓ} : {A : Type ℓ} (n : ℕ) (a : ℕ → A) (i : ℕ) → i < n → index n a (pos i) ≡ ok (a i)
index-ok n a i h = rw (lt→ltb _ _ h)

module _ (tg : TransitionGraph) (q a : ℕ) (low : q < max_q) (lower : a < max_a) where
  pub size_at-ok : size_at tg (pos q) (pos a) ≡ ok (tg.size q a)
  size_at-ok = rw (index-ok max_q tg.size q low, index-ok max_a (tg.size q) a lower)

  pub graph_at-ok : (i : ℕ) → i < max_q → graph_at tg (pos q) (pos a) i ≡ ok (tg.graph q a i)
  graph_at-ok i h = rw (
    index-ok max_q tg.graph q low,
    index-ok max_a (tg.graph q) a lower,
    index-ok max_q (tg.graph q a) i h,
  )
