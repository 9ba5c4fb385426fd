-- ===== src/Automaton/View.antt =====
-- The alternating automaton that a transition graph stands for, and the letters of a word.
use automaton_state_machine.Base.{
  ℕ, zero, suc, ◌+◌, ◌-◌, ◌≤◌, ◌<◌, Bool, not, List, [], ◌∷◌, map, ◌==◌,
}
use automaton_state_machine.Base.Int.{ℤ, pos, pos_part, leb_ℤ}
use automaton_state_machine.Automaton.Graph.{TransitionGraph, max_a}
use automaton_state_machine.Automaton.Spec.{Automaton}

-- the first `n` cells of a row from cell `i` on
unfoldable pub targets : (ℕ → ℤ) → ℕ → ℕ → List ℕ
targets row zero i = []
targets row (suc n) i = pos_part (row i) ∷ targets row n (i + 1)

-- states `0 .. U-1` are universal; the edges by a letter are the valid cells of its row
unfoldable pub view : TransitionGraph → Automaton
view tg = record {
  universal = λ q. not (leb_ℤ tg.universal (pos q));
  final = λ q. not (tg.accepting_states q == 0);
  next = λ q a. targets (tg.graph q a) (tg.size q a) 0;
}

-- every character is one of the `MAX_A` letters from 'a' on
abbrev pub IsWord : List ℕ → Type 0
IsWord [] = Unit {0}
IsWord (c ∷ w) = (b'a' ≤ c) × (c < b'a' + max_a) × IsWord w

-- the letters of a word, counted from 'a'
abbrev pub letters : List ℕ → List ℕ
letters = map (λ c. c - b'a')

abbrev pub to_nat : Bool → ℕ
to_nat b = elim b [ Bool.true ↦ 1 | Bool.false ↦ 0 ]
