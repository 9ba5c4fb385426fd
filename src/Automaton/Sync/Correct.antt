-- ===== src/Automaton/Sync/Correct.antt =====
-- `acceptSync` computes the acceptance of README.md.
use automaton_state_machine.Base.{
  ℕ, zero, suc, ◌+◌, ◌-◌, ◌≤◌, ◌<◌, ◌≡◌, refl, Bool, true, false, not, List, [], ◌∷◌, arith, inl,
  inr, leb, ◌==◌, Bool-cases, length, drop, get_elem?-drop_cons, length-le_of_drop, subst, sym, ap,
  add-one, ◌⊎◌, ◌∙◌,
}
use automaton_state_machine.Base.Int.{ℤ, pos, pos_part, leb_ℤ}
use automaton_state_machine.Base.Outcome.{Outcome, ok}
use automaton_state_machine.Automaton.Graph.{
  TransitionGraph, max_q, max_a, graph_at, InRange, InRange_pos, IsGraph, index-ok, size_at-ok,
  graph_at-ok, graph_at,
}
use automaton_state_machine.Automaton.Spec.{any, all, accept, Run, accept_iff_Run}
use automaton_state_machine.Automaton.View.{targets, view, IsWord, letters, to_nat}
use automaton_state_machine.Automaton.Sync.{
  any_branch, all_branches, accept_sync_rec, accept_sync, letter_at,
}

-- The loops over the branches, where `f` decides `g` on the states and the row is in bounds.
module _ (f : ℤ → Outcome ℕ) (g : ℕ → Bool) (row : ℕ → ℤ) (target : ℕ → Outcome ℤ)
    (right : (p : ℕ) → p < max_q → f (pos p) ≡ ok (to_nat (g p)))
    (reads : (i : ℕ) → i < max_q → target i ≡ ok (row i)) where
  branch-ok : (i : ℕ) → InRange max_q (row i) → f (row i) ≡ ok (to_nat (g (pos_part (row i))))
  branch-ok i h =
      let (e, lt) = InRange_pos max_q (row i) h in
      subst (λ z. f z ≡ ok (to_nat (g (pos_part (row i))))) (sym e) (right (pos_part (row i)) lt)

  pub any_branch-any :
      (n i : ℕ)
      → i + n ≤ max_q
      → ((j : ℕ) → j < i + n → InRange max_q (row j))
      → any_branch f target n i ≡ ok (to_nat (any g (targets row n i)))
  unfolding any_branch targets
  any_branch-any zero i fits inside = refl
  any_branch-any (suc n) i fits inside =
      let rest = any_branch-any n (i + 1) (omega arith) (λ j h. inside j (omega arith)) in
      rw (reads i (omega arith), branch-ok i (inside i (omega arith)))
        (elim (Bool-cases (g (pos_part (row i)))) [ inl e ↦ rw e | inr e ↦ rw e rest ])

  pub all_branches-all :
      (n i : ℕ)
      → i + n ≤ max_q
      → ((j : ℕ) → j < i + n → InRange max_q (row j))
      → all_branches f target n i ≡ ok (to_nat (all g (targets row n i)))
  unfolding all_branches targets
  all_branches-all zero i fits inside = refl
  all_branches-all (suc n) i fits inside =
      let rest = all_branches-all n (i + 1) (omega arith) (λ j h. inside j (omega arith)) in
      rw (reads i (omega arith), branch-ok i (inside i (omega arith)))
        (elim (Bool-cases (g (pos_part (row i)))) [ inl e ↦ rw e rest | inr e ↦ rw e ])

pub IsWord-drop : (word : List ℕ) (d : ℕ) → IsWord word → IsWord (drop d word)
IsWord-drop word zero h = h
IsWord-drop [] (suc d) h = tt
IsWord-drop (c ∷ word) (suc d) h = IsWord-drop word d h.2

pub letter_at-ok :
    (word : List ℕ) (d : ℕ) {c : ℕ} {w : List ℕ}
    → drop d word ≡ c ∷ w
    → b'a' ≤ c
    → letter_at word d ≡ ok (pos (c - b'a'))
letter_at-ok word d {c} e h = ground (arith, (get_elem?-drop_cons word d e).0)

pub to_nat-flag : (n : ℕ) → n ≤ 1 → n ≡ to_nat (not (n == 0))
to_nat-flag zero h = refl
to_nat-flag (suc zero) h = refl
to_nat-flag (suc (suc n)) h = absurd (omega arith)

-- the two loops of a node, where `f` decides acceptance of the rest of the word from a state
pub node-accept :
    (tg : TransitionGraph)
    → IsGraph tg
    → (f : ℤ → Outcome ℕ) (q a : ℕ) (w : List ℕ)
    → ((p : ℕ) → p < max_q → f (pos p) ≡ ok (to_nat (accept (view tg) p w)))
    → q < max_q
    → a < max_a
    → (elim (leb_ℤ tg.universal (pos q)) [
      | true ↦ any_branch f (graph_at tg (pos q) (pos a)) (tg.size q a) 0
      | false ↦ all_branches f (graph_at tg (pos q) (pos a)) (tg.size q a) 0
    ])
      ≡ ok (to_nat (accept (view tg) q (a ∷ w)))
unfolding accept view
node-accept tg valid f q a w right low low_a =
    let g : ℕ → Bool = λ p. accept (view tg) p w in
    let fits = valid.size_fits q a in
    elim (Bool-cases (leb_ℤ tg.universal (pos q))) [
      | inl e ↦
          rw (e, not)
            (any_branch-any f g (tg.graph q a) _ right (graph_at-ok tg q a low low_a) (tg.size q a)
              0 (omega arith) (λ j h. valid.target_fits q a j (omega arith)))
      | inr e ↦
          rw (e, not)
            (all_branches-all f g (tg.graph q a) _ right (graph_at-ok tg q a low low_a)
              (tg.size q a) 0 (omega arith) (λ j h. valid.target_fits q a j (omega arith)))
    ]

module _ (tg : TransitionGraph) (valid : IsGraph tg) (word : List ℕ) (spelled : IsWord word) where
  -- The recursion from a state at a depth accepts what the rest of the word is.
  pub accept_sync_rec-accept :
      (fuel : ℕ) (w : List ℕ) (q depth : ℕ)
      → drop depth word ≡ w
      → length w < fuel
      → q < max_q
      → accept_sync_rec fuel tg word (length word) (pos q) depth
        ≡ ok (to_nat (accept (view tg) q (letters w)))
  unfolding accept_sync_rec accept view
  accept_sync_rec-accept zero w q depth at enough low = absurd (omega arith)
  accept_sync_rec-accept (suc fuel) [] q depth at enough low =
      let short : leb (length word) depth ≡ true =
        ground (arith, length-le_of_drop word depth at) in
      rw (short, index-ok max_q tg.accepting_states q low)
        (ap ok (to_nat-flag (tg.accepting_states q) (valid.flag q)))
  accept_sync_rec-accept (suc fuel) (c ∷ w) q depth at enough low =
      let (got, behind, inside) = get_elem?-drop_cons word depth at in
      let (lo, hi, _) = subst IsWord at (IsWord-drop word depth spelled) in
      let a = c - b'a' in
      let low_a : a < max_a = omega arith in
      let long : leb (length word) depth ≡ false = ground arith in
      rw (long, letter_at-ok word depth at lo, size_at-ok tg q a low low_a)
        (node-accept tg valid _ q a (letters w)
          (λ p h. accept_sync_rec-accept fuel w p (depth + 1) (rw add-one behind) (omega arith) h)
          low low_a)

module _ (tg : TransitionGraph) (valid : IsGraph tg) (word : List ℕ) (spelled : IsWord word) where
  -- On a well-formed graph and a word over its letters, `acceptSync` ends, reads no cell out of
  -- bounds and returns 1 or 0 as the recursive function of README.md says.
  pub accept_sync-accept :
      accept_sync tg word ≡ ok (to_nat (accept (view tg) (pos_part tg.q0) (letters word)))
  unfolding accept_sync
  accept_sync-accept =
      let (e, low) = InRange_pos max_q tg.q0 valid.start in
      subst
        (λ q.
          accept_sync_rec (length word + 1) tg word (length word) q 0
          ≡ ok (to_nat (accept (view tg) (pos_part tg.q0) (letters word))))
        (sym e)
        (accept_sync_rec-accept tg valid word spelled (length word + 1) word (pos_part tg.q0) 0 refl
          (omega arith) low)

  -- On a well-formed graph and a word over its letters, `acceptSync` decides whether there is an
  -- accepting run: it returns 1 exactly if there is one, and returns 0 otherwise.
  pub accept_sync-Run :
      ((accept_sync tg word ≡ ok 1) × Run (view tg) (pos_part tg.q0) (letters word))
      ⊎ ((accept_sync tg word ≡ ok 0) × ¬ Run (view tg) (pos_part tg.q0) (letters word))
  accept_sync-Run =
      let runs = accept_iff_Run (view tg) (letters word) (pos_part tg.q0) in
      elim (Bool-cases (accept (view tg) (pos_part tg.q0) (letters word))) [
        | inl e ↦ inl (accept_sync-accept ∙ (rw e), runs.0 e)
        | inr e ↦ inr (accept_sync-accept ∙ (rw e), λ r. cc (runs.1 r))
      ]
