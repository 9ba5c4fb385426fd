-- ===== src/Automaton/Async/Correct.antt =====
-- `acceptAsync` against `acceptSync` and the runs of README.md.
use automaton_state_machine.Base.{
  ℕ, zero, suc, ◌+◌, ◌-◌, ◌<◌, ◌≡◌, refl, Bool, true, false, not, List, [], ◌∷◌, arith, ◌||◌, inl,
  inr, leb, ltb, Bool-cases, length, drop, get_elem?-drop_cons, length-le_of_drop, length-drop,
  subst, ap, add-one, ◌∙◌,
}
use automaton_state_machine.Base.Int.{ℤ, pos, leb_ℤ}
use automaton_state_machine.Base.Outcome.{Outcome, ok, undefined, out_of_fuel, ends, ◌>>=◌}
use automaton_state_machine.Automaton.Graph.{
  TransitionGraph, max_q, max_a, IsGraph, index-ok, size_at-ok, graph_at-ok, graph_at, size_at,
}
use automaton_state_machine.Automaton.Spec.{accept}
use automaton_state_machine.Automaton.View.{targets, view, IsWord, letters, to_nat}
use automaton_state_machine.Automaton.Sync.{accept_sync, letter_at, accept_sync_rec}
use automaton_state_machine.Automaton.Sync.Correct.{
  letter_at-ok, IsWord-drop, to_nat-flag, accept_sync_rec-accept, node-accept,
}
use automaton_state_machine.Automaton.Async.{
  Env, Proc, Result, returns, exits, faults, blocks, starves, child_runs, run_workload_limit,
  run_fork_limit, accept_async_rec, accept_async, settle, Search, accept_async_node, fetch,
}
use automaton_state_machine.Automaton.Async.Branches.{
  Lost, Sound, quantify, quantify-any, quantify-all,
}
use automaton_state_machine.Automaton.Async.Node.{accept_async_node-Sound}

-- a result that is settled step by step is the settled result
fetch-settle {ℓ} :
    {A : Type ℓ} (o : Outcome A) (k : A → Result) (f : A → Outcome ℕ) (s : Proc)
    → ((a : A) → k a ≡ settle (f a) s)
    → fetch o k ≡ settle (o >>= f) s
fetch-settle (ok a) k f s same = same a
fetch-settle undefined k f s same = refl
fetch-settle out_of_fuel k f s same = refl
fetch-settle ends k f s same = refl

settle-Sound :
    (env : Env) (s s' : Proc) (b : Bool) (o : Outcome ℕ)
    → o ≡ ok (to_nat b)
    → s'.lost ≡ s.lost
    → Sound env s b (settle o s')
settle-Sound env s s' b o e same = rw (e, Sound) (refl, same)

-- the answer of a node over its branches
quantify-accept :
    (tg : TransitionGraph) (q a : ℕ) (w : List ℕ)
    → quantify
        (leb_ℤ tg.universal (pos q))
        (λ p. accept (view tg) p w)
        (targets (tg.graph q a) (tg.size q a) 0)
      ≡ accept (view tg) q (a ∷ w)
unfolding accept view
quantify-accept tg q a w = elim (Bool-cases (leb_ℤ tg.universal (pos q))) [
  | inl e ↦ rw (e, not) (quantify-any _ (targets (tg.graph q a) (tg.size q a) 0))
  | inr e ↦ rw (e, not) (quantify-all _ (targets (tg.graph q a) (tg.size q a) 0))
]

module _ (env : Env) (tg : TransitionGraph) (valid : IsGraph tg) (word : List ℕ)
    (spelled : IsWord word) where
  -- On a well-formed graph and a word over its letters, the search from a state at a depth, with
  -- fuel for more than the rest of the word, at any place of the search tree and with any workload
  -- and fork count: where it returns, it returns the answer of the rest of the word from that
  -- state; it exits only if some child dies or some pipe cannot be made, it faults only if some
  -- fork fails, and it never blocks.
  pub accept_async_rec-Sound :
      (fuel : ℕ) (w : List ℕ) (path : List ℕ) (q depth : ℕ) (s : Proc) (forks : ℕ)
      → drop depth word ≡ w
      → length w < fuel
      → q < max_q
      → (s.lost ≡ true → Lost env)
      → Sound env s
          (accept (view tg) q (letters w))
          (accept_async_rec fuel env path tg word (length word) (pos q) depth s forks)
  unfolding accept_async_rec accept view
  accept_async_rec-Sound zero w path q depth s forks at enough low why = absurd (omega arith)
  accept_async_rec-Sound (suc fuel) [] path q depth s forks at enough low why =
      let short : leb (length word) depth ≡ true =
        ground (arith, length-le_of_drop word depth at) in
      rw (short, index-ok max_q tg.accepting_states q low, Sound)
        (to_nat-flag (tg.accepting_states q) (valid.flag q), refl)
  accept_async_rec-Sound (suc fuel) (c ∷ w) path q depth s forks at enough low why =
      let (got, behind, inside) = get_elem?-drop_cons word depth at in
      let (lo, hi, _) = subst IsWord at (IsWord-drop word depth spelled) in
      let a = c - b'a' in
      let low_a : a < max_a = omega arith in
      let long : leb (length word) depth ≡ false = ground arith in
      let s' : Proc = record s { workload = s.workload + 1 } in
      rw (long, letter_at-ok word depth at lo, size_at-ok tg q a low low_a, Sound)
        (elim (Bool-cases (ltb s'.workload run_workload_limit || ltb run_fork_limit forks)) [
          | inl sync ↦
              rw (sync, Sound)
                (settle-Sound env s s' (accept (view tg) q (letters (c ∷ w))) _
                  (node-accept tg valid
                    (λ p. accept_sync_rec fuel tg word (length word) p (depth + 1)) q a (letters w)
                    (λ p h.
                      accept_sync_rec-accept tg valid word spelled fuel w p (depth + 1)
                        (rw add-one behind) (omega arith) h)
                    low low_a)
                  refl)
          | inr async ↦
              let search : Search = λ place p t.
                accept_async_rec fuel env place tg word (length word) p (depth + 1) t
                  (forks + tg.size q a - 1) in
              let existential = leb_ℤ tg.universal (pos q) in
              rw (async, Sound)
                (subst
                  (λ b. Sound env s b (
                    accept_async_node env search (graph_at tg (pos q) (pos a)) path existential
                      (tg.size q a) s'))
                  (quantify-accept tg q a (letters w))
                  (accept_async_node-Sound env existential (λ p. accept (view tg) p (letters w))
                    search (graph_at tg (pos q) (pos a)) (tg.graph q a) path
                    (λ place p t h why'.
                      accept_async_rec-Sound fuel w place p (depth + 1) t (forks + tg.size q a - 1)
                        (rw add-one behind) (omega arith) h why')
                    (graph_at-ok tg q a low low_a) (tg.size q a) s' (valid.size_fits q a)
                    (λ j h. valid.target_fits q a j h) why))
        ])

  -- On a well-formed graph and a word over its letters, when every fork gives a child that lives,
  -- the search with enough fuel returns, whatever the workload and the fork count, with the answer
  -- that the rest of the word has from the state.
  pub accept_async_rec_total :
      (w : List ℕ) (path : List ℕ) (q depth workload forks : ℕ)
      → drop depth word ≡ w
      → q < max_q
      → ((place : List ℕ) → env place ≡ child_runs)
      → (s : Proc) × (accept_async_rec
            (length word + 1)
            env
            path
            tg
            word
            (length word)
            (pos q)
            depth
            (record { workload = workload; lost = false })
            forks
          ≡ returns (to_nat (accept (view tg) q (letters w))) s)
  accept_async_rec_total w path q depth workload forks at low calm = go _ refl (
      accept_async_rec-Sound (length word + 1) w path q depth start forks at
        (omega (arith, length-drop depth word, ap length at)) low (λ h. cc))
    where
      start : Proc
      start = record { workload = workload; lost = false }

      answer : ℕ
      answer = to_nat (accept (view tg) q (letters w))

      go :
          (r : Result)
          → accept_async_rec
              (length word + 1)
              env
              path
              tg
              word
              (length word)
              (pos q)
              depth
              start
              forks
            ≡ r
          → Sound env start (accept (view tg) q (letters w)) r
          → (s : Proc) × (accept_async_rec
                (length word + 1)
                env
                path
                tg
                word
                (length word)
                (pos q)
                depth
                start
                forks
              ≡ returns answer s)
      go (returns v s) e (value, same) = (s, e ∙ ap (λ n. returns n s) value)
      go exits e (place, inl h) = cc (calm place)
      go exits e (place, inr h) = cc (calm place)
      go faults e (place, h) = cc (calm place)
      go blocks e sound = absurd sound
      go starves e sound = absurd sound

-- below the limit of the workload the search is the one of `acceptSync`
accept_async_rec-low :
    (fuel : ℕ) (env : Env) (path : List ℕ) (tg : TransitionGraph) (word : List ℕ) (len : ℕ) (q : ℤ)
    (depth forks : ℕ)
    → accept_async_rec
        (suc fuel)
        env
        path
        tg
        word
        len
        q
        depth
        (record { workload = 1; lost = false })
        forks
      ≡ settle
          (accept_sync_rec (suc fuel) tg word len q depth)
          (record { workload = 2; lost = false })
unfolding accept_async_rec accept_sync_rec
accept_async_rec-low fuel env path tg word len q depth forks = elim (Bool-cases (leb len depth)) [
  | inl e ↦ rw (e, accept_async_rec, settle) refl
  | inr e ↦
      rw (e, accept_async_rec, settle)
        (fetch-settle (letter_at word depth) _ _ _
          λ a. fetch-settle (size_at tg q a) _ _ _ λ n. refl)
]

-- `acceptAsync` never forks: on every graph and word, and whatever the operating system would do, it
-- ends as `acceptSync` does, with a workload of 2.
pub accept_async-accept_sync :
    (env : Env) (tg : TransitionGraph) (word : List ℕ)
    → accept_async env tg word
      ≡ settle (accept_sync tg word) (record { workload = 2; lost = false })
unfolding accept_async accept_sync
accept_async-accept_sync env tg word =
    rw add-one (accept_async_rec-low (length word) env [] tg word (length word) tg.q0 0 0)
