-- ===== src/Automaton/Async/Node.antt =====
-- A node of the search tree of `acceptAsync_node`, once the loop that forks has ended.
use automaton_state_machine.Base.{
  ℕ, zero, suc, ◌<◌, ◌≤◌, ◌≡◌, inl, inr, refl, Bool, true, false, List, [], ◌∷◌, arith,
  if◌then◌else◌, Bool-cases, subst, sym, ◌∙◌, ap,
}
use automaton_state_machine.Base.Int.{ℤ, pos, pos_part}
use automaton_state_machine.Base.Outcome.{Outcome, ok}
use automaton_state_machine.Automaton.Graph.{max_q, InRange}
use automaton_state_machine.Automaton.View.{to_nat, targets}
use automaton_state_machine.Automaton.Async.{
  Env, Proc, Result, returns, exits, faults, blocks, starves, Pipe, Spawned, joined, left, fetch,
  decides, Search, collect, after_origin, after_spawn, accept_async_node,
}
use automaton_state_machine.Automaton.Async.Branches.{Lost, Sound, quantify, Matches, collect-Sound}
use automaton_state_machine.Automaton.Async.Spawn.{not_zero, Spawns, spawn-Spawns, branch-Sound}

module _ (env : Env) (existential : Bool) (g : ℕ → Bool) where
  quantify_now :
      (p : ℕ) (ps : List ℕ)
      → decides existential (g p) ≡ true
      → quantify existential g (p ∷ ps) ≡ existential
  quantify_now p ps h = ground arith

  quantify_later :
      (p : ℕ) (ps : List ℕ)
      → quantify existential g ps ≡ existential
      → quantify existential g (p ∷ ps) ≡ existential
  quantify_later p ps h = ground arith

  Sound-level :
      (t s : Proc) (b : Bool) (r : Result) → t.lost ≡ s.lost → Sound env t b r → Sound env s b r
  Sound-level t s b (returns v u) e (value, same) = (value, same ∙ e)
  Sound-level t s b exits e h = h
  Sound-level t s b faults e h = h
  Sound-level t s b blocks e h = h
  Sound-level t s b starves e h = h

  module _ (search : Search) (target : ℕ → Outcome ℤ) (row : ℕ → ℤ) (path : List ℕ)
      (right : (place : List ℕ) (p : ℕ) (s : Proc)
        → p < max_q
        → (s.lost ≡ true → Lost env)
        → Sound env s (g p) (search place (pos p) s))
      (reads : (i : ℕ) → i < max_q → target i ≡ ok (row i)) where
    -- waiting for the children, then the rest of the call
    wait-Sound :
        (s : Proc) (b lost : Bool) (rest : Result)
        → (lost ≡ true → Lost env)
        → (lost ≡ false → Sound env s b rest)
        → Sound env s b (if lost then exits else rest)
    wait-Sound s b true rest why cont = why refl
    wait-Sound s b false rest why cont = cont refl

    -- the node, once its own branch is computed
    after_origin-Sound :
        (s : Proc) (p : ℕ) (ps : List ℕ) (xs : List Pipe) (s' : Proc) (r : Result)
        → Matches env existential g s'.lost ps xs
        → (s'.lost ≡ true → Lost env)
        → (s'.lost ≡ false → s.lost ≡ false)
        → Sound env s' (g p) r
        → Sound env s (quantify existential g (p ∷ ps)) (after_origin existential xs r)
    after_origin-Sound s p ps xs s' (returns v t) m why back (value, same) =
        wait-Sound s (quantify existential g (p ∷ ps)) t.lost _ (λ gone. why (sym same ∙ gone))
          λ kept.
            let own : s'.lost ≡ false = sym same ∙ kept in
            let level : t.lost ≡ s.lost = kept ∙ sym (back own) in
            rw (not_zero (g p) v value) (elim (Bool-cases (decides existential (g p))) [
              | inl hit ↦ rw (hit, Sound) (ap to_nat (sym (quantify_now p ps hit)), level)
              | inr miss ↦
                  rw (miss, quantify)
                    (Sound-level t s (quantify existential g ps) (collect existential xs t) level (
                      collect-Sound env existential g ps xs t
                        (subst (λ l. Matches env existential g l ps xs) own m)))
            ])
    after_origin-Sound s p ps xs s' exits m why back sound = sound
    after_origin-Sound s p ps xs s' faults m why back sound = sound
    after_origin-Sound s p ps xs s' blocks m why back sound = sound
    after_origin-Sound s p ps xs s' starves m why back sound = sound

    after_spawn-Sound :
        (s : Proc) (p : ℕ) (ps : List ℕ) (origin : Proc → Result) (r : Spawned)
        → Spawns env existential g s [] ps r
        → ((s' : Proc) → (s'.lost ≡ true → Lost env) → Sound env s' (g p) (origin s'))
        → Sound env s (quantify existential g (p ∷ ps)) (after_spawn existential origin r)
    after_spawn-Sound s p ps origin (joined xs s') (m, why, back) own =
        after_origin-Sound s p ps xs s' (origin s') m why back (own s' why)
    after_spawn-Sound s p ps origin (left (returns v t)) (a, b, c, d) own =
        (a ∙ ap to_nat (sym (quantify_later p ps b)), c ∙ sym d)
    after_spawn-Sound s p ps origin (left exits) h own = h
    after_spawn-Sound s p ps origin (left faults) h own = h
    after_spawn-Sound s p ps origin (left blocks) h own = h
    after_spawn-Sound s p ps origin (left starves) h own = h

    -- The node returns the quantified answer of its branches, unless a child or a fork fails.
    pub accept_async_node-Sound :
        (n : ℕ) (s : Proc)
        → n ≤ max_q
        → ((j : ℕ) → j < n → InRange max_q (row j))
        → (s.lost ≡ true → Lost env)
        → Sound env s
            (quantify existential g (targets row n 0))
            (accept_async_node env search target path existential n s)
    unfolding accept_async_node targets
    accept_async_node-Sound zero s fits inside why = (refl, refl)
    accept_async_node-Sound (suc n) s fits inside why =
        after_spawn-Sound s (pos_part (row 0)) (targets row n 1)
          (λ s'. fetch (target 0) λ q. search (0 ∷ path) q s') _
          (spawn-Spawns env existential g search target row path right reads n 1 [] [] s
            (omega arith) (λ j h. inside j (omega arith)) why tt)
          (λ s' why'.
            branch-Sound env existential g search target row path right reads 0 (0 ∷ path) s'
              (omega arith) (inside 0 (omega arith)) why')
