-- ===== src/Automaton/Async/Branches.antt =====
-- The loops of `acceptAsync_node`: what the pipes hold after the forks, and what the node returns.
use automaton_state_machine.Base.{
  ℕ, ◌≡◌, ◌⊎◌, inl, inr, refl, Bool, true, false, not, List, [], ◌∷◌, ◌++◌, arith, if◌then◌else◌,
  Bool-cases, sym,
}
use automaton_state_machine.Automaton.Spec.{any, all}
use automaton_state_machine.Automaton.View.{to_nat}
use automaton_state_machine.Automaton.Async.{
  no_pipe, fork_fails, child_dies, Env, Proc, Result, returns, exits, faults, blocks, starves, Pipe,
  unopened, silent, holds, decides, collect,
}

-- some child died, or some pipe could not be made
abbrev pub Lost : Env → Type 0
Lost env = (path : List ℕ) × ((env path ≡ child_dies) ⊎ (env path ≡ no_pipe))

-- some fork failed
abbrev pub Failed : Env → Type 0
Failed env = (path : List ℕ) × (env path ≡ fork_fails)

-- The answer `b` for a process that was in state `s`: a call that returns gives it, a call that
-- exits has lost a child, and a call that faults has met a fork that failed.
abbrev pub Sound : Env → Proc → Bool → Result → Type 0
Sound env s b (returns v s') = (v ≡ to_nat b) × (s'.lost ≡ s.lost)
Sound env s b exits = Lost env
Sound env s b faults = Failed env
Sound env s b blocks = ⊥
Sound env s b starves = ⊥

-- both quantifiers at once: does a branch decide the node?
abbrev pub quantify : Bool → (ℕ → Bool) → List ℕ → Bool
quantify existential g [] = not existential
quantify existential g (p ∷ ps) =
    if decides existential (g p) then existential else quantify existential g ps

pub quantify-any : (g : ℕ → Bool) (ps : List ℕ) → quantify true g ps ≡ any g ps
quantify-any g [] = refl
quantify-any g (p ∷ ps) = ground (arith, quantify-any g ps)

pub quantify-all : (g : ℕ → Bool) (ps : List ℕ) → quantify false g ps ≡ all g ps
quantify-all g [] = refl
quantify-all g (p ∷ ps) = ground (arith, quantify-all g ps)

module _ (env : Env) (existential : Bool) (g : ℕ → Bool) where
  -- what a pipe tells of its branch, if the process has lost a child or not
  abbrev pub PipeOk : Bool → ℕ → Pipe → Type 0
  PipeOk lost p unopened = (decides existential (g p) ≡ false) × Failed env
  PipeOk lost p silent = lost ≡ true
  PipeOk lost p (holds b) = b ≡ g p

  abbrev pub Matches : Bool → List ℕ → List Pipe → Type 0
  Matches lost [] [] = Unit {0}
  Matches lost [] (x ∷ xs) = ⊥
  Matches lost (p ∷ ps) [] = ⊥
  Matches lost (p ∷ ps) (x ∷ xs) = PipeOk lost p x × Matches lost ps xs

  pub Matches-snoc :
      (lost : Bool) (ps : List ℕ) (xs : List Pipe) (p : ℕ) (x : Pipe)
      → Matches lost ps xs
      → PipeOk lost p x
      → Matches lost (ps ++ p ∷ []) (xs ++ x ∷ [])
  Matches-snoc lost [] [] p x m h = (h, tt)
  Matches-snoc lost [] (y ∷ xs) p x m h = absurd m
  Matches-snoc lost (q ∷ ps) [] p x m h = absurd m
  Matches-snoc lost (q ∷ ps) (y ∷ xs) p x m h = (m.0, Matches-snoc lost ps xs p x m.1 h)

  PipeOk-lose : (lost : Bool) (p : ℕ) (x : Pipe) → PipeOk lost p x → PipeOk true p x
  PipeOk-lose lost p unopened h = h
  PipeOk-lose lost p silent h = refl
  PipeOk-lose lost p (holds b) h = h

  pub Matches-lose :
      (lost : Bool) (ps : List ℕ) (xs : List Pipe) → Matches lost ps xs → Matches true ps xs
  Matches-lose lost [] [] m = tt
  Matches-lose lost [] (x ∷ xs) m = absurd m
  Matches-lose lost (p ∷ ps) [] m = absurd m
  Matches-lose lost (p ∷ ps) (x ∷ xs) m = (PipeOk-lose lost p x m.0, Matches-lose lost ps xs m.1)

  -- reading the pipes decides the node, if no child is lost
  pub collect-Sound :
      (ps : List ℕ) (xs : List Pipe) (s : Proc)
      → Matches false ps xs
      → Sound env s (quantify existential g ps) (collect existential xs s)
  unfolding collect
  collect-Sound [] [] s m = (refl, refl)
  collect-Sound [] (x ∷ xs) s m = absurd m
  collect-Sound (p ∷ ps) [] s m = absurd m
  collect-Sound (p ∷ ps) (unopened ∷ xs) s m = m.0.1
  collect-Sound (p ∷ ps) (silent ∷ xs) s m = cc (m.0)
  collect-Sound (p ∷ ps) (holds b ∷ xs) s m =
      let rest = collect-Sound ps xs s m.1 in
      rw (sym m.0) (elim (Bool-cases (decides existential b)) [
        | inl e ↦ rw e (refl, refl)
        | inr e ↦ rw e rest
      ])
