-- ===== src/Automaton/Async/Spawn.antt =====
-- The loop of `acceptAsync_node` that forks.
use automaton_state_machine.Base.{
  ℕ, zero, suc, ◌+◌, ◌<◌, ◌≤◌, ◌≡◌, inl, inr, refl, Bool, true, false, not, List, [], ◌∷◌, ◌++◌,
  arith, ◌==◌, Bool-cases, subst, append_assoc, append-nil, sym, ◌∙◌,
}
use automaton_state_machine.Base.Int.{ℤ, pos, pos_part}
use automaton_state_machine.Base.Outcome.{Outcome, ok}
use automaton_state_machine.Automaton.Graph.{max_q, InRange, InRange_pos}
use automaton_state_machine.Automaton.View.{to_nat, targets}
use automaton_state_machine.Automaton.Async.{
  Fork-cases, Env, Proc, Result, returns, exits, faults, blocks, starves, Pipe, unopened, silent,
  holds, Spawned, joined, left, fetch, decides, compute_locally, run_child, Search, spawn,
}
use automaton_state_machine.Automaton.Async.Branches.{
  Lost, Failed, Sound, quantify, Matches, Matches-snoc, Matches-lose,
}

pub not_zero : (b : Bool) (v : ℕ) → v ≡ to_nat b → not (v == 0) ≡ b
not_zero true v e = rw e
not_zero false v e = rw e

module _ (env : Env) (existential : Bool) (g : ℕ → Bool) where
  -- an end of the loop that ends the call, with branches `todo` still to look at
  abbrev LeftOk : Proc → List ℕ → Result → Type 0
  LeftOk s todo (returns v s') =
      (v ≡ to_nat existential)
      × (quantify existential g todo ≡ existential)
      × (s'.lost ≡ false)
      × (s.lost ≡ false)
  LeftOk s todo exits = Lost env
  LeftOk s todo faults = Failed env
  LeftOk s todo blocks = ⊥
  LeftOk s todo starves = ⊥

  -- what the loop gives, with the pipes of the branches `done` filled
  abbrev pub Spawns : Proc → List ℕ → List ℕ → Spawned → Type 0
  Spawns s done todo (joined xs s') =
      Matches env existential g s'.lost (done ++ todo) xs
      × (s'.lost ≡ true → Lost env)
      × (s'.lost ≡ false → s.lost ≡ false)
  Spawns s done todo (left r) = LeftOk s todo r

  LeftOk-cons :
      (s s' : Proc) (p : ℕ) (ps : List ℕ) (r : Result)
      → LeftOk s' ps r
      → (s'.lost ≡ false → s.lost ≡ false)
      → LeftOk s (p ∷ ps) r
  LeftOk-cons s s' p ps (returns v t) (a, b, c, d) back = (a, ground arith, c, back d)
  LeftOk-cons s s' p ps exits h back = h
  LeftOk-cons s s' p ps faults h back = h
  LeftOk-cons s s' p ps blocks h back = h
  LeftOk-cons s s' p ps starves h back = h

  Spawns-cons :
      (s s' : Proc) (done : List ℕ) (p : ℕ) (ps : List ℕ) (r : Spawned)
      → Spawns s' (done ++ p ∷ []) ps r
      → (s'.lost ≡ false → s.lost ≡ false)
      → Spawns s done (p ∷ ps) r
  Spawns-cons s s' done p ps (joined xs t) (m, why, mono) back = (
    subst (λ l. Matches env existential g t.lost l xs) (append_assoc done (p ∷ []) ps) m,
    why,
    λ e. back (mono e),
  )
  Spawns-cons s s' done p ps (left r) h back = LeftOk-cons s s' p ps r h back

  -- a branch that the process computes itself after a failed fork
  compute_locally-Spawns :
      (r : Result) (s : Proc) (done : List ℕ) (p : ℕ) (ps : List ℕ) (next : Proc → Spawned)
      → Sound env (record { workload = 0; lost = s.lost }) (g p) r
      → (s.lost ≡ true → Lost env)
      → ((s' : Proc)
          → s'.lost ≡ s.lost
          → decides existential (g p) ≡ false
          → Spawns s' (done ++ p ∷ []) ps (next s'))
      → Spawns s done (p ∷ ps) (compute_locally existential r s next)
  compute_locally-Spawns (returns v t) s done p ps next (value, same) why cont =
      rw (not_zero (g p) v value, Spawns)
        (elim (Bool-cases (decides existential (g p))) [
          | inl hit ↦
              rw (hit, Spawns)
                (elim (Bool-cases t.lost) [
                  | inl gone ↦ rw (gone, Spawns) (why (sym same ∙ gone))
                  | inr kept ↦ rw (kept, Spawns) (refl, rw hit, refl, sym same ∙ kept)
                ])
          | inr miss ↦
              rw (miss, Spawns)
                (Spawns-cons s (record s { lost = t.lost }) done p ps
                  (next (record s { lost = t.lost })) (cont (record s { lost = t.lost }) same miss)
                  (λ e. sym same ∙ e))
        ])
  compute_locally-Spawns exits s done p ps next sound why cont = sound
  compute_locally-Spawns faults s done p ps next sound why cont = sound
  compute_locally-Spawns blocks s done p ps next sound why cont = sound
  compute_locally-Spawns starves s done p ps next sound why cont = sound

  -- a branch that goes to a child
  run_child-Spawns :
      (r : Result) (s : Proc) (done : List ℕ) (xs : List Pipe) (p : ℕ) (ps : List ℕ)
      (next : Pipe → Proc → Spawned)
      → Sound env (record { workload = 0; lost = false }) (g p) r
      → (s.lost ≡ true → Lost env)
      → Matches env existential g s.lost done xs
      → ((x : Pipe) (s' : Proc)
          → Matches env existential g s'.lost (done ++ p ∷ []) (xs ++ x ∷ [])
          → (s'.lost ≡ true → Lost env)
          → (s'.lost ≡ false → s.lost ≡ false)
          → Spawns s done (p ∷ ps) (next x s'))
      → Spawns s done (p ∷ ps) (run_child r s next)
  run_child-Spawns (returns v t) s done xs p ps next (value, same) why m cont =
      cont (holds (not (v == 0))) s
        (Matches-snoc env existential g s.lost done xs p (holds (not (v == 0))) m
          (not_zero (g p) v value))
        why (λ e. e)
  run_child-Spawns exits s done xs p ps next sound why m cont =
      cont silent (record s { lost = true })
        (Matches-snoc env existential g true done xs p silent
          (Matches-lose env existential g s.lost done xs m) refl)
        (λ _. sound) (λ e. cc)
  run_child-Spawns faults s done xs p ps next sound why m cont = sound
  run_child-Spawns blocks s done xs p ps next sound why m cont = sound
  run_child-Spawns starves s done xs p ps next sound why m cont = sound

  module _ (search : Search) (target : ℕ → Outcome ℤ) (row : ℕ → ℤ) (path : List ℕ)
      (right : (place : List ℕ) (p : ℕ) (s : Proc)
        → p < max_q
        → (s.lost ≡ true → Lost env)
        → Sound env s (g p) (search place (pos p) s))
      (reads : (i : ℕ) → i < max_q → target i ≡ ok (row i)) where
    -- one branch, by its number
    pub branch-Sound :
        (i : ℕ) (place : List ℕ) (s : Proc)
        → i < max_q
        → InRange max_q (row i)
        → (s.lost ≡ true → Lost env)
        → Sound env s (g (pos_part (row i))) (fetch (target i) λ q. search place q s)
    branch-Sound i place s low inside why =
        let (e, lt) = InRange_pos max_q (row i) inside in
        rw (reads i low) (
          subst (λ z. Sound env s (g (pos_part (row i))) (search place z s)) (sym e)
            (right place (pos_part (row i)) s lt why))

    -- the loop from branch `i` on
    pub spawn-Spawns :
        (n i : ℕ) (done : List ℕ) (xs : List Pipe) (s : Proc)
        → i + n ≤ max_q
        → ((j : ℕ) → j < i + n → InRange max_q (row j))
        → (s.lost ≡ true → Lost env)
        → Matches env existential g s.lost done xs
        → Spawns s done (targets row n i) (spawn env search target path existential n i xs s)
    unfolding spawn targets
    spawn-Spawns zero i done xs s fits inside why m =
        (subst (λ l. Matches env existential g s.lost l xs) (sym (append-nil done)) m, why, λ e. e)
    spawn-Spawns (suc n) i done xs s fits inside why m =
        let p = pos_part (row i) in
        let ps = targets row n (i + 1) in
        let next : Pipe → Proc → Spawned =
          λ x s'. spawn env search target path existential n (i + 1) (xs ++ x ∷ []) s' in
        let rest : (x : Pipe) (s' : Proc)
            → Matches env existential g s'.lost (done ++ p ∷ []) (xs ++ x ∷ [])
            → (s'.lost ≡ true → Lost env)
            → Spawns s' (done ++ p ∷ []) ps (next x s') =
          λ x s' m' why'.
            spawn-Spawns n (i + 1) (done ++ p ∷ []) (xs ++ x ∷ []) s' (omega arith)
              (λ j h. inside j (omega arith)) why' m' in
        elim (Fork-cases (env (i ∷ path))) [
          | inl e ↦ rw (e, Spawns) (i ∷ path, inr e)
          | inr (inl e) ↦
              rw (e, Spawns)
                (compute_locally-Spawns _ s done p ps (next unopened)
                  (branch-Sound i (i ∷ path) (record { workload = 0; lost = s.lost }) (omega arith)
                    (inside i (omega arith)) why)
                  why
                  (λ s' same miss.
                    rest unopened s'
                      (Matches-snoc env existential g s'.lost done xs p unopened
                        (subst (λ l. Matches env existential g l done xs) (sym same) m)
                        (miss, (i ∷ path, e)))
                      (λ h. why (sym same ∙ h))))
          | inr (inr (inl e)) ↦
              rw (e, Spawns)
                (run_child-Spawns _ s done xs p ps next
                  (branch-Sound i (i ∷ path) (record { workload = 0; lost = false }) (omega arith)
                    (inside i (omega arith)) (λ h. cc))
                  why m
                  (λ x s' m' why' back.
                    Spawns-cons s s' done p ps (next x s') (rest x s' m' why') back))
          | inr (inr (inr e)) ↦
              rw (e, Spawns)
                (Spawns-cons s (record s { lost = true }) done p ps
                  (next silent (record s { lost = true }))
                  (rest silent (record s { lost = true })
                    (Matches-snoc env existential g true done xs p silent
                      (Matches-lose env existential g s.lost done xs m) refl)
                    (λ _. (i ∷ path, inl e)))
                  (λ h. cc))
        ]
