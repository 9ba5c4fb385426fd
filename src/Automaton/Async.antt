-- ===== src/Automaton/Async.antt =====
-- `acceptAsync` of src/automaton.h: the search that forks. What the operating system does at a fork
-- is a parameter, which gives for each place of the search tree what becomes of the fork there.
pub mod Branches
pub mod Spawn
pub mod Node
pub mod Correct
use automaton_state_machine.Base.{
  ℕ, zero, suc, ◌+◌, ◌-◌, Bool, true, false, not, ◌&&◌, ◌||◌, List, [], ◌∷◌, ◌++◌, ltb, leb, ◌==◌,
  length, if◌then◌else◌, ◌≡◌, refl, ◌⊎◌, inl, inr,
}
use automaton_state_machine.Base.Int.{ℤ, leb_ℤ}
use automaton_state_machine.Base.Outcome.{Outcome, ok, undefined, out_of_fuel, ends, ◌>>=◌}
use automaton_state_machine.Automaton.Graph.{TransitionGraph, accepting_at, size_at, graph_at}
use automaton_state_machine.Automaton.View.{to_nat}
use automaton_state_machine.Automaton.Sync.{letter_at, any_branch, all_branches, accept_sync_rec}

-- `RUN_WORKLOAD_LIMIT` and `RUN_FORK_LIMIT` of src/automaton_config.h
abbrev pub run_workload_limit : ℕ
run_workload_limit = 5

abbrev pub run_fork_limit : ℕ
run_fork_limit = 22

-- What happens where a node of the search creates a pipe and forks for a branch: there is no pipe;
-- there is no process; there is a child, which runs its code; there is a child, which dies.
pub data Fork : Type 0 where
  no_pipe fork_fails child_runs child_dies : Fork

pub Fork-cases :
    (f : Fork) → (f ≡ no_pipe) ⊎ ((f ≡ fork_fails) ⊎ ((f ≡ child_runs) ⊎ (f ≡ child_dies)))
Fork-cases no_pipe = inl refl
Fork-cases fork_fails = inr (inl refl)
Fork-cases child_runs = inr (inr (inl refl))
Fork-cases child_dies = inr (inr (inr refl))

-- A place of the search tree is the list of branches that lead to it, the last first.
abbrev pub Env : Type 0
Env = List ℕ → Fork

-- What a process keeps: the variable behind `workload`, and whether a child that it has not yet
-- waited for ended abnormally or with an exit code other than 0.
pub record Proc : Type 0 where
  pub workload : ℕ
  pub lost : Bool

-- The end of a call: it returns; the process exits with -1; it reads an object that was never
-- initialised or out of bounds; it waits on an empty pipe for ever; the fuel was too little.
pub data Result : Type 0 where
  returns : ℕ → Proc → Result
  exits : Result
  faults : Result
  blocks : Result
  starves : Result

-- An entry of `acceptAsyncDataPipe`: never written, open and empty, or with an answer in it.
pub data Pipe : Type 0 where
  unopened : Pipe
  silent : Pipe
  holds : Bool → Pipe

-- The end of the loop that forks: the pipes and the process, or an end of the call.
pub data Spawned : Type 0 where
  joined : List Pipe → Proc → Spawned
  left : Result → Spawned

abbrev pub settle : Outcome ℕ → Proc → Result
settle (ok v) s = returns v s
settle undefined s = faults
settle out_of_fuel s = starves
settle ends s = exits

abbrev pub fetch {ℓ} : {A : Type ℓ} → Outcome A → (A → Result) → Result
fetch (ok a) k = k a
fetch undefined k = faults
fetch out_of_fuel k = starves
fetch ends k = exits

-- `(is_existential_state && value) || (!is_existential_state && !value)`
abbrev pub decides : Bool → Bool → Bool
decides existential value = existential && value || not existential && not value

-- `processWaitForAll`, and `exit(-1)` if it returns -1
abbrev pub wait_for_all : Proc → Result → Result
wait_for_all s rest = if s.lost then exits else rest

-- the branch that the process computes itself, with a workload of its own, since `fork` failed
abbrev pub compute_locally : Bool → Result → Proc → (Proc → Spawned) → Spawned
compute_locally existential (returns v s') s next =
    let s'' : Proc = record s { lost = s'.lost } in
    elim (decides existential (not (v == 0))) [
      | true ↦ left (wait_for_all s'' (returns (to_nat existential) s''))
      | false ↦ next s''
    ]
compute_locally existential exits s next = left exits
compute_locally existential faults s next = left faults
compute_locally existential blocks s next = left blocks
compute_locally existential starves s next = left starves

-- what the parent sees of a child that runs to the end given: its message, or that it is lost
abbrev pub run_child : Result → Proc → (Pipe → Proc → Spawned) → Spawned
run_child (returns v s') s next = next (holds (not (v == 0))) s
run_child exits s next = next silent (record s { lost = true })
run_child faults s next = left faults
run_child blocks s next = left blocks
run_child starves s next = left starves

-- a call of `acceptAsync_rec` at a place, from a state of the automaton, by a process
abbrev pub Search : Type 0
Search = List ℕ → ℤ → Proc → Result

-- the loop `for(int i=1;i<branch_count;++i)` that forks, with the rounds that are left
unfoldable pub spawn :
    Env → Search → (ℕ → Outcome ℤ) → List ℕ → Bool → ℕ → ℕ → List Pipe → Proc → Spawned
spawn env search target path existential zero i pipes s = joined pipes s
spawn env search target path existential (suc n) i pipes s = elim (env (i ∷ path)) [
  | no_pipe ↦ left exits
  | fork_fails ↦
      compute_locally existential
        (fetch (target i) λ q. search (i ∷ path) q (record { workload = 0; lost = s.lost })) s
        λ s'. spawn env search target path existential n (i + 1) (pipes ++ unopened ∷ []) s'
  | child_runs ↦
      run_child (fetch (target i) λ q. search (i ∷ path) q (record { workload = 0; lost = false }))
        s λ pipe s'. spawn env search target path existential n (i + 1) (pipes ++ pipe ∷ []) s'
  | child_dies ↦
      spawn env search target path existential n (i + 1) (pipes ++ silent ∷ [])
        (record s { lost = true })
]

-- the loop that reads the answers of the children
unfoldable pub collect : Bool → List Pipe → Proc → Result
collect existential [] s = returns (to_nat (not existential)) s
collect existential (unopened ∷ pipes) s = faults
collect existential (silent ∷ pipes) s = blocks
collect existential (holds b ∷ pipes) s =
    if decides existential b then returns (to_nat existential) s else collect existential pipes s

-- what follows the value that the process computed itself
abbrev pub after_origin : Bool → List Pipe → Result → Result
after_origin existential pipes (returns v s) = wait_for_all s (
    if decides existential (not (v == 0))
    then returns (to_nat existential) s
    else collect existential pipes s)
after_origin existential pipes exits = exits
after_origin existential pipes faults = faults
after_origin existential pipes blocks = blocks
after_origin existential pipes starves = starves

abbrev pub after_spawn : Bool → (Proc → Result) → Spawned → Result
after_spawn existential origin (left r) = r
after_spawn existential origin (joined pipes s) = after_origin existential pipes (origin s)

-- `acceptAsync_node`, from `branch_count` on
unfoldable pub accept_async_node :
    Env → Search → (ℕ → Outcome ℤ) → List ℕ → Bool → ℕ → Proc → Result
unfolding spawn collect
accept_async_node env search target path existential zero s = returns (to_nat (not existential)) s
accept_async_node env search target path existential (suc n) s =
    after_spawn existential (λ s'. fetch (target 0) λ q. search (0 ∷ path) q s')
      (spawn env search target path existential n 1 [] s)

-- `acceptAsync_rec`; the last argument is `parent_fork_count`
unfoldable pub accept_async_rec :
    ℕ → Env → List ℕ → TransitionGraph → List ℕ → ℕ → ℤ → ℕ → Proc → ℕ → Result
unfolding accept_sync_rec any_branch all_branches accept_async_node
accept_async_rec zero env path tg word word_len q depth s forks = starves
accept_async_rec (suc fuel) env path tg word word_len q depth s forks =
    let s' : Proc = record s { workload = s.workload + 1 } in
    elim (leb word_len depth) [
      | true ↦ settle (accepting_at tg q) s'
      | false ↦ fetch (letter_at word depth) λ letter. fetch (size_at tg q letter) λ branch_count.
          elim (ltb s'.workload run_workload_limit || ltb run_fork_limit forks) [
            | true ↦
                settle
                  (elim (leb_ℤ tg.universal q) [
                    | true ↦
                        any_branch (λ p. accept_sync_rec fuel tg word word_len p (depth + 1))
                          (graph_at tg q letter) branch_count 0
                    | false ↦
                        all_branches (λ p. accept_sync_rec fuel tg word word_len p (depth + 1))
                          (graph_at tg q letter) branch_count 0
                  ])
                  s'
            | false ↦
                accept_async_node env
                  (λ path' p t.
                    accept_async_rec fuel env path' tg word word_len p (depth + 1) t
                      (forks + branch_count - 1))
                  (graph_at tg q letter) path (leb_ℤ tg.universal q) branch_count s'
          ]
    ]

-- `acceptAsync`
unfoldable pub accept_async : Env → TransitionGraph → List ℕ → Result
unfolding accept_async_rec
accept_async env tg word =
    accept_async_rec (length word + 1) env [] tg word (length word) tg.q0 0
      (record { workload = 1; lost = false }) 0
