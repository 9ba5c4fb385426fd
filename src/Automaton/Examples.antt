-- ===== src/Automaton/Examples.antt =====
-- The theorems about the search at a small automaton, and runs of it.
use automaton_state_machine.Base.{
  ℕ, ◌≡◌, refl, true, false, List, [], ◌∷◌, arith, ◌==◌, ◌&&◌, if◌then◌else◌, ◌⊎◌, ◌↔◌,
}
use automaton_state_machine.Base.Int.{pos}
use automaton_state_machine.Base.Outcome.{ok}
use automaton_state_machine.Automaton.Graph.{TransitionGraph, IsGraph}
use automaton_state_machine.Automaton.Spec.{accept, Run, accept_iff_Run}
use automaton_state_machine.Automaton.Printer.{
  print_transition_graph, show, print_transition_graph-show,
}
use automaton_state_machine.Automaton.View.{view, letters, to_nat}
use automaton_state_machine.Automaton.Sync.{accept_sync}
use automaton_state_machine.Automaton.Sync.Correct.{accept_sync-accept, accept_sync-Run}
use automaton_state_machine.Automaton.Async.{
  fork_fails, child_runs, Env, Proc, returns, faults, accept_async, accept_async_rec, settle,
}
use automaton_state_machine.Automaton.Async.Branches.{Sound}
use automaton_state_machine.Automaton.Async.Correct.{
  accept_async_rec-Sound, accept_async-accept_sync, accept_async_rec_total,
}

-- State 0 is universal and goes by 'a' to 1 and 2, 1 goes by 'a' to 2, and 2 by 'a' to itself. State 2
-- is final.
abbrev sample : TransitionGraph
sample = record {
  graph = λ q a i. if a == 0 && q == 0 && i == 0 then pos 1 else pos 2;
  size = λ q a. if a == 0 then (if q == 0 then 2 else 1) else 0;
  accepting_states = λ q. if q == 2 then 1 else 0;
  q0 = pos 0;
  alphabet = pos 1;
  states = pos 3;
  universal = pos 1;
  finals = pos 1;
}

sample-IsGraph : IsGraph sample
sample-IsGraph = record {
  size_fits = λ q a. ground arith;
  target_fits = λ q a i h. ground arith;
  flag = λ q. ground arith;
  start = omega arith;
}

abbrev word : List ℕ
word = b'a' ∷ b'a' ∷ []

abbrev calm : Env
calm path = child_runs

abbrev failing : Env
failing path = fork_fails

accept_sync_one : accept_sync sample (b'a' ∷ []) ≡ ok 0
unfolding accept_sync
accept_sync_one = refl

accept_sync_two : accept_sync sample word ≡ ok 1
unfolding accept_sync
accept_sync_two = refl

abbrev long_word : List ℕ
long_word = b'a' ∷ b'a' ∷ b'a' ∷ b'a' ∷ b'a' ∷ b'a' ∷ b'a' ∷ []

accept_iff_Run_example :
    (accept (view sample) 0 (letters word) ≡ true) ↔ Run (view sample) 0 (letters word)
accept_iff_Run_example = accept_iff_Run (view sample) (letters word) 0

accept_sync-accept_example :
    accept_sync sample word ≡ ok (to_nat (accept (view sample) 0 (letters word)))
accept_sync-accept_example = accept_sync-accept sample sample-IsGraph word (omega arith)

accept_sync-Run_example :
    ((accept_sync sample word ≡ ok 1) × Run (view sample) 0 (letters word))
    ⊎ ((accept_sync sample word ≡ ok 0) × ¬ Run (view sample) 0 (letters word))
accept_sync-Run_example = accept_sync-Run sample sample-IsGraph word (omega arith)

-- the search from a workload at which it forks
abbrev busy : Proc
busy = record { workload = 6; lost = false }

accept_async_rec_forks : accept_async_rec 3 failing [] sample word 2 (pos 0) 0 busy 0 ≡ faults
unfolding accept_async_rec
accept_async_rec_forks = refl

accept_async_rec-Sound_example :
    Sound failing busy
      (accept (view sample) 0 (letters word))
      (accept_async_rec 3 failing [] sample word 2 (pos 0) 0 busy 0)
accept_async_rec-Sound_example =
    accept_async_rec-Sound failing sample sample-IsGraph word (omega arith) 3 word [] 0 0 busy 0
      refl (omega arith) (omega arith) (λ h. cc)

accept_async_rec_total_example :
    (s : Proc) × (accept_async_rec 3 calm [] sample word 2 (pos 0) 0 busy 0
      ≡ returns (to_nat (accept (view sample) 0 (letters word))) s)
accept_async_rec_total_example =
    accept_async_rec_total calm sample sample-IsGraph word (omega arith) word [] 0 0 6 0 refl
      (omega arith) (λ place. refl)

accept_async-accept_sync_example :
    accept_async failing sample word
    ≡ settle (accept_sync sample word) (record { workload = 2; lost = false })
accept_async-accept_sync_example = accept_async-accept_sync failing sample word

print_transition_graph-show_example : print_transition_graph sample ≡ ok (show (view sample))
print_transition_graph-show_example = print_transition_graph-show sample sample-IsGraph
