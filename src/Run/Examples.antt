-- ===== src/Run/Examples.antt =====
-- A run of the worker on a small automaton.
use automaton_state_machine.Base.{◌≡◌, refl, true, false, [], ◌∷◌, some, length, arith}
use automaton_state_machine.Base.Int.{pos}
use automaton_state_machine.Text.Scan.{Text, print_nat}
use automaton_state_machine.Pipe.Ops.{msg_pipe_id_to_str}
use automaton_state_machine.Pipe.Examples.{small_id, small_pipe, succeeds}
use automaton_state_machine.Automaton.Spec.{accept}
use automaton_state_machine.Automaton.View.{letters, to_nat}
use automaton_state_machine.Automaton.Async.{child_runs}
use automaton_state_machine.Automaton.Loader.Format.{machine, print, numbers}
use automaton_state_machine.Automaton.Loader.Examples.{small, small-IsDescription, blank_graph}
use automaton_state_machine.Run.Main.{World, ended, result_message, run_main}
use automaton_state_machine.Run.Correct.{IsCalm, run_main-answer}

-- "ab"
abbrev word : Text
word = b'a' ∷ b'b' ∷ []

abbrev calm : World
calm = record {
  args = [] ∷ (msg_pipe_id_to_str small_id).1 ∷ word ∷ [];
  queue_opens = true;
  queue_sends = true;
  queue_closes = true;
  died_at_start = false;
  died_when_ready = false;
  died_at_end = false;
  read = λ n. some (print small);
  close = succeeds;
  pid = 42;
  env = λ path. child_runs;
  new_pipe = small_pipe;
  new_graph = blank_graph;
}

calm-IsCalm : IsCalm calm
calm-IsCalm = record {
  opens = refl;
  sends = refl;
  closes = refl;
  alive_at_start = refl;
  alive_when_ready = refl;
  alive_at_end = refl;
  close_succeeds = λ d. refl;
}

print_short : length (print small) ≡ 28
unfolding print numbers print_nat
print_short = refl

run_main-answer_example :
    run_main calm
    ≡ ended (pos 0) (result_message 42 (to_nat (accept (machine small) 0 (letters word))) ∷ [])
run_main-answer_example =
    run_main-answer calm small small_id 107 [] word [] calm-IsCalm small-IsDescription (omega arith)
      refl refl (omega (arith, print_short)) refl refl
