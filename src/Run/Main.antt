-- ===== src/Run/Main.antt =====
-- `main` of src/run.c. What the operating system does is a parameter.
use automaton_state_machine.Base.{
  ℕ, Bool, List, [], ◌∷◌, ◌++◌, ltb, if◌then◌else◌, Option, none, some, length, get_elem?,
}
use automaton_state_machine.Base.Int.{ℤ, pos, negsuc}
use automaton_state_machine.Base.Outcome.{Outcome, ok, undefined, out_of_fuel, ends}
use automaton_state_machine.Base.Step.{Step, continues, exits, overruns}
use automaton_state_machine.Text.Scan.{Text, print_nat}
use automaton_state_machine.Pipe.Ops.{
  MsgPipe, msg_pipe_id_from_str, msg_pipe_open, msg_pipe_read, msg_pipe_close,
}
use automaton_state_machine.Automaton.Graph.{TransitionGraph, init_transition_graph}
use automaton_state_machine.Automaton.Loader.{load_transition_graph}
use automaton_state_machine.Automaton.Async.{Env, Result, accept_async}

-- What the worker finds: its arguments; whether the queue for the results can be opened, written to
-- and closed; the signal of the parent's death before each of the three tests of it; what `read`
-- delivers from the pipe and whether `close` succeeds; its process id; what `fork` and the pipes of
-- the search do; and what is in new memory.
pub record World : Type 0 where
  pub args : List Text
  pub queue_opens : Bool
  pub queue_sends : Bool
  pub queue_closes : Bool
  pub died_at_start : Bool
  pub died_when_ready : Bool
  pub died_at_end : Bool
  pub read : ℕ → Option Text
  pub close : ℤ → Bool
  pub pid : ℕ
  pub env : Env
  pub new_pipe : MsgPipe
  pub new_graph : TransitionGraph

-- How the process ends: with an exit code, after the messages that it sent to the queue; by an access
-- out of bounds or to NULL; or never.
pub data End : Type 0 where
  ended : ℤ → List Text → End
  crashes : End
  hangs : End

-- `exit(-1)`, and every `fatal` and `syserr`, before a result is sent
abbrev pub gives_up : End
gives_up = ended (negsuc 0) []

abbrev pub on_step {ℓ} : {A : Type ℓ} → Step A → (A → End) → End
on_step (continues a) f = f a
on_step exits f = gives_up
on_step overruns f = crashes

abbrev pub on_outcome {ℓ} : {A : Type ℓ} → Outcome A → (A → End) → End
on_outcome (ok a) f = f a
on_outcome undefined f = crashes
on_outcome out_of_fuel f = hangs
on_outcome ends f = gives_up

abbrev pub on_result : Result → (ℕ → End) → End
on_result (Result.returns v s) f = f v
on_result Result.exits f = gives_up
on_result Result.faults f = crashes
on_result Result.blocks f = hangs
on_result Result.starves f = hangs

-- "run-terminate: "
abbrev pub result_prefix : Text
result_prefix =
    b'r' ∷ b'u' ∷ b'n' ∷ b'-' ∷ b't' ∷ b'e' ∷ b'r' ∷ b'm' ∷ b'i' ∷ b'n' ∷ b'a' ∷ b't' ∷ b'e' ∷ b':'
    ∷ b' ' ∷ []

-- `"run-terminate: %lld %d"`
abbrev pub result_message : ℕ → ℕ → Text
result_message pid result = result_prefix ++ (print_nat pid ++ (b' ' ∷ print_nat result))

-- behind the search: the result is sent, and the queue and the pipe are closed
unfoldable pub commit_result : World → MsgPipe → ℕ → End
commit_result w p result =
    if w.died_at_end
    then gives_up
    else if w.queue_sends
    then (let sent = result_message w.pid result ∷ [] in
        if w.queue_closes
        then elim (msg_pipe_close w.close p []) [
          | continues a ↦ ended (pos 0) sent
          | exits ↦ ended (negsuc 0) sent
          | overruns ↦ crashes
        ]
        else ended (negsuc 0) sent)
    else gives_up

-- the search on the word, which is NULL if there are no more than two arguments
unfoldable pub accept_word : World → MsgPipe → TransitionGraph → Option Text → End
accept_word w p tg none = crashes
accept_word w p tg (some word) =
    on_result (accept_async w.env tg word) λ result. commit_result w p result

-- from the pipe on: the description is read, and the graph is loaded from it
unfoldable pub receive_graph : World → MsgPipe → End
receive_graph w p =
    if w.died_when_ready
    then gives_up
    else on_step (msg_pipe_read w.read p) λ received. elim received [
      | none ↦ gives_up
      | some desc ↦
          on_outcome (load_transition_graph (some desc) (init_transition_graph w.new_graph))
            λ tg. accept_word w p tg (get_elem? w.args 2)
    ]

-- `main`
unfoldable pub run_main : World → End
run_main w =
    if ltb (length w.args) 2
    then gives_up
    else if w.died_at_start
    then gives_up
    else if w.queue_opens
    then (on_step (msg_pipe_id_from_str (get_elem? w.args 1))
        λ id. on_step (msg_pipe_open w.new_pipe id) λ p. receive_graph w p)
    else gives_up
