-- ===== src/Run/Correct.antt =====
-- What the worker of src/run.c sends.
use automaton_state_machine.Base.{
  ℕ, ◌-◌, ◌<◌, ◌≡◌, refl, true, false, List, [], ◌∷◌, ◌++◌, none, some, length, get_elem?,
  length-append, ltb, arith, ap, ◌∙◌,
}
use automaton_state_machine.Base.Int.{ℤ, pos, pos_part, ltb_ℤ}
use automaton_state_machine.Base.Step.{continues}
use automaton_state_machine.Text.Scan.{Text, print_nat}
use automaton_state_machine.Pipe.Ops.{
  MsgPipe, MsgPipeId, After, msg_pipe_id_to_str, msg_pipe_open, msg_pipe_read, msg_pipe_close,
  msg_pipe_close_read, msg_pipe_close_write, msg_pipe_abandon,
}
use automaton_state_machine.Pipe.Names.{msg_pipe_id_from_str-msg_pipe_id_to_str}
use automaton_state_machine.Pipe.Transfer.{msg_pipe_read-whole}
use automaton_state_machine.Automaton.Graph.{TransitionGraph, IsGraph}
use automaton_state_machine.Automaton.Spec.{accept}
use automaton_state_machine.Automaton.View.{view, letters, IsWord, to_nat}
use automaton_state_machine.Automaton.Async.Correct.{accept_async-accept_sync}
use automaton_state_machine.Automaton.Sync.Correct.{accept_sync-accept}
use automaton_state_machine.Automaton.Loader.Format.{
  Description, IsDescription, machine, print, numbers, sizes_line, edge_lines,
}
use automaton_state_machine.Automaton.Loader.Correct.{load_transition_graph-print}
use automaton_state_machine.Run.Main.{
  World, ended, result_message, commit_result, accept_word, receive_graph, run_main,
}

-- a worker that nothing fails for
pub record IsCalm (w : World) : Type 0 where
  pub opens : w.queue_opens ≡ true
  pub sends : w.queue_sends ≡ true
  pub closes : w.queue_closes ≡ true
  pub alive_at_start : w.died_at_start ≡ false
  pub alive_when_ready : w.died_when_ready ≡ false
  pub alive_at_end : w.died_at_end ≡ false
  pub close_succeeds : (d : ℤ) → w.close d ≡ true

-- an open pipe, and its closing
record IsOpen (p : MsgPipe) : Type 0 where
  good : p.good ≡ true
  reads : p.opened_read ≡ true
  writes : p.opened_write ≡ true

close-IsOpen :
    (w : World) (p : MsgPipe)
    → IsCalm w
    → IsOpen p
    → (a : After) × (msg_pipe_close w.close p [] ≡ continues a)
unfolding msg_pipe_close msg_pipe_close_read msg_pipe_close_write msg_pipe_abandon
close-IsOpen w p calm op = (
  record {
    result = pos 1;
    pipe = record p {
      buff = none;
      buff_size = pos 0;
      good = false;
      opened_read = false;
      opened_write = false;
    };
    closed = p.write_desc ∷ p.read_desc ∷ [];
  },
  rw
      (
        op.good,
        op.reads,
        op.writes,
        calm.close_succeeds p.read_desc,
        calm.close_succeeds p.write_desc,
      )
      refl,
)

commit_result-IsCalm :
    (w : World) (p : MsgPipe) (result : ℕ)
    → IsCalm w
    → IsOpen p
    → commit_result w p result ≡ ended (pos 0) (result_message w.pid result ∷ [])
unfolding commit_result
commit_result-IsCalm w p result calm op =
    let (a, e) = close-IsOpen w p calm op in rw (calm.alive_at_end, calm.sends, calm.closes, e) refl

accept_word-IsGraph :
    (w : World) (p : MsgPipe) (tg : TransitionGraph) (word : Text)
    → IsCalm w
    → IsOpen p
    → IsGraph tg
    → IsWord word
    → accept_word w p tg (some word)
      ≡ ended
          (pos 0)
          (result_message w.pid (to_nat (accept (view tg) (pos_part tg.q0) (letters word))) ∷ [])
unfolding accept_word
accept_word-IsGraph w p tg word calm op valid spelled =
    rw (accept_async-accept_sync w.env tg word, accept_sync-accept tg valid word spelled)
      (commit_result-IsCalm w p _ calm op)

receive_graph-print :
    (w : World) (p : MsgPipe) (d : Description) (word : Text)
    → IsCalm w
    → IsOpen p
    → IsDescription d
    → IsWord word
    → get_elem? w.args 2 ≡ some word
    → msg_pipe_read w.read p ≡ continues (some (print d))
    → receive_graph w p
      ≡ ended
          (pos 0)
          (result_message w.pid (to_nat (accept (machine d) d.start (letters word))) ∷ [])
unfolding receive_graph
receive_graph-print w p d word calm op fits spelled third received =
    let (tg, loaded, valid, start, same) = load_transition_graph-print d w.new_graph fits in
    rw (calm.alive_when_ready, received, loaded, third)
      (accept_word-IsGraph w p tg word calm op valid spelled
        ∙ ap
            (λ m.
              ended (pos 0)
                (result_message w.pid (to_nat (accept m (pos_part tg.q0) (letters word))) ∷ []))
            same
        ∙ ap
            (λ q.
              ended (pos 0) (
                result_message w.pid (to_nat (accept (machine d) (pos_part q) (letters word)))
                ∷ []))
            start)

-- the pipe that is opened from a good identifier
abbrev opened_pipe : MsgPipeId → MsgPipe
opened_pipe id = record {
  read_desc = id.read_desc;
  write_desc = id.write_desc;
  good = true;
  buff = some [];
  buff_size = id.buff_size;
  opened_read = true;
  opened_write = true;
}

print-length : (d : Description) → 0 < length (print d)
unfolding print
print-length d = omega (
  arith,
  length-append (sizes_line d)
      (b'\n' ∷ (print_nat d.start ++ b'\n' ∷ (numbers d.finals ++ b'\n' ∷ edge_lines d.edges))),
)

-- A worker that nothing fails for, started with the name of a good pipe and a word over the letters of
-- a graph, that reads from the pipe the whole description of an automaton within the arrays' bounds,
-- ends with exit code 0 and sends one message: its process id, and 1 or 0 as the described automaton
-- accepts the word from the described start state or not.
pub run_main-answer :
    (w : World) (d : Description) (id : MsgPipeId) (n : ℕ) (program word : Text) (flags : List Text)
    → IsCalm w
    → IsDescription d
    → IsWord word
    → id.good ≡ true
    → id.buff_size ≡ pos n
    → length (print d) < n
    → w.args ≡ program ∷ (msg_pipe_id_to_str id).1 ∷ word ∷ flags
    → w.read (n - 1) ≡ some (print d)
    → run_main w
      ≡ ended
          (pos 0)
          (result_message w.pid (to_nat (accept (machine d) d.start (letters word))) ∷ [])
unfolding run_main msg_pipe_open receive_graph
run_main-answer w d id n program word flags calm fits spelled good size short args delivered =
    let p : MsgPipe = opened_pipe id in
    let first : ltb (length w.args) 2 ≡ false = rw args (ground arith) in
    let second : get_elem? w.args 1 ≡ some (msg_pipe_id_to_str id).1 = rw args refl in
    let third : get_elem? w.args 2 ≡ some word = rw args refl in
    let sized : ltb_ℤ id.buff_size (pos 0) ≡ false = rw size (ground arith) in
    let received : msg_pipe_read w.read p ≡ continues (some (print d)) =
      msg_pipe_read-whole w.read p n (print d) refl refl size (print-length d) short delivered in
    rw
      (
        first,
        second,
        calm.alive_at_start,
        calm.opens,
        msg_pipe_id_from_str-msg_pipe_id_to_str id good,
        good,
        sized,
      )
      (receive_graph-print w p d word calm (record { good = refl; reads = refl; writes = refl })
        fits spelled third received)
