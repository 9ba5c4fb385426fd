-- ===== src/Server/Examples.antt =====
-- The theorems about the server, with a tester 7 that sends the word "a" and a run 55 that accepts it,
-- in the messages that testers and runs send.
use automaton_state_machine.Base.{
  ◌+◌, ◌≡◌, refl, none, some, true, false, [], ◌∷◌, arith, inl, replicate,
}
use automaton_state_machine.Base.Int.{pos}
use automaton_state_machine.Base.Outcome.{ok, undefined}
use automaton_state_machine.Server.Fork.{no_child}
use automaton_state_machine.Server.State.{
  Buffers, Server, Scanner, TesterSlot, RunSlot, start, close_pipe, answer, exit_message,
  hash_map_int_cmp,
}
use automaton_state_machine.Server.Handlers.{
  register_all, throttle, run_terminate, finish_run, report,
}
use automaton_state_machine.Server.Cycle.{
  Inputs, read_events, broadcast_exit, cycle, serve, finish_round, check_termination,
}
use automaton_state_machine.Server.Invariant.{IsServer, Short}
use automaton_state_machine.Server.Invariant.RunEnd.{finish_run-answer}
use automaton_state_machine.Server.Termination.{cycle-no_words}
use automaton_state_machine.Server.Stopping.{serve-Stops}
use automaton_state_machine.Server.Formats.{
  scanner, register_message, parse_message, scan_parse-parse_message,
}
use automaton_state_machine.Server.Answers.{run_terminate-answer}
use automaton_state_machine.Run.Main.{result_message}
use automaton_state_machine.Server.Names.{report-overrun}
use automaton_state_machine.Server.Sessions.{lookup}
use automaton_state_machine.HashMap.Ops.{find, detach}

abbrev blank : Buffers
blank = record { pid = 0; result = 0; loc_id = 0; text = []; queue = [] }

-- tester 7 registers the queue "/q", and sends the word "a" under number 3
abbrev word : Inputs
word = record {
  registers = register_message 7 (b'/' ∷ b'q' ∷ []) ∷ [];
  run_term_msg = none;
  wait = no_child;
  report_msg = some (parse_message 7 (b'/' ∷ b'q' ∷ []) 3 (b'a' ∷ []));
  exec = λ try. some 55;
}

-- the run 55 sends its result 1
abbrev result : Inputs
result = record word {
  registers = [];
  run_term_msg = some (result_message 55 1);
  report_msg = none;
}

abbrev quiet : Inputs
quiet = record word { registers = []; report_msg = none }

blank-Short : Short blank
blank-Short = record { word = omega arith; name = omega arith }

abbrev tester : TesterSlot
tester = record {
  queue_name = [];
  pid = 7;
  tester_input_queue = b'q' ∷ [];
  rcd_count = 1;
  acc_count = 0;
}

abbrev run : RunSlot
run = record { pid = 55; tester_source_pid = 7; loc_id = 3 }

-- one word under way
abbrev busy : Server
busy = record (start blank) {
  testers = (7, tester) ∷ [];
  runs = (55, run) ∷ [];
  active_tasks_count = pos 1;
  rcd_count = 1;
}

busy-IsServer : IsServer busy
unfolding find
busy-IsServer = record {
  accepted = omega arith;
  pending = omega arith;
  received = omega arith;
  answered = omega arith;
  keyed = (refl, tt);
  owned = ((λ gone. ground (arith, gone)), tt);
  short = blank-Short;
}

finish_run-answer_example :
    (ts : TesterSlot) × (u : Server) × (lookup 7 busy.testers ≡ some ts)
    × (finish_run 55 run busy ≡ ok u)
    × (u.actions ≡ close_pipe 55 ∷ answer ts.tester_input_queue 3 0 ∷ [])
    × (u.snt_count ≡ 1)
    × (u.acc_count ≡ 0)
    × (lookup 7 u.testers ≡ some (record ts { acc_count = ts.acc_count + 0 }))
    × (u.runs ≡ detach hash_map_int_cmp 55 busy.runs)
unfolding find
finish_run-answer_example = finish_run-answer busy 55 run busy-IsServer refl

-- termination is requested, and no run is left
abbrev stopping : Server
stopping = record busy { runs = []; should_terminate = true }

serve-Stops_example :
    (u : Server) × (serve scanner (quiet ∷ []) stopping ≡ ok u)
    × (u.actions ≡ exit_message (b'q' ∷ []) ∷ [])
    × (u.rcd_count ≡ 1)
    × (u.snt_count ≡ 0)
serve-Stops_example = serve-Stops scanner quiet [] stopping refl refl refl refl (inl refl)

abbrev stopped : Server
stopped = record stopping { force_termination = true; actions = exit_message (b'q' ∷ []) ∷ [] }

stopping-run : cycle scanner quiet stopping ≡ ok (false, stopped)
unfolding cycle read_events register_all throttle run_terminate finish_round check_termination
    broadcast_exit
stopping-run = refl

-- a word in the queue
abbrev word_too : Inputs
word_too = record quiet { report_msg = word.report_msg }

cycle-no_words_example :
    (cycle scanner word_too stopping ≡ ok (false, stopped))
    × (stopped.rcd_count ≡ 1)
    × (stopped.should_terminate ≡ true)
cycle-no_words_example =
    cycle-no_words scanner quiet stopping false stopped word.report_msg refl stopping-run

-- a word of 100 characters
abbrev long_scan : Scanner
long_scan = record scanner {
  parse = λ msg b. (true, record b { pid = 7; text = replicate 100 b'a' });
}

report-overrun_example : report long_scan (λ try. none) (some (b'p' ∷ [])) (start blank) ≡ undefined
unfolding find
report-overrun_example =
    report-overrun long_scan (λ try. none) (b'p' ∷ []) (start blank)
      (record blank { pid = 7; text = replicate 100 b'a' }) refl refl refl (omega arith)
      (omega arith)

-- the run 55 sends its result 1
run_terminate-answer_example :
    (u : Server) × (ts : TesterSlot) × (run_terminate scanner (some (result_message 55 1)) busy
      ≡ ok u)
    × (lookup 7 busy.testers ≡ some ts)
    × (u.actions ≡ close_pipe 55 ∷ answer ts.tester_input_queue run.loc_id 1 ∷ [])
    × (u.snt_count ≡ busy.snt_count + 1)
unfolding find
run_terminate-answer_example = run_terminate-answer busy 55 1 run busy-IsServer refl

-- "q" and "ab"
scan_parse-parse_message_example :
    scanner.parse (parse_message 7 (b'q' ∷ []) 3 (b'a' ∷ b'b' ∷ [])) blank
    ≡ (true, record blank { pid = 7; queue = b'q' ∷ []; loc_id = 3; text = b'a' ∷ b'b' ∷ [] })
scan_parse-parse_message_example =
    scan_parse-parse_message 7 3 b'q' b'a' [] (b'b' ∷ []) blank (refl, tt) refl (refl, (refl, tt))
