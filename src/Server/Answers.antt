-- ===== src/Server/Answers.antt =====
-- The way of an answer: from src/run.c through src/validator.c to src/tester.c.
use automaton_state_machine.Base.{
  ℕ, ◌+◌, ◌≡◌, refl, Bool, true, false, [], ◌∷◌, ◌++◌, some, ap, sym, subst, ◌∙◌, ◌&&◌,
  if◌then◌else◌,
}
use automaton_state_machine.Base.Int.{pos, ltb_ℤ}
use automaton_state_machine.Base.Outcome.{ok}
use automaton_state_machine.Text.Scan.{Text, print_nat, scan_int, skip}
use automaton_state_machine.Text.Decimal.{scan_int-print_nat}
use automaton_state_machine.Tester.Loop.{answer_text, scan_loc_id}
use automaton_state_machine.Run.Main.{result_message}
use automaton_state_machine.Server.State.{
  Buffers, Scanner, server_process_limit, RunSlot, TesterSlot, Server, to_pid, dec, close_pipe,
  answer,
}
use automaton_state_machine.Server.Handlers.{unthrottle, deliver, finish_run, run_terminate}
use automaton_state_machine.Server.Sessions.{lookup}
use automaton_state_machine.Server.Invariant.{IsServer, with_buffers, control-IsServer}
use automaton_state_machine.Server.Invariant.RunEnd.{finish_run-deliver, unthrottle-IsServer}
use automaton_state_machine.Server.Formats.{scanner, scan_terminate-result_message, scan_int-last}

-- `"%d answer: %d"`
abbrev pub answer_message : ℕ → ℕ → Text
answer_message loc_id result =
    print_nat loc_id ++ (b' ' ∷ (answer_text ++ (b' ' ∷ print_nat result)))

-- The message in which the server sends an answer is read by the tester as the number and the result
-- that it was made of.
pub scan_loc_id-answer_message :
    (loc_id result : ℕ)
    → scan_loc_id (scan_int (answer_message loc_id result)) ≡ (true, pos loc_id, pos result)
unfolding skip
scan_loc_id-answer_message loc_id result =
    rw
      (
        scan_int-print_nat loc_id (b' ' ∷ (answer_text ++ (b' ' ∷ print_nat result))) refl,
        scan_int-last result,
      )
      refl

-- what throttling leaves as it is
abbrev Same : Server → Server → Type 0
Same s t =
    (s.runs ≡ t.runs)
    × (s.testers ≡ t.testers)
    × (s.actions ≡ t.actions)
    × (s.buffers ≡ t.buffers)
    × (s.snt_count ≡ t.snt_count)

if-Same : (c : Bool) (s : Server) → Same (if c then record s { throttled_mode = false } else s) s
if-Same true s = (refl, refl, refl, refl, refl)
if-Same false s = (refl, refl, refl, refl, refl)

-- the state in which the server finds the session of a run that has sent its result
abbrev heard : Server → Buffers → Server
heard s b = unthrottle (record s { buffers = b; active_tasks_count = dec s.active_tasks_count })

run_terminate-heard :
    (scan : Scanner) (msg : Text) (s u : Server) (rs : RunSlot)
    → (scan.terminate msg s.buffers).0 ≡ true
    → lookup
        (to_pid (scan.terminate msg s.buffers).1.pid)
        (heard s (scan.terminate msg s.buffers).1).runs
      ≡ some rs
    → finish_run
        (to_pid (scan.terminate msg s.buffers).1.pid)
        rs
        (heard s (scan.terminate msg s.buffers).1)
      ≡ ok u
    → run_terminate scan (some msg) s ≡ ok u
unfolding run_terminate
run_terminate-heard scan msg s u rs matches at run = rw matches (rw at run)

heard-result_message :
    (s u : Server) (pid result : ℕ) (rs : RunSlot)
    → (let b = record s.buffers { pid = pid; result = result } in
        (lookup (to_pid pid) (heard s b).runs ≡ some rs)
        × (finish_run (to_pid pid) rs (heard s b) ≡ ok u))
    → run_terminate scanner (some (result_message pid result)) s ≡ ok u
heard-result_message s u pid result rs h =
    let read = scan_terminate-result_message pid result s.buffers in
    let (at, run) =
      subst
        (λ (b : Buffers).
          (lookup (to_pid b.pid) (heard s b).runs ≡ some rs)
          × (finish_run (to_pid b.pid) rs (heard s b) ≡ ok u))
        (sym (ap (λ (p : Bool × Buffers). p.1) read)) h in
    run_terminate-heard scanner (result_message pid result) s u rs
      (ap (λ (p : Bool × Buffers). p.0) read) at run

-- In a state that satisfies the invariant, where a run that has a session sends its result, the server
-- closes the run's pipe and sends one answer: to the queue of the tester that sent the word, with the
-- word's number and the result.
pub run_terminate-answer :
    (s : Server) (pid result : ℕ) (rs : RunSlot)
    → IsServer s
    → lookup (to_pid pid) s.runs ≡ some rs
    → (u : Server) × (ts : TesterSlot) × (run_terminate scanner (some (result_message pid result)) s
        ≡ ok u)
      × (lookup rs.tester_source_pid s.testers ≡ some ts)
      × (u.actions
          ≡ (s.actions ++ close_pipe rs.pid ∷ [])
            ++ answer ts.tester_input_queue rs.loc_id result ∷ [])
      × (u.snt_count ≡ s.snt_count + 1)
unfolding deliver
run_terminate-answer s pid result rs w at =
    let b : Buffers = record s.buffers { pid = pid; result = result } in
    let busy : Server = record s { buffers = b; active_tasks_count = dec s.active_tasks_count } in
    let calm : IsServer busy =
      control-IsServer (record s { buffers = b }) (dec s.active_tasks_count) s.should_terminate
        s.force_termination s.throttled_mode s.actions
        (with_buffers s b w (record { word = w.short.word; name = w.short.name })) in
    let (runs, testers, actions, buffers, snt) =
      if-Same (s.throttled_mode && ltb_ℤ (dec s.active_tasks_count) (pos server_process_limit))
        busy in
    let found : lookup (to_pid pid) (heard s b).runs ≡ some rs =
      ap (lookup (to_pid pid)) runs ∙ at in
    let (ts, slot, run) =
      finish_run-deliver (heard s b) (to_pid pid) rs (unthrottle-IsServer busy calm) found in
    (
      _,
      ts,
      heard-result_message s _ pid result rs (found, run),
      ap (lookup rs.tester_source_pid) (sym testers) ∙ slot,
      ap
            (λ xs.
              (xs ++ close_pipe rs.pid ∷ [])
              ++ answer ts.tester_input_queue rs.loc_id (heard s b).buffers.result ∷ [])
            actions
          ∙ ap
              (λ (c : Buffers).
                (s.actions ++ close_pipe rs.pid ∷ [])
                ++ answer ts.tester_input_queue rs.loc_id c.result ∷ [])
              buffers,
      ap (λ n. n + 1) snt,
    )
