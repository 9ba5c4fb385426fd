-- ===== src/Server/Stopping.antt =====
-- The end of the loop of the server, once termination is requested and no run is left.
use automaton_state_machine.Base.{
  none, Bool, true, false, List, [], ◌∷◌, ◌++◌, map, ◌≡◌, ◌⊎◌, inl, inr, refl, ◌∙◌, arith, ◌||◌,
}
use automaton_state_machine.Base.Int.{pos, leb_ℤ}
use automaton_state_machine.Base.Outcome.{ok}
use automaton_state_machine.Server.Fork.{Wait, no_child, running, process_wait_for_all_non_blocking}
use automaton_state_machine.Server.State.{Server, Scanner, exit_message}
use automaton_state_machine.Server.Handlers.{register_all, throttle, run_terminate}
use automaton_state_machine.Server.Cycle.{
  Inputs, read_events, cycle, serve, broadcast_exit, is_zero,
}
use automaton_state_machine.Server.Termination.{Stops, cycle-Stops}

-- what throttling leaves as it is
record Same (s t : Server) : Type 0 where
  actions : t.actions ≡ s.actions
  testers : t.testers ≡ s.testers
  runs : t.runs ≡ s.runs
  should : t.should_terminate ≡ s.should_terminate
  rcd : t.rcd_count ≡ s.rcd_count
  snt : t.snt_count ≡ s.snt_count

throttle-Same : (s : Server) → Same s (throttle s)
unfolding throttle
throttle-Same s = record {
  actions = ground arith;
  testers = ground arith;
  runs = ground arith;
  should = ground arith;
  rcd = ground arith;
  snt = ground arith;
}

read_events-quiet :
    (scan : Scanner) (i : Inputs) (s : Server)
    → i.registers ≡ []
    → i.run_term_msg ≡ none
    → read_events scan i s ≡ ok (throttle s)
unfolding read_events register_all run_terminate
read_events-quiet scan i s no_register no_result = rw (no_register, no_result) refl

none_ended :
    (w : Wait)
    → (w ≡ no_child) ⊎ (w ≡ running)
    → is_zero (process_wait_for_all_non_blocking w) ≡ true
none_ended w (inl e) = rw e refl
none_ended w (inr e) = rw e refl

or_true : (b : Bool) → (b || true) ≡ true
or_true true = refl
or_true false = refl

throttle-Stops :
    (i : Inputs) (s : Server)
    → s.should_terminate ≡ true
    → s.runs ≡ []
    → i.run_term_msg ≡ none
    → (i.wait ≡ no_child) ⊎ (i.wait ≡ running)
    → Stops i (throttle s)
throttle-Stops i s should no_runs no_result calm =
    let same = throttle-Same s in
    let empty : (throttle s).runs ≡ [] = same.runs ∙ no_runs in
    record {
      requested = same.should ∙ should;
      no_child_ended = none_ended i.wait calm;
      no_run_ended = rw no_result refl;
      idle = rw empty (or_true (leb_ℤ (throttle s).active_tasks_count (pos 0)));
    }

serve-stop :
    (scan : Scanner) (i : Inputs) (rounds : List Inputs) (s u : Server)
    → cycle scan i s ≡ ok (false, u)
    → serve scan (i ∷ rounds) s ≡ ok u
unfolding serve
serve-stop scan i rounds s u run = rw run refl

-- Where termination is requested and no session of a run is left, the loop ends with a round that reads
-- no registration and no result of a run, and in which `waitpid` has no child that ended, or no child:
-- the server has sent the exit message to each of its testers, and nothing else, in order; and it has
-- counted no word and no answer.
pub serve-Stops :
    (scan : Scanner) (i : Inputs) (rounds : List Inputs) (s : Server)
    → s.should_terminate ≡ true
    → s.runs ≡ []
    → i.registers ≡ []
    → i.run_term_msg ≡ none
    → (i.wait ≡ no_child) ⊎ (i.wait ≡ running)
    → (u : Server) × (serve scan (i ∷ rounds) s ≡ ok u)
      × (u.actions ≡ s.actions ++ map (λ (k, ts). exit_message ts.tester_input_queue) s.testers)
      × (u.rcd_count ≡ s.rcd_count)
      × (u.snt_count ≡ s.snt_count)
unfolding broadcast_exit
serve-Stops scan i rounds s should no_runs no_register no_result calm =
    let same = throttle-Same s in
    let stop =
      cycle-Stops scan i s (throttle s) (read_events-quiet scan i s no_register no_result)
        (throttle-Stops i s should no_runs no_result calm) in
    (
      broadcast_exit (record (throttle s) { force_termination = true }),
      serve-stop scan i rounds s _ stop,
      rw (same.actions, same.testers) refl,
      same.rcd,
      same.snt,
    )
