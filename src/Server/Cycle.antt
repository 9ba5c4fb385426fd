-- ===== src/Server/Cycle.antt =====
-- One round of the loop of `main`, the loop, and what follows it.
use automaton_state_machine.Base.{
  ℕ, zero, ltb, leb, Option, none, some, Bool, true, false, ◌&&◌, ◌||◌, List, [], ◌∷◌, ◌++◌, map,
  if◌then◌else◌, length,
}
use automaton_state_machine.Base.Int.{ℤ, pos, negsuc, leb_ℤ}
use automaton_state_machine.Base.Outcome.{Outcome, ok, out_of_fuel, ◌>>=◌}
use automaton_state_machine.HashMap.Ops.{Bucket}
use automaton_state_machine.Server.Fork.{Wait, process_wait_for_all_non_blocking}
use automaton_state_machine.Server.State.{
  Text, TesterSlot, Action, exit_message, close_pipe, Server, Scanner, dec,
}
use automaton_state_machine.Server.Handlers.{register_all, throttle, run_terminate, report}

-- What one round reads: the register messages, the message of a run, the answer of `waitpid`, the
-- message of a tester, and the new processes. A queue that is empty gives no message.
pub record Inputs : Type 0 where
  pub registers : List Text
  pub run_term_msg : Option Text
  pub wait : Wait
  pub report_msg : Option Text
  pub exec : ℕ → Option ℕ

abbrev pub is_minus_one : ℤ → Bool
is_minus_one (negsuc zero) = true
is_minus_one _ = false

abbrev pub is_zero : ℤ → Bool
is_zero (pos zero) = true
is_zero _ = false

abbrev pub is_none {ℓ} : {A : Type ℓ} → Option A → Bool
is_none none = true
is_none (some a) = false

-- the branch on a child that failed, with `SERVER_TERMINATE_ON_RUN_FAILURE` 0
abbrev pub count_crash : ℤ → Server → Server
count_crash children_status s =
    if is_minus_one children_status
    then record s { active_tasks_count = dec s.active_tasks_count }
    else s

-- the test that sets `forceTermination`
unfoldable pub check_termination : Inputs → Server → Server
check_termination i s =
    if (leb_ℤ s.active_tasks_count (pos 0) || leb (length s.runs) 0)
      && (s.should_terminate
          && (is_zero (process_wait_for_all_non_blocking i.wait) && is_none i.run_term_msg))
    then record s { force_termination = true }
    else s

-- the exit message to all testers
unfoldable pub broadcast_exit : Server → Server
broadcast_exit s = record s {
  actions = s.actions ++ map (λ (k, ts). exit_message ts.tester_input_queue) s.testers;
}

-- the first half of a round: registrations, throttling, and the end of a run
unfoldable pub read_events : Scanner → Inputs → Server → Outcome Server
unfolding register_all throttle run_terminate
read_events scan i s =
    register_all scan i.registers s >>= λ s'. run_terminate scan i.run_term_msg (throttle s')

-- the second half: a child that failed, the test whether to stop, a word, and the end
unfoldable pub finish_round : Scanner → Inputs → Server → Outcome (Bool × Server)
unfolding check_termination report broadcast_exit
finish_round scan i s =
    let s' = check_termination i (count_crash (process_wait_for_all_non_blocking i.wait) s) in
    (if s'.should_terminate then ok s' else report scan i.exec i.report_msg s') >>= λ s''.
    ok (if s''.force_termination then (false, broadcast_exit s'') else (true, s''))

-- One round: whether the loop goes on, and the state.
unfoldable pub cycle : Scanner → Inputs → Server → Outcome (Bool × Server)
unfolding read_events finish_round
cycle scan i s = read_events scan i s >>= finish_round scan i

-- The loop, over what its rounds read.
unfoldable pub serve : Scanner → List Inputs → Server → Outcome Server
unfolding cycle
serve scan [] s = out_of_fuel
serve scan (i ∷ is) s = cycle scan i s >>= λ (continues, s').
    let rest = serve scan is s' in if continues then rest else ok s'

-- the lines that the server prints for a tester
pub record TesterReport : Type 0 where
  pub pid : ℕ
  pub rcd : ℕ
  pub acc : ℕ

-- the report on the standard output
pub record Report : Type 0 where
  pub rcd : ℕ
  pub snt : ℕ
  pub acc : ℕ
  pub testers : List TesterReport

abbrev pub tester_reports : Bucket ℕ TesterSlot → List TesterReport
tester_reports [] = []
tester_reports ((k, ts) ∷ es) =
    if ltb 0 ts.rcd_count
    then record { pid = ts.pid; rcd = ts.rcd_count; acc = ts.acc_count } ∷ tester_reports es
    else tester_reports es

-- what follows the loop: the pipes of the runs that are left are closed, and the report is printed
unfoldable pub shut_down : Server → Report × List Action
shut_down s = (
  record {
    rcd = s.rcd_count;
    snt = s.snt_count;
    acc = s.acc_count;
    testers = tester_reports s.testers;
  },
  s.actions ++ map (λ (k, rs). close_pipe rs.pid) s.runs,
)
