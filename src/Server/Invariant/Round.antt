-- ===== src/Server/Invariant/Round.antt =====
-- A round, and the whole loop, keep the invariant.
use automaton_state_machine.Base.{
  ℕ, ◌+◌, ◌≤◌, Bool, true, false, List, [], ◌∷◌, ◌≡◌, ◌⊎◌, refl, arith, if◌then◌else◌, Bool-cases,
  inl, inr,
}
use automaton_state_machine.Base.Outcome.{Outcome, ok, out_of_fuel}
use automaton_state_machine.HashMap.Ops.{Bucket}
use automaton_state_machine.Server.State.{TesterSlot, Server, Scanner, dec}
use automaton_state_machine.Server.Handlers.{throttle, report}
use automaton_state_machine.Server.Sessions.{sum}
use automaton_state_machine.Base.Int.{ℤ}
use automaton_state_machine.Server.Invariant.{
  rcd, acc, IsServer, FitsAll, FitsIf, Post, control-IsServer, if-IsServer,
}
use automaton_state_machine.Server.Fork.{process_wait_for_all_non_blocking}
use automaton_state_machine.Server.Cycle.{
  Inputs, count_crash, check_termination, broadcast_exit, read_events, finish_round, cycle, serve,
  shut_down, TesterReport, tester_reports,
}
use automaton_state_machine.Server.Invariant.Register.{register_all-IsServer}
use automaton_state_machine.Server.Invariant.RunEnd.{throttle-IsServer, run_terminate-IsServer}
use automaton_state_machine.Server.Invariant.Parse.{report-IsServer}

count_crash-IsServer : (status : ℤ) (s : Server) → IsServer s → IsServer (count_crash status s)
count_crash-IsServer status s w =
    if-IsServer _ _ _
      (control-IsServer s (dec s.active_tasks_count) s.should_terminate s.force_termination
        s.throttled_mode s.actions w)
      w

check_termination-IsServer :
    (i : Inputs) (s : Server) → IsServer s → IsServer (check_termination i s)
unfolding check_termination
check_termination-IsServer i s w =
    if-IsServer _ _ _
      (control-IsServer s s.active_tasks_count s.should_terminate true s.throttled_mode s.actions w)
      w

broadcast_exit-IsServer : (s : Server) → IsServer s → IsServer (broadcast_exit s)
unfolding broadcast_exit
broadcast_exit-IsServer s w =
    control-IsServer s s.active_tasks_count s.should_terminate s.force_termination s.throttled_mode
      (broadcast_exit s).actions w

if-Post :
    (P : Server → Type 0) (b : Bool) (x y : Outcome Server)
    → Post P x
    → Post P y
    → Post P (if b then x else y)
if-Post P true x y p q = p
if-Post P false x y p q = q

-- The messages that a round reads hold words of fewer than 100 characters and names of queues of fewer
-- than 50, as `sscanf` reads them.
pub record FitsRound (scan : Scanner) (i : Inputs) : Type 0 where
  pub registrations : FitsAll scan.register i.registers
  pub result : FitsIf scan.terminate i.run_term_msg
  pub word : FitsIf scan.parse i.report_msg

abbrev pub FitsRounds : Scanner → List Inputs → Type 0
FitsRounds scan [] = Unit
FitsRounds scan (i ∷ is) = FitsRound scan i × FitsRounds scan is

pub cycle-IsServer :
    (scan : Scanner) (i : Inputs) (s : Server)
    → FitsRound scan i
    → IsServer s
    → (continues : Bool) × (s' : Server) × (cycle scan i s ≡ ok (continues, s')) × IsServer s'
unfolding cycle read_events finish_round
cycle-IsServer scan i s sc w =
    let (s₁, run₁, w₁) = register_all-IsServer scan i.registers s sc.registrations w in
    let (s₂, run₂, w₂) =
      run_terminate-IsServer scan i.run_term_msg (throttle s₁) sc.result
        (throttle-IsServer s₁ w₁) in
    let status = process_wait_for_all_non_blocking i.wait in
    let s₃ = check_termination i (count_crash status s₂) in
    let w₃ =
      check_termination-IsServer i (count_crash status s₂) (count_crash-IsServer status s₂ w₂) in
    let (s₄, run₄, w₄) =
      if-Post IsServer s₃.should_terminate (ok s₃) (report scan i.exec i.report_msg s₃)
        (s₃, refl, w₃) (report-IsServer scan i.exec i.report_msg s₃ sc.word w₃) in
    elim (Bool-cases s₄.force_termination) [
      | inl stops ↦ (
        false,
        broadcast_exit s₄,
        rw run₁ (rw run₂ (rw run₄ (rw stops refl))),
        broadcast_exit-IsServer s₄ w₄,
      )
      | inr goes_on ↦ (true, s₄, rw run₁ (rw run₂ (rw run₄ (rw goes_on refl))), w₄)
    ]

-- From a state that satisfies the invariant, the loop of the server, over rounds whose messages
-- hold words and names that are short enough, never fails: it stops in a state that satisfies the
-- invariant, or it needs more rounds than those given.
pub serve-IsServer :
    (scan : Scanner) (is : List Inputs) (s : Server)
    → FitsRounds scan is
    → IsServer s
    → (serve scan is s ≡ out_of_fuel) ⊎ Post IsServer (serve scan is s)
unfolding serve
serve-IsServer scan [] s sc w = inl refl
serve-IsServer scan (i ∷ is) s sc w =
    let (continues, s', run, w') = cycle-IsServer scan i s sc.0 w in
    let rest = serve-IsServer scan is s' sc.1 w' in
    elim (Bool-cases continues) [
      | inl more ↦ rw run (rw more rest)
      | inr stops ↦ rw run (rw stops (inr (s', refl, w')))
    ]

-- the sums of the testers' lines of the report
abbrev pub sum_rcd : List TesterReport → ℕ
sum_rcd [] = 0
sum_rcd (t ∷ ts) = t.rcd + sum_rcd ts

abbrev pub sum_acc : List TesterReport → ℕ
sum_acc [] = 0
sum_acc (t ∷ ts) = t.acc + sum_acc ts

reports-rcd : (es : Bucket ℕ TesterSlot) → sum_rcd (tester_reports es) ≡ sum rcd es
reports-rcd [] = refl
reports-rcd ((k, ts) ∷ es) = ground (arith, reports-rcd es)

reports-acc : (es : Bucket ℕ TesterSlot) → sum_acc (tester_reports es) ≤ sum acc es
reports-acc [] = omega arith
reports-acc ((k, ts) ∷ es) = ground (arith, reports-acc es)

-- In the report on a state that satisfies the invariant, no more words are accepted than answers
-- were sent, no more answers than words were received, and the numbers of words and of accepted
-- words of the testers' lines sum up to no more than the totals.
pub shut_down-totals :
    (s : Server)
    → IsServer s
    → let r = (shut_down s).0 in
      (r.acc ≤ r.snt) × (r.snt ≤ r.rcd) × (sum_rcd r.testers ≤ r.rcd) × (sum_acc r.testers ≤ r.acc)
unfolding shut_down
shut_down-totals s w = (
  w.accepted,
  omega (arith, w.pending),
  omega (arith, reports-rcd s.testers, w.received),
  omega (arith, reports-acc s.testers, w.answered),
)
