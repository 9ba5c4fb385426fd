-- ===== src/Server/Termination.antt =====
-- The request to terminate: from it on no word is read, and when the loop stops.
use automaton_state_machine.Base.{
  ℕ, ◌+◌, Option, none, some, Bool, true, false, [], ◌≡◌, refl, sym, ◌∙◌, arith, if◌then◌else◌,
  length, leb, ◌||◌, Option-cases, inl, inr,
}
use automaton_state_machine.Base.Int.{pos, leb_ℤ}
use automaton_state_machine.Base.Outcome.{Outcome, ok, undefined, out_of_fuel, ends, ◌>>=◌}
use automaton_state_machine.HashMap.Ops.{find}
use automaton_state_machine.Server.Fork.{process_wait_for_all_non_blocking}
use automaton_state_machine.Server.State.{
  Text, to_pid, Buffers, Server, Scanner, hash_map_int_cmp, server_fork_retry_count,
}
use automaton_state_machine.Server.Handlers.{
  count_word, report, launch, obtain_tester, parse_word, exec_loop, equal, exit_command,
}
use automaton_state_machine.Server.Cycle.{
  Inputs, read_events, finish_round, count_crash, check_termination, broadcast_exit, cycle, is_zero,
  is_none,
}
use automaton_state_machine.Server.Frame.{
  Frame, Frame-refl, After, new_tester-Frame, if-After, read_events-Frame,
}

-- The conditions under which a round makes the loop stop, in the state after its first half.
pub record Stops (i : Inputs) (s : Server) : Type 0 where
  pub requested : s.should_terminate ≡ true
  pub no_child_ended : is_zero (process_wait_for_all_non_blocking i.wait) ≡ true
  pub no_run_ended : is_none i.run_term_msg ≡ true
  pub idle : (leb_ℤ s.active_tasks_count (pos 0) || leb (length s.runs) 0) ≡ true

abbrev tested : Inputs → Server → Server
tested i s = check_termination i (count_crash (process_wait_for_all_non_blocking i.wait) s)

tested_should : (i : Inputs) (s : Server) → (tested i s).should_terminate ≡ s.should_terminate
unfolding check_termination
tested_should i s = ground arith

tested_words : (i : Inputs) (s : Server) → (tested i s).rcd_count ≡ s.rcd_count
unfolding check_termination
tested_words i s = ground arith

-- how a round ends, from the state that the test leaves
abbrev end_round : Outcome Server → Server → Outcome (Bool × Server)
end_round word t = (if t.should_terminate then ok t else word) >>= λ s.
    ok (if s.force_termination then (false, broadcast_exit s) else (true, s))

end_round-stopping :
    (word : Outcome Server) (t : Server) (continues : Bool) (s' : Server)
    → t.should_terminate ≡ true
    → end_round word t ≡ ok (continues, s')
    → (s'.rcd_count ≡ t.rcd_count) × (s'.should_terminate ≡ true)
unfolding broadcast_exit
end_round-stopping word t continues s' should run = ground arith

finish_round-no_words :
    (scan : Scanner) (i : Inputs) (s : Server) (continues : Bool) (s' : Server)
    → s.should_terminate ≡ true
    → finish_round scan i s ≡ ok (continues, s')
    → (s'.rcd_count ≡ s.rcd_count) × (s'.should_terminate ≡ true)
unfolding finish_round
finish_round-no_words scan i s continues s' should run =
    let (words, request) =
      end_round-stopping (report scan i.exec i.report_msg (tested i s)) (tested i s) continues s'
        (tested_should i s ∙ should) run in
    (words ∙ tested_words i s, request)

finish_round-deaf :
    (scan : Scanner) (i : Inputs) (s : Server) (msg : Option Text)
    → s.should_terminate ≡ true
    → finish_round scan (record i { report_msg = msg }) s ≡ finish_round scan i s
unfolding finish_round check_termination
finish_round-deaf scan i s msg should = let same = tested_should i s ∙ should in rw same refl

-- Once termination is requested, a message in the queue of words makes no difference: a round that ends
-- ends in the same way whatever message is there, or none; and it keeps the number of words received
-- and the request. Registrations and results of runs are still read.
pub cycle-no_words :
    (scan : Scanner) (i : Inputs) (s : Server) (continues : Bool) (s' : Server) (msg : Option Text)
    → s.should_terminate ≡ true
    → cycle scan i s ≡ ok (continues, s')
    → (cycle scan (record i { report_msg = msg }) s ≡ ok (continues, s'))
      × (s'.rcd_count ≡ s.rcd_count)
      × (s'.should_terminate ≡ true)
unfolding cycle read_events
cycle-no_words scan i s continues s' msg should run =
    go (read_events scan i s) (read_events-Frame scan i s) run
  where
    go :
        (o : Outcome Server)
        → After (Frame s) o
        → (o >>= finish_round scan i) ≡ ok (continues, s')
        → ((o >>= finish_round scan (record i { report_msg = msg })) ≡ ok (continues, s'))
          × (s'.rcd_count ≡ s.rcd_count)
          × (s'.should_terminate ≡ true)
    go (ok t) f ran =
        let (words, request) =
          finish_round-no_words scan i t continues s' (f.should ∙ should) ran in
        (finish_round-deaf scan i t msg (f.should ∙ should) ∙ ran, words ∙ f.words, request)
    go undefined f ran = absurd (ground arith)
    go out_of_fuel f ran = absurd (ground arith)
    go ends f ran = absurd (ground arith)

finish_round-Stops :
    (scan : Scanner) (i : Inputs) (s : Server)
    → Stops i s
    → finish_round scan i s ≡ ok (false, broadcast_exit (record s { force_termination = true }))
unfolding finish_round check_termination
finish_round-Stops scan i s h =
    ground (arith, h.requested, h.no_child_ended, h.no_run_ended, h.idle)

-- The loop stops in a round whose first half leaves a state in which the conditions hold.
pub cycle-Stops :
    (scan : Scanner) (i : Inputs) (s t : Server)
    → read_events scan i s ≡ ok t
    → Stops i t
    → cycle scan i s ≡ ok (false, broadcast_exit (record t { force_termination = true }))
unfolding cycle
cycle-Stops scan i s t run h = rw run (finish_round-Stops scan i t h)

Forced : Bool → Server → Type 0
Forced b s = s.force_termination ≡ b

launch-force :
    (pid : Option ℕ) (s : Server) → (launch pid s).force_termination ≡ s.force_termination
unfolding launch
launch-force none s = refl
launch-force (some pid) s = refl

obtain_tester-Frame : (s : Server) → After (Frame s) (obtain_tester s)
unfolding obtain_tester
obtain_tester-Frame s =
    elim (Option-cases (find hash_map_int_cmp (to_pid s.buffers.pid) s.testers)) [
      | inl missing ↦ rw (missing, obtain_tester) (new_tester-Frame s)
      | inr (ts, at) ↦ rw (at, obtain_tester) (Frame-refl s)
    ]

parse_word-force :
    (exec : ℕ → Option ℕ) (s : Server) → After (Forced s.force_termination) (parse_word exec s)
unfolding parse_word Forced count_word
parse_word-force exec s = go (obtain_tester s₀) (obtain_tester-Frame s₀)
  where
    s₀ : Server
    s₀ = record s { rcd_count = s.rcd_count + 1 }

    go :
        (o : Outcome Server)
        → After (Frame s₀) o
        → After
            (Forced s.force_termination)
            (o >>= λ t. ok (launch (exec_loop exec server_fork_retry_count 0) (count_word t)))
    go (ok t) f = launch-force (exec_loop exec server_fork_retry_count 0) (count_word t) ∙ f.force
    go undefined f = tt
    go out_of_fuel f = tt
    go ends f = tt

report-force :
    (scan : Scanner) (exec : ℕ → Option ℕ) (msg : Option Text) (s : Server)
    → After (Forced s.force_termination) (report scan exec msg s)
unfolding report Forced
report-force scan exec none s = refl
report-force scan exec (some msg) s =
    let emptied : Buffers = record s.buffers { text = [] } in
    let (matches, b) = scan.parse msg emptied in
    let s₁ : Server = record s { buffers = b } in
    if-After (Forced s.force_termination) (equal msg exit_command)
      (ok (record s { buffers = emptied; should_terminate = true }))
      (if matches then parse_word exec s₁ else ok s₁) refl
      (if-After (Forced s.force_termination) matches (parse_word exec s₁) (ok s₁)
        (parse_word-force exec s₁) refl)

end_round-requested :
    (word : Outcome Server) (t s' : Server)
    → After (Forced t.force_termination) word
    → (t.should_terminate ≡ false → t.force_termination ≡ false)
    → end_round word t ≡ ok (false, s')
    → t.should_terminate ≡ true
unfolding Forced
end_round-requested (ok w) t s' f calm run = ground arith
end_round-requested undefined t s' f calm run = ground arith
end_round-requested out_of_fuel t s' f calm run = ground arith
end_round-requested ends t s' f calm run = ground arith

tested_calm :
    (i : Inputs) (s : Server)
    → s.force_termination ≡ false
    → (tested i s).should_terminate ≡ false
    → (tested i s).force_termination ≡ false
unfolding check_termination
tested_calm i s force calm = ground arith

-- A round that makes the loop stop, where no earlier round did, began with termination requested.
pub cycle-requested :
    (scan : Scanner) (i : Inputs) (s s' : Server)
    → s.force_termination ≡ false
    → cycle scan i s ≡ ok (false, s')
    → s.should_terminate ≡ true
unfolding cycle finish_round
cycle-requested scan i s s' force run = go (read_events scan i s) (read_events-Frame scan i s) run
  where
    go :
        (o : Outcome Server)
        → After (Frame s) o
        → (o >>= finish_round scan i) ≡ ok (false, s')
        → s.should_terminate ≡ true
    go (ok t) f ran =
        sym f.should
        ∙ (sym (tested_should i t)
            ∙ end_round-requested (report scan i.exec i.report_msg (tested i t)) (tested i t) s'
                (report-force scan i.exec i.report_msg (tested i t))
                (tested_calm i t (f.force ∙ force)) ran)
    go undefined f ran = absurd (ground arith)
    go out_of_fuel f ran = absurd (ground arith)
    go ends f ran = absurd (ground arith)
