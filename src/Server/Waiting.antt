-- ===== src/Server/Waiting.antt =====
-- `processWaitForAll` of src/fork.h, over all answers of `wait` until there is no child.
use automaton_state_machine.Base.{
  Bool, true, false, ◌&&◌, List, [], ◌∷◌, ◌++◌, ◌≡◌, refl, ◌∙◌, ◌==◌, if◌then◌else◌, arith,
}
use automaton_state_machine.Base.Int.{pos, negsuc}
use automaton_state_machine.Base.Outcome.{ok}
use automaton_state_machine.Automaton.Spec.{all}
use automaton_state_machine.Server.Fork.{
  Wait, no_child, fails, running, exited, killed, keeps_status, wait_loop, process_wait_for_all,
}

-- the answer is not that there is no child
abbrev pub IsAnswer : Wait → Type 0
IsAnswer no_child = ⊥
IsAnswer _ = Unit

abbrev pub AreAnswers : List Wait → Type 0
AreAnswers [] = Unit
AreAnswers (w ∷ waits) = IsAnswer w × AreAnswers waits

regroup :
    (a b c : Bool)
    → ok (if (a && b) && c then pos 1 else negsuc 0)
      ≡ ok (if a && (b && c) then pos 1 else negsuc 0)
regroup true b c = refl
regroup false b c = refl

wait_loop-all :
    (waits rest : List Wait) (f_status : Bool)
    → AreAnswers waits
    → wait_loop (waits ++ no_child ∷ rest) f_status
      ≡ ok (if f_status && all keeps_status waits then pos 1 else negsuc 0)
unfolding wait_loop
wait_loop-all [] rest f_status h = ground arith
wait_loop-all (no_child ∷ waits) rest f_status (missing, h) = absurd missing
wait_loop-all (fails ∷ waits) rest f_status (_, h) =
    wait_loop-all waits rest (f_status && false) h ∙ regroup f_status false (all keeps_status waits)
wait_loop-all (running ∷ waits) rest f_status (_, h) =
    wait_loop-all waits rest (f_status && false) h ∙ regroup f_status false (all keeps_status waits)
wait_loop-all (exited n ∷ waits) rest f_status (_, h) =
    wait_loop-all waits rest (f_status && (n == 0)) h
    ∙ regroup f_status (n == 0) (all keeps_status waits)
wait_loop-all (killed ∷ waits) rest f_status (_, h) =
    wait_loop-all waits rest (f_status && false) h ∙ regroup f_status false (all keeps_status waits)

-- Where `wait` answers until there is no child, `processWaitForAll` ends, and returns 1 if every
-- child called `exit` with status 0 and no call of `wait` failed, and -1 otherwise.
pub process_wait_for_all-all :
    (waits rest : List Wait)
    → AreAnswers waits
    → process_wait_for_all (waits ++ no_child ∷ rest)
      ≡ ok (if all keeps_status waits then pos 1 else negsuc 0)
unfolding process_wait_for_all
process_wait_for_all-all waits rest h = wait_loop-all waits rest true h
