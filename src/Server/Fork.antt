-- ===== src/Server/Fork.antt =====
-- What src/fork.h makes of the answers of `fork`, `execve`, `wait` and `waitpid`, which are parameters.
use automaton_state_machine.Base.{
  ℕ, zero, suc, Bool, true, false, ◌&&◌, ◌==◌, List, [], ◌∷◌, if◌then◌else◌, leb, length, map, ◌++◌,
  Option, none, some,
}
use automaton_state_machine.Base.Int.{ℤ, pos, negsuc}
use automaton_state_machine.Base.Outcome.{Outcome, ok, out_of_fuel}

-- one call: there is no child; another error; no child has ended (`waitpid` only); a child called
-- `exit` with a status; a child ended otherwise
pub data Wait : Type 0 where
  no_child fails running : Wait
  exited : ℕ → Wait
  killed : Wait

-- what the loop of `processWaitForAll` does to `f_status`
abbrev pub keeps_status : Wait → Bool
keeps_status (exited status) = status == 0
keeps_status _ = false

-- `processWaitForAll`, over the answers of `wait`
unfoldable pub wait_loop : List Wait → Bool → Outcome ℤ
wait_loop [] f_status = out_of_fuel
wait_loop (no_child ∷ waits) f_status = ok (if f_status then pos 1 else negsuc 0)
wait_loop (w ∷ waits) f_status = wait_loop waits (f_status && keeps_status w)

unfoldable pub process_wait_for_all : List Wait → Outcome ℤ
unfolding wait_loop
process_wait_for_all waits = wait_loop waits true

-- `processWaitForAllNonBlocking`, over the answer of `waitpid`
abbrev pub process_wait_for_all_non_blocking : Wait → ℤ
process_wait_for_all_non_blocking no_child = pos 0
process_wait_for_all_non_blocking running = pos 0
process_wait_for_all_non_blocking (exited zero) = pos 1
process_wait_for_all_non_blocking (exited (suc status)) = negsuc 0
process_wait_for_all_non_blocking fails = negsuc 0
process_wait_for_all_non_blocking killed = negsuc 0

-- the answer of `fork`: an error, or which process it returns in, with the child's number in the parent
pub data Forked : Type 0 where
  fork_fails in_child : Forked
  in_parent : ℕ → Forked

-- `processFork`: what it returns, and `*pid`
abbrev pub process_fork : Forked → ℤ × ℤ
process_fork fork_fails = (negsuc 0, negsuc 0)
process_fork in_child = (pos 1, pos 0)
process_fork (in_parent pid) = (pos 0, pos pid)

-- how `processExec` ends: it returns, the process runs another program with these arguments, where
-- NULL is `none`, or `syserr` ends it
pub data Executed {ℓ} (A : Type ℓ) : Type ℓ where
  returned : ℤ → ℤ → Executed A
  replaced : List (Option A) → Executed A
  ended : Executed A

-- the array that is made of the arguments, with NULL behind them
abbrev pub exec_argv {ℓ} : {A : Type ℓ} → A → List A → List (Option A)
exec_argv arg args = some arg ∷ (map some args ++ none ∷ [])

-- `INT_MAX`
abbrev pub int_max : ℕ
int_max = 2147483647

-- the child's part, given whether `execve` replaces the program
unfoldable pub exec_child {ℓ} : {A : Type ℓ} → Bool → A → List A → Executed A
exec_child executes arg args =
    if leb int_max (length args)
    then returned (pos 0) (pos 0)
    else if executes
    then replaced (exec_argv arg args)
    else ended

-- `processExec`
unfoldable pub process_exec {ℓ} : {A : Type ℓ} → Forked → Bool → A → List A → Executed A
process_exec fork_fails executes arg args = returned (pos 0) (negsuc 0)
process_exec in_child executes arg args = exec_child executes arg args
process_exec (in_parent pid) executes arg args = returned (pos 1) (pos pid)

-- `processWait`, over the answer of `wait`
abbrev pub process_wait : Wait → ℤ
process_wait no_child = negsuc 0
process_wait fails = negsuc 0
process_wait _ = pos 1
