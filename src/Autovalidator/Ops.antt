-- ===== src/Autovalidator/Ops.antt =====
-- The parts of src/autovalidator.c. What `fork`, `open`, `dup2`, `execlp` and `wait` do, and the contents
-- of files, are parameters; messages about errors are left out.
use automaton_state_machine.Base.{
  ℕ, zero, suc, ◌+◌, ◌-◌, Bool, true, false, ◌&&◌, List, [], ◌∷◌, ◌++◌, ◌==◌, if◌then◌else◌, Option,
  none, some, length,
}
use automaton_state_machine.Base.Int.{ℤ, pos, negsuc}
use automaton_state_machine.Base.Outcome.{Outcome, ok, undefined, out_of_fuel, ◌>>=◌, store}
use automaton_state_machine.Base.Step.{Step, continues, exits, then_do}
use automaton_state_machine.Text.Scan.{Text, print_nat}
use automaton_state_machine.Automaton.Loader.Input.{append_lines}
use automaton_state_machine.Server.Fork.{Wait, no_child, Forked, fork_fails, in_child, in_parent}

-- `MAX_TESTERS_PROCS`, and `FILE_BUF_SIZE` of this file
abbrev pub max_testers_procs : ℕ
max_testers_procs = 100

abbrev pub print_buf_size : ℕ
print_buf_size = 10007

-- `redirect`, given the descriptor that `open` returned and whether `dup2` succeeds
unfoldable pub redirect : ℤ → Bool → Step (Unit {0})
redirect (negsuc zero) dup2 = exits
redirect (negsuc (suc n)) dup2 = if dup2 then continues tt else exits
redirect (pos dest) dup2 = if dup2 then continues tt else exits

-- `printFile`, given the content of the file, if it can be opened, without null bytes, and whether the
-- stream is in error behind the loop
unfoldable pub print_file : Text → Option Text → Bool → Outcome (Step Text)
print_file header none error = ok exits
print_file header (some input) error =
    append_lines (length input + 1) (print_buf_size - 1) 1 [] input >>= λ content. ok (
      if error
      then exits
      else continues
          (b'[' ∷ b' ' ∷ (header ++ (b' ' ∷ b']' ∷ b':' ∷ b'\n' ∷ (content ++ b'\n' ∷ [])))))

-- The local variables that the arguments set. `testers_count` is -1 until the server has its file.
pub record Arguments : Type 0 where
  pub verbose : Bool
  pub server_input : Option Text
  pub testers_count : ℤ
  pub tester_input : ℕ → Option Text
  pub tester_output : ℕ → Option Text

abbrev pub no_arguments : Arguments
no_arguments = record {
  verbose = false;
  server_input = none;
  testers_count = negsuc 0;
  tester_input = λ i. none;
  tester_output = λ i. none;
}

-- The first loop, `n` rounds of it: it writes each time to the cell behind the array.
unfoldable pub clear_files : ℕ → (ℕ → Option Text) → Outcome (ℕ → Option Text)
clear_files zero files = ok files
clear_files (suc n) files =
    store max_testers_procs files (pos max_testers_procs) none >>= λ files'. clear_files n files'

abbrev pub is_verbose_flag : Text → Bool
is_verbose_flag (c ∷ d ∷ []) = c == b'-' && d == b'v'
is_verbose_flag _ = false

-- "tester_out_%d.txt"
abbrev pub output_name : ℕ → Text
output_name i =
    b't'
    ∷ b'e'
    ∷ b's'
    ∷ b't'
    ∷ b'e'
    ∷ b'r'
    ∷ b'_'
    ∷ b'o'
    ∷ b'u'
    ∷ b't'
    ∷ b'_'
    ∷ (print_nat i ++ (b'.' ∷ b't' ∷ b'x' ∷ b't' ∷ []))

-- the branch of an argument that is not the flag
unfoldable pub add_file : ℕ → Text → ℤ → Arguments → Outcome Arguments
add_file i arg (pos n) f =
    store max_testers_procs f.tester_output (pos n) (some (output_name i)) >>= λ outputs.
    store max_testers_procs f.tester_input (pos n) (some arg) >>= λ inputs.
    ok (record f { tester_input = inputs; tester_output = outputs; testers_count = pos (n + 1) })
add_file i arg (negsuc zero) f = ok (record f { server_input = some arg; testers_count = pos 0 })
add_file i arg (negsuc (suc n)) f = undefined

-- the loop over the arguments, from number `i` on
unfoldable pub read_args : ℕ → List Text → Arguments → Outcome Arguments
read_args i [] f = ok f
read_args i (arg ∷ args) f =
    (if is_verbose_flag arg
      then ok (record f { verbose = true })
      else add_file i arg f.testers_count f)
    >>= λ f'. read_args (i + 1) args f'

-- whether the program goes on, or prints how it is used
abbrev pub has_server : Arguments → Bool
has_server f = elim f.server_input [ none ↦ false | some input ↦ true ]

-- what a child meets: the two descriptors, whether each `dup2` succeeds, and `execlp`
pub record Redirection : Type 0 where
  pub input_desc : ℤ
  pub input_dup : Bool
  pub output_desc : ℤ
  pub output_dup : Bool
  pub executes : Bool

-- A child, which runs another program with this flag, or ends; the parent goes on with the number.
pub data Started : Type 0 where
  runs : Option Text → Started
  started : ℕ → Started
  ended : Started

abbrev pub flag_of : Bool → Option Text
flag_of verbose = if verbose then some (b'-' ∷ b'v' ∷ []) else none

abbrev pub exec_file : Bool → Bool → Started
exec_file executes verbose = if executes then runs (flag_of verbose) else ended

abbrev pub child_end : Bool → Bool → Step (Unit {0}) → Started
child_end executes verbose (continues _) = exec_file executes verbose
child_end executes verbose _ = ended

-- the `switch` on `fork`, for the server and for a tester
unfoldable pub start_program : Forked → Redirection → Bool → Started
unfolding redirect
start_program fork_fails r verbose = ended
start_program (in_parent pid) r verbose = started pid
start_program in_child r verbose =
    child_end r.executes verbose
      (then_do (redirect r.input_desc r.input_dup) λ _. redirect r.output_desc r.output_dup)

-- the loop at the end, over the answers of `wait`
unfoldable pub wait_for_children : List Wait → Outcome (Unit {0})
wait_for_children [] = out_of_fuel
wait_for_children (no_child ∷ waits) = ok tt
wait_for_children (w ∷ waits) = wait_for_children waits
