-- ===== src/Autovalidator/Examples.antt =====
-- The theorems about the driver at a server's file, the flag and two testers' files.
use automaton_state_machine.Base.{ℕ, ◌<◌, ◌≡◌, refl, true, List, [], ◌∷◌, some, arith, get_elem?}
use automaton_state_machine.Base.Int.{pos}
use automaton_state_machine.Base.Outcome.{ok}
use automaton_state_machine.Text.Scan.{Text}
use automaton_state_machine.Autovalidator.Ops.{Arguments, no_arguments, read_args}
use automaton_state_machine.Autovalidator.Args.{read_args-files}

abbrev server_file : Text
server_file = b's' ∷ []

abbrev tester_files : List Text
tester_files = (b'1' ∷ []) ∷ (b'2' ∷ []) ∷ []

abbrev arguments : List Text
arguments = server_file ∷ (b'1' ∷ []) ∷ (b'-' ∷ b'v' ∷ []) ∷ (b'2' ∷ []) ∷ []

read_args-files_example :
    (g : Arguments) × (read_args 1 arguments no_arguments ≡ ok g)
    × (g.server_input ≡ some server_file)
    × (g.testers_count ≡ pos 2)
    × (g.verbose ≡ true)
    × ((k : ℕ) → k < 2 → g.tester_input k ≡ get_elem? tester_files k)
read_args-files_example = read_args-files arguments server_file tester_files refl (omega arith)
