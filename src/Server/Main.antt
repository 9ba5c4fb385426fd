-- ===== src/Server/Main.antt =====
-- `main` of src/validator.c around its loop, as far as it does not open and close queues, which succeeds
-- here; and `onExit`, with the global maps of sessions that it reads.
use automaton_state_machine.Base.{
  ℕ, ◌<◌, ◌≡◌, refl, Bool, true, false, List, [], ◌∷◌, ◌++◌, map, if◌then◌else◌, length, none,
}
use automaton_state_machine.Base.Outcome.{Outcome, ok, ◌>>=◌}
use automaton_state_machine.Base.Step.{Step, continues, exits, overruns}
use automaton_state_machine.ArrayList.Ops.{array_list_new}
use automaton_state_machine.ArrayList.Laws.{array_list_new-Holds}
use automaton_state_machine.HashMap.Ops.{HashMap, Bucket}
use automaton_state_machine.HashMap.Iterator.{loop_hash_map}
use automaton_state_machine.HashMap.Assoc.{IsUnique}
use automaton_state_machine.HashMap.Laws.{IsMap}
use automaton_state_machine.HashMap.Visit.{loop_hash_map-all}
use automaton_state_machine.Text.Scan.{print_nat, eq_text}
use automaton_state_machine.Automaton.Loader.Input.{load_transition_graph_desc_from_stdin}
use automaton_state_machine.Server.State.{
  Text, TesterSlot, Action, exit_message, Buffers, Scanner, start, hash_map_int_cmp,
}
use automaton_state_machine.Server.Cycle.{Inputs, serve, Report, TesterReport, shut_down}

-- the loop over the arguments: `verboseMode`, which is also the state of the log
abbrev pub verbose_mode : List Text → Bool → Bool
verbose_mode [] on = on
verbose_mode (arg ∷ args) on =
    verbose_mode args (if eq_text arg (b'-' ∷ b'v' ∷ []) then true else on)

-- "PID: %d\n", "Rcd: %d\n" and the like
abbrev pub line_of : ℕ → ℕ → ℕ → ℕ → Text
line_of a b c n = a ∷ b ∷ c ∷ b':' ∷ b' ' ∷ (print_nat n ++ b'\n' ∷ [])

abbrev pub tester_lines : List TesterReport → Text
tester_lines [] = []
tester_lines (t ∷ ts) =
    line_of b'P' b'I' b'D' t.pid
    ++ (line_of b'R' b'c' b'd' t.rcd ++ (line_of b'A' b'c' b'c' t.acc ++ tester_lines ts))

-- the text of the report
unfoldable pub report_text : Report → Text
report_text r =
    line_of b'R' b'c' b'd' r.rcd
    ++ (line_of b'S' b'n' b't' r.snt ++ (line_of b'A' b'c' b'c' r.acc ++ tester_lines r.testers))

-- what the process leaves
pub record ServerEnd : Type 0 where
  pub verbose : Bool
  pub transition_graph_desc : Text
  pub report : Report
  pub printed : Text
  pub actions : List Action

-- what follows the description: the loop, and the end
unfoldable pub run_server : Scanner → Bool → Text → Buffers → List Inputs → Outcome (Step ServerEnd)
run_server scan verbose desc buffers is = serve scan is (start buffers) >>= λ s. ok (
    continues (record {
      verbose = verbose;
      transition_graph_desc = desc;
      report = (shut_down s).0;
      printed = report_text (shut_down s).0;
      actions = (shut_down s).1;
    }))

-- `main`, given whether the standard input is in error, and what it holds
unfoldable pub server_main :
    Scanner → List Text → Bool → Text → Buffers → List Inputs → Outcome (Step ServerEnd)
server_main scan args error input buffers is =
    load_transition_graph_desc_from_stdin error input >>= λ loaded. elim loaded [
      | continues desc ↦ run_server scan (verbose_mode args false) desc buffers is
      | exits ↦ ok exits
      | overruns ↦ ok overruns
    ]

-- `onExit`, given `slots_inited` and the map that it reads
unfoldable pub on_exit : ℕ → Bool → HashMap ℕ TesterSlot → Outcome (List Action)
on_exit fuel slots_inited tester_slots =
    if slots_inited
    then (loop_hash_map fuel tester_slots >>= λ (es, m).
        ok (map (λ (k, ts). exit_message ts.tester_input_queue) es))
    else ok []

-- The global map, which nothing initialises: the sessions are in a local variable of the same name.
abbrev pub global_tester_slots : HashMap ℕ TesterSlot
global_tester_slots = record { nodes = array_list_new; cmp = hash_map_int_cmp }

-- `onExit` sends the exit message to every tester of the map that it reads, once, in order.
pub on_exit-all :
    (fuel : ℕ) (m : HashMap ℕ TesterSlot) (es : Bucket ℕ TesterSlot)
    → IsMap m es
    → length es < fuel
    → on_exit fuel true m ≡ ok (map (λ (k, ts). exit_message ts.tester_input_queue) es)
unfolding on_exit
on_exit-all fuel m es holds enough =
    let (m', run, cmp, held) = loop_hash_map-all m es fuel holds enough in rw run refl

global-IsMap : IsMap global_tester_slots []
unfolding IsUnique
global-IsMap = record {
  slots = λ i. none;
  held = array_list_new-Holds;
  bucket = refl;
  others = λ i ne. refl;
  unique = tt;
}

-- The map that it does read, the global one, has no testers: it sends nothing.
pub on_exit-nothing : (fuel : ℕ) → 0 < fuel → on_exit fuel true global_tester_slots ≡ ok []
on_exit-nothing fuel enough = on_exit-all fuel global_tester_slots [] global-IsMap enough
