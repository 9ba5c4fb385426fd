-- ===== src/Server/State.antt =====
-- The state of the server: the sessions, the buffers that `sscanf` writes to, the counters and the
-- flags, and what it has sent. The two hash maps are the lists of their elements, on which
-- HashMap/Laws.antt shows the operations of src/hashmap.h to be `find`, `detach` and `assign`.
use automaton_state_machine.Base.{
  ℕ, zero, suc, ◌%◌, ◌^◌, ◌==◌, Bool, false, List, [], ◌∷◌, if◌then◌else◌,
}
use automaton_state_machine.Base.Int.{ℤ, pos, negsuc}
use automaton_state_machine.HashMap.Ops.{Bucket}

abbrev pub Text : Type 0
Text = List ℕ

-- `SERVER_PROCESS_LIMIT` and `SERVER_FORK_RETRY_COUNT` of src/automaton_config.h
abbrev pub server_process_limit : ℕ
server_process_limit = 20

abbrev pub server_fork_retry_count : ℕ
server_fork_retry_count = 3

-- `(pid_t) buffer_pid`, and the key that `HashMapIntCmp` reads where a `long long` is passed
abbrev pub to_pid : ℕ → ℕ
to_pid n = n % 2 ^ 32

-- `RunSlot`; the pipe is known by the process that reads it
pub record RunSlot : Type 0 where
  pub pid : ℕ
  pub tester_source_pid : ℕ
  pub loc_id : ℕ

-- `TesterSlot`; the queue is known by its name
pub record TesterSlot : Type 0 where
  pub queue_name : Text
  pub pid : ℕ
  pub tester_input_queue : Text
  pub rcd_count : ℕ
  pub acc_count : ℕ

-- What the server does to the outside: an answer and an exit message to a tester's queue, a pipe made
-- and opened, the graph written to the pipe of a run, and that pipe closed.
pub data Action : Type 0 where
  answer : Text → ℕ → ℕ → Action
  exit_message : Text → Action
  open_pipe : Action
  write_graph : ℕ → Action
  close_pipe : ℕ → Action

-- `buffer_pid`, `buffer_result`, `loc_id`, `buffer` and `buffer2`
pub record Buffers : Type 0 where
  pub pid : ℕ
  pub result : ℕ
  pub loc_id : ℕ
  pub text : Text
  pub queue : Text

-- the local variables of `main` that the loop reads and writes
pub record Server : Type 0 where
  pub testers : Bucket ℕ TesterSlot
  pub runs : Bucket ℕ RunSlot
  pub buffers : Buffers
  pub active_tasks_count : ℤ
  pub should_terminate : Bool
  pub force_termination : Bool
  pub throttled_mode : Bool
  pub rcd_count : ℕ
  pub snt_count : ℕ
  pub acc_count : ℕ
  pub actions : List Action

-- What `sscanf` makes of a message, which is a parameter: whether it returns a number other than 0,
-- and the variables after it.
abbrev pub Scan : Type 0
Scan = Text → Buffers → Bool × Buffers

-- the three formats "register_tester: …", "run-terminate: …" and "parse: …"
pub record Scanner : Type 0 where
  pub register : Scan
  pub terminate : Scan
  pub parse : Scan

-- `++n` and `--n` on an `int`
abbrev pub inc : ℤ → ℤ
inc (pos n) = pos (suc n)
inc (negsuc zero) = pos zero
inc (negsuc (suc n)) = negsuc n

abbrev pub dec : ℤ → ℤ
dec (pos zero) = negsuc zero
dec (pos (suc n)) = pos n
dec (negsuc n) = negsuc (suc n)

-- `HashMapIntCmp`
abbrev pub hash_map_int_cmp : ℕ → ℕ → Bool
hash_map_int_cmp a b = a == b

-- A write through the pointer that `HashMapGet` returns.
unfoldable pub modify : {V : Type 0} → ℕ → (V → V) → Bucket ℕ V → Bucket ℕ V
modify key f [] = []
modify key f ((k, v) ∷ es) =
    if hash_map_int_cmp k key then (k, f v) ∷ es else (k, v) ∷ modify key f es

-- the state before the first round, with what the buffers happen to hold
abbrev pub start : Buffers → Server
start buffers = record {
  testers = [];
  runs = [];
  buffers = buffers;
  active_tasks_count = pos 0;
  should_terminate = false;
  force_termination = false;
  throttled_mode = false;
  rcd_count = 0;
  snt_count = 0;
  acc_count = 0;
  actions = [];
}
