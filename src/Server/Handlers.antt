-- ===== src/Server/Handlers.antt =====
-- The parts of the loop of `main`: registrations, throttling, the end of a run, a word to parse.
use automaton_state_machine.Base.{
  ℕ, zero, suc, ◌+◌, ◌==◌, ltb, Option, none, some, Bool, true, false, ◌&&◌, not, List, [], ◌∷◌,
  ◌++◌, if◌then◌else◌, length,
}
use automaton_state_machine.Base.Int.{pos, ltb_ℤ}
use automaton_state_machine.Base.Outcome.{Outcome, ok, undefined, ends, ◌>>=◌}
use automaton_state_machine.HashMap.Ops.{Bucket, find, detach}
use automaton_state_machine.HashMap.Laws.{assign}
use automaton_state_machine.Server.State.{
  Text, server_process_limit, server_fork_retry_count, to_pid, RunSlot, TesterSlot, answer,
  write_graph, open_pipe, close_pipe, Buffers, Server, Scanner, inc, dec, hash_map_int_cmp, modify,
}

-- `strcpy` of `buffer` to `queueName`, which has 100 cells
abbrev pub copy_name : Text → Outcome Text
copy_name t = if ltb (length t) 100 then ok t else undefined

-- `msgQueueOpen` of the tester's queue, as far as it depends on the name, which has at most 50
-- characters, and is copied to 50 cells; the calls of the operating system succeed
abbrev pub open_queue : Text → Outcome Text
open_queue name =
    if ltb 50 (length name) then ends else if ltb (length name) 50 then ok name else undefined

-- `ts_new_val`
abbrev pub new_slot : Text → Text → Server → TesterSlot
new_slot queue name s = record {
  queue_name = name;
  pid = to_pid s.buffers.pid;
  tester_input_queue = queue;
  rcd_count = 0;
  acc_count = 0;
}

-- A new session for the tester, from the buffers. The code is written out in two places.
unfoldable pub new_tester : Server → Outcome Server
new_tester s = open_queue s.buffers.queue >>= λ queue. copy_name s.buffers.text >>= λ name.
    ok (record s {
      testers = assign hash_map_int_cmp (to_pid s.buffers.pid) (new_slot queue name s) s.testers;
    })

-- one register message
unfoldable pub register : Scanner → Text → Server → Outcome Server
unfolding new_tester
register scan msg s =
    let (matches, buffers) = scan.register msg s.buffers in
    if matches
    then new_tester (record s { buffers = buffers })
    else ok (record s { buffers = buffers })

-- the loop that reads the register queue until it is empty
unfoldable pub register_all : Scanner → List Text → Server → Outcome Server
unfolding register
register_all scan [] s = ok s
register_all scan (msg ∷ msgs) s = register scan msg s >>= λ s'. register_all scan msgs s'

-- the test that enables throttling
unfoldable pub throttle : Server → Server
throttle s =
    if not s.throttled_mode && ltb_ℤ (pos server_process_limit) s.active_tasks_count
    then record s { throttled_mode = true }
    else s

-- The key of the slot that `ts` points to after the loop over the testers: the first with the pid
-- of the source, and where there is none the last slot.
unfoldable pub source_slot : ℕ → Option ℕ → Bucket ℕ TesterSlot → Option ℕ
source_slot pid ts [] = ts
source_slot pid ts ((k, slot) ∷ es) =
    if slot.pid == pid then some k else source_slot pid (some k) es

abbrev pub accepted : TesterSlot → TesterSlot
accepted ts = record ts { acc_count = ts.acc_count + 1 }

-- the answer to a tester, with the statistics
unfoldable pub deliver : RunSlot → ℕ → TesterSlot → Server → Server
unfolding modify
deliver rs key ts s =
    let result = s.buffers.result in
    record s {
      snt_count = s.snt_count + 1;
      acc_count = if result == 1 then s.acc_count + 1 else s.acc_count;
      testers = if result == 1 then modify key accepted s.testers else s.testers;
      actions = s.actions ++ answer ts.tester_input_queue rs.loc_id result ∷ [];
    }

-- the same, for the slot under the given key
unfoldable pub send_answer : RunSlot → ℕ → Server → Server
unfolding find deliver
send_answer rs key s = elim (find hash_map_int_cmp key s.testers) [
  | none ↦ s
  | some ts ↦ deliver rs key ts s
]

-- the session of a run that has ended
unfoldable pub finish_run : ℕ → RunSlot → Server → Outcome Server
unfolding source_slot send_answer detach
finish_run pid rs s =
    let s₁ : Server = record s { actions = s.actions ++ close_pipe rs.pid ∷ [] } in
    elim (source_slot rs.tester_source_pid none s.testers) [
      | none ↦ undefined
      | some key ↦
          let s₂ = send_answer rs key s₁ in
          ok (record s₂ { runs = detach hash_map_int_cmp pid s₂.runs })
    ]

abbrev pub unthrottle : Server → Server
unthrottle s =
    if s.throttled_mode && ltb_ℤ s.active_tasks_count (pos server_process_limit)
    then record s { throttled_mode = false }
    else s

-- a message of a run
unfoldable pub run_terminate : Scanner → Option Text → Server → Outcome Server
unfolding find finish_run
run_terminate scan none s = ok s
run_terminate scan (some msg) s =
    let (matches, buffers) = scan.terminate msg s.buffers in
    let s₁ : Server = record s { buffers = buffers } in
    if matches
    then (let s₂ = unthrottle (record s₁ { active_tasks_count = dec s₁.active_tasks_count }) in
        let pid = to_pid buffers.pid in
        elim (find hash_map_int_cmp pid s₂.runs) [ none ↦ ok s₂ | some rs ↦ finish_run pid rs s₂ ])
    else ok s₁

-- `while(!processExec(…))`, with the tries that are left; the argument gives for each try the pid
-- of the new process, or that there is none
unfoldable pub exec_loop : (ℕ → Option ℕ) → ℕ → ℕ → Option ℕ
exec_loop exec zero try = none
exec_loop exec (suc n) try = elim (exec try) [
  | some pid ↦ some pid
  | none ↦ exec_loop exec n (try + 1)
]

-- the session of the word's tester, made where there is none
unfoldable pub obtain_tester : Server → Outcome Server
unfolding find new_tester
obtain_tester s = elim (find hash_map_int_cmp (to_pid s.buffers.pid) s.testers) [
  | none ↦ new_tester s
  | some ts ↦ ok s
]

abbrev pub received : TesterSlot → TesterSlot
received ts = record ts { rcd_count = ts.rcd_count + 1 }

-- the new process, or none, and its session
unfoldable pub launch : Option ℕ → Server → Server
launch none s = s
launch (some pid) s =
    let rs : RunSlot = record {
      pid = pid;
      tester_source_pid = to_pid s.buffers.pid;
      loc_id = s.buffers.loc_id;
    } in
    record s {
      runs = assign hash_map_int_cmp pid rs s.runs;
      active_tasks_count = inc s.active_tasks_count;
      actions = s.actions ++ write_graph pid ∷ [];
    }

-- the word counted for its tester, and a pipe made for a run
unfoldable pub count_word : Server → Server
unfolding modify
count_word s = record s {
  testers = modify (to_pid s.buffers.pid) received s.testers;
  actions = s.actions ++ open_pipe ∷ [];
}

-- a word to parse, once `sscanf` has read the message
unfoldable pub parse_word : (ℕ → Option ℕ) → Server → Outcome Server
unfolding obtain_tester exec_loop launch count_word
parse_word exec s = obtain_tester (record s { rcd_count = s.rcd_count + 1 }) >>= λ s'.
    ok (launch (exec_loop exec server_fork_retry_count 0) (count_word s'))

-- `strcmp(…) == 0`
abbrev pub equal : Text → Text → Bool
equal [] [] = true
equal [] (b ∷ t) = false
equal (a ∷ s) [] = false
equal (a ∷ s) (b ∷ t) = a == b && equal s t

abbrev pub exit_command : Text
exit_command = b'e' ∷ b'x' ∷ b'i' ∷ b't' ∷ []

-- a message of a tester; `buffer` is emptied first
unfoldable pub report : Scanner → (ℕ → Option ℕ) → Option Text → Server → Outcome Server
unfolding parse_word
report scan exec none s = ok s
report scan exec (some msg) s =
    let emptied : Buffers = record s.buffers { text = [] } in
    if equal msg exit_command
    then ok (record s { buffers = emptied; should_terminate = true })
    else (let (matches, buffers) = scan.parse msg emptied in
        let s₁ : Server = record s { buffers = buffers } in
        if matches then parse_word exec s₁ else ok s₁)
