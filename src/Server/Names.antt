-- ===== src/Server/Names.antt =====
-- The name of a tester's queue, to which the server copies the word in its buffer.
use automaton_state_machine.Base.{
  ℕ, ◌≤◌, ◌+◌, ◌≡◌, refl, Option, none, some, true, false, arith, length, [],
}
use automaton_state_machine.Base.Outcome.{undefined}
use automaton_state_machine.HashMap.Ops.{find}
use automaton_state_machine.Server.State.{Text, Buffers, Server, Scanner, to_pid, hash_map_int_cmp}
use automaton_state_machine.Server.Handlers.{
  new_tester, obtain_tester, parse_word, report, equal, exit_command,
}

new_tester-overrun :
    (s : Server)
    → length s.buffers.queue ≤ 50
    → 100 ≤ length s.buffers.text
    → new_tester s ≡ undefined
unfolding new_tester
new_tester-overrun s opens long = ground arith

obtain_tester-overrun :
    (s : Server)
    → find hash_map_int_cmp (to_pid s.buffers.pid) s.testers ≡ none
    → length s.buffers.queue ≤ 50
    → 100 ≤ length s.buffers.text
    → obtain_tester s ≡ undefined
unfolding obtain_tester
obtain_tester-overrun s unknown opens long =
    rw (unknown, obtain_tester) (new_tester-overrun s opens long)

parse_word-overrun :
    (exec : ℕ → Option ℕ) (s : Server)
    → find hash_map_int_cmp (to_pid s.buffers.pid) s.testers ≡ none
    → length s.buffers.queue ≤ 50
    → 100 ≤ length s.buffers.text
    → parse_word exec s ≡ undefined
unfolding parse_word
parse_word-overrun exec s unknown opens long =
    rw (obtain_tester-overrun (record s { rcd_count = s.rcd_count + 1 }) unknown opens long) refl

-- A word of 100 characters or more, from a tester without a session, whose queue has a name of at
-- most 50 characters, is copied past the end of the new session's name, if that of the queue is
-- not before: the handler of the message has no defined result.
pub report-overrun :
    (scan : Scanner) (exec : ℕ → Option ℕ) (msg : Text) (s : Server) (b : Buffers)
    → equal msg exit_command ≡ false
    → scan.parse msg (record s.buffers { text = [] }) ≡ (true, b)
    → find hash_map_int_cmp (to_pid b.pid) s.testers ≡ none
    → length b.queue ≤ 50
    → 100 ≤ length b.text
    → report scan exec (some msg) s ≡ undefined
unfolding report
report-overrun scan exec msg s b other matches unknown opens long =
    rw other (rw matches (parse_word-overrun exec (record s { buffers = b }) unknown opens long))
