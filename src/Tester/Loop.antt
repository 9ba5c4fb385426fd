-- ===== src/Tester/Loop.antt =====
-- The loop of `main` of src/tester.c. What `getline` and `msgQueueRead` give in a round is a parameter;
-- a write to the server's queue succeeds. A word is the string that a cell of the array list points to.
use automaton_state_machine.Base.{
  ℕ, ◌+◌, Bool, true, false, not, ◌||◌, ◌&&◌, ◌==◌, List, [], ◌∷◌, ltb, if◌then◌else◌, Option, none,
  some,
}
use automaton_state_machine.Base.Int.{ℤ, pos, negsuc}
use automaton_state_machine.Base.Outcome.{Outcome, ok, out_of_fuel, ◌>>=◌}
use automaton_state_machine.ArrayList.Ops.{
  ArrayList, array_list_new, array_list_get_value_at, array_list_set_value_at,
}
use automaton_state_machine.Text.Scan.{
  Text, Scanned, number, mismatch, ended, skip, scan_int, scan_literal, eq_text,
}

-- what goes to the server: a word with its number, or the request to terminate
pub data Sending : Type 0 where
  parse : ℕ → Text → Sending
  exit_request : Sending

-- The local variables of `main`, with what it has sent and the answers that it has printed, the last
-- ones first.
pub record Tester : Type 0 where
  pub results : ArrayList Text
  pub req_count : ℕ
  pub ans_count : ℕ
  pub acc_count : ℕ
  pub loc_id : ℕ
  pub read_input : Bool
  pub sent : List Sending
  pub printed : List (Text × Bool)

abbrev pub initial : Tester
initial = record {
  results = array_list_new;
  req_count = 0;
  ans_count = 0;
  acc_count = 0;
  loc_id = 0;
  read_input = true;
  sent = [];
  printed = [];
}

-- what a round reads, if it does: a line, or none at the end of the input; a message, or none if there
-- is none yet
pub record RoundInputs : Type 0 where
  pub line : Option Text
  pub msg : Option Text

-- "!" and "exit"
abbrev pub exit_line : Text
exit_line = b'!' ∷ []

abbrev pub exit_msg : Text
exit_msg = b'e' ∷ b'x' ∷ b'i' ∷ b't' ∷ []

-- a line that is read, or the end of the input; `loc_id` has been incremented
unfoldable pub read_line : Option Text → Tester → Outcome Tester
read_line none t = ok (record t { read_input = false })
read_line (some line) t =
    if eq_text line exit_line
    then ok (record t { sent = exit_request ∷ t.sent; read_input = false })
    else array_list_set_value_at t.results (pos t.loc_id) (some line) >>= λ (old, results).
        ok (record t {
          results = results;
          sent = parse t.loc_id line ∷ t.sent;
          req_count = t.req_count + 1;
        })

-- the first half of a round
unfoldable pub send_word : RoundInputs → Tester → Outcome Tester
send_word i t = if t.read_input then read_line i.line (record t { loc_id = t.loc_id + 1 }) else ok t

-- "answer:"
abbrev pub answer_text : Text
answer_text = b'a' ∷ b'n' ∷ b's' ∷ b'w' ∷ b'e' ∷ b'r' ∷ b':' ∷ []

-- `sscanf(msg, "%d answer: %d", &loc_id, &ans)`: whether the result is not 0, and the two variables
abbrev pub scan_ans : Scanned → ℤ
scan_ans (number n rest) = n
scan_ans mismatch = pos 0
scan_ans ended = pos 0

abbrev pub scan_rest : Option Text → ℤ
scan_rest none = pos 0
scan_rest (some s) = scan_ans (scan_int s)

abbrev pub scan_loc_id : Scanned → Bool × ℤ × ℤ
scan_loc_id (number n rest) = (true, n, scan_rest (scan_literal answer_text (skip rest)))
scan_loc_id mismatch = (false, pos 0, pos 0)
scan_loc_id ended = (true, pos 0, pos 0)

abbrev pub is_no : ℤ → Bool
is_no (pos n) = n == 0
is_no (negsuc n) = false

-- an answer to a word that is stored, or to none
abbrev pub print_answer : ℤ → Bool → Option Text → Tester → Outcome Tester
print_answer loc_id ans none t = ok t
print_answer loc_id ans (some saved_word) t =
    array_list_set_value_at t.results loc_id none >>= λ (old, results). ok (record t {
      results = results;
      acc_count = if ans then t.acc_count + 1 else t.acc_count;
      ans_count = t.ans_count + 1;
      printed = (saved_word, ans) ∷ t.printed;
    })

-- what a message does, and whether it ends the loop
unfoldable pub receive_message : Text → Tester → Outcome (Bool × Tester)
receive_message msg t =
    let (matches, loc_id, ans) = scan_loc_id (scan_int msg) in
    if matches
    then (array_list_get_value_at t.results loc_id >>= λ (saved_word, results).
        print_answer loc_id (not (is_no ans)) saved_word (record t { results = results }) >>= λ t.
        ok (false, t))
    else ok (eq_text msg exit_msg, t)

-- the second half of a round: a message is read while answers are missing
unfoldable pub read_answer : RoundInputs → Tester → Outcome (Bool × Tester)
read_answer i t =
    if ltb t.ans_count t.req_count
    then elim i.msg [ none ↦ ok (false, t) | some msg ↦ receive_message msg t ]
    else ok (false, t)

-- a round of the loop, and whether it is the last one
unfoldable pub round : RoundInputs → Tester → Outcome (Bool × Tester)
round i t = send_word i t >>= λ t. read_answer i t >>= λ (exits, t).
    ok (exits || (not t.read_input && not (ltb t.ans_count t.req_count)), t)

-- the loop over the inputs of its rounds
unfoldable pub loop : List RoundInputs → Tester → Outcome Tester
loop [] t = out_of_fuel
loop (i ∷ is) t = round i t >>= λ (done, t). elim done [ true ↦ ok t | false ↦ loop is t ]
