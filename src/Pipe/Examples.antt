-- ===== src/Pipe/Examples.antt =====
-- The theorems about pipes at a small pipe.
use automaton_state_machine.Base.{
  ℕ, ◌≡◌, refl, true, false, Bool, List, [], ◌∷◌, Option, some, length, take,
}
use automaton_state_machine.Base.Int.{ℤ, pos}
use automaton_state_machine.Base.Step.{continues, then_do}
use automaton_state_machine.Text.Scan.{Text, print_int}
use automaton_state_machine.Pipe.Ops.{
  MsgPipeId, MsgPipe, msg_pipe_create, msg_pipe_id_to_str, msg_pipe_id_from_str, msg_pipe_open,
}
use automaton_state_machine.Pipe.Names.{msg_pipe_id_from_str-msg_pipe_id_to_str}
use automaton_state_machine.Pipe.Owned.{Request, close_write, close_both, perform_all, Closings}
use automaton_state_machine.Pipe.Requests.{perform_all-msg_pipe_open}

abbrev pub small_id : MsgPipeId
small_id = record { read_desc = pos 3; write_desc = pos 4; good = true; buff_size = pos 107 }

abbrev bad_id : MsgPipeId
bad_id = record { read_desc = pos 3; write_desc = pos 4; good = false; buff_size = pos 107 }

abbrev pub small_pipe : MsgPipe
small_pipe = record {
  read_desc = pos 3;
  write_desc = pos 4;
  good = true;
  buff = some [];
  buff_size = pos 107;
  opened_read = true;
  opened_write = true;
}

abbrev pub succeeds : ℤ → Bool
succeeds d = true

create_small : msg_pipe_create (some (pos 3, pos 4)) 100 ≡ continues small_id
unfolding msg_pipe_create
create_small = refl

-- "p3@4[107]"
print_small_id :
    (msg_pipe_id_to_str small_id).1
    ≡ b'p' ∷ b'3' ∷ b'@' ∷ b'4' ∷ b'[' ∷ b'1' ∷ b'0' ∷ b'7' ∷ b']' ∷ []
unfolding msg_pipe_id_to_str print_int
print_small_id = refl

msg_pipe_id_from_str-msg_pipe_id_to_str_example :
    msg_pipe_id_from_str (some (msg_pipe_id_to_str small_id).1) ≡ continues small_id
msg_pipe_id_from_str-msg_pipe_id_to_str_example =
    msg_pipe_id_from_str-msg_pipe_id_to_str small_id refl

abbrev requests : List Request
requests = close_write ∷ close_write ∷ close_both ∷ []

perform_all-msg_pipe_open_example :
    (results : List ℤ) × (after : MsgPipe) × (closed : List ℤ) × (then_do
        (msg_pipe_open small_pipe small_id)
        (λ p. perform_all succeeds requests p [])
      ≡ continues (results, after, closed))
    × Closings after.opened_read after.opened_write (pos 3) (pos 4) closed
perform_all-msg_pipe_open_example =
    perform_all-msg_pipe_open succeeds small_pipe small_id requests (λ d. refl) refl refl

abbrev hello : Text
hello = b'h' ∷ b'i' ∷ []

abbrev takes_all : Text → ℕ
takes_all s = length s

abbrev delivers_hello : ℕ → Option Text
delivers_hello n = some (take n hello)
