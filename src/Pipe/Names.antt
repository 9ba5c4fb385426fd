-- ===== src/Pipe/Names.antt =====
-- The strings that name pipes: `msgPipeIDToStr` and `msgPipeIDFromStr` of src/msg_pipe.h.
use automaton_state_machine.Base.{ℕ, ◌≡◌, refl, true, false, List, [], ◌∷◌, ◌++◌, some}
use automaton_state_machine.Base.Int.{negsuc}
use automaton_state_machine.Base.Step.{continues, exits, then_do}
use automaton_state_machine.Text.Scan.{print_int}
use automaton_state_machine.Text.Decimal.{scan_int-print_int}
use automaton_state_machine.Pipe.Ops.{
  MsgPipeId, MsgPipe, msg_pipe_id_to_str, msg_pipe_id_from_str, msg_pipe_open,
}

-- The string that names a good pipe is read back as the same identifier.
pub msg_pipe_id_from_str-msg_pipe_id_to_str :
    (id : MsgPipeId)
    → id.good ≡ true
    → msg_pipe_id_from_str (some (msg_pipe_id_to_str id).1) ≡ continues id
unfolding msg_pipe_id_from_str msg_pipe_id_to_str
msg_pipe_id_from_str-msg_pipe_id_to_str id h =
    let size : List ℕ = b'[' ∷ print_int id.buff_size ++ (b']' ∷ []) in
    rw
      (
        h,
        scan_int-print_int id.read_desc (b'@' ∷ print_int id.write_desc ++ size) refl,
        scan_int-print_int id.write_desc size refl,
        scan_int-print_int id.buff_size (b']' ∷ []) refl,
      )
      refl

-- The string that names a pipe that is not good is empty, and is read back as the name of a good pipe
-- with descriptors of -1, which can only be found at its opening: that ends the process.
pub msg_pipe_open-bad :
    (id : MsgPipeId) (garbage : MsgPipe)
    → id.good ≡ false
    → ((msg_pipe_id_to_str id).0 ≡ negsuc 0)
      × (then_do (msg_pipe_id_from_str (some (msg_pipe_id_to_str id).1)) (msg_pipe_open garbage)
          ≡ exits)
unfolding msg_pipe_id_from_str msg_pipe_id_to_str msg_pipe_open
msg_pipe_open-bad id garbage h = (rw h refl, rw h refl)
