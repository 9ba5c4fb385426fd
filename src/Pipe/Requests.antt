-- ===== src/Pipe/Requests.antt =====
-- Sequences of calls that close a pipe of src/msg_pipe.h, in any order.
use automaton_state_machine.Base.{
  ◌≡◌, refl, Bool, true, false, List, [], ◌∷◌, some, none, replicate, length,
}
use automaton_state_machine.Base.Int.{ℤ, pos, negsuc, ltb_ℤ}
use automaton_state_machine.Base.Step.{continues, then_do}
use automaton_state_machine.Pipe.Ops.{
  MsgPipe, MsgPipeId, msg_pipe_close_read, msg_pipe_close_write, msg_pipe_abandon, msg_pipe_close,
  msg_pipe_open,
}
use automaton_state_machine.Pipe.Owned.{
  Request, close_read, close_write, abandon, close_both, perform, perform_all, Closings, Owns,
  perform_all-Owns,
}

-- A pipe that is opened from a good identifier owns its two descriptors: after any sequence of calls of
-- `msgPipeCloseRead`, `msgPipeCloseWrite`, `msgPipeAbandon` and `msgPipeClose`, all of which end if
-- `close` never fails, the descriptors that have been closed are those of the directions that the pipe
-- says are not open, once each.
pub perform_all-msg_pipe_open :
    (close : ℤ → Bool) (garbage : MsgPipe) (id : MsgPipeId) (qs : List Request)
    → ((d : ℤ) → close d ≡ true)
    → id.good ≡ true
    → ltb_ℤ id.buff_size (pos 0) ≡ false
    → (results : List ℤ) × (after : MsgPipe) × (closed : List ℤ) × (then_do
          (msg_pipe_open garbage id)
          (λ p. perform_all close qs p [])
        ≡ continues (results, after, closed))
      × Closings after.opened_read after.opened_write id.read_desc id.write_desc closed
unfolding msg_pipe_open
perform_all-msg_pipe_open close garbage id qs succeeds good sized =
    let p : MsgPipe = record {
      read_desc = id.read_desc;
      write_desc = id.write_desc;
      good = true;
      buff = some [];
      buff_size = id.buff_size;
      opened_read = true;
      opened_write = true;
    } in
    let own : Owns id.read_desc id.write_desc p [] = record {
      reads = refl;
      writes = refl;
      balance = refl;
    } in
    let (results, after, closed, e, owned) =
      perform_all-Owns close succeeds id.read_desc id.write_desc qs p [] own in
    (results, after, closed, rw (good, sized) e, owned.balance)

module _ (close : ℤ → Bool) (p : MsgPipe) (closed : List ℤ) (bad : p.good ≡ false) where
  perform-bad :
      (q : Request)
      → perform close q p closed
        ≡ continues (record { result = negsuc 0; pipe = p; closed = closed })
  unfolding msg_pipe_close_read msg_pipe_close_write msg_pipe_abandon msg_pipe_close
  perform-bad close_read = rw bad refl
  perform-bad close_write = rw bad refl
  perform-bad abandon = rw bad refl
  perform-bad close_both = rw bad refl

  perform_all-bad :
      (qs : List Request)
      → perform_all close qs p closed ≡ continues (replicate (length qs) (negsuc 0), p, closed)
  unfolding perform_all
  perform_all-bad [] = refl
  perform_all-bad (q ∷ qs) = rw (perform-bad q, perform_all-bad qs) refl

-- `msgPipeClose` on a good pipe that is open in both directions closes its two descriptors and
-- returns 1, if `close` succeeds on them; every later call that closes it returns -1 and changes
-- nothing.
pub perform_all-msg_pipe_close :
    (close : ℤ → Bool) (p : MsgPipe) (qs : List Request)
    → close p.read_desc ≡ true
    → close p.write_desc ≡ true
    → p.good ≡ true
    → p.opened_read ≡ true
    → p.opened_write ≡ true
    → (after : MsgPipe) × (perform_all close (close_both ∷ qs) p []
        ≡ continues
            (pos 1 ∷ replicate (length qs) (negsuc 0), after, p.write_desc ∷ p.read_desc ∷ []))
unfolding perform_all msg_pipe_close msg_pipe_close_read msg_pipe_close_write msg_pipe_abandon
perform_all-msg_pipe_close close p qs cr cw good or ow =
    let after : MsgPipe = record p {
      buff = none;
      buff_size = pos 0;
      good = false;
      opened_read = false;
      opened_write = false;
    } in
    (
      after,
      rw (good, or, ow, cr, cw)
          (rw (perform_all-bad close after (p.write_desc ∷ p.read_desc ∷ []) refl qs) refl),
    )
