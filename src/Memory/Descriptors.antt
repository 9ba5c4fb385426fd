-- ===== src/Memory/Descriptors.antt =====
-- `_pipe_close_` of src/msg_pipe.h and `_msgq_close_` of src/msg_queue.h, the destructors that the
-- program registers.
use automaton_state_machine.Base.{ℕ, Bool, true, false, ◌==◌, List, [], ◌∷◌, ◌++◌, if◌then◌else◌}
use automaton_state_machine.Base.Int.{ℤ, pos, negsuc}
use automaton_state_machine.Base.Outcome.{Outcome, ok}
use automaton_state_machine.HashMap.Ops.{Bucket}
use automaton_state_machine.Memory.State.{Gc, Holder, Destr, int_of_ptr}

-- `descr != -1`
abbrev pub is_descriptor : ℤ → Bool
is_descriptor (pos n) = true
is_descriptor (negsuc n) = if n == 0 then false else true

-- the calls of `close` that a destructor makes
abbrev pub close_calls : ℕ → ℕ → List (ℕ × ℕ)
close_calls destr ptr = if is_descriptor (int_of_ptr ptr) then (destr, ptr) ∷ [] else []

-- the two destructors, which call `close` and `mq_close`
abbrev pub close_descriptor : ℕ → ℕ → Gc → Outcome Gc
close_descriptor destr ptr g = ok (record g { closed = g.closed ++ close_calls destr ptr })

-- the calls for all handlers, in order
abbrev pub closes_of : Bucket Holder Destr → List (ℕ × ℕ)
closes_of [] = []
closes_of ((h, d) ∷ hs) = close_calls d.destr h.ptr ++ closes_of hs
