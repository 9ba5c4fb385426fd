-- ===== src/Pipe/Transfer.antt =====
-- A message through a pipe: `msgPipeWrite` and `msgPipeRead` of src/msg_pipe.h.
use automaton_state_machine.Base.{
  ℕ, zero, suc, ◌-◌, ◌<◌, ◌≤◌, ◌≡◌, refl, true, false, List, [], ◌∷◌, ◌==◌, Option, some, length,
  take, arith, ap,
}
use automaton_state_machine.Base.Int.{pos, leb_ℤ}
use automaton_state_machine.Base.Step.{continues}
use automaton_state_machine.Text.Scan.{Text}
use automaton_state_machine.Pipe.Ops.{MsgPipe, msg_pipe_read, msg_pipe_write}

pub take-length {ℓ} : {A : Type ℓ} (n : ℕ) (xs : List A) → length xs ≤ n → take n xs ≡ xs
take-length zero [] h = refl
take-length zero (x ∷ xs) h = absurd (omega arith)
take-length (suc n) [] h = refl
take-length (suc n) (x ∷ xs) h = ap (λ ys. x ∷ ys) (take-length n xs (omega arith))

-- `msgPipeRead` gives a message that is shorter than the buffer whole, if `read` delivers it at once.
pub msg_pipe_read-whole :
    (read : ℕ → Option Text) (p : MsgPipe) (n : ℕ) (message : Text)
    → p.good ≡ true
    → p.opened_read ≡ true
    → p.buff_size ≡ pos n
    → 0 < length message
    → length message < n
    → read (n - 1) ≡ some message
    → msg_pipe_read read p ≡ continues (some message)
unfolding msg_pipe_read
msg_pipe_read-whole read p n [] good open_read size some_text short delivered = absurd (omega arith)
msg_pipe_read-whole read p n (c ∷ s) good open_read size some_text short delivered =
    let room : leb_ℤ (pos n) (pos 0) ≡ false = ground arith in
    rw (good, open_read, size, room, delivered)
      (rw (size, take-length (n - 1) (c ∷ s) (omega arith)) refl)

-- What `msgPipeWrite` has sent is what `msgPipeRead` gives at the other end of the pipe, if the message
-- is not empty and is shorter than the reader's buffer, and `write` takes it and `read` delivers it at
-- once; the result of the write is 1.
pub msg_pipe_read-msg_pipe_write :
    (write : Text → ℕ) (read : ℕ → Option Text) (sender receiver : MsgPipe) (n : ℕ) (message : Text)
    → sender.good ≡ true
    → sender.opened_write ≡ true
    → receiver.good ≡ true
    → receiver.opened_read ≡ true
    → receiver.buff_size ≡ pos n
    → 0 < length message
    → length message < n
    → write message ≡ length message
    → read (n - 1) ≡ some (take (write message) message)
    → (msg_pipe_write write sender message ≡ continues (pos 1))
      × (msg_pipe_read read receiver ≡ continues (some message))
unfolding msg_pipe_write
msg_pipe_read-msg_pipe_write write read sender receiver n message good opened good' opened' size
      more short taken delivered =
    let whole : (write message == length message) ≡ true = ground arith in
    let all : take (write message) message ≡ message =
      take-length (write message) message (omega arith) in
    (
      rw (good, opened, whole) refl,
      msg_pipe_read-whole read receiver n message good' opened' size more short
          (rw all at delivered),
    )
