-- ===== src/Pipe/Ops.antt =====
-- The operations of src/msg_pipe.h.
use automaton_state_machine.Base.{
  ℕ, ◌+◌, ◌-◌, Bool, true, false, ◌&&◌, not, List, [], ◌∷◌, ◌++◌, ◌==◌, if◌then◌else◌, Option, none,
  some, length, take,
}
use automaton_state_machine.Base.Int.{ℤ, pos, negsuc, pos_part, ltb_ℤ, leb_ℤ}
use automaton_state_machine.Base.Step.{Step, continues, exits, overruns, then_do}
use automaton_state_machine.Text.Scan.{Text, Scanned, number, mismatch, ended, scan_int, print_int}

-- `MsgPipeID` and `MsgPipe`, whose descriptors are `pipe_desc[0]` and `pipe_desc[1]`. No buffer is
-- NULL.
pub record MsgPipeId : Type 0 where
  pub read_desc : ℤ
  pub write_desc : ℤ
  pub good : Bool
  pub buff_size : ℤ

pub record MsgPipe : Type 0 where
  pub read_desc : ℤ
  pub write_desc : ℤ
  pub good : Bool
  pub buff : Option Text
  pub buff_size : ℤ
  pub opened_read : Bool
  pub opened_write : Bool

-- `msgPipeCreate`, given the two descriptors that `pipe` makes
unfoldable pub msg_pipe_create : Option (ℤ × ℤ) → ℕ → Step MsgPipeId
msg_pipe_create none msg_size = exits
msg_pipe_create (some (r, w)) msg_size =
    continues
      (record { read_desc = r; write_desc = w; good = true; buff_size = pos (msg_size + 7) })

-- `msgPipeIDToStr`: the result and the string
unfoldable pub msg_pipe_id_to_str : MsgPipeId → ℤ × Text
msg_pipe_id_to_str id =
    if id.good
    then (
      pos 1,
      b'p' ∷ print_int id.read_desc
          ++ (b'@' ∷ print_int id.write_desc ++ (b'[' ∷ print_int id.buff_size ++ (b']' ∷ []))),
    )
    else (negsuc 0, [])

-- `msgPipeIsGoodID`
abbrev pub msg_pipe_is_good_id : MsgPipeId → Bool
msg_pipe_is_good_id id = id.good

-- the rest of the format `p%d@%d[%d]` behind its first and behind its second number
abbrev pub set_size : Scanned → MsgPipeId → MsgPipeId
set_size (number n rest) id = record id { buff_size = n }
set_size mismatch id = id
set_size ended id = id

abbrev pub scan_size : Text → MsgPipeId → MsgPipeId
scan_size [] id = id
scan_size (c ∷ s) id = if c == b'[' then set_size (scan_int s) id else id

abbrev pub set_write : Scanned → MsgPipeId → MsgPipeId
set_write (number w rest) id = scan_size rest (record id { write_desc = w })
set_write mismatch id = id
set_write ended id = id

abbrev pub scan_write : Text → MsgPipeId → MsgPipeId
scan_write [] id = id
scan_write (c ∷ s) id = if c == b'@' then set_write (scan_int s) id else id

-- At the end of the string before the first number `sscanf` returns EOF, which counts as true.
abbrev pub set_read : Scanned → MsgPipeId → Step MsgPipeId
set_read (number r rest) id = continues (scan_write rest (record id { read_desc = r }))
set_read mismatch id = exits
set_read ended id = continues id

abbrev pub scan_id : Text → MsgPipeId → Step MsgPipeId
scan_id [] id = continues id
scan_id (c ∷ s) id = if c == b'p' then set_read (scan_int s) id else exits

-- `msgPipeIDFromStr`
unfoldable pub msg_pipe_id_from_str : Option Text → Step MsgPipeId
unfolding scan_int
msg_pipe_id_from_str none = exits
msg_pipe_id_from_str (some s) =
    scan_id s
      (record { read_desc = negsuc 0; write_desc = negsuc 0; good = true; buff_size = negsuc 0 })

-- `msgPipeOpen`; the fields that it leaves unset are those of `garbage`
unfoldable pub msg_pipe_open : MsgPipe → MsgPipeId → Step MsgPipe
msg_pipe_open garbage id =
    if id.good
    then (if ltb_ℤ id.buff_size (pos 0)
        then exits
        else continues (record {
          read_desc = id.read_desc;
          write_desc = id.write_desc;
          good = true;
          buff = some [];
          buff_size = id.buff_size;
          opened_read = true;
          opened_write = true;
        }))
    else continues (record garbage { good = false })

-- A call's result, the pipe after it, and the descriptors that have been closed, the last one first.
pub record After : Type 0 where
  pub result : ℤ
  pub pipe : MsgPipe
  pub closed : List ℤ

module _ (close : ℤ → Bool) where
  -- `msgPipeCloseRead`, given whether `close` succeeds on a descriptor
  unfoldable pub msg_pipe_close_read : MsgPipe → List ℤ → Step After
  msg_pipe_close_read p closed =
      if not (p.good && p.opened_read)
      then continues (record { result = negsuc 0; pipe = p; closed = closed })
      else if close p.read_desc
      then continues (record {
        result = pos 1;
        pipe = record p { opened_read = false };
        closed = p.read_desc ∷ closed;
      })
      else exits

  -- `msgPipeCloseWrite`
  unfoldable pub msg_pipe_close_write : MsgPipe → List ℤ → Step After
  msg_pipe_close_write p closed =
      if not (p.good && p.opened_write)
      then continues (record { result = negsuc 0; pipe = p; closed = closed })
      else if close p.write_desc
      then continues (record {
        result = pos 1;
        pipe = record p { opened_write = false };
        closed = p.write_desc ∷ closed;
      })
      else exits

  -- `msgPipeAbandon`
  unfoldable pub msg_pipe_abandon : MsgPipe → List ℤ → Step After
  msg_pipe_abandon p closed =
      if not p.good
      then continues (record { result = negsuc 0; pipe = p; closed = closed })
      else continues (record {
        result = pos 1;
        pipe = record p { buff = none; buff_size = pos 0; good = false };
        closed = closed;
      })

  -- `msgPipeClose`
  unfoldable pub msg_pipe_close : MsgPipe → List ℤ → Step After
  msg_pipe_close p closed =
      if not p.good
      then continues (record { result = negsuc 0; pipe = p; closed = closed })
      else then_do (msg_pipe_close_read p closed)
          λ a. then_do (msg_pipe_close_write a.pipe a.closed) λ b. msg_pipe_abandon b.pipe b.closed

-- `msgPipeRead`, given what `read` delivers when it is asked for a number of bytes: none for an
-- error. The message is the string in the buffer, with no null byte before its end.
unfoldable pub msg_pipe_read : (ℕ → Option Text) → MsgPipe → Step (Option Text)
msg_pipe_read read p =
    if not (p.good && p.opened_read)
    then continues none
    else if leb_ℤ p.buff_size (pos 0)
    then overruns
    else elim (read (pos_part p.buff_size - 1)) [
      | none ↦ exits
      | some [] ↦ exits
      | some (c ∷ s) ↦ continues (some (take (pos_part p.buff_size - 1) (c ∷ s)))
    ]

-- `msgPipeWrite`, given how many bytes `write` takes of a text
unfoldable pub msg_pipe_write : (Text → ℕ) → MsgPipe → Text → Step ℤ
msg_pipe_write write p message =
    if not (p.good && p.opened_write)
    then continues (negsuc 0)
    else if write message == length message
    then continues (pos 1)
    else exits

-- `msgPipeWritef`, given the text that the format makes; its buffer has seven cells more than the
-- pipe's
unfoldable pub msg_pipe_writef : (Text → ℕ) → MsgPipe → Text → Step ℤ
unfolding msg_pipe_write
msg_pipe_writef write p message =
    if not (p.good && p.opened_write)
    then continues (negsuc 0)
    else if leb_ℤ (pos (length message + 1)) (pos (pos_part p.buff_size + 7))
    then msg_pipe_write write p message
    else overruns

-- `msgPipeReadf`, given what `vsscanf` makes of a message, its result and the variables
unfoldable pub msg_pipe_readf {ℓ} :
    {A : Type ℓ} → (Text → A → ℤ × A) → (ℕ → Option Text) → MsgPipe → A → Step (ℤ × A)
unfolding msg_pipe_read
msg_pipe_readf scan read p vars =
    if not (p.good && p.opened_read)
    then continues (negsuc 0, vars)
    else then_do (msg_pipe_read read p) λ message. elim message [
      | none ↦ continues (negsuc 0, vars)
      | some s ↦ continues (scan s vars)
    ]
