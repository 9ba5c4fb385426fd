-- ===== src/MsgQueue/Ops.antt =====
-- The operations of src/msg_queue.h.
use automaton_state_machine.Base.{
  ℕ, ◌+◌, Bool, true, false, ◌&&◌, ◌||◌, not, ◌==◌, ltb, if◌then◌else◌, Option, none, some, length,
}
use automaton_state_machine.Base.Int.{ℤ, pos, negsuc}
use automaton_state_machine.Base.Step.{Step, continues, exits, overruns, then_do}
use automaton_state_machine.Text.Scan.{Text}
use automaton_state_machine.MsgQueue.Posix.{
  Calls, Received, message, no_message, receive_fails, Sent, sent, no_room, send_fails,
}

-- `MsgQueue`; `max_msg` and `msg_size` are the fields of `mq_a`, and a queue that is not open has no
-- name
pub record MsgQueue : Type 0 where
  pub name : Option Text
  pub desc : ℤ
  pub buff_size : ℕ
  pub is_blocking : Bool
  pub max_msg : ℕ
  pub msg_size : ℕ

-- `MAX_MSG_QUEUE_NAME_SIZE`
abbrev pub max_msg_queue_name_size : ℕ
max_msg_queue_name_size = 50

-- what the operating system does at `mq_open`, given name, message size, number of messages and
-- whether the queue blocks, at `mq_getattr`, `mq_close` and `mq_unlink`
pub record Files : Type 0 where
  pub mq_open : Text → ℕ → ℕ → Bool → Option ℤ
  pub mq_getattr : ℤ → Option (ℕ × ℕ)
  pub mq_close : ℤ → Bool
  pub mq_unlink : Text → Bool

abbrev pub open_attributes : Text → ℤ → Bool → Option (ℕ × ℕ) → Step MsgQueue
open_attributes name desc is_blocking none = exits
open_attributes name desc is_blocking (some (max_msg, msg_size)) = continues (record {
  name = some name;
  desc = desc;
  buff_size = msg_size + 1;
  is_blocking = is_blocking;
  max_msg = max_msg;
  msg_size = msg_size;
})

abbrev pub open_descriptor : Files → Text → Bool → Option ℤ → Step MsgQueue
open_descriptor fs name is_blocking none = exits
open_descriptor fs name is_blocking (some desc) =
    open_attributes name desc is_blocking (fs.mq_getattr desc)

-- `msgQueueOpenEx`. The name is copied, with its null byte, to 50 cells. Where no sizes are given
-- `mq_open` reads attributes that are not set.
unfoldable pub msg_queue_open_ex : Files → Option Text → ℕ → ℕ → Bool → Step MsgQueue
msg_queue_open_ex fs none msg_size max_msg is_blocking = exits
msg_queue_open_ex fs (some name) msg_size max_msg is_blocking =
    if ltb max_msg_queue_name_size (length name)
    then exits
    else if ltb max_msg_queue_name_size (length name + 1) || max_msg == 0 || msg_size == 0
    then overruns
    else open_descriptor fs name is_blocking (fs.mq_open name msg_size max_msg is_blocking)

-- `msgQueueOpen` and `msgQueueOpenNonBlocking`
abbrev pub msg_queue_open : Files → Option Text → ℕ → ℕ → Step MsgQueue
msg_queue_open fs name msg_size max_msg = msg_queue_open_ex fs name msg_size max_msg true

abbrev pub msg_queue_open_non_blocking : Files → Option Text → ℕ → ℕ → Step MsgQueue
msg_queue_open_non_blocking fs name msg_size max_msg =
    msg_queue_open_ex fs name msg_size max_msg false

-- `if(msgq.name == NULL)`
abbrev pub is_closed : MsgQueue → Bool
is_closed q = elim q.name [ none ↦ true | some name ↦ false ]

module _ {K : Type 0} (os : Calls K) where
  abbrev pub read_result : MsgQueue → Received × K → Step (Option Text × K)
  read_result q (message m, k) = continues (some m, k)
  read_result q (no_message, k) = if q.is_blocking then exits else continues (none, k)
  read_result q (receive_fails, k) = exits

  -- `msgQueueRead`
  unfoldable pub msg_queue_read : MsgQueue → K → Step (Option Text × K)
  msg_queue_read q k = if is_closed q then continues (none, k) else read_result q (os.receive k)

  abbrev pub write_result : MsgQueue → Sent × K → Step (ℤ × K)
  write_result q (sent, k) = continues (pos 0, k)
  write_result q (no_room, k) = if q.is_blocking then exits else continues (pos 1, k)
  write_result q (send_fails, k) = exits

  -- `msgQueueWrite`
  unfoldable pub msg_queue_write : MsgQueue → Text → K → Step (ℤ × K)
  msg_queue_write q m k =
      if is_closed q then continues (negsuc 0, k) else write_result q (os.send m k)

  -- `msgQueueWritef`, given the text that the format makes; its buffer has seven cells more than the
  -- queue's
  unfoldable pub msg_queue_writef : MsgQueue → Text → K → Step (ℤ × K)
  msg_queue_writef q m k =
      if is_closed q
      then continues (negsuc 0, k)
      else if ltb (q.buff_size + 7) (length m + 1)
      then overruns
      else msg_queue_write q m k

  -- `msgQueueReadf`, given what `vsscanf` makes of a message, its result and the variables
  unfoldable pub msg_queue_readf {ℓ} :
      {A : Type ℓ} → (Text → A → ℤ × A) → MsgQueue → A → K → Step ((ℤ × A) × K)
  unfolding msg_queue_read
  msg_queue_readf scan q vars k =
      if is_closed q
      then continues ((negsuc 0, vars), k)
      else then_do (msg_queue_read q k) λ (received, k'). elim received [
        | none ↦ continues ((negsuc 0, vars), k')
        | some s ↦ continues (scan s vars, k')
      ]

  -- `msgQueueSeek`, which writes what it has read, be it NULL
  unfoldable pub msg_queue_seek : MsgQueue → K → Step (Option Text × K)
  msg_queue_seek q k =
      if is_closed q
      then continues (none, k)
      else then_do (msg_queue_read q k) λ (read, l). elim read [
        | none ↦ overruns
        | some m ↦ then_do (msg_queue_write q m l) λ (result, j). continues (some m, j)
      ]

-- `msgQueueAbandon`
unfoldable pub msg_queue_abandon : MsgQueue → ℤ × MsgQueue
msg_queue_abandon q = if is_closed q then (negsuc 0, q) else (pos 1, record q { name = none })

-- the part of `msgQueueCloseEx` for a queue that has a name
abbrev pub close_named : Files → MsgQueue → Bool → Text → Step (ℤ × MsgQueue)
close_named fs q unlink name =
    if not (fs.mq_close q.desc)
    then exits
    else if unlink && not (fs.mq_unlink name)
    then exits
    else continues (pos 1, (msg_queue_abandon q).1)

-- `msgQueueCloseEx`
unfoldable pub msg_queue_close_ex : Files → MsgQueue → Bool → Step (ℤ × MsgQueue)
msg_queue_close_ex fs q unlink = elim q.name [
  | none ↦ continues (negsuc 0, q)
  | some name ↦ close_named fs q unlink name
]

-- `msgQueueRemove` and `msgQueueClose`
abbrev pub msg_queue_remove : Files → MsgQueue → Step (ℤ × MsgQueue)
msg_queue_remove fs q = msg_queue_close_ex fs q true

abbrev pub msg_queue_close : Files → MsgQueue → Step (ℤ × MsgQueue)
msg_queue_close fs q = msg_queue_close_ex fs q false

-- `msgQueueMakeBlocking`
unfoldable pub msg_queue_make_blocking : Files → MsgQueue → Bool → Step (ℤ × MsgQueue)
msg_queue_make_blocking fs q will_block = elim q.name [
  | none ↦ continues (negsuc 0, q)
  | some name ↦ then_do (msg_queue_close fs q) λ closed.
      then_do (msg_queue_open_ex fs (some name) q.msg_size q.max_msg will_block)
        λ p. continues (pos 1, p)
]
