-- ===== src/MsgQueue/Lifetime.antt =====
-- Opening and closing a message queue of src/msg_queue.h.
use automaton_state_machine.Base.{
  ℕ, ◌+◌, ◌<◌, ◌≡◌, refl, Bool, true, false, ◌==◌, ltb, none, some, length, arith,
}
use automaton_state_machine.Base.Int.{ℤ, pos, negsuc}
use automaton_state_machine.Base.Step.{continues, overruns}
use automaton_state_machine.Text.Scan.{Text}
use automaton_state_machine.MsgQueue.Posix.{Calls}
use automaton_state_machine.MsgQueue.Ops.{
  MsgQueue, Files, msg_queue_open_ex, msg_queue_read, msg_queue_write, msg_queue_seek,
  msg_queue_abandon, msg_queue_close_ex, msg_queue_close, msg_queue_make_blocking,
  max_msg_queue_name_size,
}

-- `msgQueueOpenEx` with a name of at most 49 characters and sizes gives an open queue, with a buffer of
-- one cell more than a message, if the operating system opens it.
pub msg_queue_open_ex-short :
    (fs : Files) (name : Text) (size count : ℕ) (blocking : Bool) (desc : ℤ)
    (got_count got_size : ℕ)
    → 0 < size
    → 0 < count
    → length name < max_msg_queue_name_size
    → fs.mq_open name size count blocking ≡ some desc
    → fs.mq_getattr desc ≡ some (got_count, got_size)
    → msg_queue_open_ex fs (some name) size count blocking
      ≡ continues (record {
        name = some name;
        desc = desc;
        buff_size = got_size + 1;
        is_blocking = blocking;
        max_msg = got_count;
        msg_size = got_size;
      })
unfolding msg_queue_open_ex
msg_queue_open_ex-short fs name size count blocking desc got_count got_size sized counted short
      opened got =
    let some_size : (size == 0) ≡ false = ground arith in
    let some_count : (count == 0) ≡ false = ground arith in
    let passes : ltb max_msg_queue_name_size (length name) ≡ false = ground arith in
    let fits : ltb max_msg_queue_name_size (length name + 1) ≡ false = ground arith in
    rw (passes, fits, some_size, some_count, opened, got) refl

-- A name of 50 characters passes the test of its length in `msgQueueOpenEx`, and its null byte is
-- written behind the 50 cells that are allocated for it, whatever the operating system does.
pub msg_queue_open_ex-overrun :
    (fs : Files) (name : Text) (size count : ℕ) (blocking : Bool)
    → length name ≡ max_msg_queue_name_size
    → msg_queue_open_ex fs (some name) size count blocking ≡ overruns
unfolding msg_queue_open_ex
msg_queue_open_ex-overrun fs name size count blocking equal =
    let passes : ltb max_msg_queue_name_size (length name) ≡ false = ground arith in
    let over : ltb max_msg_queue_name_size (length name + 1) ≡ true = ground arith in
    rw (passes, over) refl

-- what the operations do on a queue that is not open, whatever the operating system would do
abbrev pub Inert : MsgQueue → Type 1
Inert q =
    ((K : Type 0) (os : Calls K) (m : Text) (k : K)
      → (msg_queue_read os q k ≡ continues (none, k))
        × (msg_queue_write os q m k ≡ continues (negsuc 0, k))
        × (msg_queue_seek os q k ≡ continues (none, k)))
    × ((fs : Files) (flag : Bool)
        → (msg_queue_close_ex fs q flag ≡ continues (negsuc 0, q))
          × (msg_queue_make_blocking fs q flag ≡ continues (negsuc 0, q)))
    × (msg_queue_abandon q ≡ (negsuc 0, q))

closed-Inert : (q : MsgQueue) → q.name ≡ none → Inert q
unfolding msg_queue_read msg_queue_write msg_queue_seek msg_queue_close_ex msg_queue_make_blocking
    msg_queue_abandon
closed-Inert q h =
    (λ K os m k. (rw h refl, rw h refl, rw h refl), λ fs flag. (rw h refl, rw h refl), rw h refl)

close-named :
    (fs : Files) (q : MsgQueue) (name : Text)
    → q.name ≡ some name
    → fs.mq_close q.desc ≡ true
    → msg_queue_close fs q ≡ continues (pos 1, record q { name = none })
unfolding msg_queue_close_ex msg_queue_abandon
close-named fs q name named closes = rw (named, closes) refl

close_ex-named :
    (fs : Files) (q : MsgQueue) (name : Text) (unlink : Bool)
    → q.name ≡ some name
    → fs.mq_close q.desc ≡ true
    → fs.mq_unlink name ≡ true
    → msg_queue_close_ex fs q unlink ≡ continues (pos 1, record q { name = none })
unfolding msg_queue_close_ex msg_queue_abandon
close_ex-named fs q name false named closes unlinks = close-named fs q name named closes
close_ex-named fs q name true named closes unlinks = rw (named, closes, unlinks) refl

-- `msgQueueClose` and `msgQueueRemove` on an open queue return 1, if the operating system's calls
-- succeed, and every later operation on the queue but opening it does nothing: it returns NULL or -1.
pub msg_queue_close_ex-Inert :
    (fs : Files) (q : MsgQueue) (name : Text) (unlink : Bool)
    → q.name ≡ some name
    → fs.mq_close q.desc ≡ true
    → fs.mq_unlink name ≡ true
    → (p : MsgQueue) × (msg_queue_close_ex fs q unlink ≡ continues (pos 1, p)) × Inert p
msg_queue_close_ex-Inert fs q name unlink named closes unlinks = (
  record q { name = none },
  close_ex-named fs q name unlink named closes unlinks,
  closed-Inert (record q { name = none }) refl,
)

make_blocking-steps :
    (fs : Files) (q : MsgQueue) (name : Text) (will_block : Bool) (closed p : MsgQueue)
    → q.name ≡ some name
    → msg_queue_close fs q ≡ continues (pos 1, closed)
    → msg_queue_open_ex fs (some name) q.msg_size q.max_msg will_block ≡ continues p
    → msg_queue_make_blocking fs q will_block ≡ continues (pos 1, p)
unfolding msg_queue_make_blocking
make_blocking-steps fs q name will_block closed p named e f = rw named (rw (rw named at e, f) refl)

-- `msgQueueMakeBlocking` on an open queue with a name of at most 49 characters returns 1 and leaves a
-- queue of that name that blocks as asked, if the operating system closes the queue and opens it
-- again.
pub msg_queue_make_blocking-open :
    (fs : Files) (q : MsgQueue) (name : Text) (will_block : Bool) (desc : ℤ) (count size : ℕ)
    → q.name ≡ some name
    → length name < max_msg_queue_name_size
    → 0 < q.msg_size
    → 0 < q.max_msg
    → fs.mq_close q.desc ≡ true
    → fs.mq_open name q.msg_size q.max_msg will_block ≡ some desc
    → fs.mq_getattr desc ≡ some (count, size)
    → (p : MsgQueue) × (msg_queue_make_blocking fs q will_block ≡ continues (pos 1, p))
      × (p.name ≡ some name)
      × (p.is_blocking ≡ will_block)
unfolding msg_queue_make_blocking
msg_queue_make_blocking-open fs q name will_block desc count size named short sized counted closes
      opened got =
    let reopened =
      msg_queue_open_ex-short fs name q.msg_size q.max_msg will_block desc count size sized counted
        short opened got in
    let closed = close-named fs q name named closes in
    (_, make_blocking-steps fs q name will_block _ _ named closed reopened, refl, refl)
