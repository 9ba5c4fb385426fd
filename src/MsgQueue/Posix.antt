-- ===== src/MsgQueue/Posix.antt =====
-- POSIX message queues, as src/msg_queue.h uses them on one open queue.
use automaton_state_machine.Text.Scan.{Text}

-- what `mq_receive` and `mq_send` give: a result, the error EAGAIN, or another error
pub data Received : Type 0 where
  message : Text → Received
  no_message : Received
  receive_fails : Received

pub data Sent : Type 0 where
  sent : Sent
  no_room : Sent
  send_fails : Sent

-- the calls, on a state of the operating system
pub record Calls (K : Type 0) : Type 0 where
  pub receive : K → Received × K
  pub send : Text → K → Sent × K
