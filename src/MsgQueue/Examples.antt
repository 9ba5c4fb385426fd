-- ===== src/MsgQueue/Examples.antt =====
-- The overrun of a name, at a name of 50 characters.
use automaton_state_machine.Base.{◌≡◌, refl, true, some, replicate}
use automaton_state_machine.Base.Int.{pos}
use automaton_state_machine.Base.Step.{overruns}
use automaton_state_machine.Text.Scan.{Text}
use automaton_state_machine.MsgQueue.Ops.{Files, msg_queue_open_ex}
use automaton_state_machine.MsgQueue.Lifetime.{msg_queue_open_ex-overrun}

abbrev calm_files : Files
calm_files = record {
  mq_open = λ name size count blocking. some (pos 5);
  mq_getattr = λ desc. some (2, 100);
  mq_close = λ desc. true;
  mq_unlink = λ name. true;
}

abbrev long_name : Text
long_name = replicate 50 b'q'

msg_queue_open_ex-overrun_example :
    msg_queue_open_ex calm_files (some long_name) 100 2 true ≡ overruns
msg_queue_open_ex-overrun_example = msg_queue_open_ex-overrun calm_files long_name 100 2 true refl
