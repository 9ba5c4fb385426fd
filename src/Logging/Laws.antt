-- ===== src/Logging/Laws.antt =====
-- When a message is printed, and when it ends the process.
use automaton_state_machine.Base.{ℕ, ◌<◌, ◌≡◌, ◌↔◌, Bool, true, false, [], Option, arith}
use automaton_state_machine.Text.Scan.{Text}
use automaton_state_machine.Logging.Ops.{Settings, ProcessInfo, log_formated}

module _ (c : Settings) (i : ProcessInfo) (status : Bool) (level : ℕ) (print_errno : Bool)
    (label : Option Text) (function_name message : Text) where
  -- A message ends the process exactly if it is fatal, fatal messages are handled, and messages are
  -- not promoted to errors; whether the log is on makes no difference.
  pub log_formated-exits :
      ((log_formated c i status level print_errno label function_name message).1 ≡ true)
      ↔ ((4 < level) × (c.promote_to_errors ≡ false) × (c.handle_fatals ≡ true))
  unfolding log_formated
  log_formated-exits = ground arith

  -- Nothing is printed exactly if the log is off and the message is not fatal.
  pub log_formated-silent :
      ((log_formated c i status level print_errno label function_name message).0 ≡ [])
      ↔ ((status ≡ false) × (level < 5))
  unfolding log_formated
  log_formated-silent = ground arith
