-- ===== src/Server/Invariant/Messages.antt =====
-- The messages that testers and runs send hold words and names that are short enough.
use automaton_state_machine.Base.{ℕ, ◌<◌, ◌≡◌, false, ◌∷◌, length}
use automaton_state_machine.Text.Scan.{Text, is_space}
use automaton_state_machine.Run.Main.{result_message}
use automaton_state_machine.Server.Formats.{
  scanner, register_message, parse_message, NoSpaces, NoNul, scan_terminate-result_message,
  scan_register-register_message, scan_parse-parse_message,
}
use automaton_state_machine.Server.Invariant.{Fits}

pub register_message-Fits :
    (pid c : ℕ) (queue : Text)
    → NoSpaces (c ∷ queue)
    → length (c ∷ queue) < 50
    → Fits scanner.register (register_message pid (c ∷ queue))
register_message-Fits pid c queue plain name b short =
    rw (scan_register-register_message pid c queue b plain)
      (record { word = short.word; name = name })

pub result_message-Fits : (pid result : ℕ) → Fits scanner.terminate (result_message pid result)
result_message-Fits pid result b short =
    rw (scan_terminate-result_message pid result b)
      (record { word = short.word; name = short.name })

pub parse_message-Fits :
    (pid loc_id c d : ℕ) (queue word : Text)
    → NoSpaces (c ∷ queue)
    → is_space d ≡ false
    → NoNul (d ∷ word)
    → length (c ∷ queue) < 50
    → length (d ∷ word) < 100
    → Fits scanner.parse (parse_message pid (c ∷ queue) loc_id (d ∷ word))
parse_message-Fits pid loc_id c d queue word named visible plain name size b short =
    rw (scan_parse-parse_message pid loc_id c d queue word b named visible plain)
      (record { word = size; name = name })
