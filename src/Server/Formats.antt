-- ===== src/Server/Formats.antt =====
-- What `sscanf` makes of the messages at the three formats of src/validator.c, and the messages that
-- src/run.c and src/tester.c send.
use automaton_state_machine.Base.{
  ℕ, ◌-◌, ◌^◌, ◌≡◌, refl, Bool, true, false, ◌||◌, ◌==◌, [], ◌∷◌, ◌++◌, if◌then◌else◌, ap, sym, ◌∙◌,
  append-nil,
}
use automaton_state_machine.Base.Int.{ℤ, pos, negsuc}
use automaton_state_machine.Text.Scan.{
  Text, Scanned, number, mismatch, ended, is_space, skip, scan_int, print_nat,
}
use automaton_state_machine.Text.Decimal.{scan_int-blank}
use automaton_state_machine.Server.State.{Buffers, Scan, Scanner}
use automaton_state_machine.Run.Main.{result_message}

-- The characters of a format in front of its first directive: the input behind them; or another
-- character; or the end of the input, at which `sscanf` returns EOF.
pub data Literal : Type 0 where
  matched : Text → Literal
  differs : Literal
  stops : Literal

unfoldable pub literal : Text → Text → Literal
literal [] s = matched s
literal (d ∷ t) [] = stops
literal (d ∷ t) (c ∷ s) = if c == d then literal t s else differs

-- `%s`: what is read, and the input behind it
unfoldable pub scan_word : Text → Text × Text
scan_word [] = ([], [])
scan_word (c ∷ s) =
    if is_space c then ([], c ∷ s) else (let (w, rest) = scan_word s in (c ∷ w, rest))

-- `%[^NULL]`: no character but N, U and L ends it
abbrev pub is_nul : ℕ → Bool
is_nul c = c == b'N' || c == b'U' || c == b'L'

unfoldable pub scan_set : Text → Text
scan_set [] = []
scan_set (c ∷ s) = if is_nul c then [] else c ∷ scan_set s

-- a number in `w` bits
abbrev pub unsigned : ℕ → ℤ → ℕ
unsigned w (pos n) = n
unsigned w (negsuc n) = 2 ^ w - 1 - n

-- the rest of the three formats, from the last directive on
abbrev pub set_result : Scanned → Buffers → Buffers
set_result (number n rest) b = record b { result = unsigned 32 n }
set_result mismatch b = b
set_result ended b = b

abbrev pub set_text : Text → Buffers → Buffers
set_text [] b = b
set_text (c ∷ s) b = record b { text = c ∷ s }

abbrev pub set_loc_id : Scanned → Buffers → Buffers
set_loc_id (number n rest) b = set_text (scan_set (skip rest)) (record b { loc_id = unsigned 32 n })
set_loc_id mismatch b = b
set_loc_id ended b = b

abbrev pub set_queue : Text × Text → (Text → Buffers → Buffers) → Buffers → Buffers
set_queue ([], rest) after b = b
set_queue (c ∷ w, rest) after b = after rest (record b { queue = c ∷ w })

-- the number behind the label, and whether the result of `sscanf` is not 0
abbrev pub set_pid : Scanned → (Text → Buffers → Buffers) → Buffers → Bool × Buffers
set_pid (number n rest) after b = (true, after rest (record b { pid = unsigned 64 n }))
set_pid mismatch after b = (false, b)
set_pid ended after b = (true, b)

abbrev pub behind_label : Literal → (Text → Buffers → Buffers) → Scan
behind_label (matched s) after msg b = set_pid (scan_int s) after b
behind_label differs after msg b = (false, b)
behind_label stops after msg b = (true, b)

-- "register_tester:", "run-terminate:" and "parse:"
abbrev pub register_label : Text
register_label =
    b'r' ∷ b'e' ∷ b'g' ∷ b'i' ∷ b's' ∷ b't' ∷ b'e' ∷ b'r' ∷ b'_' ∷ b't' ∷ b'e' ∷ b's' ∷ b't' ∷ b'e'
    ∷ b'r' ∷ b':' ∷ []

abbrev pub run_label : Text
run_label =
    b'r' ∷ b'u' ∷ b'n' ∷ b'-' ∷ b't' ∷ b'e' ∷ b'r' ∷ b'm' ∷ b'i' ∷ b'n' ∷ b'a' ∷ b't' ∷ b'e' ∷ b':'
    ∷ []

abbrev pub parse_label : Text
parse_label = b'p' ∷ b'a' ∷ b'r' ∷ b's' ∷ b'e' ∷ b':' ∷ []

unfoldable pub scan_register : Scan
scan_register msg b =
    behind_label (literal register_label msg)
      (λ rest. set_queue (scan_word (skip rest)) λ rest b. b) msg b

unfoldable pub scan_terminate : Scan
scan_terminate msg b =
    behind_label (literal run_label msg) (λ rest. set_result (scan_int rest)) msg b

unfoldable pub scan_parse : Scan
scan_parse msg b =
    behind_label (literal parse_label msg)
      (λ rest. set_queue (scan_word (skip rest)) λ rest. set_loc_id (scan_int rest)) msg b

abbrev pub scanner : Scanner
scanner = record { register = scan_register; terminate = scan_terminate; parse = scan_parse }

-- `"register_tester: %lld %s"` and `"parse: %lld %s %d %s"`
abbrev pub register_message : ℕ → Text → Text
register_message pid queue = register_label ++ (b' ' ∷ (print_nat pid ++ (b' ' ∷ queue)))

abbrev pub parse_message : ℕ → Text → ℕ → Text → Text
parse_message pid queue loc_id word =
    parse_label
    ++ (b' ' ∷ (print_nat pid ++ (b' ' ∷ (queue ++ (b' ' ∷ (print_nat loc_id ++ (b' ' ∷ word)))))))

-- a text of which `%s` reads all, and one of which `%[^NULL]` does
abbrev pub NoSpaces : Text → Type 0
NoSpaces [] = Unit {0}
NoSpaces (c ∷ s) = (is_space c ≡ false) × NoSpaces s

abbrev pub NoNul : Text → Type 0
NoNul [] = Unit {0}
NoNul (c ∷ s) = (is_nul c ≡ false) × NoNul s

scan_word-NoSpaces : (w s : Text) → NoSpaces w → scan_word (w ++ b' ' ∷ s) ≡ (w, b' ' ∷ s)
unfolding scan_word
scan_word-NoSpaces [] s h = refl
scan_word-NoSpaces (c ∷ w) s h = rw (h.0, scan_word-NoSpaces w s h.1) refl

scan_word-all : (w : Text) → NoSpaces w → scan_word w ≡ (w, [])
unfolding scan_word
scan_word-all [] h = refl
scan_word-all (c ∷ w) h = rw (h.0, scan_word-all w h.1) refl

scan_set-NoNul : (w : Text) → NoNul w → scan_set w ≡ w
unfolding scan_set
scan_set-NoNul [] h = refl
scan_set-NoNul (c ∷ w) h = rw (h.0, scan_set-NoNul w h.1) refl

pub scan_int-last : (n : ℕ) → scan_int (b' ' ∷ print_nat n) ≡ number (pos n) []
scan_int-last n =
    ap (λ s. scan_int (b' ' ∷ s)) (sym (append-nil (print_nat n))) ∙ scan_int-blank n [] tt

-- The message in which a run sends its result is read by the server as the process id and the result
-- that it was made of, and nothing else is written.
pub scan_terminate-result_message :
    (pid result : ℕ) (b : Buffers)
    → scanner.terminate (result_message pid result) b
      ≡ (true, record b { pid = pid; result = result })
unfolding scan_terminate literal
scan_terminate-result_message pid result b =
    rw (scan_int-blank pid (b' ' ∷ print_nat result) refl, scan_int-last result) refl

-- The message in which a tester registers is read by the server as the process id and the name of the
-- queue that it was made of, if the name is not empty and has no white space.
pub scan_register-register_message :
    (pid c : ℕ) (queue : Text) (b : Buffers)
    → NoSpaces (c ∷ queue)
    → scanner.register (register_message pid (c ∷ queue)) b
      ≡ (true, record b { pid = pid; queue = c ∷ queue })
unfolding scan_register literal skip
scan_register-register_message pid c queue b plain =
    rw (scan_int-blank pid (b' ' ∷ c ∷ queue) refl, plain.0, scan_word-all (c ∷ queue) plain) refl

-- The message in which a tester sends a word is read by the server as the process id, the name of the
-- queue, the number and the word that it was made of, if the name and the word are not empty, the name
-- has no white space, and the word does not begin with white space and has none of the characters N, U
-- and L.
pub scan_parse-parse_message :
    (pid loc_id c d : ℕ) (queue word : Text) (b : Buffers)
    → NoSpaces (c ∷ queue)
    → is_space d ≡ false
    → NoNul (d ∷ word)
    → scanner.parse (parse_message pid (c ∷ queue) loc_id (d ∷ word)) b
      ≡ (true, record b { pid = pid; queue = c ∷ queue; loc_id = loc_id; text = d ∷ word })
unfolding scan_parse literal skip
scan_parse-parse_message pid loc_id c d queue word b named visible plain =
    rw
      (
        scan_int-blank pid (b' ' ∷ c ∷ (queue ++ (b' ' ∷ (print_nat loc_id ++ (b' ' ∷ d ∷ word)))))
            refl,
        named.0,
        scan_word-NoSpaces (c ∷ queue) (print_nat loc_id ++ (b' ' ∷ d ∷ word)) named,
        scan_int-blank loc_id (b' ' ∷ d ∷ word) refl,
        visible,
        scan_set-NoNul (d ∷ word) plain,
      )
      refl
