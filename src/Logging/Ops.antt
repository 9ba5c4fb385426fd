-- ===== src/Logging/Ops.antt =====
-- The functions of src/syslog.h, as the text that they print and whether they end the process. The
-- message, made by `vfprintf` from its format, is a parameter.
use automaton_state_machine.Base.{
  ℕ, ◌-◌, Bool, true, false, ◌&&◌, not, [], ◌∷◌, ◌++◌, ◌==◌, ltb, if◌then◌else◌, length, replicate,
  Option, none, some,
}
use automaton_state_machine.Base.Int.{ℤ}
use automaton_state_machine.Text.Scan.{Text, print_nat, print_int}

-- `SYS_LOG_PRINT_FNAMES`, `SYS_LOG_PROMOTE_TO_ERRORS` and `SYS_LOG_HANDLE_FATALS`
pub record Settings : Type 0 where
  pub print_fnames : Bool
  pub promote_to_errors : Bool
  pub handle_fatals : Bool

abbrev pub default_settings : Settings
default_settings = record { print_fnames = true; promote_to_errors = false; handle_fatals = true }

-- what the functions ask of the process: `getpid`, `errno` and `strerror`
pub record ProcessInfo : Type 0 where
  pub pid : ℕ
  pub errno : ℤ
  pub strerror : Text

-- `%-ns`, which fills up with blanks
abbrev pub padded : ℕ → Text → Text
padded n s = s ++ replicate (n - length s) b' '

abbrev pub escape : Text → Text
escape s = 27 ∷ b'[' ∷ (s ++ b'm' ∷ [])

-- the escape sequence of a level
unfoldable pub level_color : ℕ → Text
level_color level =
    if level == 0
    then escape (b'0' ∷ [])
    else if level == 1
    then escape (b'0' ∷ b';' ∷ b'3' ∷ b'4' ∷ [])
    else if level == 2
    then escape (b'0' ∷ b';' ∷ b'3' ∷ b'2' ∷ [])
    else if level == 3
    then escape (b'0' ∷ b';' ∷ b'3' ∷ b'3' ∷ [])
    else escape (b'0' ∷ b';' ∷ b'3' ∷ b'1' ∷ [])

abbrev pub label_text : Option Text → Text
label_text (some label) = padded 8 label ++ b' ' ∷ []
label_text none = b' ' ∷ (padded 8 (b' ' ∷ b' ' ∷ []) ++ (b' ' ∷ b' ' ∷ []))

-- `" %-5d %-10s "`
abbrev pub function_text : ProcessInfo → Text → Text
function_text i name = b' ' ∷ (padded 5 (print_nat i.pid) ++ (b' ' ∷ (padded 10 name ++ b' ' ∷ [])))

-- `"errno %d: %s"`
abbrev pub errno_text : ProcessInfo → Text
errno_text i =
    b'e' ∷ b'r' ∷ b'r' ∷ b'n' ∷ b'o' ∷ b' ' ∷ (print_int i.errno ++ (b':' ∷ b' ' ∷ i.strerror))

-- `_log_on_` and `_log_off_`, which set `_runtime_log_status_` and return 1
abbrev pub log_on : ℕ × Bool
log_on = (1, true)

abbrev pub log_off : ℕ × Bool
log_off = (1, false)

-- the level that a message is promoted to
abbrev pub promoted : Settings → ℕ → ℕ
promoted c level = if c.promote_to_errors then 4 else level

-- `log_formated`, given `_runtime_log_status_`
unfoldable pub log_formated :
    Settings → ProcessInfo → Bool → ℕ → Bool → Option Text → Text → Text → Text × Bool
unfolding level_color
log_formated c i status level print_errno label function_name message =
    if not status && ltb level 5 then ([], false) else (
      level_color (promoted c level)
          ++ (label_text label
              ++ ((if c.print_fnames then function_text i function_name else [])
                  ++ (message
                      ++ ((if print_errno then errno_text i else [])
                          ++ (escape (b'0' ∷ []) ++ b'\n' ∷ []))))),
      ltb 4 (promoted c level) && c.handle_fatals,
    )

-- `"[%s] "`
abbrev pub fatal_label : Option Text → Text
fatal_label (some label) = b'[' ∷ (label ++ (b']' ∷ b' ' ∷ []))
fatal_label none = b'[' ∷ b'?' ∷ b']' ∷ b' ' ∷ []

-- `" (pid) %d in function %s] "`
abbrev pub fatal_function : ProcessInfo → Text → Text
fatal_function i name =
    b' '
    ∷ b'('
    ∷ b'p'
    ∷ b'i'
    ∷ b'd'
    ∷ b')'
    ∷ b' '
    ∷ (print_nat i.pid
        ++ (b' '
            ∷ b'i'
            ∷ b'n'
            ∷ b' '
            ∷ b'f'
            ∷ b'u'
            ∷ b'n'
            ∷ b'c'
            ∷ b't'
            ∷ b'i'
            ∷ b'o'
            ∷ b'n'
            ∷ b' '
            ∷ (name ++ (b']' ∷ b' ' ∷ []))))

-- `fatal_formated`
unfoldable pub fatal_formated :
    Settings → ProcessInfo → Bool → Bool → Option Text → Text → Text → Text × Bool
fatal_formated c i print_errno if_exit label function_name message = (
  escape (b'0' ∷ b';' ∷ b'3' ∷ b'1' ∷ [])
      ++ (b' '
          ∷ b'['
          ∷ b'P'
          ∷ b'r'
          ∷ b'o'
          ∷ b'c'
          ∷ b'e'
          ∷ b's'
          ∷ b's'
          ∷ b' '
          ∷ (fatal_label label
              ++ ((if c.print_fnames then fatal_function i function_name else [])
                  ++ (message
                      ++ ((if print_errno then errno_text i else [])
                          ++ (b'\n' ∷ escape (b'0' ∷ []))))))),
  if_exit,
)

-- `log_set`, for a state that is on or off
abbrev pub log_set : Bool → ℕ × Bool
log_set state = if state then log_on else log_off

-- the macros `log`, `log_info`, `log_ok`, `log_warn`, `log_err`, and `fatal`, `syserr` and `syserrv`
pub data Level : Type 0 where
  plain info success warn err fatal : Level

abbrev pub level_of : Level → ℕ
level_of plain = 0
level_of info = 1
level_of success = 2
level_of warn = 3
level_of err = 4
level_of fatal = 5
