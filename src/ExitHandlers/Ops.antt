-- ===== src/ExitHandlers/Ops.antt =====
-- The operations of src/onexit.h.
use automaton_state_machine.Base.{
  ℕ, zero, suc, ◌+◌, Bool, true, false, List, [], ◌∷◌, ◌++◌, if◌then◌else◌, Option, none, some,
}
use automaton_state_machine.Base.Int.{ℤ, pos, negsuc}
use automaton_state_machine.Base.Outcome.{Outcome, ok, ◌>>=◌, index, store}

-- `ON_EXIT_MAX_HANDLERS_COUNT`
abbrev pub on_exit_max_handlers_count : ℕ
on_exit_max_handlers_count = 10

module _ (H : Type 0) where
  -- the static variables of `__onexit_handler_op__` and `ExitHandlerSetup`, where the slots are NULL at
  -- first; whether `atexit` has the executor
  pub record Handlers : Type 0 where
    pub gc_slot : Option H
    pub slots : ℕ → Option H
    pub count : ℕ
    pub called : Bool
    pub registered : Bool

  abbrev pub no_handlers : Handlers
  no_handlers = record {
    gc_slot = none;
    slots = λ i. none;
    count = 0;
    called = false;
    registered = false;
  }

module _ {H : Type 0} where
  -- the handlers in the slots that are in use, `n` of them from slot `i` on
  unfoldable pub run_slots : ℕ → ℕ → (ℕ → Option H) → Outcome (List H)
  run_slots zero i slots = ok []
  run_slots (suc n) i slots = index on_exit_max_handlers_count slots (pos i) >>= λ slot.
      run_slots n (i + 1) slots >>= λ rest. elim slot [ none ↦ ok rest | some h ↦ ok (h ∷ rest) ]

  abbrev pub run_gc : Option H → List H
  run_gc none = []
  run_gc (some h) = h ∷ []

  -- `__onexit_handler_op__`: the handlers that it runs, in order, and the variables after it
  unfoldable pub onexit_handler_op : ℤ → Option H → Handlers H → Outcome (List H × Handlers H)
  onexit_handler_op (pos zero) handler s = ok ([], record s { gc_slot = handler })
  onexit_handler_op (pos (suc zero)) handler s =
      store on_exit_max_handlers_count s.slots (pos s.count) handler >>= λ slots.
      ok ([], record s { slots = slots; count = s.count + 1 })
  onexit_handler_op (pos (suc (suc n))) handler s = ok ([], s)
  onexit_handler_op (negsuc zero) handler s =
      if s.called
      then ok ([], s)
      else run_slots s.count 0 s.slots >>= λ run.
          ok (run ++ run_gc s.gc_slot, record s { called = true })
  onexit_handler_op (negsuc (suc n)) handler s = ok ([], s)

  -- `ExitHandlerOverrideGC`, `ExitHandlerAdd` and `ExitHandlerExec`
  abbrev pub exit_handler_override_gc : Option H → Handlers H → Outcome (List H × Handlers H)
  exit_handler_override_gc handler s = onexit_handler_op (pos 0) handler s

  abbrev pub exit_handler_add : Option H → Handlers H → Outcome (List H × Handlers H)
  exit_handler_add handler s = onexit_handler_op (pos 1) handler s

  abbrev pub exit_handler_exec : Handlers H → Outcome (List H × Handlers H)
  exit_handler_exec s = onexit_handler_op (negsuc 0) none s

  -- `ExitHandlerIsExitting`
  abbrev pub exit_handler_is_exitting : Handlers H → Bool
  exit_handler_is_exitting s = s.called

  -- `ExitHandlerSetup`, given whether `atexit` succeeds: what it registers, or the end of the process
  -- by `syserr`
  abbrev pub exit_handler_setup : Bool → Handlers H → Option (Handlers H)
  exit_handler_setup succeeds s =
      if s.registered
      then some s
      else if succeeds
      then some (record s { registered = true })
      else none
