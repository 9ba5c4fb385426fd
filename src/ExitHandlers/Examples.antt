-- ===== src/ExitHandlers/Examples.antt =====
-- Handlers that are known by numbers.
use automaton_state_machine.Base.{ℕ, ◌≡◌, [], ◌∷◌, arith}
use automaton_state_machine.Base.Outcome.{ok}
use automaton_state_machine.ExitHandlers.Ops.{Handlers, exit_handler_exec}
use automaton_state_machine.ExitHandlers.Order.{run_all, exit_handler_exec-order}

exit_handler_exec-order_example :
    (t : Handlers ℕ) × (run_all (1 ∷ 2 ∷ []) 9 (3 ∷ []) ≡ ok (1 ∷ 2 ∷ 3 ∷ 9 ∷ [], t))
    × (exit_handler_exec t ≡ ok ([], t))
exit_handler_exec-order_example = exit_handler_exec-order (1 ∷ 2 ∷ []) 9 (3 ∷ []) (omega arith)
