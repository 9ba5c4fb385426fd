-- ===== src/Memory/Setup.antt =====
-- `__gc_init__` of src/gcinit.h, and the first call of the collector.
use automaton_state_machine.Base.{
  ℕ, ◌≡◌, refl, ap, ◌∙◌, Bool, true, false, none, some, [], ◌∷◌, ◌++◌, arith, if_true, if_false,
}
use automaton_state_machine.Base.Outcome.{Outcome, ok, ◌>>=◌}
use automaton_state_machine.Base.Step.{Step, continues, exits}
use automaton_state_machine.ExitHandlers.Ops.{
  Handlers, exit_handler_setup, exit_handler_override_gc, exit_handler_exec, run_slots,
  onexit_handler_op,
}
use automaton_state_machine.HashMap.Laws.{hash_map_new-IsMap}
use automaton_state_machine.Memory.State.{Gc, hash_map_void_ptr_cmp, same_address}
use automaton_state_machine.Memory.Tree.{gc_mem_tree_proxy, gc_mem_tree, gc_mode, end_call}
use automaton_state_machine.Memory.Registry.{Tracks}

-- `__gc_init__`, given the hook and whether `atexit` succeeds
unfoldable pub gc_init :
    {H : Type 0} → H → Bool → Handlers H → Gc → Outcome (Step (Handlers H × Gc))
unfolding onexit_handler_op
gc_init hook succeeds s g = elim (exit_handler_setup succeeds s) [
  | none ↦ ok exits
  | some s' ↦ exit_handler_override_gc (some hook) s' >>= λ (run, s'').
      ok (continues (s'', record g { installed = true }))
]

-- the collector as a process starts with it, with nothing allocated
pub record IsNew (g : Gc) : Type 0 where
  pub switched : g.on ≡ true
  pub unstarted : g.once ≡ false
  pub nothing : (p : ℕ) → g.live p ≡ false

setup_lem :
    {H : Type 0} (hook : H) (s : Handlers H) (g : Gc)
    → gc_init hook true s g
      ≡ ok (
          continues
            (record s { registered = true; gc_slot = some hook }, record g { installed = true }))
unfolding gc_init
setup_lem hook s g = ground arith

-- Once `__gc_init__` has succeeded, the executor of the exit handlers is registered and runs the
-- collector's hook behind the handlers in the slots; and the first call of the collector, in whatever
-- mode, does what it does in a state that tracks the allocated blocks, of which there are none.
pub gc_init-Tracks :
    {H : Type 0} (destructor : ℕ → ℕ → Gc → Outcome Gc) (hook : H) (s : Handlers H) {g : Gc}
    → IsNew g
    → s.called ≡ false
    → (s' : Handlers H) × (g₁ : Gc) × (g₂ : Gc) × (gc_init hook true s g ≡ ok (continues (s', g₁)))
      × (s'.registered ≡ true)
      × (exit_handler_exec s' ≡ (
          run_slots s.count 0 s.slots >>= λ run.
          ok (run ++ hook ∷ [], record s' { called = true })))
      × Tracks g₂ [] []
      × ((fuel copy local mode p q r : ℕ)
          → gc_mem_tree_proxy destructor fuel copy local mode p q r g₁
            ≡ gc_mem_tree_proxy destructor fuel copy local mode p q r g₂)
unfolding gc_init gc_mem_tree_proxy gc_mem_tree onexit_handler_op
gc_init-Tracks destructor hook s {g} new uncalled =
    let (mem, makes, cmp, map) = hash_map_new-IsMap hash_map_void_ptr_cmp in
    let (handlers, makes', cmp', map') = hash_map_new-IsMap same_address in
    (
      record s { registered = true; gc_slot = some hook },
      record g { installed = true },
      record g { installed = true; on = true; once = true; mem = mem; handlers = handlers },
      setup_lem hook s g,
      refl,
      rw uncalled refl,
      record {
        registers = record {
          ready = refl;
          switched = refl;
          started = refl;
          register = record { map = map; cmp = cmp };
          handled = map';
          compares = cmp';
          distinct = tt;
          no_null = refl;
        };
        allocated = new.nothing;
      },
      λ fuel copy local mode p q r.
          if_true _ _ new.switched
          ∙ ap
              (λ o. o >>= λ g₁. gc_mode destructor fuel copy local mode p q r g₁ >>= λ e.
                ok (end_call destructor e))
              (if_false _ _ new.unstarted)
          ∙ rw makes (rw makes' refl),
    )
