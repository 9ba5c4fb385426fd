-- ===== src/Memory/Examples.antt =====
-- The theorems about the collector at small states of it.
use automaton_state_machine.Base.{
  ℕ, ◌≡◌, refl, Option, none, some, true, false, ◌==◌, ◌||◌, List, [], ◌∷◌, ◌++◌, arith,
  if◌then◌else◌,
}
use automaton_state_machine.Base.Int.{pos}
use automaton_state_machine.Base.Outcome.{ok, undefined, ◌>>=◌}
use automaton_state_machine.Base.Step.{continues}
use automaton_state_machine.ArrayList.Ops.{ArrayList}
use automaton_state_machine.ExitHandlers.Ops.{Handlers, no_handlers}
use automaton_state_machine.HashMap.Ops.{find}
use automaton_state_machine.HashMap.Assoc.{IsUnique}
use automaton_state_machine.Memory.State.{Gc, hash_map_void_ptr_cmp, same_address}
use automaton_state_machine.Memory.Tree.{returns, exits_with, gc_mem_tree_proxy}
use automaton_state_machine.Memory.Descriptors.{close_descriptor}
use automaton_state_machine.Memory.Registry.{Tracks}
use automaton_state_machine.Memory.Program.{
  Request, allocate, reallocate, release, perform_all, free_all-perform_all,
}
use automaton_state_machine.Memory.Fork.{fork_free-twice}
use automaton_state_machine.Memory.Stale.{exit-gc_del}
use automaton_state_machine.ExitHandlers.Ops.{exit_handler_exec, run_slots}
use automaton_state_machine.Memory.Setup.{gc_init, gc_init-Tracks}

-- an array of `n` buckets, of which one may hold the elements `es`
abbrev slots : {E : Type 0} → List E → ℕ → Option (List E)
slots [] i = none
slots (e ∷ es) i = if i == 1000 then some (e ∷ es) else none

abbrev buckets : {E : Type 0} → List E → ArrayList (List E)
buckets es = record { cells = λ i. ok (slots es i); alloc_size = 1002; size = 1001 }

-- one allocated block, and no handlers
abbrev one_block : Gc
one_block = record {
  installed = true;
  on = true;
  once = true;
  log = false;
  mem = record { nodes = buckets ((40, 40) ∷ []); cmp = hash_map_void_ptr_cmp };
  handlers = record { nodes = buckets []; cmp = same_address };
  live = λ p. 40 == p || false;
  closed = [];
}

one_block-Tracks : Tracks one_block (40 ∷ []) []
unfolding IsUnique find
one_block-Tracks = record {
  registers = record {
    ready = refl;
    switched = refl;
    started = refl;
    register = record {
      map = record {
        slots = slots ((40, 40) ∷ []);
        held = record { fits = omega arith; filled = λ i lt. refl; behind = λ i le. ground arith };
        bucket = refl;
        others = λ i ne. ground arith;
        unique = (refl, tt);
      };
      cmp = refl;
    };
    handled = record {
      slots = λ i. none;
      held = record { fits = omega arith; filled = λ i lt. refl; behind = λ i le. refl };
      bucket = refl;
      others = λ i ne. refl;
      unique = tt;
    };
    compares = refl;
    distinct = (refl, tt);
    no_null = refl;
  };
  allocated = λ p. refl;
}

abbrev requests : List Request
requests = allocate 16 50 ∷ reallocate 40 32 60 ∷ release 50 ∷ allocate 8 40 ∷ []

free_all-perform_all_example :
    (g₁ : Gc) × (g₂ : Gc) × (perform_all 10 requests one_block ≡ ok (continues g₁))
    × Tracks g₁ (60 ∷ 40 ∷ []) []
    × (gc_mem_tree_proxy close_descriptor 10 0 0 2 0 0 0 g₁ ≡ ok (returns g₂))
    × Tracks g₂ [] []
    × (g₂.closed ≡ g₁.closed ++ [])
free_all-perform_all_example =
    free_all-perform_all 10 requests one_block-Tracks
      (((λ e. cc e), refl), ((refl, (λ e. cc e), refl), (refl, (((λ e. cc e), refl), tt))))
      (omega arith) (omega arith)

fork_free-twice_example :
    (g : Gc) × (gc_mem_tree_proxy close_descriptor 10 0 0 5 0 0 0 one_block ≡ ok (returns g))
    × ((p : ℕ) → g.live p ≡ false)
    × (gc_mem_tree_proxy close_descriptor 10 0 0 2 0 0 0 g ≡ undefined)
fork_free-twice_example = fork_free-twice one_block-Tracks 10 (omega arith) (omega arith)

-- descriptor 7 of type 200, with the destructor at address 300
exit-gc_del_example :
    (g₁ : Gc) × (g₂ : Gc) × (g₃ : Gc) × (gc_mem_tree_proxy close_descriptor 10 900 0 6 7 300 200
        one_block
      ≡ ok (returns g₁))
    × (gc_mem_tree_proxy close_descriptor 10 0 901 7 7 0 200 g₁ ≡ ok (returns g₂))
    × (gc_mem_tree_proxy close_descriptor 10 0 0 3 0 0 0 g₂ ≡ ok (exits_with (pos 0) g₃))
    × (g₃.closed ≡ (300, 7) ∷ [])
unfolding find
exit-gc_del_example =
    exit-gc_del one_block-Tracks 10 900 901 7 300 200 0 (λ e. cc e) refl refl (omega arith)
      (omega arith)

abbrev new_collector : Gc
new_collector = record one_block { installed = false; once = false; live = λ p. false }

gc_init-Tracks_example :
    (s : Handlers ℕ) × (g₁ : Gc) × (g₂ : Gc) × (gc_init 5 true (no_handlers ℕ) new_collector
      ≡ ok (continues (s, g₁)))
    × (s.registered ≡ true)
    × (exit_handler_exec s
        ≡ (run_slots 0 0 (λ i. none) >>= λ run. ok (run ++ 5 ∷ [], record s { called = true })))
    × Tracks g₂ [] []
    × ((fuel copy local mode p q r : ℕ)
        → gc_mem_tree_proxy close_descriptor fuel copy local mode p q r g₁
          ≡ gc_mem_tree_proxy close_descriptor fuel copy local mode p q r g₂)
gc_init-Tracks_example =
    gc_init-Tracks close_descriptor 5 (no_handlers ℕ)
      (record { switched = refl; unstarted = refl; nothing = λ p. refl }) refl
