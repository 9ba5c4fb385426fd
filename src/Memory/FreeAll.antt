-- ===== src/Memory/FreeAll.antt =====
-- `GC_FREE_ALL`, `GC_EXIT` and `GC_FORK_FREE` of a collector that tracks the blocks of the program.
use automaton_state_machine.Base.{
  ℕ, ◌<◌, ◌≡◌, refl, ◌∙◌, Bool, true, false, ◌==◌, List, [], ◌++◌, length, if◌then◌else◌,
}
use automaton_state_machine.Base.Outcome.{ok}
use automaton_state_machine.HashMap.Ops.{HashMap, Bucket}
use automaton_state_machine.HashMap.Destroy.{hash_map_destroy_deep, hash_map_destroy-all}
use automaton_state_machine.HashMap.Laws.{IsMap}
use automaton_state_machine.Memory.State.{Gc, Holder, Destr, int_of_ptr}
use automaton_state_machine.Memory.Tree.{
  returns, exits_with, gc_mem_tree_proxy, gc_mode, gc_clean, clean_up,
}
use automaton_state_machine.Memory.Descriptors.{close_descriptor, closes_of}
use automaton_state_machine.Memory.Blocks.{pairs}
use automaton_state_machine.Memory.Registry.{Tracks, call_is}
use automaton_state_machine.Memory.Clean.{cleaned, clean_up-all}

module _ {g : Gc} {bs : List ℕ} {hs : Bucket Holder Destr} (t : Tracks g bs hs) (fuel : ℕ)
    (enough : length bs < fuel) (enough' : length hs < fuel) where
  cleaning :
      (m : HashMap ℕ ℕ) × (h : HashMap Holder Destr) × (live : ℕ → Bool) × (clean_up
          close_descriptor fuel
          (record g { on = false })
        ≡ ok (cleaned g m h live (g.closed ++ closes_of hs)))
      × (m.cmp ≡ g.mem.cmp)
      × (h.cmp ≡ g.handlers.cmp)
      × IsMap m (pairs bs)
      × IsMap h hs
      × ((p : ℕ) → live p ≡ false)
  cleaning =
      clean_up-all (record g { on = false }) fuel bs hs refl t.registers.register.map
        t.registers.handled t.registers.distinct t.registers.no_null t.allocated enough enough'

  -- what the clean-up, with the release of the maps, leaves
  destroyed :
      (mode p : ℕ)
      → (mode == 5) ≡ false
      → (m : HashMap ℕ ℕ) × (h : HashMap Holder Destr) × (live : ℕ → Bool) × (gc_clean
            close_descriptor fuel mode p
            (record g { on = false })
          ≡ ok (
              if mode == 3
              then exits_with (int_of_ptr p) (cleaned g m h live (g.closed ++ closes_of hs))
              else returns (cleaned g m h live (g.closed ++ closes_of hs))))
        × (m.cmp ≡ g.mem.cmp)
        × (h.cmp ≡ g.handlers.cmp)
        × IsMap m []
        × IsMap h []
        × ((p : ℕ) → live p ≡ false)
  unfolding gc_clean hash_map_destroy_deep
  destroyed mode p final =
      let (m, h, live, run, cmp_m, cmp_h, map_m, map_h, freed) = cleaning in
      let (m', release, cmp_m', map_m') = hash_map_destroy-all m (pairs bs) map_m in
      let (h', release', cmp_h', map_h') = hash_map_destroy-all h hs map_h in
      (
        m',
        h',
        live,
        rw run (rw final (rw release (rw release' refl))),
        cmp_m' ∙ cmp_m,
        cmp_h' ∙ cmp_h,
        map_m',
        map_h',
        freed,
      )

  -- `GC_FREE_ALL` ends without freeing a block twice; it frees every allocated block, calls the
  -- destructors in the order in which the handlers were added, and leaves an empty register.
  pub free_all-Tracks :
      (g' : Gc) × (gc_mem_tree_proxy close_descriptor fuel 0 0 2 0 0 0 g ≡ ok (returns g'))
      × Tracks g' [] []
      × (g'.closed ≡ g.closed ++ closes_of hs)
  unfolding gc_mode
  free_all-Tracks =
      let (m, h, live, run, cmp_m, cmp_h, map_m, map_h, freed) = destroyed 2 0 refl in
      (
        record (cleaned g m h live (g.closed ++ closes_of hs)) { on = true },
        call_is close_descriptor fuel t.registers 0 0 2 0 0 0 _ run,
        record {
          registers = record {
            ready = t.registers.ready;
            switched = refl;
            started = t.registers.started;
            register = record { map = map_m; cmp = cmp_m ∙ t.registers.register.cmp };
            handled = map_h;
            compares = cmp_h ∙ t.registers.compares;
            distinct = tt;
            no_null = refl;
          };
          allocated = freed;
        },
        refl,
      )

  -- `GC_EXIT` ends the process with its code, with no block allocated and every handler called.
  pub exit-frees :
      (code : ℕ)
      → (g' : Gc) × (gc_mem_tree_proxy close_descriptor fuel 0 0 3 code 0 0 g
          ≡ ok (exits_with (int_of_ptr code) g'))
        × ((p : ℕ) → g'.live p ≡ false)
        × (g'.closed ≡ g.closed ++ closes_of hs)
  unfolding gc_mode
  exit-frees code =
      let (m, h, live, run, cmp_m, cmp_h, map_m, map_h, freed) = destroyed 3 code refl in
      (
        cleaned g m h live (g.closed ++ closes_of hs),
        call_is close_descriptor fuel t.registers 0 0 3 code 0 0 _ run,
        freed,
        refl,
      )
