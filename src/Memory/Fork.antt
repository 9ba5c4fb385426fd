-- ===== src/Memory/Fork.antt =====
-- `GC_FORK_FREE` keeps the register, so that the blocks in it are freed again.
use automaton_state_machine.Base.{
  ℕ, zero, suc, ◌<◌, ◌≡◌, ◌≢◌, refl, ◌∙◌, true, false, ◌==◌, leb, List, ◌∷◌, ◌++◌, length, arith,
  inl, inr,
}
use automaton_state_machine.Base.Outcome.{ok, undefined}
use automaton_state_machine.HashMap.Ops.{Bucket}
use automaton_state_machine.HashMap.Iterator.{Iterator}
use automaton_state_machine.HashMap.Places.{iterator, hash_map_begin-At, hash_map_is_end-At}
use automaton_state_machine.HashMap.Laws.{IsMap}
use automaton_state_machine.Memory.State.{Gc, Holder, Destr, free_block}
use automaton_state_machine.Memory.Tree.{
  returns, gc_mem_tree_proxy, gc_mode, gc_clean, clean_up, free_blocks,
}
use automaton_state_machine.Memory.Descriptors.{close_descriptor, closes_of}
use automaton_state_machine.Memory.Blocks.{pairs}
use automaton_state_machine.Memory.Registry.{Registers, Tracks, call_is, call_undefined}
use automaton_state_machine.Memory.Clean.{
  cleaned, handling, run_handlers-all, get_value-element, clean_up-all,
}

-- the loop over the blocks, where the first one is not allocated
free_blocks-undefined :
    (g : Gc) (fuel b : ℕ) (bs : List ℕ) (it : Iterator)
    → IsMap g.mem (pairs (b ∷ bs))
    → it ≡ iterator 1000 0
    → b ≢ 0
    → g.live b ≡ false
    → free_blocks (suc fuel) it g ≡ undefined
unfolding free_blocks free_block
free_blocks-undefined g fuel b bs it map here ne freed =
    let nonzero : (b == 0) ≡ false = ground arith in
    let (m, ends, cmp, map') =
      hash_map_is_end-At g.mem (pairs (b ∷ bs)) map 0 it (inl (omega arith, here)) in
    let value = get_value-element m (pairs (b ∷ bs)) map' 0 (omega arith) b b refl it here in
    let more : leb (length (pairs (b ∷ bs))) 0 ≡ false = ground arith in
    rw (ends, more, free_blocks) (rw value (rw (nonzero, freed) refl))

clean_up-undefined :
    (g : Gc) (fuel b : ℕ) (bs : List ℕ) (hs : Bucket Holder Destr)
    → IsMap g.mem (pairs (b ∷ bs))
    → IsMap g.handlers hs
    → b ≢ 0
    → g.live b ≡ false
    → length hs < suc fuel
    → clean_up close_descriptor (suc fuel) (record g { on = false }) ≡ undefined
unfolding clean_up
clean_up-undefined g fuel b bs hs map handled ne freed enough =
    let (i, begins, at) = hash_map_begin-At g.handlers hs handled in
    let (h, runs, cmp_h, map_h) =
      run_handlers-all g hs (suc fuel) 0 i g.handlers hs g.closed handled at refl enough in
    let (j, begins', at') = hash_map_begin-At g.mem (pairs (b ∷ bs)) map in
    let here : j ≡ iterator 1000 0 = elim at' [
      | inl first ↦ first.1
      | inr nothing ↦ absurd (omega (arith, nothing.0))
    ] in
    rw begins (
      rw runs (
        rw begins' (
          free_blocks-undefined (handling g h (g.closed ++ closes_of hs)) fuel b bs j map here ne
            freed)))

-- Where a block is allocated, `GC_FORK_FREE` frees all blocks and goes on, and the next
-- `GC_FREE_ALL`, which is what an exit calls, frees a block that is free.
pub fork_free-twice :
    {g : Gc} {b : ℕ} {bs : List ℕ} {hs : Bucket Holder Destr}
    → Tracks g (b ∷ bs) hs
    → (fuel : ℕ) → length (b ∷ bs) < fuel
    → length hs < fuel
    → (g' : Gc) × (gc_mem_tree_proxy close_descriptor fuel 0 0 5 0 0 0 g ≡ ok (returns g'))
      × ((p : ℕ) → g'.live p ≡ false)
      × (gc_mem_tree_proxy close_descriptor fuel 0 0 2 0 0 0 g' ≡ undefined)
unfolding gc_mode gc_clean
fork_free-twice {g} {b} {bs} {hs} t zero enough enough' = absurd (omega arith)
fork_free-twice {g} {b} {bs} {hs} t (suc fuel) enough enough' =
    let (m, h, live, run, cmp_m, cmp_h, map_m, map_h, freed) =
      clean_up-all (record g { on = false }) (suc fuel) (b ∷ bs) hs refl t.registers.register.map
        t.registers.handled t.registers.distinct t.registers.no_null t.allocated enough enough' in
    let left : Gc = cleaned g m h live (g.closed ++ closes_of hs) in
    let ne : b ≢ 0 = ground (arith, t.registers.no_null) in
    let still : Registers (record left { on = true }) (b ∷ bs) hs = record {
      ready = t.registers.ready;
      switched = refl;
      started = t.registers.started;
      register = record { map = map_m; cmp = cmp_m ∙ t.registers.register.cmp };
      handled = map_h;
      compares = cmp_h ∙ t.registers.compares;
      distinct = t.registers.distinct;
      no_null = t.registers.no_null;
    } in
    (
      record left { on = true },
      call_is close_descriptor (suc fuel) t.registers 0 0 5 0 0 0 (returns left) (rw run refl),
      freed,
      call_undefined close_descriptor (suc fuel) still 0 0 2 0 0 0
          (rw (clean_up-undefined left fuel b bs hs map_m map_h ne (freed b) enough') refl),
    )
