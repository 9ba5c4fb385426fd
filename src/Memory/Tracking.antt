-- ===== src/Memory/Tracking.antt =====
-- What the allocation functions of src/memalloc.h make of the register.
use automaton_state_machine.Base.{
  ℕ, ◌+◌, ◌<◌, ◌≡◌, ◌≢◌, refl, ap, ◌∙◌, true, false, ◌==◌, List, [], ◌∷◌, ◌++◌, length, arith,
  if_false,
}
use automaton_state_machine.Base.Int.{pos}
use automaton_state_machine.Base.Outcome.{Outcome, ok}
use automaton_state_machine.Base.Step.{continues}
use automaton_state_machine.HashMap.Ops.{Bucket}
use automaton_state_machine.Memory.State.{Gc, Holder, Destr, mark, free_block}
use automaton_state_machine.Memory.Alloc.{
  allocate_memory_block, reallocate_memory_block, replace_block, free_ptr,
}
use automaton_state_machine.Memory.Blocks.{
  has, remove, length-remove, has-append, has-remove, has-remove_self,
}
use automaton_state_machine.Memory.Registry.{Tracks, on_alloc-Registers, on_free-Registers}

module _ (destructor : ℕ → ℕ → Gc → Outcome Gc) (fuel : ℕ) where
  module _ {g : Gc} {bs : List ℕ} {hs : Bucket Holder Destr} (t : Tracks g bs hs) where
    -- `AllocateMemoryBlock` with a size that is not negative returns the block that `malloc` returns,
    -- and adds it to the register.
    pub allocate_memory_block-Tracks :
        (size p : ℕ)
        → p ≢ 0
        → has p bs ≡ false
        → length bs + 1 < fuel
        → (g' : Gc) × (allocate_memory_block destructor fuel (pos size) p g
            ≡ ok (continues (p, g')))
          × Tracks g' (bs ++ p ∷ []) hs
    unfolding allocate_memory_block
    allocate_memory_block-Tracks size p ne new enough =
        let nonzero : (p == 0) ≡ false = ground arith in
        let (m, run, r) =
          on_alloc-Registers destructor fuel g bs hs (mark g.live p true) t.registers p ne new
            enough in
        (
          record g { live = mark g.live p true; on = true; mem = m },
          rw nonzero (rw run (rw nonzero refl)),
          record {
            registers = r;
            allocated = λ q. ground (arith, has-append q p bs, t.allocated q);
          },
        )

    -- `FreePtr` frees an allocated block, and takes it off the register.
    pub free_ptr-Tracks :
        (p : ℕ)
        → has p bs ≡ true
        → length bs < fuel
        → (g' : Gc) × (free_ptr destructor fuel p g ≡ ok (continues g'))
          × Tracks g' (remove p bs) hs
    unfolding free_ptr free_block
    free_ptr-Tracks p held enough =
        let ne : p ≢ 0 = λ e. cc (ap (λ q. has q bs) e, t.registers.no_null) in
        let nonzero : (p == 0) ≡ false = ground arith in
        let (m, run, r) =
          on_free-Registers destructor fuel g bs hs g.live t.registers p ne enough in
        (
          record g { live = mark g.live p false; on = true; mem = m },
          rw nonzero (rw run (rw (t.allocated p, held) refl)),
          record {
            registers = record {
              ready = r.ready;
              switched = r.switched;
              started = r.started;
              register = r.register;
              handled = r.handled;
              compares = r.compares;
              distinct = r.distinct;
              no_null = r.no_null;
            };
            allocated = λ q. ground (
              arith,
              has-remove q p bs,
              has-remove_self p bs t.registers.distinct,
              t.allocated q,
            );
          },
        )

    -- A `realloc` that succeeds frees the old block and gives another, or the same: the register
    -- follows.
    pub replace_block-Tracks :
        (old p : ℕ)
        → has old bs ≡ true
        → p ≢ 0
        → has p (remove old bs) ≡ false
        → length bs + 1 < fuel
        → (g' : Gc) × (replace_block destructor fuel old p g ≡ ok (continues (p, g')))
          × Tracks g' (remove old bs ++ p ∷ []) hs
    unfolding replace_block
    replace_block-Tracks old p held ne new enough =
        let old_ne : old ≢ 0 = λ e. cc (ap (λ q. has q bs) e, t.registers.no_null) in
        let old_nonzero : (old == 0) ≡ false = ground arith in
        let nonzero : (p == 0) ≡ false = ground arith in
        let live = mark (mark g.live old false) p true in
        let (m₁, frees, r₁) =
          on_free-Registers destructor fuel g bs hs live t.registers old old_ne (omega arith) in
        let (m₂, allocs, r₂) =
          on_alloc-Registers destructor fuel (record g { live = live; on = true; mem = m₁ })
            (remove old bs) hs live r₁ p ne new (omega (arith, length-remove old bs)) in
        (
          record g { live = live; on = true; mem = m₂ },
          rw (old_nonzero, t.allocated old, held)
              (rw nonzero (rw frees (rw allocs (rw nonzero refl)))),
          record {
            registers = r₂;
            allocated = λ q. ground (
              arith,
              has-append q p (remove old bs),
              has-remove q old bs,
              has-remove_self old bs t.registers.distinct,
              t.allocated q,
            );
          },
        )

    pub reallocate_memory_block-Tracks :
        (old size p : ℕ)
        → has old bs ≡ true
        → p ≢ 0
        → has p (remove old bs) ≡ false
        → length bs + 1 < fuel
        → (g' : Gc) × (reallocate_memory_block destructor fuel old (pos size) p g
            ≡ ok (continues (p, g')))
          × Tracks g' (remove old bs ++ p ∷ []) hs
    unfolding reallocate_memory_block
    reallocate_memory_block-Tracks old size p held ne new enough =
        let old_ne : old ≢ 0 = λ e. cc (ap (λ q. has q bs) e, t.registers.no_null) in
        let old_nonzero : (old == 0) ≡ false = ground arith in
        let (g', run, t') = replace_block-Tracks old p held ne new enough in
        (g', if_false _ _ old_nonzero ∙ run, t')
