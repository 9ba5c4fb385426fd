-- ===== src/Memory/Alloc.antt =====
-- The functions of src/memalloc.h. What `malloc`, `calloc` and `realloc` return is a parameter: the
-- address of a block, or NULL.
use automaton_state_machine.Base.{ℕ, ◌*◌, true, false, ◌==◌, ltb, if◌then◌else◌}
use automaton_state_machine.Base.Int.{ℤ, pos, negsuc}
use automaton_state_machine.Base.Outcome.{Outcome, ok, undefined, ◌>>=◌}
use automaton_state_machine.Base.Step.{Step, continues, exits}
use automaton_state_machine.Memory.State.{Gc, mark, free_block}
use automaton_state_machine.Memory.Tree.{Ended, returns, exits_with, gc_mem_tree_proxy}

-- the block that `malloc` or `calloc` returned is allocated
abbrev pub malloc_block : ℕ → Gc → Gc
malloc_block p g = if p == 0 then g else record g { live = mark g.live p true }

-- `realloc`: where it fails the old block stays; NULL has no old block
abbrev pub realloc_block : ℕ → ℕ → Gc → Outcome Gc
realloc_block old p g =
    if old == 0
    then ok (malloc_block p g)
    else if g.live old
    then ok (if p == 0 then g else record g { live = mark (mark g.live old false) p true })
    else undefined

abbrev pub continue_with : {A : Type 0} → Ended → (Gc → Outcome (Step A)) → Outcome (Step A)
continue_with (returns g) next = next g
continue_with (exits_with code g) next = ok exits

-- the test of the result at the end of an allocation, with `syserr`
abbrev pub checked : ℕ → Gc → Outcome (Step (ℕ × Gc))
checked p g = ok (if p == 0 then exits else continues (p, g))

module _ (destructor : ℕ → ℕ → Gc → Outcome Gc) where
  -- `GC_ON_ALLOC` and `GC_ON_FREE`
  abbrev pub gc_on_alloc : ℕ → ℕ → Gc → Outcome Ended
  gc_on_alloc fuel p g = gc_mem_tree_proxy destructor fuel 0 0 0 p 0 0 g

  abbrev pub gc_on_free : ℕ → ℕ → Gc → Outcome Ended
  gc_on_free fuel p g = gc_mem_tree_proxy destructor fuel 0 0 1 p 0 0 g

  -- `AllocateMemoryBlock`
  unfoldable pub allocate_memory_block : ℕ → ℤ → ℕ → Gc → Outcome (Step (ℕ × Gc))
  allocate_memory_block fuel (negsuc n) p g = ok exits
  allocate_memory_block fuel (pos size) p g =
      gc_on_alloc fuel p (malloc_block p g) >>= λ e. continue_with e (checked p)

  -- `AllocateMemoryBlockArray`
  unfoldable pub allocate_memory_block_array : ℕ → ℤ → ℤ → ℕ → Gc → Outcome (Step (ℕ × Gc))
  allocate_memory_block_array fuel count (negsuc n) p g = ok exits
  allocate_memory_block_array fuel (negsuc n) (pos size) p g = ok exits
  allocate_memory_block_array fuel (pos count) (pos size) p g =
      allocate_memory_block fuel (pos size) p g

  -- what both functions below do once `realloc` has returned
  unfoldable pub replace_block : ℕ → ℕ → ℕ → Gc → Outcome (Step (ℕ × Gc))
  replace_block fuel old p g = realloc_block old p g >>= λ g₁. gc_on_free fuel old g₁ >>= λ e.
      continue_with e λ g₂. gc_on_alloc fuel p g₂ >>= λ e'. continue_with e' (checked p)

  -- `ReallocateMemoryBlock`
  unfoldable pub reallocate_memory_block : ℕ → ℕ → ℤ → ℕ → Gc → Outcome (Step (ℕ × Gc))
  reallocate_memory_block fuel old (pos size) p g =
      if old == 0 then allocate_memory_block fuel (pos size) p g else replace_block fuel old p g
  reallocate_memory_block fuel old (negsuc n) p g =
      if old == 0 then allocate_memory_block fuel (negsuc n) p g else ok exits

  -- `ReallocateMemoryBlockArray`, which multiplies two numbers of type `int`
  unfoldable pub reallocate_memory_block_array : ℕ → ℕ → ℤ → ℤ → ℕ → Gc → Outcome (Step (ℕ × Gc))
  reallocate_memory_block_array fuel old count (negsuc n) p g = ok exits
  reallocate_memory_block_array fuel old (negsuc n) (pos size) p g = ok exits
  reallocate_memory_block_array fuel old (pos count) (pos size) p g =
      if ltb 2147483647 (count * size) then undefined else replace_block fuel old p g

  -- `FreePtr`
  unfoldable pub free_ptr : ℕ → ℕ → Gc → Outcome (Step Gc)
  free_ptr fuel p g =
      if p == 0
      then ok (continues g)
      else (gc_on_free fuel p g >>= λ e.
          continue_with e λ g₁. free_block p g₁ >>= λ g₂. ok (continues g₂))
