-- ===== src/Memory/Program.antt =====
-- The allocations of a program, one after the other, and the end of the process.
use automaton_state_machine.Base.{
  ℕ, ◌+◌, ◌<◌, ◌≤◌, ◌≡◌, ◌≢◌, refl, true, false, List, [], ◌∷◌, ◌++◌, length, length-append, arith,
}
use automaton_state_machine.Base.Int.{pos}
use automaton_state_machine.Base.Outcome.{Outcome, ok, ◌>>=◌}
use automaton_state_machine.Base.Step.{Step, continues, exits, overruns}
use automaton_state_machine.HashMap.Ops.{Bucket}
use automaton_state_machine.Memory.State.{Gc, Holder, Destr}
use automaton_state_machine.Memory.Tree.{returns, gc_mem_tree_proxy}
use automaton_state_machine.Memory.Alloc.{allocate_memory_block, reallocate_memory_block, free_ptr}
use automaton_state_machine.Memory.Descriptors.{close_descriptor, closes_of}
use automaton_state_machine.Memory.Blocks.{has, remove, length-remove}
use automaton_state_machine.Memory.Registry.{Tracks}
use automaton_state_machine.Memory.Tracking.{
  allocate_memory_block-Tracks, reallocate_memory_block-Tracks, free_ptr-Tracks,
}
use automaton_state_machine.Memory.FreeAll.{free_all-Tracks}

-- a call of `MALLOCATE`, `MREALLOCATE` or `FREE`, with the block that the C library returns
pub data Request : Type 0 where
  allocate : ℕ → ℕ → Request
  reallocate : ℕ → ℕ → ℕ → Request
  release : ℕ → Request

-- `next`, where the call before it did not end the process
abbrev pub and_then : {A B : Type 0} → Outcome (Step A) → (A → Outcome (Step B)) → Outcome (Step B)
and_then m next =
    m >>= λ s. elim s [ continues a ↦ next a | exits ↦ ok exits | overruns ↦ ok overruns ]

unfoldable pub perform : ℕ → Request → Gc → Outcome (Step Gc)
perform fuel (allocate size p) g =
    and_then (allocate_memory_block close_descriptor fuel (pos size) p g)
      λ (q, g'). ok (continues g')
perform fuel (reallocate old size p) g =
    and_then (reallocate_memory_block close_descriptor fuel old (pos size) p g)
      λ (q, g'). ok (continues g')
perform fuel (release p) g = free_ptr close_descriptor fuel p g

unfoldable pub perform_all : ℕ → List Request → Gc → Outcome (Step Gc)
unfolding perform
perform_all fuel [] g = ok (continues g)
perform_all fuel (r ∷ rs) g = and_then (perform fuel r g) λ g'. perform_all fuel rs g'

-- the blocks that are allocated behind a request
abbrev pub after : Request → List ℕ → List ℕ
after (allocate size p) bs = bs ++ p ∷ []
after (reallocate old size p) bs = remove old bs ++ p ∷ []
after (release p) bs = remove p bs

abbrev pub after_all : List Request → List ℕ → List ℕ
after_all [] bs = bs
after_all (r ∷ rs) bs = after_all rs (after r bs)

-- The C library gives a block that is not NULL and not allocated, and the program frees and
-- reallocates what is allocated.
abbrev pub Allowed : Request → List ℕ → Type 0
Allowed (allocate size p) bs = (p ≢ 0) × (has p bs ≡ false)
Allowed (reallocate old size p) bs = (has old bs ≡ true) × (p ≢ 0) × (has p (remove old bs) ≡ false)
Allowed (release p) bs = has p bs ≡ true

abbrev pub AllAllowed : List Request → List ℕ → Type 0
AllAllowed [] bs = Unit {0}
AllAllowed (r ∷ rs) bs = Allowed r bs × AllAllowed rs (after r bs)

length-after : (r : Request) (bs : List ℕ) → length (after r bs) ≤ length bs + 1
length-after (allocate size p) bs = omega (arith, length-append bs (p ∷ []))
length-after (reallocate old size p) bs =
    omega (arith, length-append (remove old bs) (p ∷ []), length-remove old bs)
length-after (release p) bs = omega (arith, length-remove p bs)

perform-Tracks :
    (fuel : ℕ) (r : Request) {g : Gc} {bs : List ℕ} {hs : Bucket Holder Destr}
    → Tracks g bs hs
    → Allowed r bs
    → length bs + 1 < fuel
    → (g' : Gc) × (perform fuel r g ≡ ok (continues g')) × Tracks g' (after r bs) hs
unfolding perform
perform-Tracks fuel (allocate size p) t (ne, new) enough =
    let (g', run, t') = allocate_memory_block-Tracks close_descriptor fuel t size p ne new enough in
    (g', rw run refl, t')
perform-Tracks fuel (reallocate old size p) {bs = bs} t (held, ne, new) enough =
    let (g', run, t') =
      reallocate_memory_block-Tracks close_descriptor fuel t old size p held ne new enough in
    (g', rw run refl, t')
perform-Tracks fuel (release p) t held enough =
    free_ptr-Tracks close_descriptor fuel t p held (omega arith)

perform_all-Tracks :
    (fuel : ℕ) (rs : List Request) {g : Gc} {bs : List ℕ} {hs : Bucket Holder Destr}
    → Tracks g bs hs
    → AllAllowed rs bs
    → length bs + length rs < fuel
    → (g' : Gc) × (perform_all fuel rs g ≡ ok (continues g'))
      × Tracks g' (after_all rs bs) hs
      × (length (after_all rs bs) ≤ length bs + length rs)
unfolding perform_all
perform_all-Tracks fuel [] {g} t allowed enough = (g, refl, t, omega arith)
perform_all-Tracks fuel (r ∷ rs) {bs = bs} t (first, allowed) enough =
    let (g₁, run, t₁) = perform-Tracks fuel r t first (omega arith) in
    let (g', run', t', size) =
      perform_all-Tracks fuel rs t₁ allowed (omega (arith, length-after r bs)) in
    (g', rw run run', t', omega (arith, length-after r bs))

-- A program whose allocations succeed, and that frees and reallocates only what is allocated, never
-- loses a block: the register always holds the allocated ones, and `GC_FREE_ALL` at the end frees
-- each of them once, calls the destructors in order, and leaves none.
pub free_all-perform_all :
    (fuel : ℕ) (rs : List Request) {g : Gc} {bs : List ℕ} {hs : Bucket Holder Destr}
    → Tracks g bs hs
    → AllAllowed rs bs
    → length bs + length rs < fuel
    → length hs < fuel
    → (g₁ : Gc) × (g₂ : Gc) × (perform_all fuel rs g ≡ ok (continues g₁))
      × Tracks g₁ (after_all rs bs) hs
      × (gc_mem_tree_proxy close_descriptor fuel 0 0 2 0 0 0 g₁ ≡ ok (returns g₂))
      × Tracks g₂ [] []
      × (g₂.closed ≡ g₁.closed ++ closes_of hs)
free_all-perform_all fuel rs t allowed enough enough' =
    let (g₁, run, t₁, size) = perform_all-Tracks fuel rs t allowed enough in
    let (g₂, frees, t₂, closed) = free_all-Tracks t₁ fuel (omega arith) enough' in
    (g₁, g₂, run, t₁, frees, t₂, closed)
