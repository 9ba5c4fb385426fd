-- ===== src/Memory/Registry.antt =====
-- The collector's register is the set of allocated blocks.
use automaton_state_machine.Base.{
  ℕ, ◌+◌, ◌<◌, ◌≡◌, ◌≢◌, refl, ap, ◌∙◌, Bool, true, false, ◌==◌, Option, some, List, [], ◌∷◌, ◌++◌,
  length, length-append, arith, if_true,
}
use automaton_state_machine.Base.Outcome.{Outcome, ok, undefined, ◌>>=◌}
use automaton_state_machine.HashMap.Ops.{HashMap, Bucket, hash_map_set, hash_map_remove}
use automaton_state_machine.HashMap.Iterator.{loop_hash_map}
use automaton_state_machine.HashMap.Laws.{IsMap}
use automaton_state_machine.Memory.State.{Gc, Holder, Destr, same_address, phv}
use automaton_state_machine.Memory.Tree.{
  Ended, returns, gc_mem_tree_proxy, gc_mem_tree, gc_mode, gc_alloc, gc_free, end_call,
}
use automaton_state_machine.Memory.Blocks.{
  has, remove, Distinct, length-remove, has-append, has-remove, Distinct-append, Distinct-remove,
  IsRegister, count-IsRegister, set-IsRegister, remove-IsRegister,
}

-- The collector is set up and on; its register holds the blocks `bs`, and its handlers are `hs`.
pub record Registers (g : Gc) (bs : List ℕ) (hs : Bucket Holder Destr) : Type 0 where
  pub ready : g.installed ≡ true
  pub switched : g.on ≡ true
  pub started : g.once ≡ true
  pub register : IsRegister g.mem bs
  pub handled : IsMap g.handlers hs
  pub compares : g.handlers.cmp ≡ same_address
  pub distinct : Distinct bs
  pub no_null : has 0 bs ≡ false

-- The blocks in the register are the allocated ones.
pub record Tracks (g : Gc) (bs : List ℕ) (hs : Bucket Holder Destr) : Type 0 where
  pub registers : Registers g bs hs
  pub allocated : (p : ℕ) → g.live p ≡ has p bs

-- While the collector is on, a call is what `gc_mode` makes of the state that is switched off.
pub call_is :
    (destructor : ℕ → ℕ → Gc → Outcome Gc) (fuel : ℕ) {g : Gc} {bs : List ℕ}
    {hs : Bucket Holder Destr}
    → Registers g bs hs
    → (copy local mode p q r : ℕ) (e : Ended)
    → gc_mode destructor fuel copy local mode p q r (record g { on = false }) ≡ ok e
    → gc_mem_tree_proxy destructor fuel copy local mode p q r g ≡ ok (end_call destructor e)
unfolding gc_mem_tree_proxy gc_mem_tree
call_is destructor fuel t copy local mode p q r e run =
    if_true _ _ t.ready
    ∙ if_true _ _ t.switched
    ∙ ap
        (λ o. o >>= λ g₁.
          gc_mode destructor fuel copy local mode p q r g₁ >>= λ e'. ok (end_call destructor e'))
        (if_true _ _ t.started)
    ∙ rw run refl

pub call_undefined :
    (destructor : ℕ → ℕ → Gc → Outcome Gc) (fuel : ℕ) {g : Gc} {bs : List ℕ}
    {hs : Bucket Holder Destr}
    → Registers g bs hs
    → (copy local mode p q r : ℕ)
    → gc_mode destructor fuel copy local mode p q r (record g { on = false }) ≡ undefined
    → gc_mem_tree_proxy destructor fuel copy local mode p q r g ≡ undefined
unfolding gc_mem_tree_proxy gc_mem_tree
call_undefined destructor fuel t copy local mode p q r run =
    if_true _ _ t.ready
    ∙ if_true _ _ t.switched
    ∙ ap
        (λ o. o >>= λ g₁.
          gc_mode destructor fuel copy local mode p q r g₁ >>= λ e'. ok (end_call destructor e'))
        (if_true _ _ t.started)
    ∙ rw run refl

module _ (destructor : ℕ → ℕ → Gc → Outcome Gc) (fuel : ℕ) where
  module _ (g : Gc) (ready : g.installed ≡ true) (switched : g.on ≡ true)
      (started : g.once ≡ true) where
    alloc_call :
        (p : ℕ) (old : Option ℕ) (blocks : Bucket ℕ ℕ) (m₁ m₂ : HashMap ℕ ℕ)
        → p ≢ 0
        → hash_map_set g.mem (phv p) (some p) p ≡ ok (old, m₁)
        → loop_hash_map fuel m₁ ≡ ok (blocks, m₂)
        → gc_mem_tree_proxy destructor fuel 0 0 0 p 0 0 g
          ≡ ok (returns (record g { on = true; mem = m₂ }))
    unfolding gc_mem_tree_proxy gc_mem_tree gc_mode gc_alloc
    alloc_call p old blocks m₁ m₂ ne sets counts =
        let nonzero : (p == 0) ≡ false = ground arith in
        rw (ready, switched, started) (rw nonzero (rw sets (rw counts refl)))

    free_call :
        (p : ℕ) (old : Option ℕ) (blocks : Bucket ℕ ℕ) (m₁ m₂ : HashMap ℕ ℕ)
        → p ≢ 0
        → hash_map_remove g.mem (phv p) (some p) ≡ ok (old, m₁)
        → loop_hash_map fuel m₁ ≡ ok (blocks, m₂)
        → gc_mem_tree_proxy destructor fuel 0 0 1 p 0 0 g
          ≡ ok (returns (record g { on = true; mem = m₂ }))
    unfolding gc_mem_tree_proxy gc_mem_tree gc_mode gc_free
    free_call p old blocks m₁ m₂ ne removes counts =
        let nonzero : (p == 0) ≡ false = ground arith in
        rw (ready, switched, started) (rw nonzero (rw removes (rw counts refl)))

  module _ (g : Gc) (bs : List ℕ) (hs : Bucket Holder Destr) (live : ℕ → Bool)
      (r : Registers g bs hs) where
    pub on_alloc-Registers :
        (p : ℕ)
        → p ≢ 0
        → has p bs ≡ false
        → length bs + 1 < fuel
        → (m : HashMap ℕ ℕ) × (gc_mem_tree_proxy destructor fuel 0 0 0 p 0 0
              (record g { live = live })
            ≡ ok (returns (record g { live = live; on = true; mem = m })))
          × Registers (record g { live = live; on = true; mem = m }) (bs ++ p ∷ []) hs
    on_alloc-Registers p ne new enough =
        let (m₁, sets, r₁) = set-IsRegister g.mem bs r.register (phv p) p new in
        let (m₂, counts, r₂) =
          count-IsRegister m₁ (bs ++ p ∷ []) r₁ fuel (omega (arith, length-append bs (p ∷ []))) in
        (
          m₂,
          alloc_call (record g { live = live }) r.ready r.switched r.started p _ _ m₁ m₂ ne sets
              counts,
          record {
            ready = r.ready;
            switched = refl;
            started = r.started;
            register = r₂;
            handled = r.handled;
            compares = r.compares;
            distinct = Distinct-append p bs new r.distinct;
            no_null = ground (arith, has-append 0 p bs, r.no_null);
          },
        )

    pub on_free-Registers :
        (p : ℕ)
        → p ≢ 0
        → length bs < fuel
        → (m : HashMap ℕ ℕ) × (gc_mem_tree_proxy destructor fuel 0 0 1 p 0 0
              (record g { live = live })
            ≡ ok (returns (record g { live = live; on = true; mem = m })))
          × Registers (record g { live = live; on = true; mem = m }) (remove p bs) hs
    on_free-Registers p ne enough =
        let (m₁, removes, r₁) = remove-IsRegister g.mem bs r.register (phv p) p in
        let (m₂, counts, r₂) =
          count-IsRegister m₁ (remove p bs) r₁ fuel (omega (arith, length-remove p bs)) in
        (
          m₂,
          free_call (record g { live = live }) r.ready r.switched r.started p _ _ m₁ m₂ ne removes
              counts,
          record {
            ready = r.ready;
            switched = refl;
            started = r.started;
            register = r₂;
            handled = r.handled;
            compares = r.compares;
            distinct = Distinct-remove p bs r.distinct;
            no_null = has-remove 0 p bs ne ∙ r.no_null;
          },
        )
