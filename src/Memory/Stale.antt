-- ===== src/Memory/Stale.antt =====
-- What `GC_DEL` should prevent: a destructor that runs for what was closed before.
use automaton_state_machine.Base.{
  ℕ, ◌+◌, ◌<◌, ◌≡◌, ◌≢◌, ap, ◌∙◌, List, [], ◌∷◌, ◌++◌, length, length-append, arith,
}
use automaton_state_machine.Base.Outcome.{ok}
use automaton_state_machine.HashMap.Ops.{Bucket}
use automaton_state_machine.Memory.State.{Gc, Holder, holder, Destr, destructor_of, int_of_ptr}
use automaton_state_machine.Memory.Tree.{returns, exits_with, gc_mem_tree_proxy}
use automaton_state_machine.Memory.Descriptors.{close_descriptor, closes_of}
use automaton_state_machine.Memory.Registry.{Tracks}
use automaton_state_machine.Memory.Handlers.{NoneAt, gc_new-Tracks, gc_del-Tracks}
use automaton_state_machine.Memory.FreeAll.{exit-frees}

-- After `GC_NEW` and `GC_DEL` of the same pointer and type, `GC_EXIT` calls the destructor for the
-- pointer nevertheless, behind those of the other handlers. The copy of the key that `GC_NEW` makes
-- and the local variable of `GC_DEL` are at different addresses, and no other key is at these.
pub exit-gc_del :
    {g : Gc} {bs : List ℕ} {hs : Bucket Holder Destr}
    → Tracks g bs hs
    → (fuel copy local p q r code : ℕ) → p ≢ 0
    → NoneAt copy hs
    → NoneAt local (hs ++ (holder copy p r, destructor_of p q) ∷ [])
    → length bs < fuel
    → length hs + 1 < fuel
    → (g₁ : Gc) × (g₂ : Gc) × (g₃ : Gc) × (gc_mem_tree_proxy close_descriptor fuel copy 0 6 p q r g
        ≡ ok (returns g₁))
      × (gc_mem_tree_proxy close_descriptor fuel 0 local 7 p 0 r g₁ ≡ ok (returns g₂))
      × (gc_mem_tree_proxy close_descriptor fuel 0 0 3 code 0 0 g₂
          ≡ ok (exits_with (int_of_ptr code) g₃))
      × (g₃.closed ≡ g.closed ++ closes_of (hs ++ (holder copy p r, destructor_of p q) ∷ []))
exit-gc_del {hs = hs} t fuel copy local p q r code ne none_at none_local enough enough' =
    let (g₁, news, t₁, same₁) = gc_new-Tracks close_descriptor fuel t copy p q r ne none_at in
    let (g₂, dels, t₂, same₂) = gc_del-Tracks close_descriptor fuel t₁ local p r none_local in
    let (g₃, exits, freed, closed) =
      exit-frees t₂ fuel enough
        (omega (arith, length-append hs ((holder copy p r, destructor_of p q) ∷ []))) code in
    (
      g₁,
      g₂,
      g₃,
      news,
      dels,
      exits,
      closed
          ∙ ap (λ c. c ++ closes_of (hs ++ (holder copy p r, destructor_of p q) ∷ []))
              (same₂ ∙ same₁),
    )
