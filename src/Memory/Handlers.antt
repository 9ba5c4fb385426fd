-- ===== src/Memory/Handlers.antt =====
-- `GC_NEW` adds a handler. `GC_DEL` does not find it again, since the map of handlers compares the
-- addresses of its keys, and the key that is looked up stands elsewhere.
use automaton_state_machine.Base.{
  ℕ, ◌≡◌, ◌≢◌, refl, sym, ap, subst, ◌∙◌, true, false, ◌==◌, none, some, List, [], ◌∷◌, ◌++◌, arith,
  Bool-cases, inl, inr, if_true, if_false,
}
use automaton_state_machine.Base.Int.{pos}
use automaton_state_machine.Base.Outcome.{Outcome, ok}
use automaton_state_machine.HashMap.Ops.{
  HashMap, Bucket, find, detach, hash_map_set_deep, hash_map_remove_deep, hash_map_get,
}
use automaton_state_machine.HashMap.Assoc.{IsComparator}
use automaton_state_machine.HashMap.Deep.{
  detach-absent, hash_map_remove_deep-detach, hash_map_set_deep-assign,
}
use automaton_state_machine.HashMap.Laws.{IsMap, hash_map_get-find}
use automaton_state_machine.Memory.State.{Gc, Holder, holder, Destr, destructor_of, same_address}
use automaton_state_machine.Memory.Tree.{returns, gc_mem_tree_proxy, gc_mode, gc_new, gc_del}
use automaton_state_machine.Memory.Blocks.{void_ptr_cmp-IsComparator}
use automaton_state_machine.Memory.Registry.{Tracks, call_is}

same_address-IsComparator : IsComparator same_address
same_address-IsComparator = record {
  reflexive = λ a. void_ptr_cmp-IsComparator.reflexive a.address;
  left = λ a b c. void_ptr_cmp-IsComparator.left a.address b.address c.address;
  right = λ a b c. void_ptr_cmp-IsComparator.right a.address b.address c.address;
}

-- no handler has its key at the address
abbrev pub NoneAt : ℕ → Bucket Holder Destr → Type 0
NoneAt a hs = find same_address (holder a 0 0) hs ≡ none

find-address :
    (a p r : ℕ) (hs : Bucket Holder Destr)
    → find same_address (holder a p r) hs ≡ find same_address (holder a 0 0) hs
unfolding find
find-address a p r [] = refl
find-address a p r ((h, d) ∷ hs) = rw (find-address a p r hs) refl

module _ (h : HashMap Holder Destr) (hs : Bucket Holder Destr) (cmp : h.cmp ≡ same_address)
    (m : IsMap h hs) (a p r : ℕ) (none_at : NoneAt a hs) where
  comparator : IsComparator h.cmp
  comparator = subst IsComparator (sym cmp) same_address-IsComparator

  absent : find h.cmp (holder a p r) hs ≡ none
  absent = ap (λ c. find c (holder a p r) hs) cmp ∙ find-address a p r hs ∙ none_at

  gone : detach h.cmp (holder a p r) hs ≡ hs
  gone = detach-absent h.cmp (holder a p r) hs absent

  set_handler :
      (d : Destr)
      → (h' : HashMap Holder Destr) × (hash_map_set_deep h (pos 16) (some (holder a p r)) d ≡ ok h')
        × (h'.cmp ≡ same_address)
        × IsMap h' (hs ++ (holder a p r, d) ∷ [])
  set_handler d =
      let (h', run, cmp', m') =
        hash_map_set_deep-assign h hs (pos 16) (holder a p r) comparator m d in
      (h', run, cmp' ∙ cmp, subst (λ es. IsMap h' (es ++ (holder a p r, d) ∷ [])) gone m')

  remove_handler :
      (h' : HashMap Holder Destr) × (hash_map_remove_deep h (pos 16) (some (holder a p r)) ≡ ok h')
      × (h'.cmp ≡ same_address)
      × IsMap h' hs
  remove_handler =
      let (h', run, cmp', m') =
        hash_map_remove_deep-detach h hs (pos 16) (holder a p r) comparator m in
      (h', run, cmp' ∙ cmp, subst (IsMap h') gone m')

  get_handler :
      (h' : HashMap Holder Destr) × (hash_map_get h (pos 16) (some (holder a p r)) ≡ ok (none, h'))
      × (h'.cmp ≡ same_address)
      × IsMap h' hs
  get_handler =
      let (h', run, cmp', m') = hash_map_get-find h hs (pos 16) (holder a p r) m in
      (h', run ∙ rw absent refl, cmp' ∙ cmp, m')

module _ (destructor : ℕ → ℕ → Gc → Outcome Gc) (fuel : ℕ) {g : Gc} {bs : List ℕ}
    {hs : Bucket Holder Destr} (t : Tracks g bs hs) where
  with_handlers :
      {h : HashMap Holder Destr} {hs' : Bucket Holder Destr}
      → h.cmp ≡ same_address
      → IsMap h hs'
      → Tracks (record g { on = true; handlers = h }) bs hs'
  with_handlers cmp m = record {
    registers = record {
      ready = t.registers.ready;
      switched = refl;
      started = t.registers.started;
      register = t.registers.register;
      handled = m;
      compares = cmp;
      distinct = t.registers.distinct;
      no_null = t.registers.no_null;
    };
    allocated = t.allocated;
  }

  -- `GC_NEW` adds a handler behind the others, if its key is copied to an address where no other key
  -- is, and the pointer is not NULL.
  pub gc_new-Tracks :
      (copy p q r : ℕ)
      → p ≢ 0
      → NoneAt copy hs
      → (g' : Gc) × (gc_mem_tree_proxy destructor fuel copy 0 6 p q r g ≡ ok (returns g'))
        × Tracks g' bs (hs ++ (holder copy p r, destructor_of p q) ∷ [])
        × (g'.closed ≡ g.closed)
  unfolding gc_mode gc_new
  gc_new-Tracks copy p q r ne none_at =
      let nonzero : (p == 0) ≡ false = ground arith in
      let (h, run, cmp, m) =
        set_handler g.handlers hs t.registers.compares t.registers.handled copy p r none_at
          (destructor_of p q) in
      (
        record g { on = true; handlers = h },
        call_is destructor fuel t.registers copy 0 6 p q r
            (returns (record g { on = false; handlers = h })) (rw nonzero (rw run refl)),
        with_handlers cmp m,
        refl,
      )

  del_mode :
      (local p r : ℕ)
      → NoneAt local hs
      → (h : HashMap Holder Destr) × (gc_del local p r (record g { on = false })
          ≡ ok (record g { on = false; handlers = h }))
        × (h.cmp ≡ same_address)
        × IsMap h hs
  unfolding gc_del
  del_mode local p r none_at = elim (Bool-cases g.log) [
    | inl logged ↦
        let (h, run, cmp, m) =
          get_handler g.handlers hs t.registers.compares t.registers.handled local p r none_at in
        (h, if_true _ _ logged ∙ rw run refl, cmp, m)
    | inr quiet ↦
        let (h, run, cmp, m) =
          remove_handler g.handlers hs t.registers.compares t.registers.handled local p r none_at in
        (h, if_false _ _ quiet ∙ rw run refl, cmp, m)
  ]

  -- `GC_DEL` removes no handler, whatever pointer and type it is given, if none of the keys is where
  -- its local variable is.
  pub gc_del-Tracks :
      (local p r : ℕ)
      → NoneAt local hs
      → (g' : Gc) × (gc_mem_tree_proxy destructor fuel 0 local 7 p 0 r g ≡ ok (returns g'))
        × Tracks g' bs hs
        × (g'.closed ≡ g.closed)
  unfolding gc_mode
  gc_del-Tracks local p r none_at =
      let (h, run, cmp, m) = del_mode local p r none_at in
      (
        record g { on = true; handlers = h },
        call_is destructor fuel t.registers 0 local 7 p 0 r
            (returns (record g { on = false; handlers = h })) (rw run refl),
        with_handlers cmp m,
        refl,
      )
