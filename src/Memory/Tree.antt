-- ===== src/Memory/Tree.antt =====
-- `__gc_mem_tree__` of src/gcinit.h. The destructor that stands at an address is a parameter. Messages
-- of the log are left out, and so is `processWaitForAll`, which changes nothing here.
use automaton_state_machine.Base.{
  ℕ, zero, suc, Option, none, some, true, false, ◌==◌, ◌||◌, if◌then◌else◌,
}
use automaton_state_machine.Base.Int.{ℤ, pos}
use automaton_state_machine.Base.Outcome.{Outcome, ok, out_of_fuel, ◌>>=◌}
use automaton_state_machine.HashMap.Ops.{
  HashMap, hash_map_new, hash_map_set, hash_map_remove, hash_map_set_deep, hash_map_remove_deep,
  hash_map_get,
}
use automaton_state_machine.HashMap.Iterator.{
  Iterator, hash_map_begin, hash_map_next, hash_map_is_end, hash_map_get_value, hash_map_get_key,
  loop_hash_map,
}
use automaton_state_machine.HashMap.Destroy.{hash_map_destroy, hash_map_destroy_deep}
use automaton_state_machine.Memory.State.{
  Gc, Holder, holder, Destr, destructor_of, hash_map_void_ptr_cmp, same_address, gc_on, gc_off,
  is_gc, pointer, phv, int_of_ptr, int_is_zero, free_block,
}

-- how a call ends: it returns, or the process exits with a code
pub data Ended : Type 0 where
  returns : Gc → Ended
  exits_with : ℤ → Gc → Ended

-- the maps are made in the first call
abbrev pub initialise_once : Gc → Outcome Gc
initialise_once g =
    if g.once
    then ok g
    else (hash_map_new hash_map_void_ptr_cmp >>= λ mem. hash_map_new same_address >>= λ handlers.
        ok (record g { once = true; mem = mem; handlers = handlers }))

-- mode 0; the loop behind it counts the blocks
unfoldable pub gc_alloc : ℕ → ℕ → Gc → Outcome Gc
gc_alloc fuel p g = hash_map_set g.mem (phv p) (pointer p) p >>= λ (old, mem).
    loop_hash_map fuel mem >>= λ (blocks, mem'). ok (record g { mem = mem' })

-- mode 1
unfoldable pub gc_free : ℕ → ℕ → Gc → Outcome Gc
gc_free fuel p g = hash_map_remove g.mem (phv p) (pointer p) >>= λ (old, mem).
    loop_hash_map fuel mem >>= λ (blocks, mem'). ok (record g { mem = mem' })

abbrev pub value_of : Option ℕ → ℕ
value_of none = 0
value_of (some p) = p

-- the loop over the blocks, which frees them
unfoldable pub free_blocks : ℕ → Iterator → Gc → Outcome Gc
free_blocks zero i g = out_of_fuel
free_blocks (suc fuel) i g = hash_map_is_end g.mem i >>= λ (done, mem₁). elim done [
  | true ↦ ok (record g { mem = mem₁ })
  | false ↦ hash_map_get_value mem₁ i >>= λ (ptr, mem₂).
      free_block (value_of ptr) (record g { mem = mem₂ }) >>= λ g₁.
      hash_map_next g₁.mem i >>= λ (i', mem₃). free_blocks fuel i' (record g₁ { mem = mem₃ })
]

-- Mode 6: `q` is the destructor and `r` the type; `copy` is where `HashMapSetV` puts the new key.
unfoldable pub gc_new : ℕ → ℕ → ℕ → ℕ → Gc → Outcome Gc
gc_new copy p q r g =
    if p == 0
    then ok g
    else (hash_map_set_deep g.handlers (pos 16) (some (holder copy p r)) (destructor_of p q)
        >>= λ handlers. ok (record g { handlers = handlers }))

-- Mode 7: `local` is the address of the local variable `data`, the key. Where the log is on, a handler that is
-- not found ends the call.
unfoldable pub gc_del : ℕ → ℕ → ℕ → Gc → Outcome Gc
gc_del local p r g =
    let key : Holder = holder local p r in
    let remove = λ (h : HashMap Holder Destr).
      hash_map_remove_deep h (pos 16) (some key) >>= λ handlers.
      ok (record g { handlers = handlers }) in
    if g.log
    then (hash_map_get g.handlers (pos 16) (some key) >>= λ (destr, handlers).
        elim destr as (λ _. Outcome Gc) [
          | none ↦ ok (record g { handlers = handlers })
          | some d ↦ remove handlers
        ])
    else remove g.handlers

module _ (destructor : ℕ → ℕ → Gc → Outcome Gc) where
  -- one handler: the collector is on while the destructor runs
  abbrev pub run_handler : Option Holder → Option Destr → Gc → Outcome Gc
  run_handler (some h) (some d) g = destructor d.destr h.ptr (gc_on g) >>= λ g'. ok (gc_off g')
  run_handler none d g = ok g
  run_handler (some h) none g = ok g

  -- the loop over the handlers
  unfoldable pub run_handlers : ℕ → Iterator → Gc → Outcome Gc
  run_handlers zero i g = out_of_fuel
  run_handlers (suc fuel) i g = hash_map_is_end g.handlers i >>= λ (done, h₁). elim done [
    | true ↦ ok (record g { handlers = h₁ })
    | false ↦ hash_map_get_key h₁ i >>= λ (key, h₂). hash_map_get_value h₂ i >>= λ (value, h₃).
        run_handler key value (record g { handlers = h₃ }) >>= λ g₁.
        hash_map_next g₁.handlers i >>= λ (i', h₄).
        run_handlers fuel i' (record g₁ { handlers = h₄ })
  ]

  -- both loops
  unfoldable pub clean_up : ℕ → Gc → Outcome Gc
  clean_up fuel g = hash_map_begin g.handlers >>= λ (i, handlers).
      run_handlers fuel i (record g { handlers = handlers }) >>= λ g₁.
      hash_map_begin g₁.mem >>= λ (j, mem). free_blocks fuel j (record g₁ { mem = mem })

  abbrev pub destroy_maps : Gc → Outcome Gc
  destroy_maps g = hash_map_destroy g.mem >>= λ (blocks, mem).
      hash_map_destroy_deep g.handlers >>= λ (hs, handlers).
      ok (record g { mem = mem; handlers = handlers })

  -- modes 2, 3 and 5
  unfoldable pub gc_clean : ℕ → ℕ → ℕ → Gc → Outcome Ended
  gc_clean fuel mode p g = clean_up fuel g >>= λ g₁.
      (if mode == 5 then ok g₁ else destroy_maps g₁) >>= λ g₂.
      ok (if mode == 3 then exits_with (int_of_ptr p) g₂ else returns g₂)

  abbrev pub switched_on : Gc → Ended
  switched_on g = returns (gc_on g)

  abbrev pub end_call : Ended → Ended
  end_call (returns g) = switched_on g
  end_call (exits_with code g) = exits_with code g

  -- the chain of tests of the mode
  unfoldable pub gc_mode : ℕ → ℕ → ℕ → ℕ → ℕ → ℕ → ℕ → Gc → Outcome Ended
  gc_mode fuel copy local mode p q r g =
      if mode == 0
      then (gc_alloc fuel p g >>= λ g'. ok (returns g'))
      else if mode == 1
      then (gc_free fuel p g >>= λ g'. ok (returns g'))
      else if mode == 2 || mode == 3 || mode == 5
      then gc_clean fuel mode p g
      else if mode == 4
      then ok (returns (record g { log = if int_is_zero (int_of_ptr p) then false else true }))
      else if mode == 6
      then (gc_new copy p q r g >>= λ g'. ok (returns g'))
      else if mode == 7
      then (gc_del local p r g >>= λ g'. ok (returns g'))
      else ok (returns g)

  -- `__gc_mem_tree__`: nothing while the collector is off, which it is during a call
  unfoldable pub gc_mem_tree : ℕ → ℕ → ℕ → ℕ → ℕ → ℕ → ℕ → Gc → Outcome Ended
  gc_mem_tree fuel copy local mode p q r g =
      if is_gc g
      then (initialise_once (gc_off g) >>= λ g₁.
          gc_mode fuel copy local mode p q r g₁ >>= λ e. ok (end_call e))
      else ok (returns g)

  -- `__gc_mem_tree__proxy`
  unfoldable pub gc_mem_tree_proxy : ℕ → ℕ → ℕ → ℕ → ℕ → ℕ → ℕ → Gc → Outcome Ended
  gc_mem_tree_proxy fuel copy local mode p q r g =
      if g.installed then gc_mem_tree fuel copy local mode p q r g else ok (returns g)
