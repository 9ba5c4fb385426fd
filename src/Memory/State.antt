-- ===== src/Memory/State.antt =====
-- The state of the collector: the static variables of src/gc.h and of `__gc_mem_tree__`, and what of
-- the process it acts on. A block or a handler is its address; 0 is NULL.
use automaton_state_machine.Base.{
  ℕ, zero, suc, ◌-◌, ◌%◌, Option, none, some, Bool, true, false, ◌==◌, ltb, if◌then◌else◌, List,
}
use automaton_state_machine.Base.Int.{ℤ, pos, negsuc}
use automaton_state_machine.Base.Outcome.{Outcome, ok, undefined}
use automaton_state_machine.HashMap.Ops.{HashMap}

-- `custom_ptr_holder`, with the address of the struct itself, which is what the map's key is
pub record Holder : Type 0 where
  pub address : ℕ
  pub ptr : ℕ
  pub type_id : ℕ

abbrev pub holder : ℕ → ℕ → ℕ → Holder
holder a p r = record { address = a; ptr = p; type_id = r }

-- `custom_ptr_destr`
pub record Destr : Type 0 where
  pub ptr : ℕ
  pub destr : ℕ

abbrev pub destructor_of : ℕ → ℕ → Destr
destructor_of p q = record { ptr = p; destr = q }

-- `HashMapVoidPtrCmp`, on blocks and on the addresses of holders
abbrev pub hash_map_void_ptr_cmp : ℕ → ℕ → Bool
hash_map_void_ptr_cmp a b = a == b

abbrev pub same_address : Holder → Holder → Bool
same_address a b = hash_map_void_ptr_cmp a.address b.address

-- `installed` is whether `__gc_mem_tree__funct` is set; `on` is `current_gc_mode`; `once`, `mem`,
-- `handlers` and `log` are the static variables of `__gc_mem_tree__`. `live` tells the blocks of the
-- program that are allocated; those of the maps themselves, which are allocated and freed while the
-- collector is off, are not in it. `closed` are the calls of `close` and `mq_close` by destructors.
pub record Gc : Type 0 where
  pub installed : Bool
  pub on : Bool
  pub once : Bool
  pub log : Bool
  pub mem : HashMap ℕ ℕ
  pub handlers : HashMap Holder Destr
  pub live : ℕ → Bool
  pub closed : List (ℕ × ℕ)

-- `__set_read_gc_status__`, and its callers `__gc_on__`, `__gc_off__` and `__is_gc__`
abbrev pub set_read_gc_status : Bool → Bool → Gc → Bool × Gc
set_read_gc_status w mode g = if w then (mode, record g { on = mode }) else (g.on, g)

abbrev pub gc_on : Gc → Gc
gc_on g = (set_read_gc_status true true g).1

abbrev pub gc_off : Gc → Gc
gc_off g = (set_read_gc_status true false g).1

abbrev pub is_gc : Gc → Bool
is_gc g = (set_read_gc_status false false g).0

-- a `void*` that may be NULL
abbrev pub pointer : ℕ → Option ℕ
pointer p = if p == 0 then none else some p

-- `(int) (intptr_t) p`, and the `phv` made of it, which is never positive
abbrev pub int_of_ptr : ℕ → ℤ
int_of_ptr p =
    if ltb (p % 4294967296) 2147483648
    then pos (p % 4294967296)
    else negsuc (4294967295 - p % 4294967296)

abbrev pub int_is_zero : ℤ → Bool
int_is_zero (pos n) = n == 0
int_is_zero (negsuc n) = false

abbrev pub not_positive : ℤ → ℤ
not_positive (pos zero) = pos zero
not_positive (pos (suc n)) = negsuc n
not_positive (negsuc n) = negsuc n

abbrev pub phv : ℕ → ℤ
phv p = not_positive (int_of_ptr p)

abbrev pub mark : (ℕ → Bool) → ℕ → Bool → ℕ → Bool
mark f p b q = if p == q then b else f q

-- `free`: nothing at NULL; a block that is not allocated is freed twice, or was never allocated
unfoldable pub free_block : ℕ → Gc → Outcome Gc
free_block p g =
    if p == 0
    then ok g
    else if g.live p
    then ok (record g { live = mark g.live p false })
    else undefined
