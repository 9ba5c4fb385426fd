-- ===== src/ArrayList/Iterators.antt =====
-- Iterators of an array list, and the operations that use them. An iterator is NULL or a position in
-- the list that is passed beside it.
use automaton_state_machine.Base.{
  ℕ, zero, suc, ◌+◌, ◌-◌, Option, none, some, Bool, true, ◌||◌, ◌==◌, ltb, leb, if◌then◌else◌,
}
use automaton_state_machine.Base.Int.{ℤ, pos, negsuc}
use automaton_state_machine.Base.Outcome.{Outcome, ok, out_of_fuel, ◌>>=◌}
use automaton_state_machine.ArrayList.Ops.{
  ArrayList, read, write, array_list_push_back, array_list_copy, array_list_map_nodes,
  array_list_map,
}

-- `ArrayListIterator`
abbrev pub ArrayListIterator : Type 0
ArrayListIterator = Option ℕ

-- `ArrayListIsBegin` and `ArrayListPrevious`
abbrev pub array_list_is_begin : ArrayListIterator → Bool
array_list_is_begin none = true
array_list_is_begin (some position) = leb position 0

abbrev pub array_list_previous : ArrayListIterator → ArrayListIterator
array_list_previous none = none
array_list_previous (some position) = if leb position 0 then none else some (position - 1)

module _ {A : Type 0} where
  -- `ArrayListGetIteratorAt`
  abbrev pub array_list_get_iterator_at : ArrayList A → ℤ → ArrayListIterator
  array_list_get_iterator_at l (pos position) = if ltb position l.size then some position else none
  array_list_get_iterator_at l (negsuc position) = none

  -- `ArrayListEmpty`
  abbrev pub array_list_empty : ArrayList A → Bool
  array_list_empty l = l.size == 0

  -- `ArrayListBegin` and `ArrayListEnd`
  abbrev pub array_list_begin : ArrayList A → ArrayListIterator
  array_list_begin l = if l.size == 0 then none else some 0

  abbrev pub array_list_end : ArrayList A → ArrayListIterator
  array_list_end l = if l.size == 0 then none else some (l.size - 1)

  -- `ArrayListIsEnd` and `ArrayListIsSideElement`
  abbrev pub array_list_is_end : ArrayList A → ArrayListIterator → Bool
  array_list_is_end l none = true
  array_list_is_end l (some position) = leb l.size position

  abbrev pub array_list_is_side_element : ArrayList A → ArrayListIterator → Bool
  array_list_is_side_element l it = array_list_is_begin it || array_list_is_end l it

  -- `ArrayListNext`
  abbrev pub array_list_next : ArrayList A → ArrayListIterator → ArrayListIterator
  array_list_next l none = none
  array_list_next l (some position) = if leb l.size position then none else some (position + 1)

  -- `ArrayListGetValue` and `ArrayListSetValue`
  abbrev pub array_list_get_value : ArrayList A → ArrayListIterator → Outcome (Option A)
  array_list_get_value l none = ok none
  array_list_get_value l (some position) = read l position

  abbrev pub array_list_set_value :
      ArrayList A → ArrayListIterator → Option A → Outcome (ArrayList A)
  array_list_set_value l none value = ok l
  array_list_set_value l (some position) value = write l position value

  -- `LOOP_ARRAY_LIST` in `ArrayListCopyInto`; each round moves to the next position
  unfoldable pub array_list_copy_loop :
      ℕ → ArrayList A → ArrayListIterator → ArrayList A → Outcome (ArrayList A)
  unfolding array_list_push_back
  array_list_copy_loop zero src it tgt = out_of_fuel
  array_list_copy_loop (suc fuel) src it tgt =
      if array_list_is_end src it
      then ok tgt
      else (array_list_get_value src it >>= λ value. array_list_push_back tgt value >>= λ tgt'.
          array_list_copy_loop fuel src (array_list_next src it) tgt')

  -- `ArrayListCopyInto`
  unfoldable pub array_list_copy_into : ArrayList A → ArrayList A → Outcome (ArrayList A)
  unfolding array_list_copy_loop
  array_list_copy_into src tgt = array_list_copy_loop (src.size + 1) src (array_list_begin src) tgt

  -- `ArrayListIterate`
  unfoldable pub array_list_iterate : ArrayList A → (Option A → Option A) → Outcome (ArrayList A)
  unfolding array_list_map_nodes
  array_list_iterate l iterator = array_list_map_nodes l iterator true l.size 0

  -- `ArrayListDeepCopy`
  unfoldable pub array_list_deep_copy : ArrayList A → (Option A → Option A) → Outcome (ArrayList A)
  unfolding array_list_copy array_list_map
  array_list_deep_copy l assigner = array_list_copy l >>= λ ret. array_list_map ret assigner
