-- ===== src/DynamicList/Iterate.antt =====
-- Iterators, and the loops that walk a list from its first node.
use automaton_state_machine.Base.{
  ℕ, zero, suc, ◌+◌, Option, none, some, Bool, true, false, ◌&&◌, ◌||◌, ◌==◌, if◌then◌else◌,
}
use automaton_state_machine.Base.Int.{ℤ, pos, negsuc}
use automaton_state_machine.Base.Outcome.{out_of_fuel}
use automaton_state_machine.DynamicList.Heap.{Ptr, null, Cmd, pure, ◌>>=◌, ◌>>◌, load, set_value}
use automaton_state_machine.DynamicList.Ops.{ListRoot, list_push_back}

-- `ListEmpty`
abbrev pub list_empty : Option ListRoot → Bool
list_empty none = true
list_empty (some l) = l.begin == null && l.end == null

-- `ListBegin` and `ListEnd`
abbrev pub list_begin : Option ListRoot → Ptr
list_begin none = null
list_begin (some l) = l.begin

abbrev pub list_end : Option ListRoot → Ptr
list_end none = null
list_end (some l) = l.end

-- `ListNext` and `ListPrevious`, `ListGetValue` and `ListSetValue`, `ListIsEnd` and `ListIsBegin`
unfoldable pub list_next : Ptr → Cmd Ptr
unfolding load
list_next p = if p == null then pure null else do n ← load p; pure n.right

unfoldable pub list_previous : Ptr → Cmd Ptr
unfolding load
list_previous p = if p == null then pure null else do n ← load p; pure n.left

unfoldable pub list_get_value : Ptr → Cmd ℕ
unfolding load
list_get_value p = if p == null then pure null else do n ← load p; pure n.value

unfoldable pub list_set_value : Ptr → ℕ → Cmd (Unit {0})
unfolding set_value
list_set_value p v = if p == null then pure tt else set_value p v

unfoldable pub list_is_end : Ptr → Cmd Bool
unfolding load
list_is_end p = if p == null then pure false else do n ← load p; pure (n.right == null)

unfoldable pub list_is_begin : Ptr → Cmd Bool
unfolding load
list_is_begin p = if p == null then pure false else do n ← load p; pure (n.left == null)

unfoldable pub list_is_side_element : Ptr → Cmd Bool
unfolding load
list_is_side_element p =
    if p == null then pure false else do n ← load p; pure (n.left == null || n.right == null)

-- `ListSize`: the loop, and the call
unfoldable pub list_size_loop : ℕ → Ptr → ℕ → Cmd ℕ
unfolding list_next
list_size_loop zero it size = λ h. out_of_fuel
list_size_loop (suc fuel) it size =
    if it == null then pure size else do it' ← list_next it; list_size_loop fuel it' (size + 1)

unfoldable pub list_size : ℕ → Option ListRoot → Cmd ℕ
unfolding list_size_loop
list_size fuel none = pure 0
list_size fuel (some l) = list_size_loop fuel l.begin 0

-- `ListGetValueAt`, where `none` is the value NULL
unfoldable pub list_get_value_at_loop : ℕ → ℕ → Ptr → ℕ → Cmd ℕ
unfolding list_next list_get_value
list_get_value_at_loop position zero it pos_index = λ h. out_of_fuel
list_get_value_at_loop position (suc fuel) it pos_index = if it == null then pure null else do
  element ← list_get_value it
  if position == pos_index
      then pure element
      else do it' ← list_next it; list_get_value_at_loop position fuel it' (pos_index + 1)

unfoldable pub list_get_value_at : ℕ → Option ListRoot → ℤ → Cmd ℕ
unfolding list_get_value_at_loop
list_get_value_at fuel none position = pure null
list_get_value_at fuel (some l) (negsuc position) = pure null
list_get_value_at fuel (some l) (pos position) = list_get_value_at_loop position fuel l.begin 0

-- `ListMapNodes`, and its callers `ListIterate` and `ListMap`. The function has no effect here.
unfoldable pub list_map_nodes : ℕ → Ptr → (ℕ → ℕ) → Bool → Cmd (Unit {0})
unfolding load set_value
list_map_nodes zero l mapping preserve_value = λ h. out_of_fuel
list_map_nodes (suc fuel) l mapping preserve_value = if l == null then pure tt else do
  n ← load l
  if preserve_value then pure tt else set_value l (mapping n.value)
  list_map_nodes fuel n.right mapping preserve_value

unfoldable pub list_iterate : ℕ → Option ListRoot → (ℕ → ℕ) → Cmd (Unit {0})
unfolding list_map_nodes
list_iterate fuel none iterator = pure tt
list_iterate fuel (some l) iterator =
    if l.begin == null then pure tt else list_map_nodes fuel l.begin iterator true

unfoldable pub list_map : ℕ → Option ListRoot → (ℕ → ℕ) → Cmd (Unit {0})
unfolding list_map_nodes
list_map fuel none mapping = pure tt
list_map fuel (some l) mapping =
    if l.begin == null then pure tt else list_map_nodes fuel l.begin mapping false

-- `ListCopyInto`
unfoldable pub list_copy_loop : ℕ → Ptr → Option ListRoot → Cmd (Option ListRoot)
unfolding load list_push_back
list_copy_loop zero it tgt = λ h. out_of_fuel
list_copy_loop (suc fuel) it tgt = if it == null then pure tgt else do
  n ← load it
  (_, tgt') ← list_push_back tgt n.value
  n' ← load it
  list_copy_loop fuel n'.right tgt'

unfoldable pub list_copy_into : ℕ → Option ListRoot → Option ListRoot → Cmd (Option ListRoot)
unfolding list_copy_loop
list_copy_into fuel none tgt = pure tgt
list_copy_into fuel (some src) none = pure none
list_copy_into fuel (some src) (some tgt) = list_copy_loop fuel src.begin (some tgt)
