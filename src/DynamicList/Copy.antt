-- ===== src/DynamicList/Copy.antt =====
-- `ListCopy` and `ListDeepCopy`, `ListDestroyDeep`, and the printer of src/dynamic_lists.c.
use automaton_state_machine.Base.{
  ℕ, zero, suc, ◌+◌, ◌-◌, Option, none, some, List, [], ◌∷◌, ◌++◌, ◌==◌, ltb, if◌then◌else◌,
  get_elem?,
}
use automaton_state_machine.Base.Outcome.{out_of_fuel, undefined}
use automaton_state_machine.Text.Scan.{Text}
use automaton_state_machine.DynamicList.Heap.{
  Ptr, null, Cmd, pure, ◌>>=◌, ◌>>◌, load, set_right, set_left, set_value,
}
use automaton_state_machine.DynamicList.Ops.{ListRoot, root, list_new, list_make_node, list_destroy}
use automaton_state_machine.DynamicList.Iterate.{
  list_begin, list_next, list_get_value, list_size, list_copy_into, list_map,
}

-- `chunk[i]`: undefined outside the array
abbrev pub cell_of : Option Ptr → Cmd Ptr
cell_of none = λ h. undefined
cell_of (some p) = pure p

abbrev pub chunk_at : List Ptr → ℕ → Cmd Ptr
chunk_at chunk i = cell_of (get_elem? chunk i)

-- the first loop: `size` new nodes
unfoldable pub make_chunk : ℕ → Cmd (List Ptr)
unfolding list_make_node
make_chunk zero = pure []
make_chunk (suc size) = do p ← list_make_node null null null; ps ← make_chunk size; pure (p ∷ ps)

-- the second loop
unfoldable pub clear_chunk : List Ptr → Cmd (Unit {0})
unfolding set_left set_right set_value
clear_chunk [] = pure tt
clear_chunk (p ∷ ps) = do set_left p null; set_right p null; set_value p null; clear_chunk ps

-- the third loop, which ends early where the list does
unfoldable pub fill_chunk : List Ptr → Ptr → Cmd (Unit {0})
unfolding load set_value
fill_chunk [] iter = pure tt
fill_chunk (p ∷ ps) iter =
    if iter == null
    then pure tt
    else do n ← load iter; set_value p n.value; n' ← load iter; fill_chunk ps n'.right

-- the last loop from `i` on, `n` rounds of it
unfoldable pub link_chunk : List Ptr → ℕ → ℕ → ℕ → Cmd (Unit {0})
unfolding set_left set_right
link_chunk chunk size zero i = pure tt
link_chunk chunk size (suc n) i = do
  p ← chunk_at chunk i
  if i == 0 then pure tt else do left ← chunk_at chunk (i - 1); set_left p left
  if i == size - 1 then pure tt else do right ← chunk_at chunk (i + 1); set_right p right
  link_chunk chunk size n (i + 1)

-- the part of `ListCopy` for a list of five values or more
unfoldable pub copy_chunk : ℕ → Ptr → Cmd ListRoot
unfolding make_chunk clear_chunk fill_chunk link_chunk set_left set_right
copy_chunk size begin = do
  chunk ← make_chunk size
  clear_chunk chunk
  fill_chunk chunk begin
  first ← chunk_at chunk 0
  set_left first null
  last ← chunk_at chunk (size - 1)
  set_right last null
  link_chunk chunk size size 0
  pure (root first last)

-- the root that a `List*` points to
abbrev pub root_of : Option ListRoot → Cmd ListRoot
root_of none = λ h. undefined
root_of (some l) = pure l

-- `ListCopy`
unfoldable pub list_copy : ℕ → Option ListRoot → Cmd ListRoot
unfolding list_size list_copy_into copy_chunk
list_copy fuel none = pure list_new
list_copy fuel (some l) = do
  size ← list_size fuel (some l)
  if size == 0
      then pure list_new
      else if ltb size 5
      then (do ret ← list_copy_into fuel (some l) (some list_new); root_of ret)
      else copy_chunk size l.begin

-- `ListDeepCopy`
unfoldable pub list_deep_copy : ℕ → Option ListRoot → (ℕ → ℕ) → Cmd ListRoot
unfolding list_copy list_map
list_deep_copy fuel none assigner = pure list_new
list_deep_copy fuel (some l) assigner = do
  ret ← list_copy fuel (some l)
  list_map fuel (some ret) assigner
  pure ret

-- `ListDestroyDeep`: the loop over the values, and the call
unfoldable pub deallocate_values : ℕ → Ptr → (ℕ → Cmd (Unit {0})) → Cmd (Unit {0})
unfolding list_next list_get_value
deallocate_values zero iter deallocator = λ h. out_of_fuel
deallocate_values (suc fuel) iter deallocator = if iter == null then pure tt else do
  value ← list_get_value iter
  deallocator value
  iter' ← list_next iter
  deallocate_values fuel iter' deallocator

unfoldable pub list_destroy_deep :
    ℕ → Option ListRoot → (ℕ → Cmd (Unit {0})) → Cmd (Option ListRoot)
unfolding deallocate_values list_destroy
list_destroy_deep fuel l deallocator = do
  deallocate_values fuel (list_begin l) deallocator
  list_destroy fuel l

-- `ListPrintNodes`, `ListPrint` and `ListPrintln`, as the text that they print
unfoldable pub list_print_nodes : ℕ → Ptr → (ℕ → Text) → Cmd Text
unfolding load
list_print_nodes zero l printer = λ h. out_of_fuel
list_print_nodes (suc fuel) l printer = if l == null then pure [] else do
  n ← load l
  s ← list_print_nodes fuel n.right printer
  pure (printer n.value ++ (b';' ∷ b' ' ∷ s))

unfoldable pub list_print : ℕ → Option ListRoot → (ℕ → Text) → Cmd Text
unfolding list_print_nodes
list_print fuel l printer = do
  r ← root_of l
  s ← list_print_nodes fuel r.begin printer
  pure (b'[' ∷ b' ' ∷ (s ++ (b']' ∷ b' ' ∷ [])))

unfoldable pub list_println : ℕ → Option ListRoot → (ℕ → Text) → Cmd Text
unfolding list_print
list_println fuel none printer = pure (b'N' ∷ b'U' ∷ b'L' ∷ b'L' ∷ b'\n' ∷ [])
list_println fuel (some l) printer = do
  s ← list_print fuel (some l) printer
  pure (s ++ (b'\n' ∷ []))
