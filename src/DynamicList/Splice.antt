-- ===== src/DynamicList/Splice.antt =====
-- The operations that cut and join lists in the middle.
use automaton_state_machine.Base.{ℕ, Option, none, some, ◌||◌, ◌==◌, if◌then◌else◌}
use automaton_state_machine.DynamicList.Heap.{
  Ptr, null, node, Cmd, pure, ◌>>=◌, ◌>>◌, load, set_right, set_left, malloc, free,
}
use automaton_state_machine.DynamicList.Ops.{
  ListRoot, root, list_new, unless_null, list_push_back, list_destroy,
}

-- `ListDetachElement`
unfoldable pub list_detach_element : ListRoot → Ptr → Cmd ListRoot
unfolding load set_right set_left free
list_detach_element l p = if p == null then pure l else do
  n ← load p
  unless_null n.left (set_right n.left n.right)
  unless_null n.right (set_left n.right n.left)
  free p
  pure (
      root (if n.left == null then n.right else l.begin)
        (if n.right == null then n.left else l.end))

-- `ListNewDetachedElement`
unfoldable pub list_new_detached_element : Cmd Ptr
unfolding malloc
list_new_detached_element = malloc (node null null null)

-- in front of the first node
insert_first : ListRoot → Ptr → ListRoot → Cmd (ListRoot × Option ListRoot)
unfolding set_right set_left
insert_first tgt p src = do
  set_right src.end p
  set_left p src.end
  pure (root src.begin tgt.end, some list_new)

-- behind another node; the code writes this out twice, for the last node and for the others
insert_behind : ListRoot → Ptr → Ptr → ListRoot → Cmd (ListRoot × Option ListRoot)
unfolding load set_right set_left
insert_behind tgt p left src = do
  set_right left src.begin
  n ← load p
  set_left src.begin n.left
  set_left p src.end
  set_right src.end p
  pure (tgt, some list_new)

-- `ListInsertListAt`: the target's root, and the source's, which is left empty
unfoldable pub list_insert_list_at :
    ListRoot → Ptr → Option ListRoot → Cmd (ListRoot × Option ListRoot)
unfolding load insert_first insert_behind
list_insert_list_at tgt p none = pure (tgt, none)
list_insert_list_at tgt p (some src) =
    if p == null || (src.begin == null || src.end == null) then pure (tgt, some src) else do
      n ← load p
      if n.left == null then insert_first tgt p src else insert_behind tgt p n.left src

-- `ListInsertElementAt`. The wrapper that it destroys is empty unless the node is NULL.
unfoldable pub list_insert_element_at : ℕ → ListRoot → Ptr → ℕ → Cmd ListRoot
unfolding list_push_back list_insert_list_at list_destroy
list_insert_element_at fuel tgt p value = do
  (_, wrapper) ← list_push_back (some list_new) value
  (tgt', wrapper') ← list_insert_list_at tgt p wrapper
  list_destroy fuel wrapper'
  pure tgt'

-- `ListSplit`: the source's root, and the new list
unfoldable pub list_split : Option ListRoot → Ptr → Cmd (Option ListRoot × ListRoot)
unfolding load set_right set_left
list_split none splitter = pure (none, list_new)
list_split (some src) splitter = if splitter == null then pure (some src, list_new) else do
  n ← load splitter
  if n.right == null then pure (some (root src.begin splitter), list_new) else do
    set_right splitter null
    set_left n.right null
    pure (some (root src.begin splitter), root n.right src.end)
