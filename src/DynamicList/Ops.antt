-- ===== src/DynamicList/Ops.antt =====
-- The operations. A `List*` is NULL or a root; a function that changes the root returns it. A loop
-- runs on fuel, which bounds the number of nodes that it visits.
use automaton_state_machine.Base.{ℕ, zero, suc, Option, none, some, ◌==◌, if◌then◌else◌}
use automaton_state_machine.Base.Outcome.{out_of_fuel}
use automaton_state_machine.DynamicList.Heap.{
  Ptr, null, node, Cmd, pure, ◌>>=◌, ◌>>◌, load, set_right, set_left, malloc, free,
}

-- `ListRoot`
pub record ListRoot : Type 0 where
  pub begin : Ptr
  pub end : Ptr

abbrev pub root : Ptr → Ptr → ListRoot
root b e = record { begin = b; end = e }

-- `ListNew`
abbrev pub list_new : ListRoot
list_new = root null null

-- `ListMakeNode`
unfoldable pub list_make_node : Ptr → ℕ → Ptr → Cmd Ptr
unfolding malloc
list_make_node left value right = malloc (node right value left)

-- a write that the code guards by a test against NULL
abbrev pub unless_null : Ptr → Cmd (Unit {0}) → Cmd (Unit {0})
unless_null p m = if p == null then pure tt else m

-- `ListPushFront`
unfoldable pub list_push_front : Option ListRoot → ℕ → Cmd (Ptr × Option ListRoot)
unfolding list_make_node set_left
list_push_front none value = pure (null, none)
list_push_front (some l) value = do
  new_node ← list_make_node null value l.begin
  unless_null l.begin (set_left l.begin new_node)
  pure (new_node, some (root new_node (if l.end == null then new_node else l.end)))

-- `ListPushBack`
unfoldable pub list_push_back : Option ListRoot → ℕ → Cmd (Ptr × Option ListRoot)
unfolding list_make_node set_right
list_push_back none value = pure (null, none)
list_push_back (some l) value = do
  new_node ← list_make_node l.end value null
  unless_null l.end (set_right l.end new_node)
  pure (new_node, some (root (if l.begin == null then new_node else l.begin) new_node))

-- `ListPopFront`. The value NULL stands for an empty list too.
unfoldable pub list_pop_front : Option ListRoot → Cmd (ℕ × Option ListRoot)
unfolding load set_left free
list_pop_front none = pure (null, none)
list_pop_front (some l) = if l.begin == null then pure (null, some l) else do
  n ← load l.begin
  unless_null n.right (set_left n.right null)
  free l.begin
  pure (n.value, some (root n.right (if n.right == null then null else l.end)))

-- `ListPopBack`
unfoldable pub list_pop_back : Option ListRoot → Cmd (ℕ × Option ListRoot)
unfolding load set_right free
list_pop_back none = pure (null, none)
list_pop_back (some l) = if l.end == null then pure (null, some l) else do
  n ← load l.end
  unless_null n.left (set_right n.left null)
  free l.end
  pure (n.value, some (root (if n.left == null then null else l.begin) n.left))

-- `ListDestroyRecLeft`: the call for the left neighbour comes first
unfoldable pub list_destroy_rec_left : ℕ → Ptr → Cmd (Unit {0})
unfolding load free
list_destroy_rec_left zero l = λ h. out_of_fuel
list_destroy_rec_left (suc fuel) l =
    if l == null
    then pure tt
    else do n ← load l; unless_null n.left (list_destroy_rec_left fuel n.left); free l

-- `ListClear`
unfoldable pub list_clear : ℕ → Option ListRoot → Cmd (Option ListRoot)
unfolding list_destroy_rec_left
list_clear fuel none = pure none
list_clear fuel (some l) = do
  unless_null l.end (list_destroy_rec_left fuel l.end)
  pure (some (root null null))

-- `ListDestroy`
unfoldable pub list_destroy_loop : ℕ → Ptr → Cmd (Unit {0})
unfolding load free
list_destroy_loop zero it = λ h. out_of_fuel
list_destroy_loop (suc fuel) it =
    if it == null then pure tt else do n ← load it; free it; list_destroy_loop fuel n.right

unfoldable pub list_destroy : ℕ → Option ListRoot → Cmd (Option ListRoot)
unfolding list_destroy_loop
list_destroy fuel none = pure none
list_destroy fuel (some l) = do list_destroy_loop fuel l.begin; pure (some (root null null))

-- `ListFirst` and `ListLast`
unfoldable pub list_first : Option ListRoot → Cmd ℕ
unfolding load
list_first none = pure null
list_first (some l) = if l.begin == null then pure null else do n ← load l.begin; pure n.value

unfoldable pub list_last : Option ListRoot → Cmd ℕ
unfolding load
list_last none = pure null
list_last (some l) = if l.end == null then pure null else do n ← load l.end; pure n.value
