-- ===== src/ArrayList/Ops.antt =====
-- The operations. A list is passed by value and given back; `ArrayList*` is never NULL in the
-- program, and is not here. A cell holds a pointer, where `none` is NULL, or was never written.
use automaton_state_machine.Base.{
  ℕ, zero, suc, ◌+◌, ◌-◌, ◌*◌, Option, none, Bool, false, ◌||◌, ◌==◌, ltb, leb, if◌then◌else◌,
}
use automaton_state_machine.Base.Int.{ℤ, pos, negsuc}
use automaton_state_machine.Base.Outcome.{Outcome, ok, undefined, ◌>>=◌}

-- `ArrayList`
pub record ArrayList (A : Type 0) : Type 0 where
  pub cells : ℕ → Outcome (Option A)
  pub alloc_size : ℕ
  pub size : ℕ

-- `ARRAY_LIST_AUTORESIZE_FACTOR`
abbrev pub autoresize_factor : ℕ
autoresize_factor = 2

module _ {A : Type 0} where
  -- `ArrayListNew`
  abbrev pub array_list_new : ArrayList A
  array_list_new = record { cells = λ i. undefined; alloc_size = 0; size = 0 }

  -- `(l->data)[i]`, read and written
  abbrev pub read : ArrayList A → ℕ → Outcome (Option A)
  read l i = if ltb i l.alloc_size then l.cells i else undefined

  abbrev pub put : (ℕ → Outcome (Option A)) → ℕ → Option A → ℕ → Outcome (Option A)
  put f i v j = if i == j then ok v else f j

  abbrev pub write : ArrayList A → ℕ → Option A → Outcome (ArrayList A)
  write l i v = if ltb i l.alloc_size then ok (record l { cells = put l.cells i v }) else undefined

  -- `ArrayListResizeCapacity`. `realloc` keeps the old cells, and the new ones are not written.
  unfoldable pub array_list_resize_capacity : ArrayList A → ℕ → ArrayList A
  array_list_resize_capacity l min_size =
      if ltb min_size l.alloc_size || min_size == 0 then l else record {
        cells = λ i. if ltb i l.alloc_size then l.cells i else undefined;
        alloc_size = min_size + 1;
        size = l.size;
      }

  -- `ArrayListResize`
  unfoldable pub array_list_resize : ArrayList A → ℕ → ArrayList A
  unfolding array_list_resize_capacity
  array_list_resize l min_size =
      if ltb min_size l.alloc_size
      then l
      else if min_size == 0
      then array_list_resize_capacity l 2
      else array_list_resize_capacity
          (array_list_resize_capacity l (l.alloc_size * autoresize_factor)) min_size

  -- the loop `for(int i=oldSize;i<min_size;++i)`, with the rounds that are left
  unfoldable pub fill : ArrayList A → ℕ → ℕ → Option A → Outcome (ArrayList A)
  fill l zero i v = ok l
  fill l (suc n) i v = write l i v >>= λ l'. fill l' n (i + 1) v

  -- `ArrayListResizeFill` and, with the value that the constructor gives, `ArrayListResizeFillWith`
  unfoldable pub array_list_resize_fill_with : ArrayList A → ℤ → Option A → Outcome (ArrayList A)
  unfolding array_list_resize fill
  array_list_resize_fill_with l (negsuc min_size) v = ok l
  array_list_resize_fill_with l (pos min_size) v =
      if leb min_size l.size
      then ok l
      else (fill (array_list_resize l (min_size + 30)) (min_size - l.size) l.size v >>= λ l'.
          ok (record l' { size = min_size }))

  unfoldable pub array_list_resize_fill : ArrayList A → ℤ → Outcome (ArrayList A)
  unfolding array_list_resize_fill_with
  array_list_resize_fill l min_size = array_list_resize_fill_with l min_size none

  -- what `ArrayListGetValueAt` and `ArrayListSetValueAt` do first
  unfoldable pub ensure : ArrayList A → ℤ → Outcome (ArrayList A)
  unfolding array_list_resize_fill
  ensure l (pos i) = if ltb i l.size then ok l else array_list_resize_fill l (pos (i + 17))
  ensure l (negsuc i) = if leb i 16 then array_list_resize_fill l (pos (16 - i)) else ok l

  -- `ArrayListGetValueAt`
  unfoldable pub array_list_get_value_at : ArrayList A → ℤ → Outcome (Option A × ArrayList A)
  unfolding ensure
  array_list_get_value_at l (pos i) = ensure l (pos i) >>= λ l'.
      if ltb i l'.size then (read l' i >>= λ v. ok (v, l')) else ok (none, l')
  array_list_get_value_at l (negsuc i) = ensure l (negsuc i) >>= λ l'. ok (none, l')

  -- `ArrayListSetValueAt`, which returns the old value
  unfoldable pub array_list_set_value_at :
      ArrayList A → ℤ → Option A → Outcome (Option A × ArrayList A)
  unfolding ensure
  array_list_set_value_at l (pos i) value = ensure l (pos i) >>= λ l'.
      if ltb i l'.size
      then (read l' i >>= λ old. write l' i value >>= λ l''. ok (old, l''))
      else ok (none, l')
  array_list_set_value_at l (negsuc i) value = ensure l (negsuc i) >>= λ l'. ok (none, l')

  -- `ArrayListPushBack`; the iterator that it returns is at the last position
  unfoldable pub array_list_push_back : ArrayList A → Option A → Outcome (ArrayList A)
  unfolding array_list_resize
  array_list_push_back l value = write (array_list_resize l (l.size + 1)) l.size value >>= λ l'.
      ok (record l' { size = l.size + 1 })

  -- `ArrayListPopBack`
  unfoldable pub array_list_pop_back : ArrayList A → Outcome (Option A × ArrayList A)
  array_list_pop_back l =
      if l.size == 0
      then ok (none, l)
      else (read l (l.size - 1) >>= λ v.
          write l (l.size - 1) none >>= λ l'. ok (v, record l' { size = l.size - 1 }))

  -- `ArrayListClear`
  unfoldable pub array_list_clear : ArrayList A → Outcome (ArrayList A)
  unfolding fill
  array_list_clear l = fill l l.size 0 none >>= λ l'. ok (record l' { size = 0 })

  -- `ArrayListDestroy`
  abbrev pub array_list_destroy : ArrayList A → ArrayList A
  array_list_destroy l = if l.alloc_size == 0 then l else array_list_new

  -- `ArrayListFirst` and `ArrayListLast`
  abbrev pub array_list_first : ArrayList A → Outcome (Option A)
  array_list_first l = if l.size == 0 then ok none else read l 0

  abbrev pub array_list_last : ArrayList A → Outcome (Option A)
  array_list_last l = if l.size == 0 then ok none else read l (l.size - 1)

  -- the loop of `ArrayListCopy`
  unfoldable pub copy_cells : ArrayList A → ArrayList A → ℕ → ℕ → Outcome (ArrayList A)
  copy_cells l new_list zero i = ok new_list
  copy_cells l new_list (suc n) i =
      read l i >>= λ v. write new_list i v >>= λ l'. copy_cells l l' n (i + 1)

  -- `ArrayListCopy`
  unfoldable pub array_list_copy : ArrayList A → Outcome (ArrayList A)
  unfolding array_list_resize copy_cells
  array_list_copy l = copy_cells l (array_list_resize array_list_new l.size) l.size 0 >>= λ l'.
      ok (record l' { size = l.size })

  -- `ArrayListMapNodes`, which writes back unless `preserve_value`, over the positions from `i` on
  unfoldable pub array_list_map_nodes :
      ArrayList A → (Option A → Option A) → Bool → ℕ → ℕ → Outcome (ArrayList A)
  array_list_map_nodes l mapping preserve_value zero i = ok l
  array_list_map_nodes l mapping preserve_value (suc n) i = read l i >>= λ v.
      (if preserve_value then ok l else write l i (mapping v)) >>= λ l'.
      array_list_map_nodes l' mapping preserve_value n (i + 1)

  -- `ArrayListMap`
  unfoldable pub array_list_map : ArrayList A → (Option A → Option A) → Outcome (ArrayList A)
  unfolding array_list_map_nodes
  array_list_map l mapping = array_list_map_nodes l mapping false l.size 0
