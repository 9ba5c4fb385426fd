-- ===== src/ArrayList/Laws.antt =====
-- An array list as a function from positions to values, with NULL behind the end.
use automaton_state_machine.Base.{
  ℕ, zero, suc, ◌+◌, ◌-◌, ◌≤◌, ◌<◌, ◌≡◌, refl, Option, none, false, ◌&&◌, ◌==◌, ltb, leb,
  if◌then◌else◌, arith, Bool-cases, inl, inr, lt→ltb, ltb→lt, leb→le,
}
use automaton_state_machine.Base.Int.{pos}
use automaton_state_machine.Base.Outcome.{ok}
use automaton_state_machine.ArrayList.Ops.{
  ArrayList, array_list_new, put, array_list_resize_capacity, array_list_resize, fill,
  array_list_resize_fill, ensure, array_list_get_value_at, array_list_set_value_at,
  array_list_push_back, array_list_pop_back,
}

module _ {A : Type 0} where
  -- The list has room for its elements, position `i` below its size holds `f i`, and `f` is NULL
  -- from there on.
  pub record Holds (f : ℕ → Option A) (l : ArrayList A) : Type 0 where
    pub fits : l.size ≤ l.alloc_size
    pub filled : (i : ℕ) → i < l.size → l.cells i ≡ ok (f i)
    pub behind : (i : ℕ) → l.size ≤ i → f i ≡ none

  abbrev pub update : (ℕ → Option A) → ℕ → Option A → ℕ → Option A
  update f i v j = if i == j then v else f j

  -- growing keeps the size and the cells, and makes room for position `m`
  record Grown (l : ArrayList A) (m : ℕ) (g : ArrayList A) : Type 0 where
    size : g.size ≡ l.size
    room : m < g.alloc_size
    more : l.alloc_size ≤ g.alloc_size
    kept : (i : ℕ) → i < l.alloc_size → g.cells i ≡ l.cells i

  resize_capacity-Grown :
      (l : ArrayList A) (m : ℕ) → 0 < m → Grown l m (array_list_resize_capacity l m)
  unfolding array_list_resize_capacity
  resize_capacity-Grown l m h = ground arith

  resize-Grown : (l : ArrayList A) (m : ℕ) → 0 < m → Grown l m (array_list_resize l m)
  unfolding array_list_resize
  resize-Grown l m h = ground arith

  fill_lem :
      (l : ArrayList A) (n i : ℕ) (v : Option A)
      → i + n ≤ l.alloc_size
      → (g : ArrayList A) × (fill l n i v ≡ ok g)
        × (g.size ≡ l.size)
        × (g.alloc_size ≡ l.alloc_size)
        × ((j : ℕ) → g.cells j ≡ (if leb i j && ltb j (i + n) then ok v else l.cells j))
  unfolding fill
  fill_lem l zero i v h = (l, refl, refl, refl, λ j. ground arith)
  fill_lem l (suc n) i v h =
      let l₁ : ArrayList A = record l { cells = put l.cells i v } in
      let (g, run, size, room, cells) = fill_lem l₁ n (i + 1) v (omega arith) in
      (g, rw (lt→ltb i l.alloc_size (omega arith)) run, size, room, λ j. ground (arith, cells j))

  -- `ArrayListNew` holds no value.
  pub array_list_new-Holds : Holds (λ i. none) array_list_new
  array_list_new-Holds = record {
    fits = omega arith;
    filled = λ i lt. ground arith;
    behind = λ i le. refl;
  }

  -- `ArrayListResizeFill` fills up with NULL to the given size, and changes no value.
  pub array_list_resize_fill-Holds :
      (f : ℕ → Option A) (l : ArrayList A) (n : ℕ)
      → Holds f l
      → (g : ArrayList A) × (array_list_resize_fill l (pos n) ≡ ok g) × Holds f g × (n ≤ g.size)
  unfolding array_list_resize_fill
  array_list_resize_fill-Holds f l n h = elim (Bool-cases (leb n l.size)) [
    | inl inside ↦ (l, rw inside refl, h, leb→le _ _ inside)
    | inr outside ↦
        let big : l.size < n = ground arith in
        let grown = resize-Grown l (n + 30) (omega arith) in
        let (g, run, size, room, cells) =
          fill_lem (array_list_resize l (n + 30)) (n - l.size) l.size none
            (ground (arith, grown.room)) in
        (
          record g { size = n },
          rw outside (rw run refl),
          record {
            fits = omega (arith, grown.room);
            filled = λ j lt. ground (arith, cells j, grown.kept j, h.filled j, h.behind j, h.fits);
            behind = λ j le. h.behind j (ground arith);
          },
          omega arith,
        )
  ]

  -- `ensure` makes a position part of the list.
  ensure-Holds :
      (f : ℕ → Option A) (l : ArrayList A) (i : ℕ)
      → Holds f l
      → (g : ArrayList A) × (ensure l (pos i) ≡ ok g) × Holds f g × (i < g.size)
  unfolding ensure
  ensure-Holds f l i h = elim (Bool-cases (ltb i l.size)) [
    | inl inside ↦ (l, rw inside refl, h, ltb→lt _ _ inside)
    | inr outside ↦
        let (g, run, held, size) = array_list_resize_fill-Holds f l (i + 17) h in
        (g, rw outside run, held, omega arith)
  ]

  -- `ArrayListGetValueAt` returns the value at any position, NULL behind the end, and changes no
  -- value, though it grows the list to hold the position.
  pub array_list_get_value_at-Holds :
      (f : ℕ → Option A) (l : ArrayList A) (i : ℕ)
      → Holds f l
      → (g : ArrayList A) × (array_list_get_value_at l (pos i) ≡ ok (f i, g))
        × Holds f g
        × (i < g.size)
  unfolding array_list_get_value_at
  array_list_get_value_at-Holds f l i h =
      let (g, run, holds, inside) = ensure-Holds f l i h in
      (
        g,
        rw (
          run,
          lt→ltb i g.size inside,
          lt→ltb i g.alloc_size (omega (arith, holds.fits)),
          holds.filled i inside,
        ),
        holds,
        inside,
      )

  -- a write inside the list
  pub put-Holds :
      (f : ℕ → Option A) (l : ArrayList A) (i : ℕ) (v : Option A)
      → Holds f l
      → i < l.size
      → Holds (update f i v) (record l { cells = put l.cells i v })
  put-Holds f l i v h inside = record {
    fits = h.fits;
    filled = λ j lt. ground (arith, h.filled j);
    behind = λ j le. ground (arith, h.behind j);
  }

  -- `ArrayListSetValueAt` writes the value at any position of the list or behind its end, keeps
  -- the other values, and returns the one that was there, or NULL.
  pub array_list_set_value_at-Holds :
      (f : ℕ → Option A) (l : ArrayList A) (i : ℕ) (v : Option A)
      → Holds f l
      → (g : ArrayList A) × (array_list_set_value_at l (pos i) v ≡ ok (f i, g))
        × Holds (update f i v) g
  unfolding array_list_set_value_at
  array_list_set_value_at-Holds f l i v h =
      let (g, run, holds, inside) = ensure-Holds f l i h in
      let room : i < g.alloc_size = omega (arith, holds.fits) in
      (
        record g { cells = put g.cells i v },
        rw (run, lt→ltb i g.size inside, lt→ltb i g.alloc_size room, holds.filled i inside),
        put-Holds f g i v holds inside,
      )

  -- `ArrayListPushBack` puts the value behind the last one, keeps the others, and makes the list
  -- longer by one.
  pub array_list_push_back-Holds :
      (f : ℕ → Option A) (l : ArrayList A) (v : Option A)
      → Holds f l
      → (g : ArrayList A) × (array_list_push_back l v ≡ ok g)
        × Holds (update f l.size v) g
        × (g.size ≡ l.size + 1)
  unfolding array_list_push_back
  array_list_push_back-Holds f l v h =
      let g = array_list_resize l (l.size + 1) in
      let grown = resize-Grown l (l.size + 1) (omega arith) in
      (
        record { cells = put g.cells l.size v; alloc_size = g.alloc_size; size = l.size + 1 },
        rw (lt→ltb l.size g.alloc_size (omega (arith, grown.room))),
        record {
          fits = omega (arith, grown.room);
          filled = λ j lt. ground (arith, grown.kept j, h.filled j, h.fits);
          behind = λ j le. ground (arith, h.behind j);
        },
        refl,
      )

  -- `ArrayListPopBack` takes the last value of a list that is not empty off and returns it, and keeps
  -- the others.
  pub array_list_pop_back-Holds :
      (f : ℕ → Option A) (l : ArrayList A)
      → Holds f l
      → 0 < l.size
      → (g : ArrayList A) × (array_list_pop_back l ≡ ok (f (l.size - 1), g))
        × Holds (update f (l.size - 1) none) g
        × (g.size + 1 ≡ l.size)
  unfolding array_list_pop_back
  array_list_pop_back-Holds f l h positive =
      let some_left : (l.size == 0) ≡ false = ground arith in
      let room : l.size - 1 < l.alloc_size = omega (arith, h.fits) in
      let inside = lt→ltb (l.size - 1) l.alloc_size room in
      (
        record l { cells = put l.cells (l.size - 1) none; size = l.size - 1 },
        rw (some_left, inside, h.filled (l.size - 1) (omega arith)) refl,
        record {
          fits = omega (arith, h.fits);
          filled = λ j lt. ground (arith, h.filled j);
          behind = λ j le. ground (arith, h.behind j);
        },
        omega arith,
      )
