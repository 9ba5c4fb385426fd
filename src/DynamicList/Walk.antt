-- ===== src/DynamicList/Walk.antt =====
-- The loops over a list: its size, the value at a position, and the release of all its nodes.
use automaton_state_machine.Base.{
  ℕ, zero, suc, ◌+◌, ◌≤◌, ◌<◌, ◌≡◌, ◌≢◌, refl, Option, none, some, false, ◌==◌, if◌then◌else◌, [],
  ◌∷◌, arith, inl, inr, sym, ap, length, get_or, Bool-cases, add-zero, ◌∙◌, ◌-◌,
}
use automaton_state_machine.Base.Int.{pos}
use automaton_state_machine.Base.Outcome.{ok}
use automaton_state_machine.DynamicList.Heap.{Ptr, null, Node, Heap, update, write, load, free}
use automaton_state_machine.DynamicList.Ops.{ListRoot, root, list_destroy, list_destroy_loop}
use automaton_state_machine.DynamicList.Iterate.{
  list_size, list_size_loop, list_get_value_at, list_get_value_at_loop, list_next, list_get_value,
}
use automaton_state_machine.DynamicList.Chain.{
  Cells, values, has, Chain, Distinct, IsList, Chain-update,
}

-- reading a node of a chain
module _ (h : Heap) (a : Ptr) (n : Node) (ne : a ≢ null) (at : h.cell a ≡ some n) where
  nonzero : (a == null) ≡ false
  nonzero = ground arith

  pub load-ok : load a h ≡ ok (n, h)
  unfolding load
  load-ok = rw (nonzero, at)

  pub list_next-ok : list_next a h ≡ ok (n.right, h)
  unfolding list_next
  list_next-ok = rw nonzero (rw (nonzero, at))

  pub list_get_value-ok : list_get_value a h ≡ ok (n.value, h)
  unfolding list_get_value
  list_get_value-ok = rw nonzero (rw (nonzero, at))

  pub free-ok : free a h ≡ ok (tt, write h a none)
  unfolding free
  free-ok = rw (nonzero, at)

module _ (h : Heap) where
  size_loop-length :
      (fuel : ℕ) (prev p : Ptr) (xs : Cells) (last : Ptr) (size : ℕ)
      → Chain h.cell prev p xs last null
      → length xs < fuel
      → list_size_loop fuel p size h ≡ ok (size + length xs, h)
  unfolding list_size_loop
  size_loop-length zero prev p xs last size ch f = absurd (omega arith)
  size_loop-length (suc fuel) prev p [] last size (e, _) f = rw (e, add-zero)
  size_loop-length (suc fuel) prev p ((a, v) ∷ xs) last size (q, e, ne, at, rest) f =
      let nz : (a == null) ≡ false = ground arith in
      rw (e, nz)
        (rw (nz, at)
          (size_loop-length fuel a q xs last (size + 1) rest (omega arith)
            ∙ ap (λ n. ok (n, h)) (omega arith)))

  -- With fuel for more than the nodes of the list, `ListSize` counts the nodes.
  pub list_size-length :
      (l : ListRoot) (xs : Cells) (fuel : ℕ)
      → IsList h l xs
      → length xs < fuel
      → list_size fuel (some l) h ≡ ok (length xs, h)
  unfolding list_size
  list_size-length l xs fuel is f =
      size_loop-length fuel null l.begin xs l.end 0 is.chain f ∙ ap (λ n. ok (n, h)) (omega arith)

  get_value_at_loop-get_or :
      (fuel position : ℕ) (prev p : Ptr) (xs : Cells) (last i : ℕ)
      → Chain h.cell prev p xs last null
      → length xs < fuel
      → i ≤ position
      → list_get_value_at_loop position fuel p i h ≡ ok (get_or (values xs) (position - i) null, h)
  unfolding list_get_value_at_loop
  get_value_at_loop-get_or zero position prev p xs last i ch f low = absurd (omega arith)
  get_value_at_loop-get_or (suc fuel) position prev p [] last i (e, _) f low = rw e
  get_value_at_loop-get_or (suc fuel) position prev p ((a, v) ∷ xs) last i (q, e, ne, at, rest) f
        low =
      let nz : (a == null) ≡ false = ground arith in
      let next = get_value_at_loop-get_or fuel position a q xs last (i + 1) rest (omega arith) in
      rw (e, nz)
        (rw (nz, at)
          (elim (Bool-cases (position == i)) [
            | inl hit ↦
                let first : position - i ≡ 0 = ground arith in
                rw hit (ap (λ k. ok (get_or (v ∷ values xs) k null, h)) (sym first))
            | inr miss ↦
                let later : position - i ≡ suc (position - (i + 1)) = ground arith in
                rw miss (
                  rw (nz, at)
                    (next (ground arith)
                      ∙ ap (λ k. ok (get_or (v ∷ values xs) k null, h)) (sym later)))
          ]))

  -- With fuel for more than the nodes of the list, `ListGetValueAt` reads the value at a position,
  -- and NULL behind the end.
  pub list_get_value_at-get_or :
      (l : ListRoot) (xs : Cells) (fuel position : ℕ)
      → IsList h l xs
      → length xs < fuel
      → list_get_value_at fuel (some l) (pos position) h ≡ ok (get_or (values xs) position null, h)
  unfolding list_get_value_at
  list_get_value_at-get_or l xs fuel position is f =
      get_value_at_loop-get_or fuel position null l.begin xs l.end 0 is.chain f (omega arith)
      ∙ ap (λ k. ok (get_or (values xs) k null, h)) (omega arith)

  destroy_loop-frees :
      (fuel : ℕ) (c : Ptr → Option Node) (prev p : Ptr) (xs : Cells) (last : Ptr)
      → Chain c prev p xs last null
      → Distinct xs
      → length xs < fuel
      → (g : Ptr → Option Node) × (list_destroy_loop fuel p (record h { cell = c })
          ≡ ok (tt, record h { cell = g }))
        × ((b : Ptr) → g b ≡ (if has b xs then none else c b))
  unfolding list_destroy_loop update
  destroy_loop-frees zero c prev p xs last ch d f = absurd (omega arith)
  destroy_loop-frees (suc fuel) c prev p [] last (e, _) d f = (c, rw e, λ b. refl)
  destroy_loop-frees (suc fuel) c prev p ((a, v) ∷ xs) last (q, e, ne, at, rest) d f =
      let nz : (a == null) ≡ false = ground arith in
      let (g, run, freed) =
        destroy_loop-frees fuel (update c a none) a q xs last
          (Chain-update c a q xs last null a none rest d.0) d.1 (omega arith) in
      (g, rw (e, nz) (rw (nz, at) (rw (nz, at) run)), λ b. ground (arith, freed b))

  -- With fuel for more than the nodes of the list, `ListDestroy` frees the nodes of the list and
  -- no other, each once, and leaves an empty root.
  pub list_destroy-frees :
      (l : ListRoot) (xs : Cells) (fuel : ℕ)
      → IsList h l xs
      → length xs < fuel
      → (g : Ptr → Option Node) × (list_destroy fuel (some l) h
          ≡ ok (some (root null null), record h { cell = g }))
        × ((b : Ptr) → g b ≡ (if has b xs then none else h.cell b))
  unfolding list_destroy
  list_destroy-frees l xs fuel is f =
      let (g, run, freed) =
        destroy_loop-frees fuel h.cell null l.begin xs l.end is.chain is.distinct f in
      (g, rw run, freed)
