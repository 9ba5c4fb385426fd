-- ===== src/DynamicList/Print.antt =====
-- What `ListPrint` prints.
use automaton_state_machine.Base.{
  ℕ, zero, suc, ◌<◌, ◌≡◌, refl, false, List, some, ◌==◌, [], ◌∷◌, ◌++◌, arith, length,
}
use automaton_state_machine.Base.Outcome.{ok}
use automaton_state_machine.Text.Scan.{Text}
use automaton_state_machine.DynamicList.Heap.{Ptr, null, Heap}
use automaton_state_machine.DynamicList.Ops.{ListRoot}
use automaton_state_machine.DynamicList.Chain.{Cells, values, Chain, IsList}
use automaton_state_machine.DynamicList.Copy.{list_print_nodes, list_print}

abbrev pub shown : (ℕ → Text) → List ℕ → Text
shown printer [] = []
shown printer (v ∷ vs) = printer v ++ (b';' ∷ b' ' ∷ shown printer vs)

module _ (h : Heap) (printer : ℕ → Text) where
  print_nodes-shown :
      (fuel : ℕ) (prev p : Ptr) (xs : Cells) (last : Ptr)
      → Chain h.cell prev p xs last null
      → length xs < fuel
      → list_print_nodes fuel p printer h ≡ ok (shown printer (values xs), h)
  unfolding list_print_nodes
  print_nodes-shown zero prev p xs last ch f = absurd (omega arith)
  print_nodes-shown (suc fuel) prev p [] last (e, _) f = rw e
  print_nodes-shown (suc fuel) prev p ((a, v) ∷ xs) last (q, e, ne, at, rest) f =
      let nz : (a == null) ≡ false = ground arith in
      rw (e, nz) (rw (nz, at) (rw (print_nodes-shown fuel a q xs last rest (omega arith)) refl))

  -- With fuel for more than the nodes of the list, `ListPrint` prints the values in order, each with
  -- a semicolon and a blank behind it, in brackets, and leaves the heap as it is.
  pub list_print-shown :
      (l : ListRoot) (xs : Cells) (fuel : ℕ)
      → IsList h l xs
      → length xs < fuel
      → list_print fuel (some l) printer h
        ≡ ok (b'[' ∷ b' ' ∷ (shown printer (values xs) ++ (b']' ∷ b' ' ∷ [])), h)
  unfolding list_print
  list_print-shown l xs fuel is f =
      rw (print_nodes-shown fuel null l.begin xs l.end is.chain f) refl
