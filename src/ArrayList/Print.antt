-- ===== src/ArrayList/Print.antt =====
-- The printers of src/array_lists.c, and `ArrayListDestroyDeep`.
use automaton_state_machine.Base.{
  ℕ, zero, suc, ◌+◌, ◌<◌, ◌≡◌, refl, Option, some, none, false, true, List, [], ◌∷◌, ◌++◌, ◌==◌,
  leb, if◌then◌else◌, arith, Bool-cases, inl, inr,
}
use automaton_state_machine.Base.Outcome.{Outcome, ok, out_of_fuel, ◌>>=◌}
use automaton_state_machine.Text.Scan.{Text}
use automaton_state_machine.ArrayList.Ops.{ArrayList, read, array_list_destroy}
use automaton_state_machine.ArrayList.Iterators.{
  ArrayListIterator, array_list_begin, array_list_is_end, array_list_next, array_list_get_value,
}
use automaton_state_machine.ArrayList.Laws.{Holds, array_list_new-Holds}

module _ {A : Type 0} where
  -- `ArrayListPrintNodes`, `ArrayListPrint` and `ArrayListPrintln`, as the text that they print
  unfoldable pub array_list_print_nodes :
      ℕ → ArrayList A → ArrayListIterator → (Option A → Text) → Outcome Text
  array_list_print_nodes zero l iterator printer = out_of_fuel
  array_list_print_nodes (suc fuel) l iterator printer =
      let rest = array_list_print_nodes fuel l (array_list_next l iterator) printer in
      if array_list_is_end l iterator
      then ok []
      else (array_list_get_value l iterator >>= λ value.
          rest >>= λ s. ok (printer value ++ (b';' ∷ b' ' ∷ s)))

  unfoldable pub array_list_print : ArrayList A → (Option A → Text) → Outcome Text
  unfolding array_list_print_nodes
  array_list_print l printer =
      array_list_print_nodes (l.size + 1) l (array_list_begin l) printer >>= λ s.
      ok (b'[' ∷ b' ' ∷ (s ++ (b']' ∷ b' ' ∷ [])))

  abbrev pub array_list_println : ArrayList A → (Option A → Text) → Outcome Text
  array_list_println l printer = array_list_print l printer >>= λ s. ok (s ++ (b'\n' ∷ []))

  -- the loop of `ArrayListDestroyDeep`: the values that are passed to the deallocator, in order
  unfoldable pub passed_values : ℕ → ArrayList A → ArrayListIterator → Outcome (List (Option A))
  passed_values zero l iter = out_of_fuel
  passed_values (suc fuel) l iter =
      let rest = passed_values fuel l (array_list_next l iter) in
      if array_list_is_end l iter
      then ok []
      else (array_list_get_value l iter >>= λ value. rest >>= λ vs. ok (value ∷ vs))

  -- `ArrayListDestroyDeep`
  unfoldable pub array_list_destroy_deep : ArrayList A → Outcome (List (Option A) × ArrayList A)
  unfolding passed_values
  array_list_destroy_deep l =
      passed_values (l.size + 1) l (array_list_begin l) >>= λ vs. ok (vs, array_list_destroy l)

  -- the values at `n` positions from `i` on
  abbrev pub values_from : (ℕ → Option A) → ℕ → ℕ → List (Option A)
  values_from f zero i = []
  values_from f (suc n) i = f i ∷ values_from f n (i + 1)

  abbrev pub shown : (Option A → Text) → List (Option A) → Text
  shown printer [] = []
  shown printer (v ∷ vs) = printer v ++ (b';' ∷ b' ' ∷ shown printer vs)

  module _ (f : ℕ → Option A) (l : ArrayList A) (holds : Holds f l) where
    read-ok : (i : ℕ) → i < l.size → read l i ≡ ok (f i)
    read-ok i low = ground (arith, holds.filled i low, holds.fits)

    print_nodes-shown :
        (printer : Option A → Text) (n fuel i : ℕ)
        → i + n ≡ l.size
        → n < fuel
        → array_list_print_nodes fuel l (some i) printer ≡ ok (shown printer (values_from f n i))
    unfolding array_list_print_nodes
    print_nodes-shown printer n zero i e enough = absurd (omega arith)
    print_nodes-shown printer zero (suc fuel) i e enough =
        let ended : leb l.size i ≡ true = ground arith in rw ended refl
    print_nodes-shown printer (suc n) (suc fuel) i e enough =
        let inside : leb l.size i ≡ false = ground arith in
        rw
          (
            inside,
            read-ok i (omega arith),
            print_nodes-shown printer n fuel (i + 1) (omega arith) (omega arith),
          )
          refl

    passed_values-all :
        (n fuel i : ℕ)
        → i + n ≡ l.size
        → n < fuel
        → passed_values fuel l (some i) ≡ ok (values_from f n i)
    unfolding passed_values
    passed_values-all n zero i e enough = absurd (omega arith)
    passed_values-all zero (suc fuel) i e enough =
        let ended : leb l.size i ≡ true = ground arith in rw ended refl
    passed_values-all (suc n) (suc fuel) i e enough =
        let inside : leb l.size i ≡ false = ground arith in
        rw
          (
            inside,
            read-ok i (omega arith),
            passed_values-all n fuel (i + 1) (omega arith) (omega arith),
          )
          refl

    -- `ArrayListPrint` reads no cell out of bounds, and prints the values in order.
    pub array_list_print-shown :
        (printer : Option A → Text)
        → array_list_print l printer
          ≡ ok (b'[' ∷ b' ' ∷ (shown printer (values_from f l.size 0) ++ (b']' ∷ b' ' ∷ [])))
    unfolding array_list_print array_list_print_nodes
    array_list_print-shown printer = elim (Bool-cases (l.size == 0)) [
      | inl none_held ↦ let size : l.size ≡ 0 = ground arith in rw (none_held, size) refl
      | inr some_held ↦
          rw
            (some_held, print_nodes-shown printer l.size (l.size + 1) 0 (omega arith) (omega arith))
            refl
    ]

    pub passed_values-begin :
        passed_values (l.size + 1) l (array_list_begin l) ≡ ok (values_from f l.size 0)
    unfolding passed_values
    passed_values-begin = elim (Bool-cases (l.size == 0)) [
      | inl none_held ↦ let size : l.size ≡ 0 = ground arith in rw (none_held, size) refl
      | inr some_held ↦
          rw (some_held, passed_values-all l.size (l.size + 1) 0 (omega arith) (omega arith)) refl
    ]

    pub array_list_destroy-Holds :
        Holds (λ i. none) (array_list_destroy l) × ((array_list_destroy l).size ≡ 0)
    array_list_destroy-Holds = elim (Bool-cases (l.alloc_size == 0)) [
      | inl nothing ↦
          let empty : l.size ≡ 0 = ground (arith, holds.fits) in
          rw nothing (
            record {
              fits = holds.fits;
              filled = λ i lt. absurd (omega arith);
              behind = λ i le. refl;
            },
            empty,
          )
      | inr allocated ↦ rw allocated (array_list_new-Holds, refl)
    ]

    -- `ArrayListDestroyDeep` passes every value of a list to the deallocator once, in order, and
    -- leaves an empty list.
    pub array_list_destroy_deep-all :
        (g : ArrayList A) × (array_list_destroy_deep l ≡ ok (values_from f l.size 0, g))
        × (g.size ≡ 0)
    unfolding array_list_destroy_deep
    array_list_destroy_deep-all =
        (array_list_destroy l, rw passed_values-begin refl, array_list_destroy-Holds.1)
