-- ===== src/Tester/Stored.antt =====
-- How many words the table of src/tester.c holds, and the table at any `int`.
use automaton_state_machine.Base.{
  ℕ, zero, suc, ◌+◌, ◌-◌, ◌≤◌, ◌<◌, ◌≡◌, refl, ◌==◌, leb, false, Option, none, some, arith,
  Bool-cases, inl, inr, ==_iff, add-one,
}
use automaton_state_machine.Base.Int.{ℤ, pos, negsuc}
use automaton_state_machine.Base.Outcome.{ok}
use automaton_state_machine.ArrayList.Ops.{ArrayList, array_list_get_value_at, ensure}
use automaton_state_machine.ArrayList.Laws.{
  Holds, update, array_list_get_value_at-Holds, array_list_resize_fill-Holds,
}

module _ {A : Type 0} where
  abbrev pub one_if : Option A → ℕ
  one_if none = 0
  one_if (some a) = 1

  -- the values below a position
  unfoldable pub stored : (ℕ → Option A) → ℕ → ℕ
  stored f zero = 0
  stored f (suc n) = stored f n + one_if (f n)

  pub stored_zero : (f : ℕ → Option A) → stored f 0 ≡ 0
  unfolding stored
  stored_zero f = refl

  -- the value at an `int`
  abbrev pub at_int : (ℕ → Option A) → ℤ → Option A
  at_int f (pos i) = f i
  at_int f (negsuc i) = none

  stored-update_out :
      (f : ℕ → Option A) (n i : ℕ) (v : Option A) → n ≤ i → stored (update f i v) n ≡ stored f n
  unfolding stored
  stored-update_out f zero i v h = refl
  stored-update_out f (suc n) i v h =
      let other : (i == n) ≡ false = ground arith in
      rw (other, stored-update_out f n i v (omega arith)) refl

  pub stored-add_one : (f : ℕ → Option A) (n : ℕ) → stored f (n + 1) ≡ stored f n + one_if (f n)
  unfolding stored
  stored-add_one f n = rw add-one refl

  -- a write below the position exchanges one value for another
  pub stored-update :
      (f : ℕ → Option A) (n i : ℕ) (v : Option A)
      → i < n
      → stored (update f i v) n + one_if (f i) ≡ stored f n + one_if v
  unfolding stored
  stored-update f zero i v h = absurd (omega arith)
  stored-update f (suc n) i v h = elim (Bool-cases (i == n)) [
    | inl e ↦
        let same : i ≡ n = (==_iff i n).0 e in
        rw (e, ← same) (omega (arith, stored-update_out f i i v (omega arith)))
    | inr e ↦ let below = stored-update f n i v (ground arith) in rw e (omega (arith, below))
  ]

  negative-Holds :
      (f : ℕ → Option A) (l : ArrayList A) (i : ℕ)
      → Holds f l
      → (g : ArrayList A) × (ensure l (negsuc i) ≡ ok g) × Holds f g
  unfolding ensure
  negative-Holds f l i h = elim (Bool-cases (leb i 16)) [
    | inl e ↦
        let (g, run, held, size) = array_list_resize_fill-Holds f l (16 - i) h in
        (g, rw e run, held)
    | inr e ↦ (l, rw e refl, h)
  ]

  -- `ArrayListGetValueAt` at any `int`
  pub array_list_get_value_at-int :
      (f : ℕ → Option A) (l : ArrayList A) (z : ℤ)
      → Holds f l
      → (g : ArrayList A) × (array_list_get_value_at l z ≡ ok (at_int f z, g)) × Holds f g
  unfolding array_list_get_value_at
  array_list_get_value_at-int f l (pos i) h =
      let (g, run, held, size) = array_list_get_value_at-Holds f l i h in (g, run, held)
  array_list_get_value_at-int f l (negsuc i) h =
      let (g, run, held) = negative-Holds f l i h in (g, rw run refl, held)
