-- ===== src/HashMap/Visit.antt =====
-- `LOOP_HASHMAP` visits the elements of a map one by one, in order, and then ends.
use automaton_state_machine.Base.{
  ℕ, zero, suc, ◌+◌, ◌-◌, ◌<◌, ◌≤◌, ◌≡◌, inl, inr, refl, ap, ◌∙◌, true, false, leb, some, List, [],
  ◌∷◌, get_elem?, length, drop, arith, add-one,
}
use automaton_state_machine.Base.Outcome.{ok}
use automaton_state_machine.HashMap.Ops.{HashMap, Bucket, Element}
use automaton_state_machine.HashMap.Iterator.{
  Iterator, element_at, hash_map_next, hash_map_is_end, visit, loop_hash_map,
}
use automaton_state_machine.HashMap.Laws.{IsMap}
use automaton_state_machine.HashMap.Places.{
  At, element_at-element, hash_map_begin-At, hash_map_next-At, hash_map_is_end-At,
}

pub drop_cons :
    {A : Type 0} (xs : List A) (i : ℕ)
    → i < length xs
    → (x : A) × (get_elem? xs i ≡ some x) × (drop i xs ≡ x ∷ drop (suc i) xs)
drop_cons [] i h = absurd (omega arith)
drop_cons (x ∷ xs) zero h = (x, refl, refl)
drop_cons (x ∷ xs) (suc i) h = let (y, at, rest) = drop_cons xs i (omega arith) in (y, at, rest)

drop-outside : {A : Type 0} (xs : List A) (i : ℕ) → length xs ≤ i → drop i xs ≡ []
drop-outside [] zero h = refl
drop-outside [] (suc i) h = refl
drop-outside (x ∷ xs) zero h = absurd (omega arith)
drop-outside (x ∷ xs) (suc i) h = drop-outside xs i (omega arith)

module _ {K V : Type 0} where
  visit_step :
      (fuel : ℕ) (it it' : Iterator) (e : Element K V) (rest : Bucket K V)
      (hm hm₁ hm₂ hm₃ hm₄ : HashMap K V)
      → hash_map_is_end hm it ≡ ok (false, hm₁)
      → element_at hm₁ it ≡ ok (some e, hm₂)
      → hash_map_next hm₂ it ≡ ok (it', hm₃)
      → visit fuel hm₃ it' ≡ ok (rest, hm₄)
      → visit (suc fuel) hm it ≡ ok (e ∷ rest, hm₄)
  unfolding visit
  visit_step fuel it it' e rest hm hm₁ hm₂ hm₃ hm₄ ends element next run =
      rw (ends, visit) (rw element (rw next (rw run refl)))

  visit-drop :
      (fuel : ℕ) (hm : HashMap K V) (es : Bucket K V) (i : ℕ) (it : Iterator)
      → IsMap hm es
      → At hm es i it
      → length es - i < fuel
      → (hm' : HashMap K V) × (visit fuel hm it ≡ ok (drop i es, hm'))
        × (hm'.cmp ≡ hm.cmp)
        × IsMap hm' es
  unfolding visit
  visit-drop zero hm es i it m at enough = absurd (omega arith)
  visit-drop (suc fuel) hm es i it m (inl (h, here)) enough =
      let (hm₁, ends, cmp₁, m₁) = hash_map_is_end-At hm es m i it (inl (h, here)) in
      let more : leb (length es) i ≡ false = ground arith in
      let (it', next, at') = hash_map_next-At hm₁ es m₁ i h in
      let (hm', run, cmp', m') = visit-drop fuel hm₁ es (i + 1) it' m₁ at' (omega arith) in
      let (x, element, rest) = drop_cons es i h in
      (
        hm',
        visit_step fuel it it' x (drop (i + 1) es) hm hm₁ hm₁ hm₁ hm' (ends ∙ rw more refl)
              (ap (element_at hm₁) here ∙ element_at-element hm₁ es m₁ i h ∙ rw element refl)
              (ap (hash_map_next hm₁) here ∙ next) run
            ∙ rw (rest, add-one i) refl,
        cmp' ∙ cmp₁,
        m',
      )
  visit-drop (suc fuel) hm es i it m (inr (h, end)) enough =
      let (hm₁, ends, cmp₁, m₁) = hash_map_is_end-At hm es m i it (inr (h, end)) in
      let done : leb (length es) i ≡ true = ground arith in
      (hm₁, rw (ends, done, drop-outside es i h) refl, cmp₁, m₁)

  -- In a map whose elements are `es`, with fuel for more than these, `LOOP_HASHMAP` visits every
  -- element once, in the order of `es`, and ends; it keeps the elements.
  pub loop_hash_map-all :
      (hm : HashMap K V) (es : Bucket K V) (fuel : ℕ)
      → IsMap hm es
      → length es < fuel
      → (hm' : HashMap K V) × (loop_hash_map fuel hm ≡ ok (es, hm'))
        × (hm'.cmp ≡ hm.cmp)
        × IsMap hm' es
  unfolding loop_hash_map
  loop_hash_map-all hm es fuel m enough =
      let (it, begins, at) = hash_map_begin-At hm es m in
      let (hm', run, cmp', m') = visit-drop fuel hm es 0 it m at (omega arith) in
      (hm', rw begins run, cmp', m')
