-- ===== src/HashMap/Deep.antt =====
-- `HashMapSetDeep` and `HashMapRemoveDeep` do to the elements what `HashMapSet` and `HashMapRemove` do.
use automaton_state_machine.Base.{◌≡◌, refl, ◌∙◌, Bool, false, none, some, [], ◌∷◌, ap, arith}
use automaton_state_machine.Base.Int.{ℤ}
use automaton_state_machine.Base.Outcome.{ok}
use automaton_state_machine.HashMap.Ops.{
  HashMap, Bucket, find, detach, hash_map_remove_deep, hash_map_set_deep,
}
use automaton_state_machine.HashMap.Assoc.{IsComparator, find-detach}
use automaton_state_machine.HashMap.Laws.{
  IsMap, assign, hash_map_remove-detach, append_element-append,
}

module _ {K V : Type 0} where
  pub detach-absent :
      (cmp : K → K → Bool) (key : K) (es : Bucket K V)
      → find cmp key es ≡ none
      → detach cmp key es ≡ es
  unfolding find detach
  detach-absent cmp key [] h = refl
  detach-absent cmp key ((k, v) ∷ es) h =
      let other : cmp k key ≡ false = ground arith in
      rw other (ap (◌∷◌ (k, v)) (detach-absent cmp key es (ground arith)))

  module _ (hm : HashMap K V) (es : Bucket K V) (key_size : ℤ) (key : K) (c : IsComparator hm.cmp)
      (m : IsMap hm es) where
    pub hash_map_remove_deep-detach :
        (hm' : HashMap K V) × (hash_map_remove_deep hm key_size (some key) ≡ ok hm')
        × (hm'.cmp ≡ hm.cmp)
        × IsMap hm' (detach hm.cmp key es)
    unfolding hash_map_remove_deep
    hash_map_remove_deep-detach =
        let (hm', run, cmp, held) = hash_map_remove-detach hm es key_size key c m in
        (hm', rw run refl, cmp, held)

    pub hash_map_set_deep-assign :
        (value : V)
        → (hm' : HashMap K V) × (hash_map_set_deep hm key_size (some key) value ≡ ok hm')
          × (hm'.cmp ≡ hm.cmp)
          × IsMap hm' (assign hm.cmp key value es)
    unfolding hash_map_set_deep
    hash_map_set_deep-assign value =
        let (hm₁, run₁, cmp₁, m₁) = hash_map_remove_deep-detach in
        let fresh : find hm₁.cmp key (detach hm.cmp key es) ≡ none =
          rw cmp₁ (find-detach hm.cmp c key es m.unique) in
        let c₁ : IsComparator hm₁.cmp = rw cmp₁ c in
        let (hm₂, run₂, cmp₂, m₂) =
          append_element-append hm₁ (detach hm.cmp key es) key value fresh c₁ m₁ in
        (hm₂, rw run₁ (rw run₂ refl), cmp₂ ∙ cmp₁, m₂)
