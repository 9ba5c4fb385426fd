-- ===== src/HashMap/Iterator.antt =====
-- Iterators: `LOOP_HASHMAP` and what it calls. The target of an iterator is the map that is passed.
use automaton_state_machine.Base.{
  ℕ, zero, suc, ◌+◌, Option, none, some, Bool, true, false, leb, List, [], ◌∷◌, get_elem?,
}
use automaton_state_machine.Base.Int.{pos}
use automaton_state_machine.Base.Outcome.{Outcome, ok, out_of_fuel, ◌>>=◌}
use automaton_state_machine.ArrayList.Ops.{array_list_get_value_at}
use automaton_state_machine.HashMap.Ops.{HashMap, Element, items}

-- `HashMapIterator`
pub record Iterator : Type 0 where
  pub bucket : ℕ
  pub index : ℕ

module _ {K V : Type 0} where
  -- `ArrayListGetValueAt` at the bucket and `ListGetValueAt` at the index
  unfoldable pub element_at : HashMap K V → Iterator → Outcome (Option (Element K V) × HashMap K V)
  unfolding array_list_get_value_at
  element_at hm it = array_list_get_value_at hm.nodes (pos it.bucket) >>= λ (node, nodes).
      ok (get_elem? (items node) it.index, record hm { nodes = nodes })

  -- the `while(1)` of `HashMapNext`, from a position on
  unfoldable pub seek : ℕ → HashMap K V → Iterator → Outcome (Iterator × HashMap K V)
  unfolding element_at
  seek zero hm it = out_of_fuel
  seek (suc fuel) hm it = elim (leb hm.nodes.size it.bucket) [
    | true ↦ ok (it, hm)
    | false ↦ element_at hm it >>= λ (element, hm'). elim element [
      | none ↦ seek fuel hm' (record { bucket = it.bucket + 1; index = 0 })
      | some e ↦ ok (it, hm')
    ]
  ]

  -- `HashMapNext`: one visit of each bucket is enough
  unfoldable pub hash_map_next : HashMap K V → Iterator → Outcome (Iterator × HashMap K V)
  unfolding seek
  hash_map_next hm it = seek (hm.nodes.size + 1) hm (record it { index = it.index + 1 })

  -- `HashMapBegin`, which calls `HashMapNext` at index -1
  unfoldable pub hash_map_begin : HashMap K V → Outcome (Iterator × HashMap K V)
  unfolding seek
  hash_map_begin hm = seek (hm.nodes.size + 1) hm (record { bucket = 0; index = 0 })

  -- `HashMapIsEnd`
  unfoldable pub hash_map_is_end : HashMap K V → Iterator → Outcome (Bool × HashMap K V)
  unfolding array_list_get_value_at
  hash_map_is_end hm it = array_list_get_value_at hm.nodes (pos it.bucket) >>= λ (node, nodes).
      ok (elim node [ none ↦ true | some values ↦ false ], record hm { nodes = nodes })

  -- `HashMapGetValue` and `HashMapGetKey`
  unfoldable pub hash_map_get_value : HashMap K V → Iterator → Outcome (Option V × HashMap K V)
  unfolding element_at
  hash_map_get_value hm it = element_at hm it >>= λ (element, hm').
      ok (elim element [ none ↦ none | some (k, v) ↦ some v ], hm')

  unfoldable pub hash_map_get_key : HashMap K V → Iterator → Outcome (Option K × HashMap K V)
  unfolding element_at
  hash_map_get_key hm it = element_at hm it >>= λ (element, hm').
      ok (elim element [ none ↦ none | some (k, v) ↦ some k ], hm')

  -- The elements that `LOOP_HASHMAP` visits, in order, where the body leaves the map alone.
  unfoldable pub visit : ℕ → HashMap K V → Iterator → Outcome (List (Element K V) × HashMap K V)
  unfolding element_at hash_map_next hash_map_is_end
  visit zero hm it = out_of_fuel
  visit (suc fuel) hm it = hash_map_is_end hm it >>= λ (done, hm₁). elim done [
    | true ↦ ok ([], hm₁)
    | false ↦ element_at hm₁ it >>= λ (element, hm₂). hash_map_next hm₂ it >>= λ (it', hm₃).
        visit fuel hm₃ it' >>= λ (rest, hm₄).
        ok (elim element [ none ↦ rest | some e ↦ e ∷ rest ], hm₄)
  ]

  unfoldable pub loop_hash_map : ℕ → HashMap K V → Outcome (List (Element K V) × HashMap K V)
  unfolding hash_map_begin visit
  loop_hash_map fuel hm = hash_map_begin hm >>= λ (it, hm'). visit fuel hm' it
