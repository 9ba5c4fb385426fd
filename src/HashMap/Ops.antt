-- ===== src/HashMap/Ops.antt =====
-- The operations. A bucket's linked list is the list of its elements, which is what the operations
-- of src/dynamic_lists.c make of it; a key is NULL or a pointer that the comparator reads. Elements
-- are never NULL, and a value that is stored is not NULL. Releasing memory is not modelled.
use automaton_state_machine.Base.{
  ℕ, Option, none, some, Bool, true, false, if◌then◌else◌, List, [], ◌∷◌, ◌++◌,
}
use automaton_state_machine.Base.Int.{ℤ, pos}
use automaton_state_machine.Base.Outcome.{Outcome, ok, ◌>>=◌}
use automaton_state_machine.ArrayList.Ops.{
  ArrayList, array_list_new, array_list_resize_fill, array_list_get_value_at,
  array_list_set_value_at, put,
}

-- `HashMapElement`, key and value
abbrev pub Element : Type 0 → Type 0 → Type 0
Element K V = K × V

-- `HashMapNode`: the elements of a bucket
abbrev pub Bucket : Type 0 → Type 0 → Type 0
Bucket K V = List (Element K V)

-- `HashMap`
pub record HashMap (K V : Type 0) : Type 0 where
  pub nodes : ArrayList (Bucket K V)
  pub cmp : K → K → Bool

-- `HashMapCalcHash`. Whatever its loop computes from the key, its last statement puts 1000.
abbrev pub hash_map_calc_hash : {K : Type 0} → ℤ → K → ℕ
hash_map_calc_hash key_size key = 1000

module _ {K V : Type 0} where
  abbrev with_nodes : HashMap K V → ArrayList (Bucket K V) → HashMap K V
  with_nodes hm nodes = record hm { nodes = nodes }

  -- `HashMapNew`
  unfoldable pub hash_map_new : (K → K → Bool) → Outcome (HashMap K V)
  unfolding array_list_resize_fill
  hash_map_new cmp = array_list_resize_fill array_list_new (pos 100) >>= λ nodes.
      ok (record { nodes = nodes; cmp = cmp })

  -- the loop of `HashMapGet`: the value of the first element whose key compares equal
  unfoldable pub find : (K → K → Bool) → K → Bucket K V → Option V
  find cmp key [] = none
  find cmp key ((k, v) ∷ es) = if cmp k key then some v else find cmp key es

  -- the loop of `HashMapRemove`: the bucket without that element
  unfoldable pub detach : (K → K → Bool) → K → Bucket K V → Bucket K V
  detach cmp key [] = []
  detach cmp key ((k, v) ∷ es) = if cmp k key then es else (k, v) ∷ detach cmp key es

  -- `HashMapGet`. The look into the bucket can grow the array of nodes.
  unfoldable pub hash_map_get : HashMap K V → ℤ → Option K → Outcome (Option V × HashMap K V)
  unfolding array_list_get_value_at find
  hash_map_get hm key_size none = ok (none, hm)
  hash_map_get hm key_size (some key) =
      array_list_get_value_at hm.nodes (pos (hash_map_calc_hash key_size key)) >>= λ (node, nodes).
      elim node [
        | none ↦ ok (none, with_nodes hm nodes)
        | some values ↦ ok (find hm.cmp key values, with_nodes hm nodes)
      ]

  -- `HashMapHas`
  unfoldable pub hash_map_has : HashMap K V → ℤ → Option K → Outcome (Bool × HashMap K V)
  unfolding hash_map_get
  hash_map_has hm key_size key = hash_map_get hm key_size key >>= λ (value, hm').
      ok (elim value [ none ↦ false | some v ↦ true ], hm')

  -- `HashMapRemove`. The list that it changes is the one that the node holds.
  unfoldable pub hash_map_remove : HashMap K V → ℤ → Option K → Outcome (Option V × HashMap K V)
  unfolding array_list_get_value_at find detach
  hash_map_remove hm key_size none = ok (none, hm)
  hash_map_remove hm key_size (some key) =
      let hash = hash_map_calc_hash key_size key in
      array_list_get_value_at hm.nodes (pos hash) >>= λ (node, nodes). elim node [
        | none ↦ ok (none, with_nodes hm nodes)
        | some values ↦
            let left = some (detach hm.cmp key values) in
            ok (
              find hm.cmp key values,
              with_nodes hm (record nodes { cells = put nodes.cells hash left }),
            )
      ]

  -- `HashMapRemoveDeep`: the same, and it frees key and value
  unfoldable pub hash_map_remove_deep : HashMap K V → ℤ → Option K → Outcome (HashMap K V)
  unfolding hash_map_remove
  hash_map_remove_deep hm key_size key = hash_map_remove hm key_size key >>= λ (value, hm'). ok hm'

  -- the elements of a node, where NULL is made a new empty node
  abbrev pub items : Option (Bucket K V) → Bucket K V
  items none = []
  items (some values) = values

  -- the second half of `HashMapSet` and `HashMapSetDeep`: a new element at the end of the bucket
  unfoldable pub append_element : HashMap K V → ℕ → K → V → Outcome (HashMap K V)
  unfolding array_list_get_value_at array_list_set_value_at
  append_element hm hash key value =
      array_list_get_value_at hm.nodes (pos hash) >>= λ (node, nodes).
      array_list_set_value_at nodes (pos hash) (some (items node ++ (key, value) ∷ []))
      >>= λ (old, nodes'). ok (with_nodes hm nodes')

  -- `HashMapSet`
  unfoldable pub hash_map_set : HashMap K V → ℤ → Option K → V → Outcome (Option V × HashMap K V)
  unfolding hash_map_remove append_element
  hash_map_set hm key_size none value = ok (none, hm)
  hash_map_set hm key_size (some key) value =
      hash_map_remove hm key_size (some key) >>= λ (old_data, hm').
      append_element hm' (hash_map_calc_hash key_size key) key value >>= λ hm''. ok (old_data, hm'')

  -- `HashMapSetDeep`
  unfoldable pub hash_map_set_deep : HashMap K V → ℤ → Option K → V → Outcome (HashMap K V)
  unfolding hash_map_remove_deep append_element
  hash_map_set_deep hm key_size none value = ok hm
  hash_map_set_deep hm key_size (some key) value =
      hash_map_remove_deep hm key_size (some key) >>= λ hm'.
      append_element hm' (hash_map_calc_hash key_size key) key value
