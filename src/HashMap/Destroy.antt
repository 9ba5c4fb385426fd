-- ===== src/HashMap/Destroy.antt =====
-- `HashMapDestroy` and `HashMapDestroyDeep`. A node that is NULL counts as one without elements, which
-- is what `&(currentNode->values)` comes to while `values` is the first field.
use automaton_state_machine.Base.{
  ℕ, zero, suc, ◌+◌, ◌<◌, ◌≤◌, ◌≡◌, refl, ap, sym, ◌∙◌, ltb, ◌==◌, Option, none, List, [], ◌∷◌,
  ◌++◌, append-nil, arith, Bool-cases, inl, inr,
}
use automaton_state_machine.Base.Outcome.{Outcome, ok, ◌>>=◌}
use automaton_state_machine.ArrayList.Ops.{array_list_destroy}
use automaton_state_machine.ArrayList.Iterators.{array_list_begin}
use automaton_state_machine.ArrayList.Print.{
  passed_values, values_from, passed_values-begin, array_list_destroy-Holds,
}
use automaton_state_machine.HashMap.Ops.{HashMap, Bucket, items}
use automaton_state_machine.HashMap.Assoc.{IsUnique}
use automaton_state_machine.HashMap.Laws.{IsMap}

module _ {K V : Type 0} where
  -- the elements of the nodes, in order
  abbrev pub elements_of : List (Option (Bucket K V)) → Bucket K V
  elements_of [] = []
  elements_of (node ∷ nodes) = items node ++ elements_of nodes

  -- `HashMapDestroy`, with the elements that it frees
  unfoldable pub hash_map_destroy : HashMap K V → Outcome (Bucket K V × HashMap K V)
  unfolding passed_values
  hash_map_destroy hm =
      passed_values (hm.nodes.size + 1) hm.nodes (array_list_begin hm.nodes) >>= λ nodes.
      ok (elements_of nodes, record hm { nodes = array_list_destroy hm.nodes })

  -- `HashMapDestroyDeep`, with the elements that it frees with their keys and values
  unfoldable pub hash_map_destroy_deep : HashMap K V → Outcome (Bucket K V × HashMap K V)
  unfolding hash_map_destroy
  hash_map_destroy_deep hm = hash_map_destroy hm

  module _ (hm : HashMap K V) (es : Bucket K V) (m : IsMap hm es) where
    -- the buckets behind the one of the elements, and those from one before it on
    elements_behind : (n i : ℕ) → 1000 < i → elements_of (values_from m.slots n i) ≡ []
    elements_behind zero i h = refl
    elements_behind (suc n) i h =
        rw (m.others i (omega arith), elements_behind n (i + 1) (omega arith)) refl

    elements_from : (n i : ℕ) → i ≤ 1000 → 1000 < i + n → elements_of (values_from m.slots n i) ≡ es
    elements_from zero i low high = absurd (omega arith)
    elements_from (suc n) i low high = elim (Bool-cases (i == 1000)) [
      | inl here ↦
          let same : i ≡ 1000 = ground arith in
          rw (same, m.bucket, elements_behind n 1001 (omega arith)) (append-nil es)
      | inr before ↦
          rw (m.others i (ground arith), elements_from n (i + 1) (ground arith) (omega arith)) refl
    ]

    elements_below : (n i : ℕ) → i + n ≤ 1000 → elements_of (values_from m.slots n i) ≡ []
    elements_below zero i h = refl
    elements_below (suc n) i h =
        rw (m.others i (omega arith), elements_below n (i + 1) (omega arith)) refl

    elements_all : elements_of (values_from m.slots hm.nodes.size 0) ≡ es
    elements_all = elim (Bool-cases (ltb 1000 hm.nodes.size)) [
      | inl wide ↦ elements_from hm.nodes.size 0 (omega arith) (ground arith)
      | inr narrow ↦
          let none_held : m.slots 1000 ≡ none = m.held.behind 1000 (ground arith) in
          elements_below hm.nodes.size 0 (ground arith) ∙ ap items (sym none_held) ∙ m.bucket
    ]

    -- `HashMapDestroy` frees every element once, and leaves a map without elements.
    pub hash_map_destroy-all :
        (hm' : HashMap K V) × (hash_map_destroy hm ≡ ok (es, hm'))
        × (hm'.cmp ≡ hm.cmp)
        × IsMap hm' []
    unfolding hash_map_destroy IsUnique
    hash_map_destroy-all = (
      record hm { nodes = array_list_destroy hm.nodes },
      rw (passed_values-begin m.slots hm.nodes m.held, elements_all) refl,
      refl,
      record {
        slots = λ i. none;
        held = (array_list_destroy-Holds m.slots hm.nodes m.held).0;
        bucket = refl;
        others = λ i ne. refl;
        unique = tt;
      },
    )
