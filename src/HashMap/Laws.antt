-- ===== src/HashMap/Laws.antt =====
-- The map as an association list: all its elements are in one bucket, and each operation does to
-- that list what it should.
use automaton_state_machine.Base.{
  ℕ, Bool, false, [], ◌∷◌, ◌++◌, ◌≡◌, ◌≢◌, refl, sym, ◌∙◌, Option, none, some, Option-cases,
  Bool-cases, inl, inr, ap, arith, if◌then◌else◌,
}
use automaton_state_machine.Base.Int.{ℤ}
use automaton_state_machine.Base.Outcome.{Outcome, ok, ◌>>=◌}
use automaton_state_machine.ArrayList.Ops.{array_list_new, put}
use automaton_state_machine.ArrayList.Laws.{
  Holds, put-Holds, array_list_new-Holds, array_list_resize_fill-Holds, update,
  array_list_get_value_at-Holds, array_list_set_value_at-Holds,
}
use automaton_state_machine.HashMap.Ops.{
  HashMap, Bucket, find, detach, items, hash_map_new, hash_map_get, hash_map_remove, hash_map_set,
  append_element,
}
use automaton_state_machine.HashMap.Assoc.{
  IsComparator, IsUnique, find-append, find-equal, find-detach, find-detach-other, detach-IsUnique,
  append-IsUnique,
}

skip_last :
    {V : Type 0} (o : Option V) (v : V) (b : Bool)
    → b ≡ false
    → elim o as (λ x. Option V) [ none ↦ if b then some v else none | some w ↦ some w ]
      ≡ (if b then some v else o)
skip_last none v b e = refl
skip_last (some w) v b e = rw e refl

module _ {K V : Type 0} where
  -- The elements of the map are `es`, in the bucket that every key hashes to, with keys that the
  -- comparator tells apart.
  pub record IsMap (hm : HashMap K V) (es : Bucket K V) : Type 0 where
    pub slots : ℕ → Option (Bucket K V)
    pub held : Holds slots hm.nodes
    pub bucket : items (slots 1000) ≡ es
    pub others : (i : ℕ) → i ≢ 1000 → slots i ≡ none
    pub unique : IsUnique hm.cmp es

  -- the value that `HashMapGet` reads off a node
  get_step :
      {M : Type 0} (x : M) (cmp : K → K → Bool) (key : K) (o : Option (Bucket K V))
      (es : Bucket K V)
      → items o ≡ es
      → elim o as (λ x. Outcome (Option V × M)) [
        | none ↦ ok (none, x)
        | some values ↦ ok (find cmp key values, x)
      ]
        ≡ ok (find cmp key es, x)
  unfolding find
  get_step x cmp key none es e = rw (sym e) refl
  get_step x cmp key (some values) es e = rw (sym e) refl

  -- In a map whose elements are `es`, `HashMapGet` returns what `es` holds under the key, and
  -- keeps all elements.
  pub hash_map_get-find :
      (hm : HashMap K V) (es : Bucket K V) (key_size : ℤ) (key : K)
      → IsMap hm es
      → (hm' : HashMap K V) × (hash_map_get hm key_size (some key) ≡ ok (find hm.cmp key es, hm'))
        × (hm'.cmp ≡ hm.cmp)
        × IsMap hm' es
  unfolding hash_map_get
  hash_map_get-find hm es key_size key m =
      let (g, run, held, inside) = array_list_get_value_at-Holds m.slots hm.nodes 1000 m.held in
      (
        record hm { nodes = g },
        rw run (get_step (record hm { nodes = g }) hm.cmp key (m.slots 1000) es m.bucket),
        refl,
        record {
          slots = m.slots;
          held = held;
          bucket = m.bucket;
          others = m.others;
          unique = m.unique;
        },
      )

  -- In a map whose elements are `es`, with a comparator that is an equivalence, `HashMapRemove`
  -- returns what `es` holds under the key, and takes that element away.
  pub hash_map_remove-detach :
      (hm : HashMap K V) (es : Bucket K V) (key_size : ℤ) (key : K)
      → IsComparator hm.cmp
      → IsMap hm es
      → (hm' : HashMap K V) × (hash_map_remove hm key_size (some key)
          ≡ ok (find hm.cmp key es, hm'))
        × (hm'.cmp ≡ hm.cmp)
        × IsMap hm' (detach hm.cmp key es)
  unfolding hash_map_remove find detach
  hash_map_remove-detach hm es key_size key c m =
      let (g, run, held, inside) = array_list_get_value_at-Holds m.slots hm.nodes 1000 m.held in
      elim (Option-cases (m.slots 1000)) [
        | inl at ↦
            let no_element : es ≡ [] = sym m.bucket ∙ ap items at in
            (
              record hm { nodes = g },
              rw run (rw (at, no_element) refl),
              refl,
              record {
                slots = m.slots;
                held = held;
                bucket = m.bucket ∙ rw no_element refl;
                others = m.others;
                unique = detach-IsUnique hm.cmp c key es m.unique;
              },
            )
        | inr (values, at) ↦
            let same : es ≡ values = sym m.bucket ∙ ap items at in
            (
              record hm {
                nodes = record g { cells = put g.cells 1000 (some (detach hm.cmp key values)) };
              },
              rw run (rw (at, same) refl),
              refl,
              record {
                slots = update m.slots 1000 (some (detach hm.cmp key values));
                held = put-Holds m.slots g 1000 _ held inside;
                bucket = rw same refl;
                others = λ i ne. ground (arith, m.others i);
                unique = detach-IsUnique hm.cmp c key es m.unique;
              },
            )
      ]

  pub append_element-append :
      (hm : HashMap K V) (es : Bucket K V) (key : K) (value : V)
      → find hm.cmp key es ≡ none
      → IsComparator hm.cmp
      → IsMap hm es
      → (hm' : HashMap K V) × (append_element hm 1000 key value ≡ ok hm')
        × (hm'.cmp ≡ hm.cmp)
        × IsMap hm' (es ++ (key, value) ∷ [])
  unfolding append_element
  append_element-append hm es key value fresh c m =
      let (g, run, held, inside) = array_list_get_value_at-Holds m.slots hm.nodes 1000 m.held in
      let filled = some (items (m.slots 1000) ++ (key, value) ∷ []) in
      let (g', run', held') = array_list_set_value_at-Holds m.slots g 1000 filled held in
      (
        record hm { nodes = g' },
        rw run (rw run' refl),
        refl,
        record {
          slots = update m.slots 1000 filled;
          held = held';
          bucket = ap (λ xs. xs ++ (key, value) ∷ []) m.bucket;
          others = λ i ne. ground (arith, m.others i);
          unique = append-IsUnique hm.cmp c es key value fresh m.unique;
        },
      )

  -- what the elements are once a value is set under a key
  abbrev pub assign : (K → K → Bool) → K → V → Bucket K V → Bucket K V
  assign cmp key value es = detach cmp key es ++ (key, value) ∷ []

  -- `HashMapSet` returns what the elements hold under the key, takes that element away, and appends
  -- the new one.
  pub hash_map_set-assign :
      (hm : HashMap K V) (es : Bucket K V) (key_size : ℤ) (key : K) (value : V)
      → IsComparator hm.cmp
      → IsMap hm es
      → (hm' : HashMap K V) × (hash_map_set hm key_size (some key) value
          ≡ ok (find hm.cmp key es, hm'))
        × (hm'.cmp ≡ hm.cmp)
        × IsMap hm' (assign hm.cmp key value es)
  unfolding hash_map_set
  hash_map_set-assign hm es key_size key value c m =
      let (hm₁, run₁, cmp₁, m₁) = hash_map_remove-detach hm es key_size key c m in
      let fresh : find hm₁.cmp key (detach hm.cmp key es) ≡ none =
        rw cmp₁ (find-detach hm.cmp c key es m.unique) in
      let c₁ : IsComparator hm₁.cmp = rw cmp₁ c in
      let (hm₂, run₂, cmp₂, m₂) =
        append_element-append hm₁ (detach hm.cmp key es) key value fresh c₁ m₁ in
      (hm₂, rw run₁ (rw run₂ refl), cmp₂ ∙ cmp₁, m₂)

  -- the lookup of any key after a value is set
  pub find-assign :
      (cmp : K → K → Bool) (es : Bucket K V) (key other : K) (value : V)
      → IsComparator cmp
      → IsUnique cmp es
      → find cmp other (assign cmp key value es)
        ≡ (if cmp key other then some value else find cmp other es)
  find-assign cmp es key other value c u = elim (Bool-cases (cmp key other)) [
    | inl same ↦
        let gone =
          sym (find-equal cmp c key other (detach cmp key es) same) ∙ find-detach cmp c key es u in
        rw (find-append cmp other (detach cmp key es) key value, gone) (rw same refl)
    | inr differ ↦ rw (find-append cmp other (detach cmp key es) key value) (
        rw (find-detach-other cmp c key other es differ)
          (skip_last (find cmp other es) value (cmp key other) differ))
  ]

  -- In a map whose elements are `es`, with a comparator that is an equivalence, `HashMapSet`
  -- returns what `es` holds under the key; `HashMapGet` then returns the value that was set if the
  -- comparator holds of the two keys, and what `es` holds under its key otherwise.
  pub hash_map_get-hash_map_set :
      (hm : HashMap K V) (es : Bucket K V) (key_size other_size : ℤ) (key other : K) (value : V)
      → IsComparator hm.cmp
      → IsMap hm es
      → (old : Option V) × (hm₁ : HashMap K V) × (hm₂ : HashMap K V) × (hash_map_set hm key_size
            (some key)
            value
          ≡ ok (find hm.cmp key es, hm₁))
        × (hash_map_get hm₁ other_size (some other)
            ≡ ok ((if hm.cmp key other then some value else find hm.cmp other es), hm₂))
  hash_map_get-hash_map_set hm es key_size other_size key other value c m =
      let (hm₁, run₁, cmp₁, m₁) = hash_map_set-assign hm es key_size key value c m in
      let (hm₂, run₂, cmp₂, m₂) = hash_map_get-find hm₁ _ other_size other m₁ in
      (
        find hm.cmp key es,
        hm₁,
        hm₂,
        run₁,
        run₂ ∙ rw (cmp₁, find-assign hm.cmp es key other value c m.unique) refl,
      )

  -- `HashMapNew` gives a map with no elements and the comparator that it is given.
  pub hash_map_new-IsMap :
      (cmp : K → K → Bool)
      → (hm : HashMap K V) × (hash_map_new cmp ≡ ok hm) × (hm.cmp ≡ cmp) × IsMap hm []
  unfolding hash_map_new IsUnique
  hash_map_new-IsMap cmp =
      let (g, run, held, size) =
        array_list_resize_fill-Holds (λ i. none) array_list_new 100 array_list_new-Holds in
      (
        record { nodes = g; cmp = cmp },
        ap (λ o. o >>= λ nodes. ok (record { nodes = nodes; cmp = cmp })) run,
        refl,
        record {
          slots = λ i. none;
          held = held;
          bucket = refl;
          others = λ i ne. refl;
          unique = tt;
        },
      )
