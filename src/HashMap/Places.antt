-- ===== src/HashMap/Places.antt =====
-- The places of an iterator of src/hashmap.h: at an element of a map, or behind the last bucket.
use automaton_state_machine.Base.{
  ℕ, zero, suc, ◌+◌, ◌-◌, ◌<◌, ◌≤◌, ◌≡◌, ◌⊎◌, inl, inr, refl, sym, ap, ◌∙◌, true, false, leb, ltb,
  lt→ltb, Option, none, some, Option-cases, List, [], ◌∷◌, get_elem?, length, arith, Bool-cases,
  ◌==◌, add-one,
}
use automaton_state_machine.Base.Int.{pos}
use automaton_state_machine.Base.Outcome.{ok}
use automaton_state_machine.ArrayList.Ops.{ArrayList, array_list_get_value_at, ensure}
use automaton_state_machine.ArrayList.Laws.{Holds, array_list_get_value_at-Holds}
use automaton_state_machine.HashMap.Ops.{HashMap, Bucket, items}
use automaton_state_machine.HashMap.Iterator.{
  Iterator, element_at, seek, hash_map_next, hash_map_begin, hash_map_is_end,
}
use automaton_state_machine.HashMap.Laws.{IsMap}

abbrev pub iterator : ℕ → ℕ → Iterator
iterator b i = record { bucket = b; index = i }

-- the value at a position inside the list, which leaves the list as it is
get_value_at-inside :
    {A : Type 0} (f : ℕ → Option A) (l : ArrayList A) (i : ℕ)
    → Holds f l
    → i < l.size
    → array_list_get_value_at l (pos i) ≡ ok (f i, l)
unfolding array_list_get_value_at ensure
get_value_at-inside f l i h inside =
    rw
      (
        lt→ltb i l.size inside,
        lt→ltb i l.size inside,
        lt→ltb i l.alloc_size (omega (arith, h.fits)),
        h.filled i inside,
      )
      refl

get_elem?-inside :
    {A : Type 0} (xs : List A) (i : ℕ) → i < length xs → (x : A) × (get_elem? xs i ≡ some x)
get_elem?-inside [] i h = absurd (omega arith)
get_elem?-inside (x ∷ xs) zero h = (x, refl)
get_elem?-inside (x ∷ xs) (suc i) h = get_elem?-inside xs i (omega arith)

get_elem?-outside : {A : Type 0} (xs : List A) (i : ℕ) → length xs ≤ i → get_elem? xs i ≡ none
get_elem?-outside [] i h = refl
get_elem?-outside (x ∷ xs) zero h = absurd (omega arith)
get_elem?-outside (x ∷ xs) (suc i) h = get_elem?-outside xs i (omega arith)

module _ {K V : Type 0} where
  -- The iterator is at element `i` of `es`, or behind the last bucket if there is none.
  abbrev pub At : HashMap K V → Bucket K V → ℕ → Iterator → Type 0
  At hm es i it =
      ((i < length es) × (it ≡ iterator 1000 i)) ⊎ ((length es ≤ i) × (it.bucket ≡ hm.nodes.size))

  module _ (hm : HashMap K V) (es : Bucket K V) (m : IsMap hm es) where
    -- a map with an element has the bucket of the elements
    bucket_is : (i : ℕ) → i < length es → (1000 < hm.nodes.size) × (m.slots 1000 ≡ some es)
    bucket_is i h = elim (Option-cases (m.slots 1000)) [
      | inl at ↦
          let no_element : es ≡ [] = sym m.bucket ∙ ap items at in
          absurd (omega (arith, ap length no_element))
      | inr (values, at) ↦
          let same : values ≡ es = sym (ap items at) ∙ m.bucket in
          (ground (arith, m.held.behind 1000), at ∙ ap some same)
    ]

    element_at-inside :
        (b i : ℕ)
        → b < hm.nodes.size
        → element_at hm (iterator b i) ≡ ok (get_elem? (items (m.slots b)) i, hm)
    unfolding element_at
    element_at-inside b i inside = rw (get_value_at-inside m.slots hm.nodes b m.held inside) refl

    pub element_at-element :
        (i : ℕ) → i < length es → element_at hm (iterator 1000 i) ≡ ok (get_elem? es i, hm)
    element_at-element i h =
        let (inside, at) = bucket_is i h in element_at-inside 1000 i inside ∙ rw at refl

    seek_on :
        (fuel b i : ℕ)
        → b < hm.nodes.size
        → get_elem? (items (m.slots b)) i ≡ none
        → seek (suc fuel) hm (iterator b i) ≡ seek fuel hm (iterator (b + 1) 0)
    unfolding seek
    seek_on fuel b i inside e =
        let more : leb hm.nodes.size b ≡ false = ground arith in
        rw (more, seek) (rw (element_at-inside b i inside, e) refl)

    seek_hit :
        (fuel i : ℕ)
        → i < length es
        → seek (suc fuel) hm (iterator 1000 i) ≡ ok (iterator 1000 i, hm)
    unfolding seek
    seek_hit fuel i h =
        let (inside, at) = bucket_is i h in
        let (x, element) = get_elem?-inside es i h in
        let more : leb hm.nodes.size 1000 ≡ false = ground arith in
        rw (more, seek) (rw (element_at-element i h, element) refl)

    -- from a bucket behind which there is no element
    seek-end :
        (n fuel b : ℕ)
        → b + n ≡ hm.nodes.size
        → n < fuel
        → ((c : ℕ) → b ≤ c → items (m.slots c) ≡ [])
        → (it : Iterator) × (seek fuel hm (iterator b 0) ≡ ok (it, hm))
          × (it.bucket ≡ hm.nodes.size)
    unfolding seek
    seek-end n zero b e enough empty = absurd (omega arith)
    seek-end zero (suc fuel) b e enough empty =
        let last : leb hm.nodes.size b ≡ true = ground arith in
        (iterator b 0, rw (last, seek) refl, omega arith)
    seek-end (suc n) (suc fuel) b e enough empty =
        let (it, run, at) =
          seek-end n fuel (b + 1) (omega arith) (omega arith) (λ c le. empty c (omega arith)) in
        (it, seek_on fuel b 0 (omega arith) (rw (empty b (omega arith)) refl) ∙ run, at)

    -- through the empty buckets up to the elements
    seek-start :
        (n fuel b : ℕ)
        → b + n ≡ 1000
        → n < fuel
        → 0 < length es
        → seek fuel hm (iterator b 0) ≡ ok (iterator 1000 0, hm)
    unfolding seek
    seek-start n zero b e enough some_element = absurd (omega arith)
    seek-start zero (suc fuel) b e enough some_element =
        let here : b ≡ 1000 = omega arith in rw here (seek_hit fuel 0 some_element)
    seek-start (suc n) (suc fuel) b e enough some_element =
        let (inside, at) = bucket_is 0 some_element in
        let empty : m.slots b ≡ none = m.others b (omega arith) in
        seek_on fuel b 0 (omega arith) (rw empty refl)
        ∙ seek-start n fuel (b + 1) (omega arith) (omega arith) some_element

    others_empty : (b c : ℕ) → 1000 < b → b ≤ c → items (m.slots c) ≡ []
    others_empty b c behind le = rw (m.others c (omega arith)) refl

    -- `HashMapBegin` is at the first element.
    pub hash_map_begin-At : (it : Iterator) × (hash_map_begin hm ≡ ok (it, hm)) × At hm es 0 it
    unfolding hash_map_begin
    hash_map_begin-At = elim (Bool-cases (ltb 0 (length es))) [
      | inl some_element ↦
          let first : 0 < length es = ground arith in
          let (inside, at) = bucket_is 0 first in
          (
            iterator 1000 0,
            seek-start 1000 (hm.nodes.size + 1) 0 refl (omega arith) first,
            inl (first, refl),
          )
      | inr no_element ↦
          let none_held : length es ≡ 0 = ground arith in
          let empty : (c : ℕ) → 0 ≤ c → items (m.slots c) ≡ [] = λ c le.
            elim (Bool-cases (c == 1000)) [
              | inl same ↦ ground (arith, m.bucket, none_held)
              | inr other ↦ rw (m.others c (ground arith)) refl
            ] in
          let (it, run, at) =
            seek-end hm.nodes.size (hm.nodes.size + 1) 0 (omega arith) (omega arith) empty in
          (it, run, inr (omega arith, at))
    ]

    -- `HashMapNext` goes from an element to the next one.
    pub hash_map_next-At :
        (i : ℕ)
        → i < length es
        → (it : Iterator) × (hash_map_next hm (iterator 1000 i) ≡ ok (it, hm)) × At hm es (i + 1) it
    unfolding hash_map_next
    hash_map_next-At i h =
        let (inside, at) = bucket_is i h in
        elim (Bool-cases (ltb (i + 1) (length es))) [
          | inl more ↦
              let next : i + 1 < length es = ground arith in
              (
                iterator 1000 (i + 1),
                rw (add-one hm.nodes.size) (seek_hit hm.nodes.size (i + 1) next),
                inl (next, refl),
              )
          | inr last ↦
              let (it, run, end) =
                seek-end (hm.nodes.size - 1001) hm.nodes.size 1001 (omega arith) (omega arith)
                  (λ c le. others_empty 1001 c (omega arith) le) in
              let gone : get_elem? (items (m.slots 1000)) (i + 1) ≡ none =
                rw at (get_elem?-outside es (i + 1) (ground arith)) in
              (
                it,
                rw (add-one hm.nodes.size) (seek_on hm.nodes.size 1000 (i + 1) inside gone ∙ run),
                inr (ground arith, end),
              )
        ]

    -- `HashMapIsEnd` tells whether there is no such element. It may grow the array of buckets.
    pub hash_map_is_end-At :
        (i : ℕ) (it : Iterator)
        → At hm es i it
        → (hm' : HashMap K V) × (hash_map_is_end hm it ≡ ok (leb (length es) i, hm'))
          × (hm'.cmp ≡ hm.cmp)
          × IsMap hm' es
    unfolding hash_map_is_end
    hash_map_is_end-At i it (inl (h, here)) =
        let (inside, at) = bucket_is i h in
        let more : leb (length es) i ≡ false = ground arith in
        (
          hm,
          rw here (rw (get_value_at-inside m.slots hm.nodes 1000 m.held inside, at, more) refl),
          refl,
          m,
        )
    hash_map_is_end-At i it (inr (le, end)) =
        let (g, run, held, inside) =
          array_list_get_value_at-Holds m.slots hm.nodes it.bucket m.held in
        let nothing : m.slots it.bucket ≡ none = m.held.behind it.bucket (omega arith) in
        let done : leb (length es) i ≡ true = ground arith in
        (
          record hm { nodes = g },
          rw (run, nothing, done) refl,
          refl,
          record {
            slots = m.slots;
            held = held;
            bucket = m.bucket;
            others = m.others;
            unique = m.unique;
          },
        )
