-- ===== src/Memory/Clean.antt =====
-- The clean-up runs every handler, and frees every block in the register, once.
use automaton_state_machine.Base.{
  ℕ, zero, suc, ◌+◌, ◌<◌, ◌≡◌, ◌≢◌, refl, sym, ap, ◌∙◌, Bool, true, false, ◌==◌, leb, some, List,
  [], ◌∷◌, ◌++◌, append-nil, append_assoc, length, drop, get_elem?, get_elem?-drop_cons,
  length-le_of_drop, add-one, arith, inl, inr, Bool-cases,
}
use automaton_state_machine.Base.Outcome.{ok, ◌>>=◌}
use automaton_state_machine.HashMap.Ops.{HashMap, Bucket}
use automaton_state_machine.HashMap.Iterator.{
  Iterator, element_at, hash_map_begin, hash_map_next, hash_map_is_end, hash_map_get_value,
  hash_map_get_key,
}
use automaton_state_machine.HashMap.Places.{
  iterator, At, hash_map_begin-At, hash_map_is_end-At, hash_map_next-At, element_at-element,
}
use automaton_state_machine.HashMap.Laws.{IsMap}
use automaton_state_machine.Memory.State.{Gc, Holder, Destr, mark, free_block}
use automaton_state_machine.Memory.Tree.{run_handlers, free_blocks, clean_up}
use automaton_state_machine.Memory.Descriptors.{close_calls, close_descriptor, closes_of}
use automaton_state_machine.Memory.Blocks.{has, Distinct, pairs}

-- reading the key and the value of an element
module _ {K V : Type 0} (hm : HashMap K V) (es : Bucket K V) (m : IsMap hm es) (i : ℕ)
    (h : i < length es) (k : K) (v : V) (at : get_elem? es i ≡ some (k, v)) (it : Iterator)
    (here : it ≡ iterator 1000 i) where
  element : element_at hm it ≡ ok (some (k, v), hm)
  element = ap (element_at hm) here ∙ element_at-element hm es m i h ∙ rw at refl

  get_key-element : hash_map_get_key hm it ≡ ok (some k, hm)
  unfolding hash_map_get_key
  get_key-element = rw element refl

  pub get_value-element : hash_map_get_value hm it ≡ ok (some v, hm)
  unfolding hash_map_get_value
  get_value-element = rw element refl

-- a state in the loop over the handlers
abbrev pub handling : Gc → HashMap Holder Destr → List (ℕ × ℕ) → Gc
handling g h c = record g { on = false; handlers = h; closed = c }

module _ (g : Gc) where
  run_handlers_step :
      (fuel : ℕ) (i i' : Iterator) (h₀ h₁ : HashMap Holder Destr) (k : Holder) (d : Destr)
      (c : List (ℕ × ℕ))
      → hash_map_is_end h₀ i ≡ ok (false, h₁)
      → hash_map_get_key h₁ i ≡ ok (some k, h₁)
      → hash_map_get_value h₁ i ≡ ok (some d, h₁)
      → hash_map_next h₁ i ≡ ok (i', h₁)
      → run_handlers close_descriptor (suc fuel) i (handling g h₀ c)
        ≡ run_handlers close_descriptor fuel i' (handling g h₁ (c ++ close_calls d.destr k.ptr))
  unfolding run_handlers
  run_handlers_step fuel i i' h₀ h₁ k d c ends key value next =
      rw (ends, run_handlers) (rw key (rw value (rw next refl)))

  pub run_handlers-all :
      (rest : Bucket Holder Destr) (fuel i : ℕ) (it : Iterator) (h : HashMap Holder Destr)
      (hs : Bucket Holder Destr) (c : List (ℕ × ℕ))
      → IsMap h hs
      → At h hs i it
      → drop i hs ≡ rest
      → length rest < fuel
      → (h' : HashMap Holder Destr) × (run_handlers close_descriptor fuel it (handling g h c)
          ≡ ok (handling g h' (c ++ closes_of rest)))
        × (h'.cmp ≡ h.cmp)
        × IsMap h' hs
  unfolding run_handlers
  run_handlers-all rest zero i it h hs c m at e enough = absurd (omega arith)
  run_handlers-all [] (suc fuel) i it h hs c m at e enough =
      let (h₁, ends, cmp₁, m₁) = hash_map_is_end-At h hs m i it at in
      let done : leb (length hs) i ≡ true = ground (arith, length-le_of_drop hs i e) in
      (h₁, rw (ends, done, append-nil) refl, cmp₁, m₁)
  run_handlers-all ((k, d) ∷ rest) (suc fuel) i it h hs c m (inl (low, here)) e enough =
      let (element, behind, inside) = get_elem?-drop_cons hs i e in
      let (h₁, ends, cmp₁, m₁) = hash_map_is_end-At h hs m i it (inl (low, here)) in
      let more : leb (length hs) i ≡ false = ground arith in
      let (it', next, at') = hash_map_next-At h₁ hs m₁ i low in
      let (h', run, cmp', m') =
        run_handlers-all rest fuel (i + 1) it' h₁ hs (c ++ close_calls d.destr k.ptr) m₁ at'
          (rw (add-one i) behind) (omega arith) in
      (
        h',
        run_handlers_step fuel it it' h h₁ k d c (ends ∙ rw more refl)
              (get_key-element h₁ hs m₁ i low k d element it here)
              (get_value-element h₁ hs m₁ i low k d element it here)
              (ap (hash_map_next h₁) here ∙ next)
            ∙ run
            ∙ ap (λ cs. ok (handling g h' cs))
                (append_assoc c (close_calls d.destr k.ptr) (closes_of rest)),
        cmp' ∙ cmp₁,
        m',
      )
  run_handlers-all ((k, d) ∷ rest) (suc fuel) i it h hs c m (inr (high, end)) e enough =
      let (element, behind, inside) = get_elem?-drop_cons hs i e in absurd (omega arith)

-- the pairs that are left belong to the blocks that are left
drop-pairs : (bs : List ℕ) (i : ℕ) → drop i (pairs bs) ≡ pairs (drop i bs)
drop-pairs bs zero = refl
drop-pairs [] (suc i) = refl
drop-pairs (b ∷ bs) (suc i) = drop-pairs bs i

-- a state in the loop over the blocks
abbrev freeing : Gc → HashMap ℕ ℕ → (ℕ → Bool) → Gc
freeing g m live = record g { mem = m; live = live }

module _ (g : Gc) where
  free_blocks_step :
      (fuel b : ℕ) (i i' : Iterator) (m₀ m₁ : HashMap ℕ ℕ) (live : ℕ → Bool)
      → b ≢ 0
      → live b ≡ true
      → hash_map_is_end m₀ i ≡ ok (false, m₁)
      → hash_map_get_value m₁ i ≡ ok (some b, m₁)
      → hash_map_next m₁ i ≡ ok (i', m₁)
      → free_blocks (suc fuel) i (freeing g m₀ live)
        ≡ free_blocks fuel i' (freeing g m₁ (mark live b false))
  unfolding free_blocks free_block
  free_blocks_step fuel b i i' m₀ m₁ live ne held ends value next =
      let nonzero : (b == 0) ≡ false = ground arith in
      rw (ends, free_blocks) (rw value (rw (nonzero, held) (rw next refl)))

  free_blocks-all :
      (rest : List ℕ) (fuel i : ℕ) (it : Iterator) (m : HashMap ℕ ℕ) (bs : List ℕ) (live : ℕ → Bool)
      → IsMap m (pairs bs)
      → At m (pairs bs) i it
      → drop i (pairs bs) ≡ pairs rest
      → length rest < fuel
      → Distinct rest
      → has 0 rest ≡ false
      → ((p : ℕ) → live p ≡ has p rest)
      → (m' : HashMap ℕ ℕ) × (live' : ℕ → Bool) × (free_blocks fuel it (freeing g m live)
          ≡ ok (freeing g m' live'))
        × (m'.cmp ≡ m.cmp)
        × IsMap m' (pairs bs)
        × ((p : ℕ) → live' p ≡ false)
  unfolding free_blocks
  free_blocks-all rest zero i it m bs live map at e enough d no_null held = absurd (omega arith)
  free_blocks-all [] (suc fuel) i it m bs live map at e enough d no_null held =
      let (m₁, ends, cmp₁, map₁) = hash_map_is_end-At m (pairs bs) map i it at in
      let done : leb (length (pairs bs)) i ≡ true =
        ground (arith, length-le_of_drop (pairs bs) i e) in
      (m₁, live, rw (ends, done) refl, cmp₁, map₁, held)
  free_blocks-all (b ∷ rest) (suc fuel) i it m bs live map (inl (low, here)) e enough (new, d)
        no_null held =
      let (element, behind, inside) = get_elem?-drop_cons (pairs bs) i e in
      let (m₁, ends, cmp₁, map₁) = hash_map_is_end-At m (pairs bs) map i it (inl (low, here)) in
      let more : leb (length (pairs bs)) i ≡ false = ground arith in
      let (it', next, at') = hash_map_next-At m₁ (pairs bs) map₁ i low in
      let ne : b ≢ 0 = ground (arith, no_null) in
      let (m', live', run, cmp', map', freed) =
        free_blocks-all rest fuel (i + 1) it' m₁ bs (mark live b false) map₁ at'
          (rw (add-one i) behind) (omega arith) d (ground (arith, no_null))
          (λ p. elim (Bool-cases (b == p)) [
            | inl same ↦ let e : b ≡ p = ground arith in rw same (rw (← e) (sym new))
            | inr other ↦ rw other (held p ∙ rw other refl)
          ]) in
      (
        m',
        live',
        free_blocks_step fuel b it it' m m₁ live ne (ground (arith, held b)) (ends ∙ rw more refl)
              (get_value-element m₁ (pairs bs) map₁ i low b b element it here)
              (ap (hash_map_next m₁) here ∙ next)
            ∙ run,
        cmp' ∙ cmp₁,
        map',
        freed,
      )
  free_blocks-all (b ∷ rest) (suc fuel) i it m bs live map (inr (high, end)) e enough d no_null
        held =
      let (element, behind, inside) = get_elem?-drop_cons (pairs bs) i e in absurd (omega arith)

-- a state after both loops
abbrev pub cleaned : Gc → HashMap ℕ ℕ → HashMap Holder Destr → (ℕ → Bool) → List (ℕ × ℕ) → Gc
cleaned g m h live c = record g { on = false; mem = m; handlers = h; live = live; closed = c }

-- Both loops: the destructors are called for the handlers in order, and nothing is allocated any more;
-- the maps are kept.
pub clean_up-all :
    (g : Gc) (fuel : ℕ) (bs : List ℕ) (hs : Bucket Holder Destr)
    → g.on ≡ false
    → IsMap g.mem (pairs bs)
    → IsMap g.handlers hs
    → Distinct bs
    → has 0 bs ≡ false
    → ((p : ℕ) → g.live p ≡ has p bs)
    → length bs < fuel
    → length hs < fuel
    → (m : HashMap ℕ ℕ) × (h : HashMap Holder Destr) × (live : ℕ → Bool) × (clean_up
          close_descriptor fuel g
        ≡ ok (cleaned g m h live (g.closed ++ closes_of hs)))
      × (m.cmp ≡ g.mem.cmp)
      × (h.cmp ≡ g.handlers.cmp)
      × IsMap m (pairs bs)
      × IsMap h hs
      × ((p : ℕ) → live p ≡ false)
unfolding clean_up
clean_up-all g fuel bs hs off map handled d no_null held enough enough' =
    let (i, begins, at) = hash_map_begin-At g.handlers hs handled in
    let (h, runs, cmp_h, map_h) =
      run_handlers-all g hs fuel 0 i g.handlers hs g.closed handled at refl enough' in
    let (j, begins', at') = hash_map_begin-At g.mem (pairs bs) map in
    let (m, live, frees, cmp_m, map_m, freed) =
      free_blocks-all (handling g h (g.closed ++ closes_of hs)) bs fuel 0 j g.mem bs g.live map at'
        refl enough d no_null held in
    (
      m,
      h,
      live,
      rw begins (
          ap
            (λ b. run_handlers close_descriptor fuel i (record g { on = b }) >>= λ g₁.
              hash_map_begin g₁.mem >>= λ (j, mem). free_blocks fuel j (record g₁ { mem = mem }))
            off
          ∙ rw runs (rw begins' frees)),
      cmp_m,
      cmp_h,
      map_m,
      map_h,
      freed,
    )
