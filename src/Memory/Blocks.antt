-- ===== src/Memory/Blocks.antt =====
-- The map of blocks as a list of addresses.
use automaton_state_machine.Base.{
  ℕ, ◌<◌, ◌≤◌, ◌≡◌, ◌≢◌, refl, sym, ap, subst, ◌∙◌, Bool, false, ◌||◌, ◌==◌, some, List, [], ◌∷◌,
  ◌++◌, length, arith, if◌then◌else◌, Bool-cases, inl, inr,
}
use automaton_state_machine.Base.Int.{ℤ}
use automaton_state_machine.Base.Outcome.{ok}
use automaton_state_machine.HashMap.Ops.{
  HashMap, Bucket, detach, find, hash_map_set, hash_map_remove,
}
use automaton_state_machine.HashMap.Iterator.{loop_hash_map}
use automaton_state_machine.HashMap.Visit.{loop_hash_map-all}
use automaton_state_machine.HashMap.Assoc.{IsComparator}
use automaton_state_machine.HashMap.Laws.{
  IsMap, assign, hash_map_set-assign, hash_map_remove-detach,
}
use automaton_state_machine.Memory.State.{hash_map_void_ptr_cmp}

abbrev pub has : ℕ → List ℕ → Bool
has p [] = false
has p (b ∷ bs) = b == p || has p bs

abbrev pub remove : ℕ → List ℕ → List ℕ
remove p [] = []
remove p (b ∷ bs) = if b == p then bs else b ∷ remove p bs

abbrev pub Distinct : List ℕ → Type 0
Distinct [] = Unit {0}
Distinct (b ∷ bs) = (has b bs ≡ false) × Distinct bs

-- the elements of the map: each block is its own key and value
abbrev pub pairs : List ℕ → Bucket ℕ ℕ
pairs [] = []
pairs (b ∷ bs) = (b, b) ∷ pairs bs

pub length-pairs : (bs : List ℕ) → length (pairs bs) ≡ length bs
length-pairs [] = refl
length-pairs (b ∷ bs) = omega (arith, length-pairs bs)

pub length-remove : (p : ℕ) (bs : List ℕ) → length (remove p bs) ≤ length bs
length-remove p [] = omega arith
length-remove p (b ∷ bs) = ground (arith, length-remove p bs)

pub has-append : (p b : ℕ) (bs : List ℕ) → has p (bs ++ b ∷ []) ≡ (has p bs || b == p)
has-append p b [] = ground arith
has-append p b (c ∷ bs) = ground (arith, has-append p b bs)

pub has-remove : (p q : ℕ) (bs : List ℕ) → q ≢ p → has p (remove q bs) ≡ has p bs
has-remove p q [] ne = refl
has-remove p q (b ∷ bs) ne = ground (arith, has-remove p q bs)

pub has-remove_self : (p : ℕ) (bs : List ℕ) → Distinct bs → has p (remove p bs) ≡ false
has-remove_self p [] d = refl
has-remove_self p (b ∷ bs) (new, d) = elim (Bool-cases (b == p)) [
  | inl same ↦ let e : b ≡ p = ground arith in rw same (rw (← e) new)
  | inr other ↦ rw other (rw (other, has-remove_self p bs d) refl)
]

pub Distinct-append :
    (b : ℕ) (bs : List ℕ) → has b bs ≡ false → Distinct bs → Distinct (bs ++ b ∷ [])
Distinct-append b [] new d = (refl, tt)
Distinct-append b (c ∷ bs) new (first, d) =
    (ground (arith, has-append c b bs), Distinct-append b bs (ground arith) d)

pub Distinct-remove : (p : ℕ) (bs : List ℕ) → Distinct bs → Distinct (remove p bs)
Distinct-remove p [] d = d
Distinct-remove p (b ∷ bs) (new, d) = elim (Bool-cases (b == p)) [
  | inl same ↦ rw same d
  | inr other ↦ rw other (has-remove b p bs (ground arith) ∙ new, Distinct-remove p bs d)
]

detach-pairs :
    (p : ℕ) (bs : List ℕ) → detach hash_map_void_ptr_cmp p (pairs bs) ≡ pairs (remove p bs)
unfolding detach
detach-pairs p [] = refl
detach-pairs p (b ∷ bs) = elim (Bool-cases (b == p)) [
  | inl same ↦ rw same refl
  | inr other ↦ rw other (rw (detach-pairs p bs) refl)
]

remove-absent : (p : ℕ) (bs : List ℕ) → has p bs ≡ false → remove p bs ≡ bs
remove-absent p [] h = refl
remove-absent p (b ∷ bs) h =
    let other : (b == p) ≡ false = ground arith in
    rw other (ap (◌∷◌ b) (remove-absent p bs (ground arith)))

pairs-append : (b : ℕ) (bs : List ℕ) → pairs bs ++ (b, b) ∷ [] ≡ pairs (bs ++ b ∷ [])
pairs-append b [] = refl
pairs-append b (c ∷ bs) = ap (◌∷◌ (c, c)) (pairs-append b bs)

pub void_ptr_cmp-IsComparator : IsComparator hash_map_void_ptr_cmp
void_ptr_cmp-IsComparator = record {
  reflexive = λ a. ground arith;
  left = λ a b c h. ground arith;
  right = λ a b c h. ground arith;
}

-- The map holds the blocks `bs`.
pub record IsRegister (m : HashMap ℕ ℕ) (bs : List ℕ) : Type 0 where
  pub map : IsMap m (pairs bs)
  pub cmp : m.cmp ≡ hash_map_void_ptr_cmp

module _ (m : HashMap ℕ ℕ) (bs : List ℕ) (r : IsRegister m bs) where
  comparator : IsComparator m.cmp
  comparator = subst IsComparator (sym r.cmp) void_ptr_cmp-IsComparator

  -- the loop that counts the blocks changes none
  pub count-IsRegister :
      (fuel : ℕ)
      → length bs < fuel
      → (m' : HashMap ℕ ℕ) × (loop_hash_map fuel m ≡ ok (pairs bs, m')) × IsRegister m' bs
  count-IsRegister fuel enough =
      let (m', run, cmp, held) =
        loop_hash_map-all m (pairs bs) fuel r.map (omega (arith, length-pairs bs)) in
      (m', run, record { map = held; cmp = cmp ∙ r.cmp })

  pub set-IsRegister :
      (size : ℤ) (p : ℕ)
      → has p bs ≡ false
      → (m' : HashMap ℕ ℕ) × (hash_map_set m size (some p) p ≡ ok (find m.cmp p (pairs bs), m'))
        × IsRegister m' (bs ++ p ∷ [])
  set-IsRegister size p new =
      let (m', run, cmp, held) = hash_map_set-assign m (pairs bs) size p p comparator r.map in
      let same : assign m.cmp p p (pairs bs) ≡ pairs (bs ++ p ∷ []) =
        ap (λ c. assign c p p (pairs bs)) r.cmp
        ∙ ap (λ es. es ++ (p, p) ∷ []) (detach-pairs p bs ∙ ap pairs (remove-absent p bs new))
        ∙ pairs-append p bs in
      (m', run, record { map = subst (IsMap m') same held; cmp = cmp ∙ r.cmp })

  pub remove-IsRegister :
      (size : ℤ) (p : ℕ)
      → (m' : HashMap ℕ ℕ) × (hash_map_remove m size (some p) ≡ ok (find m.cmp p (pairs bs), m'))
        × IsRegister m' (remove p bs)
  remove-IsRegister size p =
      let (m', run, cmp, held) = hash_map_remove-detach m (pairs bs) size p comparator r.map in
      let same : detach m.cmp p (pairs bs) ≡ pairs (remove p bs) =
        ap (λ c. detach c p (pairs bs)) r.cmp ∙ detach-pairs p bs in
      (m', run, record { map = subst (IsMap m') same held; cmp = cmp ∙ r.cmp })
