-- ===== src/HashMap/Assoc.antt =====
-- A bucket as an association list: what a lookup finds after an element is detached or appended.
use automaton_state_machine.Base.{
  Bool, true, false, Bool-cases, inl, inr, [], ◌∷◌, ◌++◌, arith, ◌≡◌, refl, sym, ◌∙◌, none, some,
  if◌then◌else◌,
}
use automaton_state_machine.HashMap.Ops.{Bucket, find, detach}

-- What a `HashMapComparatorFn` has to be: an equivalence.
pub record IsComparator {K : Type 0} (cmp : K → K → Bool) : Type 0 where
  pub reflexive : (a : K) → cmp a a ≡ true
  pub left : (a b c : K) → cmp a b ≡ true → cmp a c ≡ cmp b c
  pub right : (a b c : K) → cmp a b ≡ true → cmp c a ≡ cmp c b

symmetric :
    {K : Type 0} {cmp : K → K → Bool} (c : IsComparator cmp) (a b : K)
    → cmp a b ≡ false
    → cmp b a ≡ false
symmetric c a b h = ground (arith, c.reflexive b, c.left b a b)

-- No two elements of the bucket have keys that compare equal.
unfoldable pub IsUnique : {K V : Type 0} → (K → K → Bool) → Bucket K V → Type 0
unfolding find
IsUnique cmp [] = Unit
IsUnique cmp ((k, v) ∷ es) = (find cmp k es ≡ none) × IsUnique cmp es

module _ {K V : Type 0} (cmp : K → K → Bool) where
  pub find-append :
      (k : K) (es : Bucket K V) (k' : K) (v : V)
      → find cmp k (es ++ (k', v) ∷ [])
        ≡ elim (find cmp k es) [ none ↦ if cmp k' k then some v else none | some w ↦ some w ]
  unfolding find
  find-append k [] k' v = refl
  find-append k ((a, w) ∷ es) k' v = elim (Bool-cases (cmp a k)) [
    | inl same ↦ rw same refl
    | inr differ ↦ rw differ (find-append k es k' v)
  ]

  find-cons-none :
      (a j : K) (w : V) (es : Bucket K V)
      → find cmp j ((a, w) ∷ es) ≡ none
      → (cmp a j ≡ false) × (find cmp j es ≡ none)
  unfolding find
  find-cons-none a j w es h = ground arith

  module _ (c : IsComparator cmp) where
    -- keys that compare equal find the same value
    pub find-equal : (a b : K) (es : Bucket K V) → cmp a b ≡ true → find cmp a es ≡ find cmp b es
    unfolding find
    find-equal a b [] h = refl
    find-equal a b ((k, v) ∷ es) h = rw (c.right a b k h, find-equal a b es h) refl

    -- the detached key is gone
    pub find-detach :
        (k : K) (es : Bucket K V) → IsUnique cmp es → find cmp k (detach cmp k es) ≡ none
    unfolding find detach IsUnique
    find-detach k [] u = refl
    find-detach k ((a, w) ∷ es) (fresh, u) = elim (Bool-cases (cmp a k)) [
      | inl same ↦ rw same (sym (find-equal a k es same) ∙ fresh)
      | inr differ ↦ rw differ (rw differ (find-detach k es u))
    ]

    -- any other key is found as before
    pub find-detach-other :
        (k j : K) (es : Bucket K V) → cmp k j ≡ false → find cmp j (detach cmp k es) ≡ find cmp j es
    unfolding find detach
    find-detach-other k j [] other = refl
    find-detach-other k j ((a, w) ∷ es) other = elim (Bool-cases (cmp a k)) [
      | inl same ↦ rw (same, c.left a k j same, other) refl
      | inr differ ↦ rw (differ, find-detach-other k j es other) refl
    ]

    find-detach-none :
        (k j : K) (es : Bucket K V) → find cmp j es ≡ none → find cmp j (detach cmp k es) ≡ none
    unfolding find detach
    find-detach-none k j [] h = refl
    find-detach-none k j ((a, w) ∷ es) h =
        let (new, rest) = find-cons-none a j w es h in
        elim (Bool-cases (cmp a k)) [
          | inl same ↦ rw same rest
          | inr differ ↦ rw (differ, new) (find-detach-none k j es rest)
        ]

    pub detach-IsUnique :
        (k : K) (es : Bucket K V) → IsUnique cmp es → IsUnique cmp (detach cmp k es)
    unfolding detach IsUnique
    detach-IsUnique k [] u = u
    detach-IsUnique k ((a, w) ∷ es) (fresh, u) = elim (Bool-cases (cmp a k)) [
      | inl same ↦ rw same u
      | inr differ ↦ rw differ (find-detach-none k a es fresh, detach-IsUnique k es u)
    ]

    pub append-IsUnique :
        (es : Bucket K V) (k : K) (v : V)
        → find cmp k es ≡ none
        → IsUnique cmp es
        → IsUnique cmp (es ++ (k, v) ∷ [])
    unfolding find IsUnique
    append-IsUnique [] k v fresh u = (refl, tt)
    append-IsUnique ((a, w) ∷ es) k v fresh (first, u) =
        let (differ, rest) = find-cons-none a k w es fresh in
        (
          rw (find-append a es k v, first, symmetric c a k differ) refl,
          append-IsUnique es k v rest u,
        )
