-- ===== src/Server/Sessions.antt =====
-- Lemmas on the lists of sessions: sums, lengths, and which sessions there are.
use automaton_state_machine.Base.{
  ℕ, ◌+◌, ◌≤◌, ◌==◌, Option, none, some, Bool, true, false, [], ◌∷◌, ◌++◌, ◌≡◌, ◌≢◌, refl, arith,
  if◌then◌else◌, length, length-append, Bool-cases, inl, inr, subst,
}
use automaton_state_machine.HashMap.Ops.{Bucket, find, detach}
use automaton_state_machine.HashMap.Laws.{assign}
use automaton_state_machine.HashMap.Assoc.{find-append}
use automaton_state_machine.Server.State.{hash_map_int_cmp, modify}

abbrev pub lookup : {V : Type 0} → ℕ → Bucket ℕ V → Option V
lookup k es = find hash_map_int_cmp k es

module _ {V : Type 0} where
  abbrev pub sum : (V → ℕ) → Bucket ℕ V → ℕ
  sum f [] = 0
  sum f ((k, v) ∷ es) = f v + sum f es

  -- every element satisfies a predicate
  abbrev pub Every : (ℕ → V → Type 0) → Bucket ℕ V → Type 0
  Every P [] = Unit
  Every P ((k, v) ∷ es) = P k v × Every P es

  pub Every-impl :
      (P Q : ℕ → V → Type 0)
      → ((k : ℕ) (v : V) → P k v → Q k v)
      → (es : Bucket ℕ V) → Every P es
      → Every Q es
  Every-impl P Q f [] h = tt
  Every-impl P Q f ((k, v) ∷ es) (p, h) = (f k v p, Every-impl P Q f es h)

  pub Every-if :
      (P : ℕ → V → Type 0) (b : Bool) (xs ys : Bucket ℕ V)
      → Every P xs
      → Every P ys
      → Every P (if b then xs else ys)
  Every-if P true xs ys p q = p
  Every-if P false xs ys p q = q

  pub Every-append :
      (P : ℕ → V → Type 0) (es : Bucket ℕ V) (k : ℕ) (v : V)
      → Every P es
      → P k v
      → Every P (es ++ (k, v) ∷ [])
  Every-append P [] k v h p = (p, tt)
  Every-append P ((a, w) ∷ es) k v (q, h) p = (q, Every-append P es k v h p)

  pub Every-detach :
      (P : ℕ → V → Type 0) (k : ℕ) (es : Bucket ℕ V)
      → Every P es
      → Every P (detach hash_map_int_cmp k es)
  unfolding detach
  Every-detach P k [] h = tt
  Every-detach P k ((a, w) ∷ es) (q, h) =
      Every-if P (a == k) es ((a, w) ∷ detach hash_map_int_cmp k es) h (q, Every-detach P k es h)

  pub Every-modify :
      (P : ℕ → V → Type 0) (k : ℕ) (g : V → V) (es : Bucket ℕ V)
      → ((a : ℕ) (v : V) → P a v → P a (g v))
      → Every P es
      → Every P (modify k g es)
  unfolding modify
  Every-modify P k g [] keep h = tt
  Every-modify P k g ((a, w) ∷ es) keep (q, h) =
      Every-if P (a == k) ((a, g w) ∷ es) ((a, w) ∷ modify k g es) (keep a w q, h)
        (q, Every-modify P k g es keep h)

  pub sum-append :
      (f : V → ℕ) (es : Bucket ℕ V) (k : ℕ) (v : V) → sum f (es ++ (k, v) ∷ []) ≡ sum f es + f v
  sum-append f [] k v = omega arith
  sum-append f ((a, w) ∷ es) k v = omega (arith, sum-append f es k v)

  pub sum-detach :
      (f : V → ℕ) (k : ℕ) (es : Bucket ℕ V) → sum f (detach hash_map_int_cmp k es) ≤ sum f es
  unfolding detach
  sum-detach f k [] = omega arith
  sum-detach f k ((a, w) ∷ es) = ground (arith, sum-detach f k es)

  -- setting a session whose count is zero adds nothing
  pub sum-assign_zero :
      (f : V → ℕ) (k : ℕ) (v : V) (es : Bucket ℕ V)
      → f v ≡ 0
      → sum f (assign hash_map_int_cmp k v es) ≤ sum f es
  sum-assign_zero f k v es zero_count =
      omega (arith, sum-append f (detach hash_map_int_cmp k es) k v, sum-detach f k es)

  pub sum-modify :
      (f : V → ℕ) (k : ℕ) (g : V → V) (n : ℕ) (es : Bucket ℕ V)
      → ((v : V) → f (g v) ≤ f v + n)
      → sum f (modify k g es) ≤ sum f es + n
  unfolding modify
  sum-modify f k g n [] h = omega arith
  sum-modify f k g n ((a, w) ∷ es) h = ground (arith, h w, sum-modify f k g n es h)

  pub length-detach_le :
      (k : ℕ) (es : Bucket ℕ V) → length (detach hash_map_int_cmp k es) ≤ length es
  unfolding detach
  length-detach_le k [] = omega arith
  length-detach_le k ((a, w) ∷ es) = ground (arith, length-detach_le k es)

  pub length-detach :
      (k : ℕ) (v : V) (es : Bucket ℕ V)
      → lookup k es ≡ some v
      → length (detach hash_map_int_cmp k es) + 1 ≡ length es
  unfolding find detach
  length-detach k v [] h = ground arith
  length-detach k v ((a, w) ∷ es) h = ground (arith, length-detach k v es)

  pub length-assign :
      (k : ℕ) (v : V) (es : Bucket ℕ V) → length (assign hash_map_int_cmp k v es) ≤ length es + 1
  length-assign k v es =
      omega
        (arith, length-append (detach hash_map_int_cmp k es) ((k, v) ∷ []), length-detach_le k es)

  pub lookup-assign_self :
      (k : ℕ) (v : V) (es : Bucket ℕ V) → lookup k (assign hash_map_int_cmp k v es) ≢ none
  lookup-assign_self k v es gone =
      ground (arith, find-append hash_map_int_cmp k (detach hash_map_int_cmp k es) k v)

  -- no session goes when one is set or changed
  pub lookup-assign-none :
      (k j : ℕ) (v : V) (es : Bucket ℕ V)
      → lookup j (assign hash_map_int_cmp k v es) ≡ none
      → lookup j es ≡ none
  unfolding find detach
  lookup-assign-none k j v [] h = refl
  lookup-assign-none k j v ((a, w) ∷ es) h =
      ground (arith, lookup-assign-none k j v es, find-append hash_map_int_cmp j es k v)

  pub lookup-modify-none :
      (k j : ℕ) (g : V → V) (es : Bucket ℕ V) → lookup j (modify k g es) ≡ none → lookup j es ≡ none
  unfolding find modify
  lookup-modify-none k j g [] h = refl
  lookup-modify-none k j g ((a, w) ∷ es) h = ground (arith, lookup-modify-none k j g es)

  pub lookup-Every :
      (P : ℕ → V → Type 0) (k : ℕ) (v : V) (es : Bucket ℕ V)
      → lookup k es ≡ some v
      → Every P es
      → P k v
  unfolding find
  lookup-Every P k v [] h e = absurd (ground arith)
  lookup-Every P k v ((a, w) ∷ es) h (q, e) = elim (Bool-cases (a == k)) [
    | inl same ↦
        let key : a ≡ k = ground arith in
        let value : w ≡ v = ground arith in
        subst (λ (b : ℕ). P b v) key (subst (λ (x : V). P a x) value q)
    | inr differ ↦ lookup-Every P k v es (ground arith) e
  ]
