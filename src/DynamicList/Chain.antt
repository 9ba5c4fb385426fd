-- ===== src/DynamicList/Chain.antt =====
-- What a root and the heap stand for: the nodes of a list, with address and value, in order.
use automaton_state_machine.Base.{
  ℕ, ◌≤◌, ◌<◌, ◌≡◌, ◌≢◌, refl, Option, none, some, Bool, false, ◌||◌, ◌==◌, List, [], ◌∷◌, ◌++◌,
  arith, ◌⊎◌, inl, inr, sym, ◌∙◌,
}
use automaton_state_machine.DynamicList.Heap.{Ptr, null, Node, node, Heap, update}
use automaton_state_machine.DynamicList.Ops.{ListRoot}

abbrev pub Cells : Type 0
Cells = List (Ptr × ℕ)

abbrev pub values : Cells → List ℕ
values [] = []
values ((a, v) ∷ xs) = v ∷ values xs

abbrev pub has : Ptr → Cells → Bool
has a [] = false
has a ((b, _) ∷ xs) = a == b || has a xs

-- From `p`, whose left neighbour is `prev`, the right links lead through the nodes `xs` to `stop`;
-- the last node is `last`, and each node's left link goes back.
abbrev pub Chain : (Ptr → Option Node) → Ptr → Ptr → Cells → Ptr → Ptr → Type 0
Chain c prev p [] last stop = (p ≡ stop) × (last ≡ prev)
Chain c prev p ((a, v) ∷ xs) last stop =
    (q : Ptr) × (p ≡ a) × (a ≢ null) × (c a ≡ some (node q v prev)) × Chain c a q xs last stop

abbrev pub Distinct : Cells → Type 0
Distinct [] = Unit {0}
Distinct ((a, _) ∷ xs) = (has a xs ≡ false) × Distinct xs

-- `l` is the root of a list of the nodes `xs`
pub record IsList (h : Heap) (l : ListRoot) (xs : Cells) : Type 0 where
  pub chain : Chain h.cell null l.begin xs l.end null
  pub distinct : Distinct xs

-- `malloc` gives addresses that are not in use, and not NULL
pub record IsHeap (h : Heap) : Type 0 where
  pub positive : 0 < h.next
  pub unused : (a : Ptr) → h.next ≤ a → h.cell a ≡ none

-- `g` differs from `h` at most at the nodes of `xs` and at `a`
abbrev pub SameOutside : Cells → Ptr → Heap → Heap → Type 0
SameOutside xs a h g = (b : Ptr) → has b xs ≡ false → b ≢ a → g.cell b ≡ h.cell b

pub has-append :
    (p : Ptr) (front back : Cells) → has p (front ++ back) ≡ (has p front || has p back)
has-append p [] back = refl
has-append p ((q, _) ∷ front) back = ground (arith, has-append p front back)

module _ (c : Ptr → Option Node) where
  -- a write outside a chain leaves it
  pub Chain-update :
      (prev p : Ptr) (xs : Cells) (last stop a : Ptr) (n : Option Node)
      → Chain c prev p xs last stop
      → has a xs ≡ false
      → Chain (update c a n) prev p xs last stop
  unfolding update
  Chain-update prev p [] last stop a n ch out = ch
  Chain-update prev p ((b, v) ∷ xs) last stop a n (q, e, ne, at, rest) out =
      (q, e, ne, ground arith, Chain-update b q xs last stop a n rest (ground arith))

  -- a chain cut in two, and two chains joined
  pub Chain-split :
      (prev p : Ptr) (xs ys : Cells) (last stop : Ptr)
      → Chain c prev p (xs ++ ys) last stop
      → (m q : Ptr) × Chain c prev p xs m q × Chain c m q ys last stop
  Chain-split prev p [] ys last stop ch = (prev, p, (refl, refl), ch)
  Chain-split prev p ((a, v) ∷ xs) ys last stop (r, e, ne, at, rest) =
      let (m, q, front, back) = Chain-split a r xs ys last stop rest in
      (m, q, (r, e, ne, at, front), back)

  pub Chain-join :
      (prev p : Ptr) (xs ys : Cells) (m q last stop : Ptr)
      → Chain c prev p xs m q
      → Chain c m q ys last stop
      → Chain c prev p (xs ++ ys) last stop
  Chain-join prev p [] ys m q last stop (e, f) back = rw (← f, e) back
  Chain-join prev p ((a, v) ∷ xs) ys m q last stop (r, e, ne, at, rest) back =
      (r, e, ne, at, Chain-join a r xs ys m q last stop rest back)

  -- the nodes of a chain are allocated, so an unused address is not among them
  pub not-has_unused :
      (prev p : Ptr) (xs : Cells) (last stop a : Ptr)
      → Chain c prev p xs last stop
      → c a ≡ none
      → has a xs ≡ false
  not-has_unused prev p [] last stop a ch h = refl
  not-has_unused prev p ((b, v) ∷ xs) last stop a (q, e, ne, at, rest) h =
      ground (arith, not-has_unused b q xs last stop a rest h)

pub snoc-cases {ℓ} :
    {A : Type ℓ} (xs : List A) → (xs ≡ []) ⊎ ((ys : List A) × (y : A) × (xs ≡ ys ++ y ∷ []))
snoc-cases [] = inl refl
snoc-cases (x ∷ xs) = elim (snoc-cases xs) [
  | inl e ↦ inr ([], x, rw e)
  | inr (ys, y, e) ↦ inr (x ∷ ys, y, rw e)
]

pub Distinct-snoc :
    (xs : Cells) (a : Ptr) (v : ℕ) → Distinct xs → has a xs ≡ false → Distinct (xs ++ (a, v) ∷ [])
Distinct-snoc [] a v d out = (refl, tt)
Distinct-snoc ((b, w) ∷ xs) a v d out =
    (ground (arith, has-append b xs ((a, v) ∷ [])), Distinct-snoc xs a v d.1 (ground arith))

pub Distinct-last : (xs : Cells) (a : Ptr) (v : ℕ) → Distinct (xs ++ (a, v) ∷ []) → has a xs ≡ false
Distinct-last [] a v d = refl
Distinct-last ((b, w) ∷ xs) a v d =
    ground (arith, has-append b xs ((a, v) ∷ []), Distinct-last xs a v d.1)

pub begin-ne_null :
    (c : Ptr → Option Node) (prev p : Ptr) (xs : Cells) (x : Ptr × ℕ) (last stop : Ptr)
    → Chain c prev p (xs ++ x ∷ []) last stop
    → p ≢ null
begin-ne_null c prev p [] (a, v) last stop (q, e, ne, at, rest) = λ h. ne (sym e ∙ h)
begin-ne_null c prev p ((a, v) ∷ xs) x last stop (q, e, ne, at, rest) = λ h. ne (sym e ∙ h)
