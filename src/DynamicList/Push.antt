-- ===== src/DynamicList/Push.antt =====
-- `ListPushBack` and `ListPushFront` add a node at an end of the list.
use automaton_state_machine.Base.{
  ℕ, suc, ◌≡◌, ◌≢◌, refl, Option, none, some, false, [], ◌∷◌, ◌++◌, arith, inl, inr, subst, sym, ap,
  append_assoc,
}
use automaton_state_machine.Base.Outcome.{ok}
use automaton_state_machine.DynamicList.Heap.{Ptr, null, Node, node, Heap, update}
use automaton_state_machine.DynamicList.Ops.{ListRoot, root, list_push_back}
use automaton_state_machine.DynamicList.Chain.{
  Cells, has, Chain, IsList, IsHeap, SameOutside, has-append, Chain-update, Chain-split, Chain-join,
  not-has_unused, snoc-cases, Distinct-snoc, Distinct-last, begin-ne_null,
}

-- The outcome of a push from heap `h`: the nodes are now `ys`, and nothing was written but at the
-- nodes `xs` and the new one.
pub record Pushed (h : Heap) (xs ys : Cells) (l : ListRoot) (h' : Heap) : Type 0 where
  pub list : IsList h' l ys
  pub heap : IsHeap h'
  pub same : SameOutside xs h.next h h'

module _ {h : Heap} (good : IsHeap h) (v : ℕ) (l : ListRoot) where
  fresh : h.cell h.next ≡ none
  fresh = good.unused h.next (omega arith)

  push_back_nil :
      IsList h l []
      → (l' : ListRoot) × (h' : Heap) × (list_push_back (some l) v h ≡ ok ((h.next, some l'), h'))
        × Pushed h [] ((h.next, v) ∷ []) l' h'
  unfolding list_push_back update
  push_back_nil is = (
    root h.next h.next,
    record { next = suc h.next; cell = update h.cell h.next (some (node null v null)) },
    ground (arith, is.chain),
    record {
      list = record {
        chain = (null, refl, omega (arith, good.positive), ground arith, (refl, refl));
        distinct = (refl, tt);
      };
      heap = record { positive = omega arith; unused = λ a le. ground (arith, good.unused a) };
      same = λ b out ne. ground arith;
    },
  )

  push_back_snoc :
      (ys : Cells) (e : Ptr) (w : ℕ)
      → IsList h l (ys ++ (e, w) ∷ [])
      → (l' : ListRoot) × (h' : Heap) × (list_push_back (some l) v h ≡ ok ((h.next, some l'), h'))
        × Pushed h (ys ++ (e, w) ∷ []) ((ys ++ (e, w) ∷ []) ++ (h.next, v) ∷ []) l' h'
  unfolding list_push_back update
  push_back_snoc ys e w is =
      let c = h.cell in
      let f = h.next in
      let xs : Cells = ys ++ (e, w) ∷ [] in
      let (m, q, front, back) = Chain-split c null l.begin ys ((e, w) ∷ []) l.end null is.chain in
      let (r, qe, ne, at, (rn, le)) = back in
      let apart : has f xs ≡ false = not-has_unused c null l.begin xs l.end null f is.chain fresh in
      let apart' : has f ys ≡ false = ground (arith, has-append f ys ((e, w) ∷ []), apart) in
      let differs : e ≢ f = λ h. cc (fresh, at, ap c h) in
      let c₁ : Ptr → Option Node = update c f (some (node null v l.end)) in
      let c₂ : Ptr → Option Node = update c₁ e (some (node f w m)) in
      let front₁ = Chain-update c null l.begin ys m q f (some (node null v l.end)) front apart' in
      let front₂ : Chain c₂ null l.begin ys m q =
        Chain-update c₁ null l.begin ys m q e (some (node f w m)) front₁
          (Distinct-last ys e w is.distinct) in
      let begins = begin-ne_null c null l.begin ys (e, w) l.end null is.chain in
      let back₂ : Chain c₂ m q ((e, w) ∷ (f, v) ∷ []) f null = (
        f,
        qe,
        ne,
        ground arith,
        (null, refl, omega (arith, good.positive), ground arith, (refl, refl)),
      ) in
      (
        root l.begin f,
        record { next = suc f; cell = c₂ },
        ground arith,
        record {
          list = record {
            chain =
                subst (λ zs. Chain c₂ null l.begin zs f null)
                  (sym (append_assoc ys ((e, w) ∷ []) ((f, v) ∷ [])))
                  (Chain-join c₂ null l.begin ys ((e, w) ∷ (f, v) ∷ []) m q f null front₂ back₂);
            distinct = Distinct-snoc xs f v is.distinct apart;
          };
          heap = record {
            positive = omega arith;
            unused = λ a le. ground (arith, good.unused a, good.unused e);
          };
          same = λ b out ne. ground (arith, has-append b ys ((e, w) ∷ []));
        },
      )

  -- In a heap whose free addresses are unused, `ListPushBack` puts a new node with the value
  -- behind the last one of a list, writes to no node outside the list, and returns the new node.
  pub list_push_back-snoc :
      (xs : Cells)
      → IsList h l xs
      → (l' : ListRoot) × (h' : Heap) × (list_push_back (some l) v h ≡ ok ((h.next, some l'), h'))
        × Pushed h xs (xs ++ (h.next, v) ∷ []) l' h'
  list_push_back-snoc xs is = elim (snoc-cases xs) [
    | inl e ↦ rw e (push_back_nil (rw e at is))
    | inr (ys, (a, w), e) ↦ rw e (push_back_snoc ys a w (rw e at is))
  ]
