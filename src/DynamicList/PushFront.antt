-- ===== src/DynamicList/PushFront.antt =====
-- `ListPushFront` adds a node in front of the list.
use automaton_state_machine.Base.{
  ℕ, suc, ◌≡◌, ◌≢◌, refl, Option, some, false, [], ◌∷◌, arith, ap, sym, ◌∙◌,
}
use automaton_state_machine.Base.Outcome.{ok}
use automaton_state_machine.DynamicList.Heap.{Ptr, null, Node, node, Heap, update}
use automaton_state_machine.DynamicList.Ops.{ListRoot, root, list_push_front}
use automaton_state_machine.DynamicList.Chain.{
  Cells, has, Chain, IsList, IsHeap, Chain-update, not-has_unused,
}
use automaton_state_machine.DynamicList.Push.{Pushed}

end-ne_null :
    (c : Ptr → Option Node) (prev p : Ptr) (x : Ptr × ℕ) (xs : Cells) (last stop : Ptr)
    → Chain c prev p (x ∷ xs) last stop
    → last ≢ null
end-ne_null c prev p (a, v) [] last stop (q, e, ne, at, (_, is_last)) =
    λ gone. ne (sym is_last ∙ gone)
end-ne_null c prev p (a, v) (x ∷ xs) last stop (q, e, ne, at, rest) =
    end-ne_null c a q x xs last stop rest

module _ {h : Heap} (good : IsHeap h) (v : ℕ) (l : ListRoot) where
  -- In a heap whose free addresses are unused, `ListPushFront` puts a new node with the value in
  -- front of a list, writes to no node outside the list, and returns the new node.
  pub list_push_front-cons :
      (xs : Cells)
      → IsList h l xs
      → (l' : ListRoot) × (h' : Heap) × (list_push_front (some l) v h ≡ ok ((h.next, some l'), h'))
        × Pushed h xs ((h.next, v) ∷ xs) l' h'
  unfolding list_push_front update
  list_push_front-cons [] is = (
    root h.next h.next,
    record { next = suc h.next; cell = update h.cell h.next (some (node null v null)) },
    ground (arith, is.chain),
    record {
      list = record {
        chain = (null, refl, omega (arith, good.positive), ground arith, (refl, refl));
        distinct = (refl, tt);
      };
      heap = record { positive = omega arith; unused = λ a le. ground (arith, good.unused a) };
      same = λ b out ne. ground arith;
    },
  )
  list_push_front-cons ((e, w) ∷ ys) is =
      let c = h.cell in
      let f = h.next in
      let (q, pe, ne, at, rest) = is.chain in
      let fresh = good.unused f (omega arith) in
      let apart : has f ((e, w) ∷ ys) ≡ false =
        not-has_unused c null l.begin ((e, w) ∷ ys) l.end null f is.chain fresh in
      let differs : e ≢ f = λ same. cc (fresh, at, ap c same) in
      let c₁ : Ptr → Option Node = update c f (some (node l.begin v null)) in
      let c₂ : Ptr → Option Node = update c₁ e (some (node q w f)) in
      let ends : l.end ≢ null = end-ne_null c null l.begin (e, w) ys l.end null is.chain in
      let rest₁ =
        Chain-update c e q ys l.end null f (some (node l.begin v null)) rest (ground arith) in
      let rest₂ : Chain c₂ e q ys l.end null =
        Chain-update c₁ e q ys l.end null e (some (node q w f)) rest₁ is.distinct.0 in
      (
        root f l.end,
        record { next = suc f; cell = c₂ },
        ground (arith, pe, at, differs, ends),
        record {
          list = record {
            chain = (
              e,
              refl,
              omega (arith, good.positive),
              ground (arith, differs),
              (q, refl, ne, ground arith, rest₂),
            );
            distinct = (apart, is.distinct);
          };
          heap = record {
            positive = omega arith;
            unused = λ a le. ground (arith, good.unused a, good.unused e);
          };
          same = λ b out other. ground arith;
        },
      )
