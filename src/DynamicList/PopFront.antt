-- ===== src/DynamicList/PopFront.antt =====
-- `ListPopFront` takes the first node off the list.
use automaton_state_machine.Base.{ℕ, ◌≡◌, refl, Option, none, some, [], ◌∷◌, arith}
use automaton_state_machine.Base.Outcome.{ok}
use automaton_state_machine.DynamicList.Heap.{Ptr, null, Node, node, Heap, update}
use automaton_state_machine.DynamicList.Ops.{ListRoot, root, list_pop_front}
use automaton_state_machine.DynamicList.Chain.{Cells, Chain, IsList, Chain-update}

-- On a list that is not empty, `ListPopFront` returns the value of the first node, frees that node,
-- and leaves the list of the others.
pub list_pop_front-cons :
    (h : Heap) (l : ListRoot) (a : Ptr) (v : ℕ) (xs : Cells)
    → IsList h l ((a, v) ∷ xs)
    → (l' : ListRoot) × (h' : Heap) × (list_pop_front (some l) h ≡ ok ((v, some l'), h'))
      × IsList h' l' xs
      × (h'.cell a ≡ none)
unfolding list_pop_front update
list_pop_front-cons h l a v [] is =
    let (q, pe, ne, at, (last, is_end)) = is.chain in
    (
      root null null,
      record h { cell = update h.cell a none },
      ground (arith, pe, at, last, is_end, ne),
      record { chain = (refl, refl); distinct = tt },
      ground arith,
    )
list_pop_front-cons h l a v ((b, w) ∷ ys) is =
    let c = h.cell in
    let (q, pe, ne, at, (r, qe, nb, atb, rest)) = is.chain in
    let (out, distinct) = is.distinct in
    let c₁ : Ptr → Option Node = update c b (some (node r w null)) in
    let c₂ : Ptr → Option Node = update c₁ a none in
    let rest₁ = Chain-update c b r ys l.end null b (some (node r w null)) rest distinct.0 in
    let rest₂ : Chain c₂ b r ys l.end null =
      Chain-update c₁ b r ys l.end null a none rest₁ (ground (arith, out)) in
    (
      root b l.end,
      record h { cell = c₂ },
      ground (arith, pe, qe, at, atb, ne, nb, out),
      record { chain = (r, refl, nb, ground (arith, out), rest₂); distinct = distinct },
      ground arith,
    )
