-- ===== src/DynamicList/CopyInto.antt =====
-- `ListCopyInto` appends the values of a list to another list.
use automaton_state_machine.Base.{
  ℕ, zero, suc, ◌<◌, ◌≡◌, ◌≢◌, refl, Option, true, false, some, none, ◌==◌, [], ◌∷◌, ◌++◌, arith,
  length, ap, Option-cases, Bool-cases, inl, inr, ◌∙◌, sym, append_assoc, append-nil,
}
use automaton_state_machine.Base.Outcome.{ok}
use automaton_state_machine.DynamicList.Heap.{Ptr, null, Node, node, Heap}
use automaton_state_machine.DynamicList.Ops.{ListRoot}
use automaton_state_machine.DynamicList.Iterate.{list_copy_loop, list_copy_into}
use automaton_state_machine.DynamicList.Chain.{
  Cells, values, has, Chain, IsList, IsHeap, has-append, not-has_unused,
}
use automaton_state_machine.DynamicList.Push.{list_push_back-snoc}
use automaton_state_machine.DynamicList.Walk.{load-ok}

-- no node is in both lists
abbrev pub Apart : Cells → Cells → Type 0
Apart xs ys = (b : Ptr) → has b xs ≡ true → has b ys ≡ false

-- The outcome from heap `h`, where the target's nodes were `ys`: there are nodes `zs`, unused before, with
-- the values of `xs` behind them, and no other node has changed.
pub record Copied (h : Heap) (xs ys zs : Cells) (l : ListRoot) (h' : Heap) : Type 0 where
  pub list : IsList h' l (ys ++ zs)
  pub heap : IsHeap h'
  pub same_values : values zs ≡ values xs
  pub new : (b : Ptr) → has b zs ≡ true → h.cell b ≡ none
  pub kept : (b : Ptr) (n : Node) → has b ys ≡ false → h.cell b ≡ some n → h'.cell b ≡ some n

Chain-kept :
    (c d : Ptr → Option Node) (prev p : Ptr) (xs : Cells) (last stop : Ptr)
    → Chain c prev p xs last stop
    → ((b : Ptr) (n : Node) → has b xs ≡ true → c b ≡ some n → d b ≡ some n)
    → Chain d prev p xs last stop
Chain-kept c d prev p [] last stop ch h = ch
Chain-kept c d prev p ((a, v) ∷ xs) last stop (q, e, ne, at, rest) h = (
  q,
  e,
  ne,
  h a (node q v prev) (ground arith) at,
  Chain-kept c d a q xs last stop rest (λ b n i. h b n (ground (arith, i))),
)

copy_loop-Copied :
    (xs : Cells) (fuel : ℕ) (h : Heap) (prev p last : Ptr) (tgt : ListRoot) (ys : Cells)
    → IsHeap h
    → Chain h.cell prev p xs last null
    → IsList h tgt ys
    → Apart xs ys
    → length xs < fuel
    → (l : ListRoot) × (h' : Heap) × (zs : Cells) × (list_copy_loop fuel p (some tgt) h
        ≡ ok (some l, h'))
      × Copied h xs ys zs l h'
unfolding list_copy_loop
copy_loop-Copied xs zero h prev p last tgt ys good ch is apart f = absurd (omega arith)
copy_loop-Copied [] (suc fuel) h prev p last tgt ys good (e, _) is apart f = (
  tgt,
  h,
  [],
  rw e refl,
  record {
    list = rw append-nil is;
    heap = good;
    same_values = refl;
    new = λ b i. cc;
    kept = λ b n out at. at;
  },
)
copy_loop-Copied ((a, v) ∷ xs) (suc fuel) h prev p last tgt ys good (q, e, ne, at, rest) is apart
      f =
    let (l₁, h₁, pushes, done) = list_push_back-snoc good v tgt ys is in
    let ys₁ : Cells = ys ++ (h.next, v) ∷ [] in
    let free : h.cell h.next ≡ none = good.unused h.next (omega arith) in
    let new : (b : Ptr) (n : Node) → h.cell b ≡ some n → b ≢ h.next =
      λ b n old same. cc (ap h.cell same) in
    let kept₁ : (b : Ptr) (n : Node) → has b ys ≡ false → h.cell b ≡ some n → h₁.cell b ≡ some n =
      λ b n out old. done.same b out (new b n old) ∙ old in
    let unused_before : (b : Ptr) → h₁.cell b ≡ none → h.cell b ≡ none = λ b gone.
      let outside₁ : has b ys₁ ≡ false =
        not-has_unused h₁.cell null l₁.begin ys₁ l₁.end null b done.list.chain gone in
      let out : has b ys ≡ false = ground (arith, outside₁, has-append b ys ((h.next, v) ∷ [])) in
      elim (Option-cases (h.cell b)) [
        | inl unused ↦ unused
        | inr (n, old) ↦ let now = kept₁ b n out old in cc
      ] in
    let outside : (b : Ptr) → has b ys ≡ false → b ≢ h.next → has b ys₁ ≡ false =
      λ b out other. ground (arith, has-append b ys ((h.next, v) ∷ [])) in
    let fresh : has h.next xs ≡ false = not-has_unused h.cell a q xs last null h.next rest free in
    let rest₁ : Chain h₁.cell a q xs last null =
      Chain-kept h.cell h₁.cell a q xs last null rest
        (λ b n i. kept₁ b n (apart b (ground (arith, i)))) in
    let apart₁ : Apart xs ys₁ =
      λ b i. outside b (apart b (ground (arith, i))) (λ same. ground (arith, fresh, i, same)) in
    let at₁ : h₁.cell a ≡ some (node q v prev) =
      kept₁ a (node q v prev) (apart a (ground arith)) at in
    let (l', h', zs, copies, copied) =
      copy_loop-Copied xs fuel h₁ a q last l₁ ys₁ done.heap rest₁ done.list apart₁ (omega arith) in
    let nz : (a == null) ≡ false = ground arith in
    (
      l',
      h',
      (h.next, v) ∷ zs,
      rw (e, nz)
          (rw (load-ok h a (node q v prev) ne at, pushes)
            (rw (load-ok h₁ a (node q v prev) ne at₁) copies)),
      record {
        list = rw (sym (append_assoc ys ((h.next, v) ∷ []) zs)) copied.list;
        heap = copied.heap;
        same_values = ap (◌∷◌ v) copied.same_values;
        new = λ b i. elim (Bool-cases (b == h.next)) [
          | inl same ↦ let here : b ≡ h.next = ground arith in rw here free
          | inr other ↦ unused_before b (copied.new b (ground (arith, i)))
        ];
        kept = λ b n out old. copied.kept b n (outside b out (new b n old)) (kept₁ b n out old);
      },
    )

-- In a heap whose free addresses are unused, with two lists that share no node and fuel for more than
-- the nodes of the source, `ListCopyInto` puts new nodes with the values of the source, in order,
-- behind the target's, and changes no node outside the target.
pub list_copy_into-Copied :
    (h : Heap) (src tgt : ListRoot) (xs ys : Cells) (fuel : ℕ)
    → IsHeap h
    → IsList h src xs
    → IsList h tgt ys
    → Apart xs ys
    → length xs < fuel
    → (l : ListRoot) × (h' : Heap) × (zs : Cells) × (list_copy_into fuel (some src) (some tgt) h
        ≡ ok (some l, h'))
      × Copied h xs ys zs l h'
unfolding list_copy_into
list_copy_into-Copied h src tgt xs ys fuel good source target apart enough =
    copy_loop-Copied xs fuel h null src.begin src.end tgt ys good source.chain target apart enough
