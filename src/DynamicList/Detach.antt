-- ===== src/DynamicList/Detach.antt =====
-- `ListDetachElement` takes a node out of the middle of a list.
use automaton_state_machine.Base.{
  ℕ, ◌≡◌, ◌≢◌, refl, Option, none, some, true, false, ◌==◌, if◌then◌else◌, [], ◌∷◌, ◌++◌, arith,
  inl, inr, ◌∙◌,
}
use automaton_state_machine.Base.Outcome.{ok}
use automaton_state_machine.DynamicList.Heap.{
  Ptr, null, Node, node, Heap, update, set_right, set_left, run_next,
}
use automaton_state_machine.DynamicList.Ops.{ListRoot, root, unless_null}
use automaton_state_machine.DynamicList.Splice.{list_detach_element}
use automaton_state_machine.DynamicList.Chain.{
  Cells, has, Chain, Distinct, IsList, has-append, Chain-update, Chain-split, Chain-join,
  snoc-cases, Distinct-last,
}

-- a chain survives a change that spares its nodes
pub Chain-frame :
    (c g : Ptr → Option Node) (prev p : Ptr) (xs : Cells) (last stop : Ptr)
    → Chain c prev p xs last stop
    → ((b : Ptr) → has b xs ≡ true → g b ≡ c b)
    → Chain g prev p xs last stop
Chain-frame c g prev p [] last stop ch same = ch
Chain-frame c g prev p ((a, v) ∷ xs) last stop (q, e, ne, at, rest) same = (
  q,
  e,
  ne,
  same a (ground arith) ∙ at,
  Chain-frame c g a q xs last stop rest (λ b i. same b (ground arith)),
)

-- the nodes on the two sides of one
pub Distinct-parts :
    (ys : Cells) (a : Ptr) (v : ℕ) (zs : Cells)
    → Distinct (ys ++ (a, v) ∷ zs)
    → (has a ys ≡ false)
      × (has a zs ≡ false)
      × ((b : Ptr) → has b ys ≡ true → has b zs ≡ false)
      × Distinct (ys ++ zs)
Distinct-parts [] a v zs d = (refl, d.0, λ b i. cc, d.1)
Distinct-parts ((x, w) ∷ ys) a v zs d =
    let (out, out', apart, rest) = Distinct-parts ys a v zs d.1 in
    (
      ground (arith, has-append x ys ((a, v) ∷ zs)),
      out',
      λ b i. ground (arith, apart b, has-append x ys ((a, v) ∷ zs)),
      (ground (arith, has-append x ys ((a, v) ∷ zs), has-append x ys zs), rest),
    )

Distinct-front : (ys zs : Cells) → Distinct (ys ++ zs) → Distinct ys
Distinct-front [] zs d = tt
Distinct-front ((x, w) ∷ ys) zs d = (ground (arith, has-append x ys zs), Distinct-front ys zs d.1)

Distinct-back : (ys zs : Cells) → Distinct (ys ++ zs) → Distinct zs
Distinct-back [] zs d = d
Distinct-back (y ∷ ys) zs d = Distinct-back ys zs d.1

-- what the write to the left neighbour leaves
abbrev Front : Heap → Ptr → Cells → Ptr → Ptr → Type 0
Front h begin ys m r =
    (c : Ptr → Option Node) × (unless_null m (set_right m r) h ≡ ok (tt, record h { cell = c }))
    × Chain c null (if m == null then r else begin) ys m r
    × ((b : Ptr) → has b ys ≡ false → c b ≡ h.cell b)

Front-snoc :
    (h : Heap) (begin : Ptr) (xs : Cells) (x : Ptr) (w : ℕ) (m a r : Ptr)
    → Chain h.cell null begin (xs ++ (x, w) ∷ []) m a
    → Distinct (xs ++ (x, w) ∷ [])
    → Front h begin (xs ++ (x, w) ∷ []) m r
unfolding set_right update
Front-snoc h begin xs x w m a r ch d =
    let c = h.cell in
    let (k, q, front, back) = Chain-split c null begin xs ((x, w) ∷ []) m a ch in
    let (t, qx, ne, at, (ta, mx)) = back in
    let c₁ : Ptr → Option Node = update c x (some (node r w k)) in
    let front₁ =
      Chain-update c null begin xs k q x (some (node r w k)) front (Distinct-last xs x w d) in
    let some_left : (m == null) ≡ false = ground arith in
    (
      c₁,
      ground arith,
      rw some_left (
          Chain-join c₁ null begin xs ((x, w) ∷ []) k q m r front₁
            (r, qx, ne, ground arith, (refl, mx))),
      λ b out. ground (arith, has-append b xs ((x, w) ∷ [])),
    )

-- the left neighbour, if there is one, is made to point to `r`
unlink-Front :
    (h : Heap) (begin : Ptr) (ys : Cells) (m a r : Ptr)
    → Chain h.cell null begin ys m a
    → Distinct ys
    → Front h begin ys m r
unlink-Front h begin ys m a r ch d = elim (snoc-cases ys) [
  | inl e ↦ let (_, m0) = rw e at ch in rw (e, m0) (h.cell, refl, (refl, refl), λ b out. refl)
  | inr (xs, (x, w), e) ↦ rw e (Front-snoc h begin xs x w m a r (rw e at ch) (rw e at d))
]

-- the right neighbour, if there is one, is made to point back to `m`
unlink_back :
    (h : Heap) (a r : Ptr) (zs : Cells) (last m : Ptr)
    → Chain h.cell a r zs last null
    → Distinct zs
    → (c : Ptr → Option Node) × (unless_null r (set_left r m) h ≡ ok (tt, record h { cell = c }))
      × Chain c m r zs (if r == null then m else last) null
      × ((b : Ptr) → has b zs ≡ false → c b ≡ h.cell b)
unfolding set_left update
unlink_back h a r [] last m (rn, la) d = rw rn (h.cell, refl, (refl, refl), λ b out. refl)
unlink_back h a r ((z, w) ∷ zs) last m (q, rz, ne, at, rest) d =
    let c = h.cell in
    let c₁ : Ptr → Option Node = update c z (some (node q w m)) in
    let some_right : (r == null) ≡ false = ground arith in
    (
      c₁,
      ground arith,
      rw some_right
          (q, rz, ne, ground arith, Chain-update c z q zs last null z (some (node q w m)) rest d.0),
      λ b out. ground arith,
    )

-- the run of the code, from the runs of its two writes
detach_run :
    (h : Heap) (l : ListRoot) (a r m v : Ptr) (c₁ c₂ : Ptr → Option Node)
    → h.cell a ≡ some (node r v m)
    → a ≢ null
    → unless_null m (set_right m r) h ≡ ok (tt, record h { cell = c₁ })
    → unless_null r (set_left r m) (record h { cell = c₁ }) ≡ ok (tt, record h { cell = c₂ })
    → c₂ a ≡ some (node r v m)
    → list_detach_element l a h
      ≡ ok (
        root (if m == null then r else l.begin) (if r == null then m else l.end),
        record h { cell = update c₂ a none },
      )
unfolding list_detach_element
detach_run h l a r m v c₁ c₂ at ne run₁ run₂ here =
    let nz : (a == null) ≡ false = ground arith in
    rw nz (
      rw (nz, run_next)
        (rw (at, run_next) (rw (run₁, run_next) (rw (run₂, run_next) (rw (nz, here))))))

module _ {h : Heap} {l : ListRoot} (ys : Cells) (a : Ptr) (v : ℕ) (zs : Cells)
    (is : IsList h l (ys ++ (a, v) ∷ zs)) where
  -- On a list that holds the node, `ListDetachElement` ends and leaves the list without that node,
  -- frees the node, and writes to no node outside the list.
  pub list_detach_element-IsList :
      (l' : ListRoot) × (h' : Heap) × (list_detach_element l a h ≡ ok (l', h'))
      × IsList h' l' (ys ++ zs)
      × (h'.cell a ≡ none)
      × ((b : Ptr) → has b (ys ++ (a, v) ∷ zs) ≡ false → h'.cell b ≡ h.cell b)
  unfolding list_detach_element update
  list_detach_element-IsList =
      let (m, q, front, back) =
        Chain-split h.cell null l.begin ys ((a, v) ∷ zs) l.end null is.chain in
      let (r, qa, ne, at, rest) = back in
      let (out, out', apart, distinct) = Distinct-parts ys a v zs is.distinct in
      let (c₁, run₁, front₁, same₁) =
        unlink-Front h l.begin ys m q r front (Distinct-front ys zs distinct) in
      let rest₁ =
        Chain-frame h.cell c₁ a r zs l.end null rest (λ b i. same₁ b (ground (arith, apart b))) in
      let (c₂, run₂, back₂, same₂) =
        unlink_back (record h { cell = c₁ }) a r zs l.end m rest₁ (Distinct-back ys zs distinct) in
      let front₂ =
        Chain-frame c₁ c₂ null (if m == null then r else l.begin) ys m r front₁
          (λ b i. same₂ b (apart b i)) in
      let c₃ : Ptr → Option Node = update c₂ a none in
      let here : c₂ a ≡ some (node r v m) = same₂ a out' ∙ same₁ a out ∙ at in
      let b' = if m == null then r else l.begin in
      let e' = if r == null then m else l.end in
      (
        root b' e',
        record h { cell = c₃ },
        detach_run h l a r m v c₁ c₂ at ne run₁ run₂ here,
        record {
          chain =
              Chain-join c₃ null b' ys zs m r e' null
                (Chain-update c₂ null b' ys m r a none front₂ out)
                (Chain-update c₂ m r zs e' null a none back₂ out');
          distinct = distinct;
        },
        ground arith,
        λ b o. ground (arith, has-append b ys ((a, v) ∷ zs), same₁ b, same₂ b),
      )
