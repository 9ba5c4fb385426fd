-- ===== src/Automaton/Loader/Grow.antt =====
-- The transition graph to which targets are added, as one function of the graph.
use automaton_state_machine.Base.{
  ℕ, zero, suc, ◌+◌, ◌<◌, ◌≡◌, refl, Bool, true, false, ◌&&◌, List, [], ◌∷◌, ◌++◌, ◌==◌,
  if◌then◌else◌, length, arith, append_assoc, length-append, sym, ap, ◌∙◌, Bool-cases, inl, inr,
  lt→ltb, append-nil, add-one, ==_iff,
}
use automaton_state_machine.Base.Int.{ℤ, pos}
use automaton_state_machine.Base.Outcome.{ok}
use automaton_state_machine.Automaton.Graph.{TransitionGraph, max_q, max_a, InRange}
use automaton_state_machine.Automaton.View.{targets}
use automaton_state_machine.Automaton.Loader.{add_target}
use automaton_state_machine.Automaton.Loader.Format.{
  Edge, targets_of, added, row, AllBelow, AreEdges,
}

-- the graph after `add_target` in bounds
unfoldable pub grow : ℕ → ℕ → ℕ → TransitionGraph → TransitionGraph
grow q a r tg = record tg {
  graph = λ j.
      if q == j
      then (λ k.
          if a == k
          then (λ i. if tg.size q a == i then pos r else tg.graph q a i)
          else tg.graph q k)
      else tg.graph j;
  size = λ j. if q == j then (λ k. if a == k then tg.size q a + 1 else tg.size q k) else tg.size j;
}

pub add_target-grow :
    (tg : TransitionGraph) (q a r : ℕ)
    → q < max_q
    → a < max_a
    → tg.size q a < max_q
    → add_target tg (pos q) (pos a) (pos r) ≡ ok (grow q a r tg)
unfolding grow
add_target-grow tg q a r h k room = rw (lt→ltb _ _ h, lt→ltb _ _ k, lt→ltb _ _ room) refl

pub size-grow : (tg : TransitionGraph) (q a r : ℕ) → (grow q a r tg).size q a ≡ tg.size q a + 1
unfolding grow
size-grow tg q a r = ground arith

unfoldable pub grow_all : ℕ → ℕ → List ℕ → TransitionGraph → TransitionGraph
grow_all q a [] tg = tg
grow_all q a (r ∷ rs) tg = grow_all q a rs (grow q a r tg)

unfoldable pub grow_edges : List Edge → TransitionGraph → TransitionGraph
grow_edges [] tg = tg
grow_edges (e ∷ es) tg = grow_edges es (grow_all e.source e.letter (targets_of e) tg)

-- the states of T(q, a) that a graph holds
abbrev pub held : TransitionGraph → ℕ → ℕ → List ℕ
held tg q a = targets (tg.graph q a) (tg.size q a) 0

targets-length : (cells : ℕ → ℤ) (n i : ℕ) → length (targets cells n i) ≡ n
unfolding targets
targets-length cells zero i = refl
targets-length cells (suc n) i = ap suc (targets-length cells n (i + 1))

-- a target in the first free cell
targets-push :
    (cells : ℕ → ℤ) (n i m r : ℕ)
    → m ≡ i + n
    → targets (λ j. if m == j then pos r else cells j) (suc n) i ≡ targets cells n i ++ r ∷ []
unfolding targets
targets-push cells zero i m r h = let here : (m == i) ≡ true = ground arith in rw here refl
targets-push cells (suc n) i m r h =
    let other : (m == i) ≡ false = ground arith in
    rw (other, targets-push cells n (i + 1) m r (omega arith)) refl

held-grow :
    (tg : TransitionGraph) (q a r j k : ℕ)
    → held (grow q a r tg) j k ≡ held tg j k ++ (if q == j && a == k then r ∷ [] else [])
unfolding grow
held-grow tg q a r j k = elim (Bool-cases (q == j)) [
  | inr e ↦ rw (e, append-nil) refl
  | inl e ↦ elim (Bool-cases (a == k)) [
    | inr f ↦ rw (e, f, (==_iff q j).0 e, append-nil) refl
    | inl f ↦
        rw (e, f, (==_iff q j).0 e, (==_iff a k).0 f, add-one)
          (targets-push (tg.graph j k) (tg.size j k) 0 (tg.size j k) r (omega arith))
  ]
]

if-append :
    (b : Bool) (r : ℕ) (rs : List ℕ)
    → (if b then r ∷ [] else []) ++ (if b then rs else []) ≡ (if b then r ∷ rs else [])
if-append true r rs = refl
if-append false r rs = refl

pub held-grow_all :
    (rs : List ℕ) (tg : TransitionGraph) (q a j k : ℕ)
    → held (grow_all q a rs tg) j k ≡ held tg j k ++ (if q == j && a == k then rs else [])
unfolding grow_all
held-grow_all [] tg q a j k = ground (arith, append-nil (held tg j k))
held-grow_all (r ∷ rs) tg q a j k =
    held-grow_all rs (grow q a r tg) q a j k
    ∙ ap (λ xs. xs ++ (if q == j && a == k then rs else [])) (held-grow tg q a r j k)
    ∙ append_assoc (held tg j k) _ _
    ∙ ap (λ xs. held tg j k ++ xs) (if-append (q == j && a == k) r rs)

-- a graph to which edges are added holds their targets behind those that it held before
pub held-grow_edges :
    (es : List Edge) (tg : TransitionGraph) (j k : ℕ)
    → held (grow_edges es tg) j k ≡ held tg j k ++ row es j k
unfolding grow_edges row
held-grow_edges [] tg j k = rw append-nil refl
held-grow_edges (e ∷ es) tg j k =
    held-grow_edges es (grow_all e.source e.letter (targets_of e) tg) j k
    ∙ ap (λ xs. xs ++ row es j k) (held-grow_all (targets_of e) tg e.source e.letter j k)
    ∙ append_assoc (held tg j k) _ _

pub length-held : (tg : TransitionGraph) (q a : ℕ) → length (held tg q a) ≡ tg.size q a
length-held tg q a = targets-length (tg.graph q a) (tg.size q a) 0

pub size-grow_edge :
    (tg : TransitionGraph) (e : Edge) (q a : ℕ)
    → (grow_all e.source e.letter (targets_of e) tg).size q a ≡ tg.size q a + length (added e q a)
size-grow_edge tg e q a =
    let after : TransitionGraph = grow_all e.source e.letter (targets_of e) tg in
    sym (length-held after q a)
    ∙ ap length (held-grow_all (targets_of e) tg e.source e.letter q a)
    ∙ length-append (held tg q a) (added e q a)
    ∙ ap (λ n. n + length (added e q a)) (length-held tg q a)

-- every valid target is a state of the arrays
abbrev pub Fits : TransitionGraph → Type 0
Fits tg = (q a i : ℕ) → i < tg.size q a → InRange max_q (tg.graph q a i)

grow-Fits : (tg : TransitionGraph) (q a r : ℕ) → r < max_q → Fits tg → Fits (grow q a r tg)
unfolding grow
grow-Fits tg q a r h fits j k i = ground (arith, fits j k i, fits q a i)

grow_all-Fits :
    (rs : List ℕ) (tg : TransitionGraph) (q a : ℕ)
    → AllBelow max_q rs
    → Fits tg
    → Fits (grow_all q a rs tg)
unfolding grow_all
grow_all-Fits [] tg q a low fits = fits
grow_all-Fits (r ∷ rs) tg q a low fits =
    grow_all-Fits rs (grow q a r tg) q a low.1 (grow-Fits tg q a r low.0 fits)

pub grow_edges-Fits :
    (es : List Edge) (tg : TransitionGraph) → AreEdges es → Fits tg → Fits (grow_edges es tg)
unfolding grow_edges
grow_edges-Fits [] tg ok_edges fits = fits
grow_edges-Fits (e ∷ es) tg ok_edges fits =
    grow_edges-Fits es _ ok_edges.1
      (grow_all-Fits (targets_of e) tg e.source e.letter ok_edges.0.targets_fit fits)

-- what the edges leave as it is
abbrev pub SameHead : TransitionGraph → TransitionGraph → Type 0
SameHead tg old =
    (tg.universal ≡ old.universal) × (tg.q0 ≡ old.q0) × (tg.accepting_states ≡ old.accepting_states)

grow_all-SameHead :
    (rs : List ℕ) (tg : TransitionGraph) (q a : ℕ) → SameHead (grow_all q a rs tg) tg
unfolding grow_all grow
grow_all-SameHead [] tg q a = (refl, refl, refl)
grow_all-SameHead (r ∷ rs) tg q a = grow_all-SameHead rs (grow q a r tg) q a

pub grow_edges-SameHead : (es : List Edge) (tg : TransitionGraph) → SameHead (grow_edges es tg) tg
unfolding grow_edges
grow_edges-SameHead [] tg = (refl, refl, refl)
grow_edges-SameHead (e ∷ es) tg =
    let (u, q, f) = grow_all-SameHead (targets_of e) tg e.source e.letter in
    let (v, r, g) = grow_edges-SameHead es (grow_all e.source e.letter (targets_of e) tg) in
    (v ∙ u, r ∙ q, g ∙ f)
