-- ===== src/Automaton/Loader/Lines.antt =====
-- The lines of edges, as `loadTransitionGraph` of src/automaton.h reads them.
use automaton_state_machine.Base.{
  ℕ, zero, suc, ◌+◌, ◌-◌, ◌≤◌, ◌<◌, ◌≡◌, refl, true, false, List, [], ◌∷◌, ◌++◌, ◌==◌, length,
  arith, append_assoc, length-append, sym, ap, some,
}
use automaton_state_machine.Base.Int.{pos, ltb_ℤ}
use automaton_state_machine.Base.Outcome.{ok}
use automaton_state_machine.Text.Gets.{IsLine}
use automaton_state_machine.Text.Getline.{LineBuf, static_size, str_getline-line, str_getline-end}
use automaton_state_machine.Text.Scan.{Text, number, print_nat, skip, is_space}
use automaton_state_machine.Text.Decimal.{
  scan_int-print_nat, scan_int-blank, print_nat-IsLine, IsLine-append,
}
use automaton_state_machine.Automaton.Graph.{TransitionGraph, max_q}
use automaton_state_machine.Automaton.Loader.{
  Vars, set_r, set_letter, is_empty, letter_index, load_target, load_targets, load_edge, load_line,
  load_edges,
}
use automaton_state_machine.Automaton.Loader.Format.{
  blanks, numbers, Edge, edge_line, edge_lines, targets_of, row, added, IsEdge, AreEdges,
}
use automaton_state_machine.Automaton.Loader.Marks.{At, At-next, text_at-At, blanks-IsBreak}
use automaton_state_machine.Automaton.Loader.Grow.{
  grow, grow_all, grow_edges, add_target-grow, size-grow, size-grow_edge,
}

letter_index-letter : (a : ℕ) → b'a' + a < 128 → letter_index (b'a' + a) ≡ pos a
letter_index-letter a h = ground arith

-- a round of the loop over the targets
load_target-blank :
    (line : Text) (tg : TransitionGraph) (v : Vars) (q a r : ℕ) (rs : List ℕ)
    → q < max_q
    → b'a' + a < 128
    → tg.size q a < max_q
    → v.q ≡ some (pos q)
    → v.a ≡ some (b'a' + a)
    → At line v.offset (blanks (r ∷ rs))
    → (w : Vars) × (At line w.offset (blanks rs))
      × (w.q ≡ some (pos q))
      × (w.a ≡ some (b'a' + a))
      × (load_target line (blanks (r ∷ rs)) tg v ≡ ok (is_empty (blanks rs), grow q a r tg, w))
unfolding load_target blanks
load_target-blank line tg v q a r rs h k room eq ea at =
    let piece : Text = b' ' ∷ print_nat r in
    let w : Vars = set_r (piece ++ blanks rs) (number (pos r) (blanks rs)) v in
    let u : Vars = record w {
      offset = w.offset + (length (piece ++ blanks rs) - length (blanks rs));
    } in
    let next : At line u.offset (blanks rs) = At-next line v.offset piece (blanks rs) at in
    (
      u,
      next,
      eq,
      ea,
      rw
          (
            scan_int-blank r (blanks rs) (blanks-IsBreak rs),
            eq,
            ea,
            letter_index-letter a k,
            add_target-grow tg q a r h (omega arith) room,
            text_at-At line u.offset (blanks rs) next,
          )
          refl,
    )

-- the loop over the targets of a line
load_targets-blanks :
    (r : ℕ) (rs : List ℕ) (fuel : ℕ) (line : Text) (tg : TransitionGraph) (v : Vars) (q a : ℕ)
    → length rs < fuel
    → q < max_q
    → b'a' + a < 128
    → tg.size q a + length (r ∷ rs) ≤ max_q
    → v.q ≡ some (pos q)
    → v.a ≡ some (b'a' + a)
    → At line v.offset (blanks (r ∷ rs))
    → (w : Vars) × (load_targets fuel line tg v ≡ ok (grow_all q a (r ∷ rs) tg, w))
unfolding load_targets grow_all blanks
load_targets-blanks r rs zero line tg v q a enough h k room eq ea at = absurd (omega arith)
load_targets-blanks r [] (suc fuel) line tg v q a enough h k room eq ea at =
    let free : tg.size q a < max_q = omega arith in
    let (w, next, wq, wa, e) = load_target-blank line tg v q a r [] h k free eq ea at in
    (w, rw (text_at-At line v.offset (blanks (r ∷ [])) at, e) refl)
load_targets-blanks r (s ∷ rs) (suc fuel) line tg v q a enough h k room eq ea at =
    let free : tg.size q a < max_q = omega arith in
    let (w, next, wq, wa, e) = load_target-blank line tg v q a r (s ∷ rs) h k free eq ea at in
    let (u, f) =
      load_targets-blanks s rs fuel line (grow q a r tg) w q a (omega arith) h k
        (omega (arith, size-grow tg q a r)) wq wa next in
    (u, rw (text_at-At line v.offset (blanks (r ∷ s ∷ rs)) at, e) f)

length-blanks : (ns : List ℕ) → length ns ≤ length (blanks ns)
unfolding blanks
length-blanks [] = omega arith
length-blanks (n ∷ ns) =
    omega (arith, length-blanks ns, length-append (b' ' ∷ print_nat n) (blanks ns))

is_empty-blanks : (n : ℕ) (ns : List ℕ) → is_empty (blanks (n ∷ ns)) ≡ false
unfolding blanks
is_empty-blanks n ns = refl

blanks-IsLine : (ns : List ℕ) → IsLine (blanks ns)
unfolding blanks
blanks-IsLine [] = tt
blanks-IsLine (n ∷ ns) =
    (refl, IsLine-append (print_nat n) (blanks ns) (print_nat-IsLine n) (blanks-IsLine ns))

pub numbers-IsLine : (ns : List ℕ) → IsLine (numbers ns)
unfolding numbers
numbers-IsLine [] = tt
numbers-IsLine (n ∷ ns) =
    IsLine-append (print_nat n) (blanks ns) (print_nat-IsLine n) (blanks-IsLine ns)

edge_line-IsLine : (e : Edge) → IsLine (edge_line e)
edge_line-IsLine e =
    IsLine-append (print_nat e.source) (b' ' ∷ (b'a' + e.letter) ∷ blanks (targets_of e))
      (print_nat-IsLine e.source) (refl, (ground arith, blanks-IsLine (targets_of e)))

-- a line of edges adds its targets, and the loop over the lines goes on
load_edge-line :
    (e : Edge) (tg : TransitionGraph) (v : Vars)
    → IsEdge e
    → tg.size e.source e.letter + length (targets_of e) ≤ max_q
    → (w : Vars) × (load_edge (edge_line e) tg v
        ≡ ok (false, grow_all e.source e.letter (targets_of e) tg, w))
unfolding load_edge skip
load_edge-line e tg v fits room =
    let line : Text = edge_line e in
    let tail : Text = blanks (targets_of e) in
    let c : ℕ = b'a' + e.letter in
    let w : Vars = set_letter line (c ∷ tail) (record v { q = some (pos e.source) }) in
    let plain : is_space c ≡ false = ground (arith, fits.letter_fits) in
    let before : Text = print_nat e.source ++ b' ' ∷ c ∷ [] in
    let at : At line w.offset tail = (
      before,
      sym (append_assoc (print_nat e.source) (b' ' ∷ c ∷ []) tail),
      omega (
        arith,
        length-append (print_nat e.source) (b' ' ∷ c ∷ tail),
        length-append (print_nat e.source) (b' ' ∷ c ∷ []),
      ),
    ) in
    let enough : length e.others < length line + 1 =
      omega (
        arith,
        length-append (print_nat e.source) (b' ' ∷ c ∷ tail),
        length-blanks (targets_of e),
      ) in
    let (u, f) =
      load_targets-blanks e.target e.others (length line + 1) line tg w e.source e.letter enough
        fits.source_fits fits.letter_fits room refl refl at in
    (
      u,
      rw
          (
            scan_int-print_nat e.source (b' ' ∷ c ∷ tail) refl,
            plain,
            text_at-At line w.offset tail at,
            is_empty-blanks e.target e.others,
            f,
          )
          refl,
    )

row-room :
    (tg : TransitionGraph) (e : Edge) (es : List Edge) (q a : ℕ)
    → tg.size q a + length (row (e ∷ es) q a) ≤ max_q
    → (grow_all e.source e.letter (targets_of e) tg).size q a + length (row es q a) ≤ max_q
unfolding row
row-room tg e es q a h =
    omega (arith, size-grow_edge tg e q a, length-append (added e q a) (row es q a))

added_self : (e : Edge) → added e e.source e.letter ≡ targets_of e
added_self e =
    let same : (e.source == e.source) ≡ true = ground arith in
    let same_letter : (e.letter == e.letter) ≡ true = ground arith in rw (same, same_letter) refl

row-here :
    (tg : TransitionGraph) (e : Edge) (es : List Edge)
    → tg.size e.source e.letter + length (row (e ∷ es) e.source e.letter) ≤ max_q
    → tg.size e.source e.letter + length (targets_of e) ≤ max_q
unfolding row
row-here tg e es h = omega (
  arith,
  ap length (added_self e),
  length-append (added e e.source e.letter) (row es e.source e.letter),
)

load_line-edge :
    (e : Edge) (buf : LineBuf) (rest : Text) (tg : TransitionGraph) (v : Vars)
    → buf.text ≡ edge_line e
    → IsEdge e
    → tg.size e.source e.letter + length (targets_of e) ≤ max_q
    → (w : Vars) × (load_line
          (record { size = pos (length (edge_line e)); buf = buf; rest = rest })
          tg
          v
        ≡ ok (false, grow_all e.source e.letter (targets_of e) tg, w))
unfolding load_line
load_line-edge e buf rest tg v text fits room =
    let tail : Text = b' ' ∷ (b'a' + e.letter) ∷ blanks (targets_of e) in
    let some_cells : 0 < length (edge_line e) =
      omega (arith, length-append (print_nat e.source) tail) in
    let more : ltb_ℤ (pos 0) (pos (length (edge_line e))) ≡ true = ground arith in
    let (w, g) = load_edge-line e tg v fits room in (w, rw (more, text, g) refl)

-- The loop over the lines adds the edges of all lines to the graph.
pub load_edges-lines :
    (es : List Edge) (fuel : ℕ) (buf : LineBuf) (tg : TransitionGraph) (v : Vars)
    → AreEdges es
    → ((q a : ℕ) → tg.size q a + length (row es q a) ≤ max_q)
    → length (edge_lines es) < fuel
    → load_edges fuel buf (edge_lines es) tg v ≡ ok (grow_edges es tg)
unfolding load_edges grow_edges
load_edges-lines es zero buf tg v fits room enough = absurd (omega arith)
load_edges-lines [] (suc fuel) buf tg v fits room enough = rw (str_getline-end buf) refl
load_edges-lines (e ∷ es) (suc fuel) buf tg v fits room enough =
    let next : LineBuf = record { cap = static_size; text = edge_line e } in
    let (w, g) =
      load_line-edge e next (edge_lines es) tg v refl fits.0
        (row-here tg e es (room e.source e.letter)) in
    rw (str_getline-line buf (edge_line e) (edge_lines es) (edge_line-IsLine e) fits.0.line_fits, g)
      (load_edges-lines es fuel next _ w fits.1 (λ q a. row-room tg e es q a (room q a))
        (omega (arith, length-append (edge_line e) (b'\n' ∷ edge_lines es))))
