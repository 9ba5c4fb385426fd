-- ===== src/DynamicList/Examples.antt =====
-- The theorems about linked lists at a list of three nodes.
use automaton_state_machine.Base.{
  ◌≡◌, refl, Option, none, some, false, true, ◌==◌, if◌then◌else◌, [], ◌∷◌, arith,
}
use automaton_state_machine.Base.Outcome.{Outcome, ok, undefined, out_of_fuel, ends}
use automaton_state_machine.DynamicList.Heap.{Ptr, null, Node, node, Heap, Cmd, ◌>>=◌, update}
use automaton_state_machine.DynamicList.Ops.{ListRoot, root, list_new, list_push_back, list_destroy}
use automaton_state_machine.DynamicList.Splice.{list_detach_element}
use automaton_state_machine.DynamicList.Chain.{Cells, has, IsList, IsHeap}
use automaton_state_machine.DynamicList.Iterate.{list_copy_into}
use automaton_state_machine.DynamicList.Copy.{list_copy, list_print}
use automaton_state_machine.DynamicList.CopyInto.{Copied, list_copy_into-Copied}
use automaton_state_machine.Text.Scan.{Text, print_nat}
use automaton_state_machine.DynamicList.Walk.{list_destroy-frees}
use automaton_state_machine.DynamicList.Detach.{list_detach_element-IsList}

abbrev three : Heap
three = record {
  next = 4;
  cell = λ p.
      if p == 1
      then some (node 2 10 null)
      else if p == 2
      then some (node 3 20 1)
      else if p == 3
      then some (node null 30 2)
      else none;
}

abbrev three_cells : Cells
three_cells = (1, 10) ∷ (2, 20) ∷ (3, 30) ∷ []

three-IsList : IsList three (root 1 3) three_cells
three-IsList = record {
  chain = (
    2,
    refl,
    omega arith,
    refl,
    (3, refl, omega arith, refl, (null, refl, omega arith, refl, (refl, refl))),
  );
  distinct = (refl, (refl, (refl, tt)));
}

three-IsHeap : IsHeap three
three-IsHeap = record { positive = omega arith; unused = λ a le. ground arith }

list_destroy-frees_example :
    (g : Ptr → Option Node) × (list_destroy 4 (some (root 1 3)) three
      ≡ ok (some (root null null), record three { cell = g }))
    × ((b : Ptr) → g b ≡ (if has b three_cells then none else three.cell b))
list_destroy-frees_example =
    list_destroy-frees three (root 1 3) three_cells 4 three-IsList (omega arith)

list_detach_element-IsList_example :
    (l : ListRoot) × (h : Heap) × (list_detach_element (root 1 3) 2 three ≡ ok (l, h))
    × IsList h l ((1, 10) ∷ (3, 30) ∷ [])
    × (h.cell 2 ≡ none)
    × ((b : Ptr) → has b three_cells ≡ false → h.cell b ≡ three.cell b)
list_detach_element-IsList_example =
    list_detach_element-IsList ((1, 10) ∷ []) 2 20 ((3, 30) ∷ []) three-IsList

-- the three nodes, and a list of one node
abbrev four : Heap
four = record { next = 5; cell = λ p. if p == 4 then some (node null 40 null) else three.cell p }

four-IsHeap : IsHeap four
four-IsHeap = record { positive = omega arith; unused = λ a le. ground arith }

source-IsList : IsList four (root 1 3) three_cells
source-IsList = record {
  chain = (
    2,
    refl,
    omega arith,
    refl,
    (3, refl, omega arith, refl, (null, refl, omega arith, refl, (refl, refl))),
  );
  distinct = (refl, (refl, (refl, tt)));
}

target-IsList : IsList four (root 4 4) ((4, 40) ∷ [])
target-IsList = record {
  chain = (null, refl, omega arith, refl, (refl, refl));
  distinct = (refl, tt);
}

target-Apart : (b : Ptr) → has b three_cells ≡ true → has b ((4, 40) ∷ []) ≡ false
target-Apart b h = ground arith

list_copy_into-Copied_example :
    (l : ListRoot) × (h : Heap) × (zs : Cells) × (list_copy_into 4
        (some (root 1 3))
        (some (root 4 4))
        four
      ≡ ok (some l, h))
    × Copied four three_cells ((4, 40) ∷ []) zs l h
list_copy_into-Copied_example =
    list_copy_into-Copied four (root 1 3) (root 4 4) three_cells ((4, 40) ∷ []) 4 four-IsHeap
      source-IsList target-IsList target-Apart (omega arith)

-- five values, copied and printed
unfoldable copy_five : Cmd Text
unfolding list_push_back list_copy list_print
copy_five = do
  (_, l₁) ← list_push_back (some list_new) 1
  (_, l₂) ← list_push_back l₁ 2
  (_, l₃) ← list_push_back l₂ 3
  (_, l₄) ← list_push_back l₃ 4
  (_, l₅) ← list_push_back l₄ 5
  copy ← list_copy 6 l₅
  list_print 6 (some copy) print_nat

abbrev text_of : Outcome (Text × Heap) → Text
text_of (ok (s, h)) = s
text_of undefined = []
text_of out_of_fuel = []
text_of ends = []

copy_five_test :
    text_of (copy_five three)
    ≡ b'[' ∷ b' ' ∷ b'1' ∷ b';' ∷ b' ' ∷ b'2' ∷ b';' ∷ b' ' ∷ b'3' ∷ b';' ∷ b' ' ∷ b'4' ∷ b';'
      ∷ b' ' ∷ b'5' ∷ b';' ∷ b' ' ∷ b']' ∷ b' ' ∷ []
unfolding copy_five print_nat update
copy_five_test = refl
