-- ===== src/DynamicList/Heap.antt =====
-- Nodes of doubly linked lists at addresses, and the commands that read and write them.
use automaton_state_machine.Base.{ℕ, suc, Option, none, some, ◌==◌, if◌then◌else◌}
use automaton_state_machine.Base.Outcome.{Outcome, ok, undefined, out_of_fuel, ends}

abbrev pub Ptr : Type 0
Ptr = ℕ

abbrev pub null : Ptr
null = 0

-- `ListNode`. The values are `void*`: numbers that the list does not look into.
pub record Node : Type 0 where
  pub right : Ptr
  pub value : ℕ
  pub left : Ptr

abbrev pub node : Ptr → ℕ → Ptr → Node
node r v l = record { right = r; value = v; left = l }

-- The nodes that are allocated, and the address that `malloc` gives next.
pub record Heap : Type 0 where
  pub next : Ptr
  pub cell : Ptr → Option Node

abbrev pub Cmd : Type 0 → Type 0
Cmd A = Heap → Outcome (A × Heap)

abbrev pub pure : {A : Type 0} → A → Cmd A
pure a h = ok (a, h)

-- A command that fails ends the sequence.
module _ {X Y : Type 0} where
  abbrev pub run_next : Outcome (X × Heap) → (X → Cmd Y) → Outcome (Y × Heap)
  run_next undefined next = undefined
  run_next out_of_fuel next = out_of_fuel
  run_next ends next = ends
  run_next (ok (x, heap)) next = next x heap

  infixl 5 ◌>>=◌ ◌>>◌
  abbrev pub ◌>>=◌ : Cmd X → (X → Cmd Y) → Cmd Y
  (first >>= next) heap = run_next (first heap) next

  abbrev pub ◌>>◌ : Cmd X → Cmd Y → Cmd Y
  first >> second = first >>= λ _. second

unfoldable pub update : (Ptr → Option Node) → Ptr → Option Node → Ptr → Option Node
update f p c a = if a == p then c else f a

abbrev pub write : Heap → Ptr → Option Node → Heap
write h p c = record h { cell = update h.cell p c }

abbrev pub on_cell : {A : Type 0} → Option Node → (Node → Outcome A) → Outcome A
on_cell none k = undefined
on_cell (some n) k = k n

-- `*p`: undefined at NULL and at an address that is not allocated
unfoldable pub load : Ptr → Cmd Node
load p h = if p == null then undefined else on_cell (h.cell p) λ n. ok (n, h)

-- `p->right = q`, `p->left = q` and `p->value = v`
unfoldable pub set_right : Ptr → Ptr → Cmd (Unit {0})
unfolding load
set_right p q = load p >>= λ n h. ok (tt, write h p (some (record n { right = q })))

unfoldable pub set_left : Ptr → Ptr → Cmd (Unit {0})
unfolding load
set_left p q = load p >>= λ n h. ok (tt, write h p (some (record n { left = q })))

unfoldable pub set_value : Ptr → ℕ → Cmd (Unit {0})
unfolding load
set_value p v = load p >>= λ n h. ok (tt, write h p (some (record n { value = v })))

-- `MALLOCATE(ListNode)`; a failure of `malloc` ends the program and is not modelled
unfoldable pub malloc : Node → Cmd Ptr
malloc n h = ok (h.next, record { next = suc h.next; cell = update h.cell h.next (some n) })

-- `FREE(p)`, which does nothing at NULL
unfoldable pub free : Ptr → Cmd (Unit {0})
free p h = if p == null then ok (tt, h) else on_cell (h.cell p) λ n. ok (tt, write h p none)
