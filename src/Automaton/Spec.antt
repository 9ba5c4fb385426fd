-- ===== src/Automaton/Spec.antt =====
-- Acceptance by an alternating automaton, as README.md defines it: by the recursive function
-- `accept`, and by the trees of accepting runs.
use automaton_state_machine.Base.{
  ℕ, ◌≡◌, ◌↔◌, Bool, true, false, ◌&&◌, ◌||◌, List, [], ◌∷◌, arith, if◌then◌else◌, ◌==◌, Bool-cases,
  inl, inr, refl,
}

-- An automaton over numbered states and letters. `next q a` lists the states of T(q, a).
pub record Automaton : Type 0 where
  pub universal : ℕ → Bool
  pub final : ℕ → Bool
  pub next : ℕ → ℕ → List ℕ

abbrev pub any {ℓ} : {A : Type ℓ} → (A → Bool) → List A → Bool
any f [] = false
any f (x ∷ xs) = f x || any f xs

abbrev pub all {ℓ} : {A : Type ℓ} → (A → Bool) → List A → Bool
all f [] = true
all f (x ∷ xs) = f x && all f xs

-- the function `accept` of README.md, from the last state of the path on
unfoldable pub accept : Automaton → ℕ → List ℕ → Bool
accept m q [] = m.final q
accept m q (a ∷ w) =
    if m.universal q
    then all (λ p. accept m p w) (m.next q a)
    else any (λ p. accept m p w) (m.next q a)

infix 40 ◌∈◌
abbrev pub ◌∈◌ : ℕ → List ℕ → Type 0
p ∈ xs = any (λ x. x == p) xs ≡ true

-- An accepting run from a state over a word, as a tree: a final state where the word ends; one child
-- below an existential state; a child for every next state below a universal one, so that a
-- universal state with no next state is a leaf of an accepting run.
pub data Run (m : Automaton) : ℕ → List ℕ → Type 0 where
  stop : {q : ℕ} → m.final q ≡ true → Run m q []
  choose :
      {q a p : ℕ} {w : List ℕ}
      → m.universal q ≡ false
      → p ∈ m.next q a
      → Run m p w
      → Run m q (a ∷ w)
  every :
      {q a : ℕ} {w : List ℕ}
      → m.universal q ≡ true
      → ((p : ℕ) → p ∈ m.next q a → Run m p w)
      → Run m q (a ∷ w)

any-mem : (f : ℕ → Bool) (xs : List ℕ) → any f xs ≡ true → (p : ℕ) × (p ∈ xs) × (f p ≡ true)
any-mem f [] h = cc
any-mem f (x ∷ xs) h = elim (Bool-cases (f x)) [
  | inl e ↦ (x, ground arith, e)
  | inr e ↦ let (p, i, g) = any-mem f xs (ground arith) in (p, ground arith, g)
]

mem-any : (f : ℕ → Bool) (xs : List ℕ) (p : ℕ) → p ∈ xs → f p ≡ true → any f xs ≡ true
mem-any f [] p i h = cc
mem-any f (x ∷ xs) p i h = elim (Bool-cases (x == p)) [
  | inl e ↦ ground arith
  | inr e ↦ ground (arith, mem-any f xs p)
]

all-mem : (f : ℕ → Bool) (xs : List ℕ) → all f xs ≡ true → (p : ℕ) → p ∈ xs → f p ≡ true
all-mem f [] h p i = cc
all-mem f (x ∷ xs) h p i = elim (Bool-cases (x == p)) [
  | inl e ↦ ground arith
  | inr e ↦ all-mem f xs (ground arith) p (ground arith)
]

mem-all : (f : ℕ → Bool) (xs : List ℕ) → ((p : ℕ) → p ∈ xs → f p ≡ true) → all f xs ≡ true
mem-all f [] h = refl
mem-all f (x ∷ xs) h = ground (arith, h x, mem-all f xs λ p i. h p (ground arith))

module _ (m : Automaton) where
  accept-Run : (w : List ℕ) (q : ℕ) → accept m q w ≡ true → Run m q w
  unfolding accept
  accept-Run [] q h = stop h
  accept-Run (a ∷ w) q h = elim (Bool-cases (m.universal q)) [
    | inl u ↦
        every u λ p i. accept-Run w p (all-mem (λ p. accept m p w) (m.next q a) (ground arith) p i)
    | inr e ↦
        let (p, i, g) = any-mem (λ p. accept m p w) (m.next q a) (ground arith) in
        choose e i (accept-Run w p g)
  ]

  Run-accept : {q : ℕ} {w : List ℕ} → Run m q w → accept m q w ≡ true
  unfolding accept
  Run-accept (stop h) = h
  Run-accept (choose {q} {a} {p} {w} e i r) =
      rw e (mem-any (λ p. accept m p w) (m.next q a) p i (Run-accept r))
  Run-accept (every {q} {a} {w} u rs) =
      rw u (mem-all (λ p. accept m p w) (m.next q a) λ p i. Run-accept (rs p i))

  -- The recursive function accepts a word from a state exactly when there is an accepting run.
  pub accept_iff_Run : (w : List ℕ) (q : ℕ) → (accept m q w ≡ true) ↔ Run m q w
  accept_iff_Run w q = (accept-Run w q, Run-accept)
