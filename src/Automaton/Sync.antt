-- ===== src/Automaton/Sync.antt =====
-- `acceptSync` of src/automaton.h: the search in one process.
pub mod Correct
use automaton_state_machine.Base.{
  ℕ, zero, suc, ◌+◌, List, true, false, leb, ◌==◌, arith, length, get_elem?, none, some, Option,
  if◌then◌else◌,
}
use automaton_state_machine.Base.Int.{ℤ, sub_ℕ, leb_ℤ}
use automaton_state_machine.Base.Outcome.{Outcome, ok, undefined, out_of_fuel, ◌>>=◌}
use automaton_state_machine.Automaton.Graph.{TransitionGraph, accepting_at, size_at, graph_at}

-- `word[i]`, for a word that ends at its null byte
abbrev pub char_at : List ℕ → ℕ → Outcome ℕ
char_at word i = elim (get_elem? word i) [ none ↦ undefined | some c ↦ ok c ]

-- `(int)(word[depth] - 'a')`
abbrev pub letter_at : List ℕ → ℕ → Outcome ℤ
letter_at word depth = char_at word depth >>= λ c. ok (sub_ℕ c b'a')

-- `for(i..) if(accept(target(i))) return 1; return 0;`, with the rounds that are left
unfoldable pub any_branch : (ℤ → Outcome ℕ) → (ℕ → Outcome ℤ) → ℕ → ℕ → Outcome ℕ
any_branch accept target zero i = ok 0
any_branch accept target (suc n) i = target i >>= λ p.
    accept p >>= λ r. elim (r == 0) [ true ↦ any_branch accept target n (i + 1) | false ↦ ok 1 ]

-- `for(i..) if(!accept(target(i))) return 0; return 1;`
unfoldable pub all_branches : (ℤ → Outcome ℕ) → (ℕ → Outcome ℤ) → ℕ → ℕ → Outcome ℕ
all_branches accept target zero i = ok 1
all_branches accept target (suc n) i = target i >>= λ p.
    accept p >>= λ r. elim (r == 0) [ true ↦ ok 0 | false ↦ all_branches accept target n (i + 1) ]

-- `acceptSync_rec`. The fuel bounds the depth of the recursion.
unfoldable pub accept_sync_rec : ℕ → TransitionGraph → List ℕ → ℕ → ℤ → ℕ → Outcome ℕ
accept_sync_rec zero tg word word_len current_state depth = out_of_fuel
accept_sync_rec (suc fuel) tg word word_len current_state depth =
    if leb word_len depth
    then accepting_at tg current_state
    else (letter_at word depth >>= λ current_letter.
        size_at tg current_state current_letter >>= λ branch_count.
        elim (leb_ℤ tg.universal current_state) [
          | true ↦
              any_branch (λ q. accept_sync_rec fuel tg word word_len q (depth + 1))
                (graph_at tg current_state current_letter) branch_count 0
          | false ↦
              all_branches (λ q. accept_sync_rec fuel tg word word_len q (depth + 1))
                (graph_at tg current_state current_letter) branch_count 0
        ])

-- `acceptSync`; `strlen(word) + 1` rounds are enough
unfoldable pub accept_sync : TransitionGraph → List ℕ → Outcome ℕ
unfolding accept_sync_rec any_branch all_branches
accept_sync tg word = accept_sync_rec (length word + 1) tg word (length word) tg.q0 0
