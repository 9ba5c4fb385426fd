-- ===== src/HashMap/Examples.antt =====
-- The theorems about array lists and hash maps at a new map with numbers for keys.
use automaton_state_machine.Base.{
  ℕ, ◌≡◌, refl, Option, none, some, Bool, ◌==◌, if◌then◌else◌, [], ◌∷◌, arith,
}
use automaton_state_machine.Base.Int.{pos}
use automaton_state_machine.Base.Outcome.{ok}
use automaton_state_machine.ArrayList.Ops.{ArrayList}
use automaton_state_machine.ArrayList.Laws.{Holds}
use automaton_state_machine.HashMap.Ops.{
  HashMap, Bucket, hash_map_get, hash_map_remove, hash_map_set, find, detach,
}
use automaton_state_machine.HashMap.Iterator.{loop_hash_map}
use automaton_state_machine.HashMap.Visit.{loop_hash_map-all}
use automaton_state_machine.HashMap.Assoc.{IsComparator, IsUnique}
use automaton_state_machine.HashMap.Laws.{
  IsMap, find-assign, assign, hash_map_remove-detach, hash_map_get-hash_map_set,
}

abbrev same : ℕ → ℕ → Bool
same a b = a == b

same-IsComparator : IsComparator same
same-IsComparator = record {
  reflexive = λ a. ground arith;
  left = λ a b c h. ground arith;
  right = λ a b c h. ground arith;
}

abbrev elements : Bucket ℕ ℕ
elements = (1, 10) ∷ (2, 20) ∷ []

abbrev slots : ℕ → Option (Bucket ℕ ℕ)
slots i = if i == 1000 then some elements else none

abbrev two : HashMap ℕ ℕ
two = record {
  nodes = record { cells = λ i. ok (slots i); alloc_size = 1002; size = 1001 };
  cmp = same;
}

two-IsMap : IsMap two elements
unfolding IsUnique find
two-IsMap = record {
  slots = slots;
  held = record { fits = omega arith; filled = λ i lt. refl; behind = λ i le. ground arith };
  bucket = refl;
  others = λ i ne. ground arith;
  unique = (refl, (refl, tt));
}

hash_map_remove-detach_example :
    (hm : HashMap ℕ ℕ) × (hash_map_remove two (pos 4) (some 1) ≡ ok (some 10, hm))
    × (hm.cmp ≡ same)
    × IsMap hm ((2, 20) ∷ [])
unfolding find detach
hash_map_remove-detach_example =
    hash_map_remove-detach two elements (pos 4) 1 same-IsComparator two-IsMap

hash_map_get-hash_map_set_example :
    (old : Option ℕ) × (hm₁ : HashMap ℕ ℕ) × (hm₂ : HashMap ℕ ℕ) × (hash_map_set two
        (pos 4)
        (some 1)
        30
      ≡ ok (some 10, hm₁))
    × (hash_map_get hm₁ (pos 4) (some 2) ≡ ok (some 20, hm₂))
unfolding find
hash_map_get-hash_map_set_example =
    hash_map_get-hash_map_set two elements (pos 4) (pos 4) 1 2 30 same-IsComparator two-IsMap

find-assign_example : find same 2 (assign same 1 30 elements) ≡ some 20
unfolding find IsUnique
find-assign_example = find-assign same elements 1 2 30 same-IsComparator (refl, (refl, tt))

-- a list with one value
abbrev single : ArrayList ℕ
single = record { cells = λ i. ok (some 5); alloc_size = 2; size = 1 }

single-Holds : Holds (λ i. if i == 0 then some 5 else none) single
single-Holds = record {
  fits = omega arith;
  filled = λ i lt. ground arith;
  behind = λ i le. ground arith;
}

loop_hash_map-all_example :
    (hm : HashMap ℕ ℕ) × (loop_hash_map 3 two ≡ ok (elements, hm))
    × (hm.cmp ≡ same)
    × IsMap hm elements
loop_hash_map-all_example = loop_hash_map-all two elements 3 two-IsMap (omega arith)
