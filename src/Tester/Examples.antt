-- ===== src/Tester/Examples.antt =====
-- A tester that sends one word, and the theorems at it.
use automaton_state_machine.Base.{
  ℕ, ◌≡◌, ◌+◌, length, ◌⊎◌, refl, Bool, true, false, List, [], ◌∷◌, ◌++◌, some, none,
}
use automaton_state_machine.Base.Outcome.{Outcome, ok, out_of_fuel, ◌>>=◌}
use automaton_state_machine.Text.Scan.{Text, scan_int, skip}
use automaton_state_machine.ArrayList.Ops.{array_list_set_value_at, array_list_get_value_at}
use automaton_state_machine.Tester.Loop.{
  Tester, RoundInputs, parse, initial, answer_text, read_line, send_word, receive_message,
  read_answer, round, loop,
}
use automaton_state_machine.ArrayList.Print.{passed_values}
use automaton_state_machine.Tester.Main.{
  TesterEnd, tester_main, final_report, release_words, tester_main-TesterEnd,
}
use automaton_state_machine.Tester.Invariant.{
  IsTester, initial-IsTester, accepting, words_sent, IsSent, IsPrinted,
}
use automaton_state_machine.Base.{Option, ◌==◌, if◌then◌else◌, arith, Bool-cases, inl, inr, ap}
use automaton_state_machine.Server.Answers.{answer_message}
use automaton_state_machine.Tester.Stored.{stored}
use automaton_state_machine.Tester.Replies.{loop-replies}
use automaton_state_machine.Tester.Rounds.{Exits, Answered, round-IsTester}

-- "ab"
abbrev word : Text
word = b'a' ∷ b'b' ∷ []

-- "1 answer: 1"
abbrev answer : Text
answer = b'1' ∷ b' ' ∷ (answer_text ++ (b' ' ∷ b'1' ∷ []))

-- the word, while there is no message; the end of the input, and the answer
abbrev first : RoundInputs
first = record { line = some word; msg = none }

abbrev second : RoundInputs
second = record { line = none; msg = some answer }

counts : Outcome Tester → Outcome (ℕ × ℕ × ℕ × List (Text × Bool))
counts o = o >>= λ t. ok (t.req_count, t.ans_count, t.acc_count, t.printed)

loop_one_word : counts (loop (first ∷ second ∷ []) initial) ≡ ok (1, 1, 1, (word, true) ∷ [])
unfolding counts loop round read_line send_word receive_message read_answer scan_int skip
    array_list_set_value_at array_list_get_value_at
loop_one_word = refl

round-IsTester_example :
    (done : Bool) × (u : Tester) × (round first initial ≡ ok (done, u))
    × IsTester u
    × ((done ≡ false) ⊎ (Exits first ⊎ Answered u))
round-IsTester_example = round-IsTester first initial initial-IsTester

tester_main-TesterEnd_example :
    (tester_main 7 [] (first ∷ second ∷ []) ≡ out_of_fuel)
    ⊎ ((e : TesterEnd) × (tester_main 7 [] (first ∷ second ∷ []) ≡ ok e)
        × (e.report
            ≡ final_report
                (words_sent e.tester.sent)
                (length e.tester.printed)
                (accepting e.tester.printed))
        × (length e.tester.printed + length e.freed ≡ words_sent e.tester.sent))
tester_main-TesterEnd_example = tester_main-TesterEnd 7 [] (first ∷ second ∷ [])

-- The round trip of one word: the run ends with nothing left to free.
freed_and_count : Outcome TesterEnd → Outcome (ℕ × ℕ)
freed_and_count o = o >>= λ e. ok (length e.freed, e.tester.req_count)

tester_main_one_word : freed_and_count (tester_main 7 [] (first ∷ second ∷ [])) ≡ ok (0, 1)
unfolding freed_and_count tester_main loop round read_line send_word receive_message read_answer
    scan_int skip array_list_set_value_at array_list_get_value_at release_words passed_values
tester_main_one_word = refl

-- two words, numbers 1 and 2, of which the second gets its answer first
abbrev two_words : ℕ → Option Text
two_words i = if i == 1 then some word else if i == 2 then some (b'b' ∷ []) else none

abbrev waiting : Tester
waiting = record {
  results = record { cells = λ i. ok (two_words i); size = 17; alloc_size = 47 };
  req_count = 2;
  ans_count = 0;
  acc_count = 0;
  loc_id = 3;
  read_input = false;
  sent = parse 2 (b'b' ∷ []) ∷ parse 1 word ∷ [];
  printed = [];
}

two_listed : (k : ℕ) (w : Text) → two_words k ≡ some w → IsSent k w waiting.sent
two_listed k w at = elim (Bool-cases (k == 1)) [
  | inl first ↦
      let number : 1 ≡ k = ground arith in
      let text : word ≡ w = let here = rw first at at in cc in inr (inl (number, text))
  | inr later ↦ elim (Bool-cases (k == 2)) [
    | inl second ↦
        let number : 2 ≡ k = ground arith in
        let text : b'b' ∷ [] ≡ w = let here = rw (later, second) at at in cc in inl (number, text)
    | inr other ↦ let gone = rw (later, other) at at in cc
  ]
]

two_complete :
    (k : ℕ) (w : Text)
    → IsSent k w waiting.sent
    → (two_words k ≡ some w) ⊎ IsPrinted w waiting.printed
two_complete k w (inl (number, text)) = inl (rw (← number) (ap some text))
two_complete k w (inr (inl (number, text))) = inl (rw (← number) (ap some text))
two_complete k w (inr (inr h)) = absurd h

abbrev waiting-IsTester : IsTester waiting
unfolding stored
waiting-IsTester = record {
  words = two_words;
  holds = record { fits = omega arith; filled = λ i low. refl; behind = λ i high. ground arith };
  balance = refl;
  unused = λ i high. ground arith;
  answers = refl;
  accepts = refl;
  total = refl;
  listed = two_listed;
  complete = two_complete;
}

abbrev reads : Option Text → RoundInputs
reads msg = record { line = none; msg = msg }

loop-replies_example :
    (u : Tester) × (loop
        (reads none ∷ reads (some (answer_message 2 1)) ∷ reads (some (answer_message 1 0)) ∷ [])
        waiting
      ≡ ok u)
    × (u.printed ≡ (word, false) ∷ (b'b' ∷ [], true) ∷ [])
    × (u.ans_count ≡ 2)
unfolding stored
loop-replies_example =
    loop-replies waiting waiting-IsTester
      (reads none ∷ reads (some (answer_message 2 1)) ∷ reads (some (answer_message 1 0)) ∷ []) 2 1
      ((1, 0) ∷ []) refl
      ((b'b' ∷ [], refl), ((λ e. absurd (omega arith)), tt), ((word, refl), tt, tt)) refl refl
