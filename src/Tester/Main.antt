-- ===== src/Tester/Main.antt =====
-- `main` of src/tester.c around its loop: the registration, the report at the end, and the release of the
-- table. Opening and closing the queues is left out; a write to the registration queue succeeds.
use automaton_state_machine.Base.{
  ℕ, zero, suc, ◌+◌, ◌-◌, ◌≤◌, ◌≡◌, ◌⊎◌, inl, inr, refl, sym, ap, ◌∙◌, Bool, true, false, leb, List,
  [], ◌∷◌, ◌++◌, if◌then◌else◌, Option, none, some, length, arith, add-zero, zero-add, Bool-cases,
}
use automaton_state_machine.Base.Outcome.{Outcome, ok, out_of_fuel, ◌>>=◌}
use automaton_state_machine.ArrayList.Ops.{ArrayList, array_list_destroy}
use automaton_state_machine.ArrayList.Iterators.{array_list_begin}
use automaton_state_machine.ArrayList.Print.{passed_values, values_from, passed_values-begin}
use automaton_state_machine.Text.Scan.{Text, print_nat, eq_text}
use automaton_state_machine.Server.Formats.{register_message}
use automaton_state_machine.Tester.Loop.{Tester, RoundInputs, initial, loop}
use automaton_state_machine.Tester.Stored.{one_if, stored, stored-add_one, stored_zero}
use automaton_state_machine.Tester.Invariant.{IsTester, initial-IsTester, accepting, words_sent}
use automaton_state_machine.Tester.Rounds.{loop-IsTester}

-- "/FinAutomTesterInQ%d"
abbrev pub input_queue_name : ℕ → Text
input_queue_name pid =
    b'/'
    ∷ b'F'
    ∷ b'i'
    ∷ b'n'
    ∷ b'A'
    ∷ b'u'
    ∷ b't'
    ∷ b'o'
    ∷ b'm'
    ∷ b'T'
    ∷ b'e'
    ∷ b's'
    ∷ b't'
    ∷ b'e'
    ∷ b'r'
    ∷ b'I'
    ∷ b'n'
    ∷ b'Q'
    ∷ print_nat pid

-- the loop over the arguments, with the state of the log
abbrev pub log_state : List Text → Bool → Bool
log_state [] on = on
log_state (arg ∷ args) on = log_state args (if eq_text arg (b'-' ∷ b'v' ∷ []) then true else on)

-- `"Snt: %d\nRcd: %d\nAcc: %d\n"`
abbrev pub final_report : ℕ → ℕ → ℕ → Text
final_report snt rcd acc =
    b'S'
    ∷ b'n'
    ∷ b't'
    ∷ b':'
    ∷ b' '
    ∷ (print_nat snt
        ++ (b'\n'
            ∷ b'R'
            ∷ b'c'
            ∷ b'd'
            ∷ b':'
            ∷ b' '
            ∷ (print_nat rcd
                ++ (b'\n' ∷ b'A' ∷ b'c' ∷ b'c' ∷ b':' ∷ b' ' ∷ (print_nat acc ++ b'\n' ∷ [])))))

-- the words among the values of the table
abbrev pub words_of : List (Option Text) → List Text
words_of [] = []
words_of (none ∷ vs) = words_of vs
words_of (some w ∷ vs) = w ∷ words_of vs

-- the loop that frees the words, and `ArrayListDestroy`
unfoldable pub release_words : ArrayList Text → Outcome (List Text × ArrayList Text)
release_words results =
    passed_values (results.size + 1) results (array_list_begin results) >>= λ vs.
    ok (words_of vs, array_list_destroy results)

-- what the process leaves: the state of the log, the message to the registration queue, the variables
-- behind the loop, the report that it prints, and the words that it frees
pub record TesterEnd : Type 0 where
  pub verbose : Bool
  pub registered : Text
  pub tester : Tester
  pub report : Text
  pub freed : List Text

-- `main`, over the inputs of the rounds of its loop
unfoldable pub tester_main : ℕ → List Text → List RoundInputs → Outcome TesterEnd
tester_main pid args is = loop is initial >>= λ t. release_words t.results >>= λ (freed, results).
    ok (record {
      verbose = log_state args false;
      registered = register_message pid (input_queue_name pid);
      tester = t;
      report = final_report t.req_count t.ans_count t.acc_count;
      freed = freed;
    })

length-words_of :
    (v : Option Text) (vs : List (Option Text))
    → length (words_of (v ∷ vs)) ≡ one_if v + length (words_of vs)
length-words_of none vs = omega arith
length-words_of (some w) vs = omega arith

words_of-stored :
    (f : ℕ → Option Text) (n i : ℕ)
    → length (words_of (values_from f n i)) + stored f i ≡ stored f (i + n)
words_of-stored f zero i = omega (arith, ap (stored f) (add-zero i))
words_of-stored f (suc n) i =
    let place : i + 1 + n ≡ i + suc n = omega arith in
    omega (
      arith,
      length-words_of (f i) (values_from f n (i + 1)),
      words_of-stored f n (i + 1),
      stored-add_one f i,
      ap (stored f) place,
    )

-- nothing is stored behind the last value
stored-tail :
    (f : ℕ → Option Text) (n k : ℕ) → ((i : ℕ) → n ≤ i → f i ≡ none) → stored f (n + k) ≡ stored f n
stored-tail f n zero h = ap (stored f) (add-zero n)
stored-tail f n (suc k) h =
    let place : n + k + 1 ≡ n + suc k = omega arith in
    omega (
      arith,
      stored-add_one f (n + k),
      ap one_if (h (n + k) (omega arith)),
      stored-tail f n k h,
      ap (stored f) place,
    )

-- the words in the table, counted up to its size or up to the last number
stored_all :
    (f : ℕ → Option Text) (n m : ℕ)
    → ((i : ℕ) → n ≤ i → f i ≡ none)
    → ((i : ℕ) → m ≤ i → f i ≡ none)
    → stored f n ≡ stored f m
stored_all f n m h k = elim (Bool-cases (leb n m)) [
  | inl below ↦
      let place : n + (m - n) ≡ m = ground arith in
      sym (stored-tail f n (m - n) h) ∙ ap (stored f) place
  | inr above ↦
      let place : m + (n - m) ≡ n = ground arith in
      sym (ap (stored f) place) ∙ stored-tail f m (n - m) k
]

release_words-stored :
    (t : Tester) (v : IsTester t)
    → (ws : List Text) × (release_words t.results ≡ ok (ws, array_list_destroy t.results))
      × (length ws ≡ stored v.words (t.loc_id + 1))
unfolding release_words
release_words-stored t v =
    let same =
      stored_all v.words t.results.size (t.loc_id + 1) v.holds.behind
        (λ i h. v.unused i (omega arith)) in
    let none_before : stored v.words 0 ≡ 0 = stored_zero v.words in
    (
      words_of (values_from v.words t.results.size 0),
      rw (passed_values-begin v.words t.results v.holds) refl,
      omega (
        arith,
        words_of-stored v.words t.results.size 0,
        same,
        none_before,
        ap (stored v.words) (zero-add t.results.size),
      ),
    )

-- Whatever the rounds read, `main` has not ended behind them, or ends: the report has the number of
-- words that it has sent to the server, of answers printed, and of those that accept; and
-- the words that are freed are as many as the words sent that have no answer.
pub tester_main-TesterEnd :
    (pid : ℕ) (args : List Text) (is : List RoundInputs)
    → (tester_main pid args is ≡ out_of_fuel)
      ⊎ ((e : TesterEnd) × (tester_main pid args is ≡ ok e)
          × (e.report
              ≡ final_report
                  (words_sent e.tester.sent)
                  (length e.tester.printed)
                  (accepting e.tester.printed))
          × (length e.tester.printed + length e.freed ≡ words_sent e.tester.sent))
unfolding tester_main
tester_main-TesterEnd pid args is = elim (loop-IsTester is initial initial-IsTester) [
  | inl more ↦ inl (rw more refl)
  | inr (t, run, v, why) ↦
      let (ws, release, count) = release_words-stored t v in
      inr (
        record {
          verbose = log_state args false;
          registered = register_message pid (input_queue_name pid);
          tester = t;
          report = final_report t.req_count t.ans_count t.acc_count;
          freed = ws;
        },
        rw run (rw release refl),
        ap (λ n. final_report n t.ans_count t.acc_count) (sym v.total)
            ∙ ap (λ n. final_report (words_sent t.sent) n t.acc_count) (sym v.answers)
            ∙ ap (final_report (words_sent t.sent) (length t.printed)) (sym v.accepts),
        omega (arith, count, v.balance, v.answers, v.total),
      )
]
