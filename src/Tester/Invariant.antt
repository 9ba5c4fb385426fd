-- ===== src/Tester/Invariant.antt =====
-- The counters of src/tester.c, its table of words, and what it has sent and printed agree in every
-- round.
use automaton_state_machine.Base.{
  ℕ, ◌+◌, ◌<◌, ◌≡◌, refl, Bool, true, false, not, ◌⊎◌, inl, inr, Bool-cases, List, [], ◌∷◌, ◌==◌,
  ◌∙◌, ltb, ltb→lt, if◌then◌else◌, Option, none, some, length, arith, ap,
}
use automaton_state_machine.Base.Int.{ℤ, pos, negsuc}
use automaton_state_machine.Base.Outcome.{ok}
use automaton_state_machine.ArrayList.Laws.{
  Holds, update, array_list_new-Holds, array_list_set_value_at-Holds,
}
use automaton_state_machine.Text.Scan.{Text, scan_int, eq_text}
use automaton_state_machine.Tester.Loop.{
  Tester, RoundInputs, Sending, parse, exit_request, initial, read_line, send_word, exit_line,
  exit_msg, scan_loc_id, is_no, print_answer, receive_message,
}
use automaton_state_machine.Tester.Stored.{
  stored, one_if, stored-update, stored-add_one, at_int, array_list_get_value_at-int,
}

-- the printed answers that accept
abbrev pub accepting : List (Text × Bool) → ℕ
accepting [] = 0
accepting ((w, true) ∷ ps) = accepting ps + 1
accepting ((w, false) ∷ ps) = accepting ps

-- how many words are sent, and whether a word is, under its number
abbrev pub words_sent : List Sending → ℕ
words_sent [] = 0
words_sent (parse k w ∷ ss) = words_sent ss + 1
words_sent (exit_request ∷ ss) = words_sent ss

abbrev pub IsSent : ℕ → Text → List Sending → Type 0
IsSent k w [] = ⊥
IsSent k w (parse j x ∷ ss) = ((j ≡ k) × (x ≡ w)) ⊎ IsSent k w ss
IsSent k w (exit_request ∷ ss) = IsSent k w ss

-- an answer to the word is printed
abbrev pub IsPrinted : Text → List (Text × Bool) → Type 0
IsPrinted w [] = ⊥
IsPrinted w ((x, ans) ∷ ps) = (x ≡ w) ⊎ IsPrinted w ps

-- The table holds words that are sent, each under its number; every word that is sent is in the table,
-- or an answer to it is printed; and the counters are the numbers of words sent, of answers printed,
-- and of those that accept.
pub record IsTester (t : Tester) : Type 0 where
  pub words : ℕ → Option Text
  pub holds : Holds words t.results
  pub balance : t.ans_count + stored words (t.loc_id + 1) ≡ t.req_count
  pub unused : (i : ℕ) → t.loc_id < i → words i ≡ none
  pub answers : length t.printed ≡ t.ans_count
  pub accepts : accepting t.printed ≡ t.acc_count
  pub total : words_sent t.sent ≡ t.req_count
  pub listed : (k : ℕ) (w : Text) → words k ≡ some w → IsSent k w t.sent
  pub complete : (k : ℕ) (w : Text) → IsSent k w t.sent → (words k ≡ some w) ⊎ IsPrinted w t.printed

pub initial-IsTester : IsTester initial
unfolding stored
initial-IsTester = record {
  words = λ i. none;
  holds = array_list_new-Holds;
  balance = refl;
  unused = λ i h. refl;
  answers = refl;
  accepts = refl;
  total = refl;
  listed = λ k w h. cc;
  complete = λ k w h. absurd h;
}

-- the next number, which no word has
step-IsTester : (t : Tester) → IsTester t → IsTester (record t { loc_id = t.loc_id + 1 })
step-IsTester t v =
    let free : v.words (t.loc_id + 1) ≡ none = v.unused (t.loc_id + 1) (omega arith) in
    record {
      words = v.words;
      holds = v.holds;
      balance = omega (arith, v.balance, stored-add_one v.words (t.loc_id + 1), ap one_if free);
      unused = λ i h. v.unused i (omega arith);
      answers = v.answers;
      accepts = v.accepts;
      total = v.total;
      listed = v.listed;
      complete = v.complete;
    }

some_injective : {a b : Text} → some a ≡ some b → a ≡ b
some_injective e = cc

-- a word in the table has another number than the next one
not_here :
    (t : Tester) (v : IsTester t) (k : ℕ) (w : Text)
    → v.words t.loc_id ≡ none
    → v.words k ≡ some w
    → (t.loc_id == k) ≡ false
not_here t v k w free at = elim (Bool-cases (t.loc_id == k)) [
  | inl same ↦ let here : t.loc_id ≡ k = ground arith in let gone = ap v.words here in cc
  | inr other ↦ other
]

read_line-IsTester :
    (line : Option Text) (t : Tester) (v : IsTester t)
    → v.words t.loc_id ≡ none
    → (u : Tester) × (read_line line t ≡ ok u) × IsTester u
unfolding read_line
read_line-IsTester none t v free = (
  record t { read_input = false },
  refl,
  record {
    words = v.words;
    holds = v.holds;
    balance = v.balance;
    unused = v.unused;
    answers = v.answers;
    accepts = v.accepts;
    total = v.total;
    listed = v.listed;
    complete = v.complete;
  },
)
read_line-IsTester (some line) t v free = elim (Bool-cases (eq_text line exit_line)) [
  | inl e ↦ (
    record t { sent = exit_request ∷ t.sent; read_input = false },
    rw e refl,
    record {
      words = v.words;
      holds = v.holds;
      balance = v.balance;
      unused = v.unused;
      answers = v.answers;
      accepts = v.accepts;
      total = v.total;
      listed = v.listed;
      complete = v.complete;
    },
  )
  | inr e ↦
      let (g, run, held) =
        array_list_set_value_at-Holds v.words t.results t.loc_id (some line) v.holds in
      (
        record t { results = g; sent = parse t.loc_id line ∷ t.sent; req_count = t.req_count + 1 },
        rw (e, run) refl,
        record {
          words = update v.words t.loc_id (some line);
          holds = held;
          balance = omega (
            arith,
            v.balance,
            ap one_if free,
            stored-update v.words (t.loc_id + 1) t.loc_id (some line) (omega arith),
          );
          unused = λ i h. ground (arith, v.unused i);
          answers = v.answers;
          accepts = v.accepts;
          total = omega (arith, v.total);
          listed = λ k w at. elim (Bool-cases (t.loc_id == k)) [
            | inl same ↦ inl (ground arith, some_injective (rw same at at))
            | inr other ↦ inr (v.listed k w (rw other at at))
          ];
          complete = λ k w sent. elim sent [
            | inl (here, text) ↦
                let same : (t.loc_id == k) ≡ true = ground arith in inl (rw same (ap some text))
            | inr before ↦ elim (v.complete k w before) [
              | inl at ↦
                  let other : (t.loc_id == k) ≡ false = not_here t v k w free at in
                  inl (rw other at)
              | inr answered ↦ inr answered
            ]
          ];
        },
      )
]

send_word-read_line :
    (i : RoundInputs) (t u : Tester)
    → t.read_input ≡ true
    → read_line i.line (record t { loc_id = t.loc_id + 1 }) ≡ ok u
    → send_word i t ≡ ok u
unfolding send_word
send_word-read_line i t u reads run = rw (run, reads) refl

pub send_word-IsTester :
    (i : RoundInputs) (t : Tester) → IsTester t → (u : Tester) × (send_word i t ≡ ok u) × IsTester u
unfolding send_word step-IsTester
send_word-IsTester i t v = elim (Bool-cases t.read_input) [
  | inl e ↦
      let (u, run, w) =
        read_line-IsTester i.line (record t { loc_id = t.loc_id + 1 }) (step-IsTester t v)
          (v.unused (t.loc_id + 1) (omega arith)) in
      (u, send_word-read_line i t u e run, w)
  | inr e ↦ (t, rw e refl, v)
]

-- a word that is stored has a number that was given
stored-known :
    (t : Tester) (v : IsTester t) (k : ℕ) (w : Text) → some w ≡ v.words k → k < t.loc_id + 1
stored-known t v k w e = elim (Bool-cases (ltb k (t.loc_id + 1))) [
  | inl h ↦ ltb→lt _ _ h
  | inr h ↦ let gone : v.words k ≡ none = v.unused k (ground arith) in cc
]

accepting-cons :
    (w : Text) (ans : Bool) (ps : List (Text × Bool)) (n : ℕ)
    → accepting ps ≡ n
    → accepting ((w, ans) ∷ ps) ≡ (if ans then n + 1 else n)
accepting-cons w true ps n h = ap (λ k. k + 1) h
accepting-cons w false ps n h = h

print_answer-IsTester :
    (z : ℤ) (ans : Bool) (t : Tester) (v : IsTester t) (saved : Option Text)
    → saved ≡ at_int v.words z
    → (u : Tester) × (print_answer z ans saved t ≡ ok u) × IsTester u
print_answer-IsTester z ans t v none e = (t, refl, v)
print_answer-IsTester (negsuc k) ans t v (some w) e = cc
print_answer-IsTester (pos k) ans t v (some w) e =
    let (g, run, held) = array_list_set_value_at-Holds v.words t.results k none v.holds in
    let known : k < t.loc_id + 1 = stored-known t v k w e in
    (
      record t {
        results = g;
        acc_count = if ans then t.acc_count + 1 else t.acc_count;
        ans_count = t.ans_count + 1;
        printed = (w, ans) ∷ t.printed;
      },
      rw run refl,
      record {
        words = update v.words k none;
        holds = held;
        balance =
            omega
              (arith, v.balance, ap one_if e, stored-update v.words (t.loc_id + 1) k none known);
        unused = λ i h. ground (arith, v.unused i h);
        answers = omega (arith, v.answers);
        accepts = accepting-cons w ans t.printed t.acc_count v.accepts;
        total = v.total;
        listed = λ j x at. elim (Bool-cases (k == j)) [
          | inl same ↦ let gone = rw same at at in cc
          | inr other ↦ v.listed j x (rw other at at)
        ];
        complete = λ j x sent. elim (v.complete j x sent) [
          | inr answered ↦ inr (inr answered)
          | inl at ↦ elim (Bool-cases (k == j)) [
            | inl same ↦
                let here : k ≡ j = ground arith in
                inr (inl (some_injective (e ∙ (ap v.words here ∙ at))))
            | inr other ↦ inl (rw other at)
          ]
        ];
      },
    )

pub false_or : (b : Bool) → (b ≡ false) ⊎ (b ≡ true)
false_or true = inr refl
false_or false = inl refl

pub receive_message-IsTester :
    (msg : Text) (t : Tester)
    → IsTester t
    → (done : Bool) × (u : Tester) × (receive_message msg t ≡ ok (done, u))
      × IsTester u
      × ((done ≡ false) ⊎ (eq_text msg exit_msg ≡ true))
unfolding receive_message
receive_message-IsTester msg t v = elim (Bool-cases (scan_loc_id (scan_int msg)).0) [
  | inl e ↦
      let (matches, z, ans) = scan_loc_id (scan_int msg) in
      let (g, run, held) = array_list_get_value_at-int v.words t.results z v.holds in
      let grown : IsTester (record t { results = g }) = record {
        words = v.words;
        holds = held;
        balance = v.balance;
        unused = v.unused;
        answers = v.answers;
        accepts = v.accepts;
        total = v.total;
        listed = v.listed;
        complete = v.complete;
      } in
      let (u, printed, w) =
        print_answer-IsTester z (not (is_no ans)) (record t { results = g }) grown
          (at_int v.words z) refl in
      (false, u, rw (e, run, printed) refl, w, inl refl)
  | inr e ↦ (eq_text msg exit_msg, t, rw e refl, v, false_or (eq_text msg exit_msg))
]
