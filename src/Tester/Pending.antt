-- ===== src/Tester/Pending.antt =====
-- The answers that src/tester.c has still to read, and what one of them does.
use automaton_state_machine.Base.{
  ℕ, ◌+◌, ◌≡◌, ◌≢◌, refl, Bool, false, not, List, [], ◌∷◌, ◌==◌, if◌then◌else◌, Option, none, some,
  arith,
}
use automaton_state_machine.Base.Outcome.{ok}
use automaton_state_machine.ArrayList.Laws.{
  Holds, update, array_list_get_value_at-Holds, array_list_set_value_at-Holds,
}
use automaton_state_machine.Text.Scan.{Text}
use automaton_state_machine.Server.Answers.{answer_message, scan_loc_id-answer_message}
use automaton_state_machine.Tester.Loop.{Tester, RoundInputs, receive_message}

abbrev pub text_of : Option Text → Text
text_of none = []
text_of (some w) = w

-- what the answers, numbers of words with results, print, the last one first, before `ps`
abbrev pub printed_with : (ℕ → Option Text) → List (ℕ × ℕ) → List (Text × Bool) → List (Text × Bool)
printed_with words [] ps = ps
printed_with words ((k, r) ∷ qs) ps = printed_with words qs ((text_of (words k), not (r == 0)) ∷ ps)

-- no answer is to the word with the number `k`
abbrev pub NoneTo : ℕ → List (ℕ × ℕ) → Type 0
NoneTo k [] = Unit
NoneTo k ((j, r) ∷ qs) = (k ≢ j) × NoneTo k qs

-- the answers are to words in the table, to each at most once
abbrev pub Pending : (ℕ → Option Text) → List (ℕ × ℕ) → Type 0
Pending words [] = Unit
Pending words ((k, r) ∷ qs) = ((w : Text) × (words k ≡ some w)) × NoneTo k qs × Pending words qs

-- the messages that the rounds read
abbrev pub messages_of : List RoundInputs → List Text
messages_of [] = []
messages_of (i ∷ is) = elim i.msg [ none ↦ messages_of is | some msg ↦ msg ∷ messages_of is ]

abbrev pub answer_messages : List (ℕ × ℕ) → List Text
answer_messages [] = []
answer_messages ((k, r) ∷ qs) = answer_message k r ∷ answer_messages qs

pub Pending-update :
    (words : ℕ → Option Text) (k : ℕ) (qs : List (ℕ × ℕ))
    → NoneTo k qs
    → Pending words qs
    → Pending (update words k none) qs
Pending-update words k [] fresh p = tt
Pending-update words k ((j, r) ∷ qs) (ne, fresh) ((w, at), no_more, p) =
    let other : (k == j) ≡ false = ground arith in
    ((w, rw other at), no_more, Pending-update words k qs fresh p)

pub printed_with-update :
    (words : ℕ → Option Text) (k : ℕ) (qs : List (ℕ × ℕ)) (ps : List (Text × Bool))
    → NoneTo k qs
    → printed_with (update words k none) qs ps ≡ printed_with words qs ps
printed_with-update words k [] ps fresh = refl
printed_with-update words k ((j, r) ∷ qs) ps (ne, fresh) =
    let other : (k == j) ≡ false = ground arith in rw other (printed_with-update words k qs _ fresh)

-- the state behind an answer to a word in the table
pub record Printed (words : ℕ → Option Text) (t : Tester) (k r : ℕ) (u : Tester) : Type 0 where
  pub held : Holds (update words k none) u.results
  pub last : u.printed ≡ (text_of (words k), not (r == 0)) ∷ t.printed
  pub counted : u.ans_count ≡ t.ans_count + 1
  pub sent : u.req_count ≡ t.req_count
  pub ended : u.read_input ≡ t.read_input

pub receive_message-Printed :
    (words : ℕ → Option Text) (t : Tester) (k r : ℕ) (w : Text)
    → Holds words t.results
    → words k ≡ some w
    → (u : Tester) × (receive_message (answer_message k r) t ≡ ok (false, u))
      × Printed words t k r u
unfolding receive_message
receive_message-Printed words t k r w held at =
    let (g, gets, held', inside) = array_list_get_value_at-Holds words t.results k held in
    let (g', sets, held'') = array_list_set_value_at-Holds words g k none held' in
    (
      record t {
        results = g';
        acc_count = if not (r == 0) then t.acc_count + 1 else t.acc_count;
        ans_count = t.ans_count + 1;
        printed = (w, not (r == 0)) ∷ t.printed;
      },
      rw (scan_loc_id-answer_message k r, gets, at, sets) refl,
      record { held = held''; last = rw at refl; counted = refl; sent = refl; ended = refl },
    )
