-- ===== src/Tester/Replies.antt =====
-- How src/tester.c takes the answers of the server once its input has ended: in whatever order and after
-- whatever delay they come, each word is printed with its answer, and the loop ends at the last.
use automaton_state_machine.Base.{
  ℕ, ◌+◌, ◌<◌, ◌≡◌, refl, ap, ◌∙◌, false, not, inl, inr, Bool-cases, Option-cases, List, [], ◌∷◌,
  ltb, lt→ltb, if_false, Option, none, some, length, arith,
}
use automaton_state_machine.Base.Outcome.{Outcome, ok}
use automaton_state_machine.ArrayList.Laws.{Holds, update}
use automaton_state_machine.Text.Scan.{Text}
use automaton_state_machine.Server.Answers.{answer_message}
use automaton_state_machine.Tester.Loop.{
  Tester, RoundInputs, read_answer, receive_message, send_word, round, loop,
}
use automaton_state_machine.Tester.Stored.{stored}
use automaton_state_machine.Tester.Invariant.{IsTester}
use automaton_state_machine.Tester.Pending.{
  Pending, NoneTo, printed_with, messages_of, answer_messages, Pending-update, printed_with-update,
  Printed, receive_message-Printed,
}

send_none : (i : RoundInputs) (t : Tester) → t.read_input ≡ false → send_word i t ≡ ok t
unfolding send_word
send_none i t ended = if_false _ _ ended

-- a round, once the input has ended
round_of :
    (i : RoundInputs) (t u : Tester)
    → t.read_input ≡ false
    → read_answer i t ≡ ok (false, u)
    → u.read_input ≡ false
    → round i t ≡ ok (not (ltb u.ans_count u.req_count), u)
unfolding round
round_of i t u ended run still = rw (send_none i t ended, run, still) refl

loop_on :
    (i : RoundInputs) (rounds : List RoundInputs) (t u : Tester) (o : Outcome Tester)
    → round i t ≡ ok (not (ltb u.ans_count u.req_count), u)
    → u.ans_count < u.req_count
    → loop rounds u ≡ o
    → loop (i ∷ rounds) t ≡ o
unfolding loop
loop_on i rounds t u o run more rest = rw (run, lt→ltb _ _ more) rest

loop_end :
    (i : RoundInputs) (rounds : List RoundInputs) (t u : Tester)
    → round i t ≡ ok (not (ltb u.ans_count u.req_count), u)
    → u.ans_count ≡ u.req_count
    → loop (i ∷ rounds) t ≡ ok u
unfolding loop
loop_end i rounds t u run all =
    let last : ltb u.ans_count u.req_count ≡ false = ground arith in rw (run, last) refl

read_answer-none : (i : RoundInputs) (t : Tester) → i.msg ≡ none → read_answer i t ≡ ok (false, t)
unfolding read_answer
read_answer-none i t e = elim (Bool-cases (ltb t.ans_count t.req_count)) [
  | inl more ↦ rw (more, e) refl
  | inr all ↦ rw all refl
]

read_answer-some :
    (i : RoundInputs) (t u : Tester) (msg : Text)
    → i.msg ≡ some msg
    → t.ans_count < t.req_count
    → receive_message msg t ≡ ok (false, u)
    → read_answer i t ≡ ok (false, u)
unfolding read_answer
read_answer-some i t u msg e more run = rw (lt→ltb _ _ more, e, run) refl

-- what the loop leaves, once it has printed the answers `qs`
abbrev Ends : (ℕ → Option Text) → Tester → List (ℕ × ℕ) → Outcome Tester → Type 0
Ends words t qs o =
    (u : Tester) × (o ≡ ok u)
    × (u.printed ≡ printed_with words qs t.printed)
    × (u.ans_count ≡ t.req_count)

-- nothing is said where there is no answer to come
abbrev Goes : (ℕ → Option Text) → Tester → List (ℕ × ℕ) → Outcome Tester → Type 0
Goes words t [] o = Unit
Goes words t (q ∷ qs) o = Ends words t (q ∷ qs) o

Ends-answer :
    (words : ℕ → Option Text) (i : RoundInputs) (rounds : List RoundInputs) (t s : Tester) (k r : ℕ)
    (qs : List (ℕ × ℕ))
    → NoneTo k qs
    → t.ans_count + length ((k, r) ∷ qs) ≡ t.req_count
    → round i t ≡ ok (not (ltb s.ans_count s.req_count), s)
    → Printed words t k r s
    → Goes (update words k none) s qs (loop rounds s)
    → Ends words t ((k, r) ∷ qs) (loop (i ∷ rounds) t)
Ends-answer words i rounds t s k r [] fresh all run v rest = (
  s,
  loop_end i rounds t s run (omega (arith, v.counted, v.sent, all)),
  v.last,
  omega (arith, v.counted, all),
)
Ends-answer words i rounds t s k r (q ∷ qs) fresh all run v (u, ends, printed, count) = (
  u,
  loop_on i rounds t s (ok u) run (omega (arith, v.counted, v.sent, all)) ends,
  printed
      ∙ printed_with-update words k (q ∷ qs) s.printed fresh
      ∙ ap (printed_with words (q ∷ qs)) v.last,
  count ∙ v.sent,
)

loop-Goes :
    (words : ℕ → Option Text) (rounds : List RoundInputs) (t : Tester) (qs : List (ℕ × ℕ))
    → Holds words t.results
    → t.read_input ≡ false
    → Pending words qs
    → t.ans_count + length qs ≡ t.req_count
    → messages_of rounds ≡ answer_messages qs
    → Goes words t qs (loop rounds t)
loop-Goes words rounds t [] held ended p all reads = tt
loop-Goes words [] t ((k, r) ∷ qs) held ended p all reads = cc
loop-Goes words (i ∷ rounds) t ((k, r) ∷ qs) held ended ((w, at), fresh, p) all reads =
    elim (Option-cases i.msg) [
      | inl no_msg ↦
          let later : messages_of rounds ≡ answer_messages ((k, r) ∷ qs) = rw no_msg at reads in
          let (u, run, printed, count) =
            loop-Goes words rounds t ((k, r) ∷ qs) held ended ((w, at), fresh, p) all later in
          (
            u,
            loop_on i rounds t t (ok u) (round_of i t t ended (read_answer-none i t no_msg) ended)
                (omega arith) run,
            printed,
            count,
          )
      | inr (msg, got) ↦
          let here : msg ∷ messages_of rounds ≡ answer_message k r ∷ answer_messages qs =
            rw got at reads in
          let same : msg ≡ answer_message k r = cc in
          let later : messages_of rounds ≡ answer_messages qs = cc in
          let (s, answers, v) = receive_message-Printed words t k r w held at in
          let taken : receive_message msg t ≡ ok (false, s) = rw same answers in
          let still : s.read_input ≡ false = v.ended ∙ ended in
          let step =
            round_of i t s ended (read_answer-some i t s msg got (omega arith) taken) still in
          Ends-answer words i rounds t s k r qs fresh all step v (
            loop-Goes (update words k none) rounds s qs v.held still
              (Pending-update words k qs fresh p) (omega (arith, v.counted, v.sent, all)) later)
    ]

-- In a state with right counters whose input has ended, let the rounds read answers to all words in
-- the table, at least one, to each exactly one, in any order and with any rounds without a message
-- between them. Then the loop ends: it has printed each word with its answer, in the order in which the
-- answers came, on top of what was printed before, and there are as many answers as words.
pub loop-replies :
    (t : Tester) (v : IsTester t) (rounds : List RoundInputs) (k r : ℕ) (qs : List (ℕ × ℕ))
    → t.read_input ≡ false
    → Pending v.words ((k, r) ∷ qs)
    → length ((k, r) ∷ qs) ≡ stored v.words (t.loc_id + 1)
    → messages_of rounds ≡ answer_messages ((k, r) ∷ qs)
    → (u : Tester) × (loop rounds t ≡ ok u)
      × (u.printed ≡ printed_with v.words ((k, r) ∷ qs) t.printed)
      × (u.ans_count ≡ t.req_count)
loop-replies t v rounds k r qs ended p every reads =
    loop-Goes v.words rounds t ((k, r) ∷ qs) v.holds ended p (omega (arith, every, v.balance)) reads
