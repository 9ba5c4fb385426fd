-- ===== src/Tester/Rounds.antt =====
-- The rounds of the loop of src/tester.c, and how it ends.
use automaton_state_machine.Base.{
  ◌≡◌, refl, Bool, true, false, not, ◌||◌, ◌&&◌, ◌⊎◌, inl, inr, Bool-cases, Option-cases, List, [],
  ◌∷◌, ltb, some, arith, sym, subst,
}
use automaton_state_machine.Base.Outcome.{Outcome, ok, out_of_fuel}
use automaton_state_machine.Text.Scan.{Text, eq_text}
use automaton_state_machine.Tester.Loop.{Tester, RoundInputs, exit_msg, read_answer, round, loop}
use automaton_state_machine.Tester.Invariant.{
  IsTester, send_word-IsTester, receive_message-IsTester,
}

-- why a round is the last one: a message is the request to exit, or the input has ended and every
-- word is answered
abbrev pub Exits : RoundInputs → Type 0
Exits i = (msg : Text) × (i.msg ≡ some msg) × (eq_text msg exit_msg ≡ true)

abbrev pub Answered : Tester → Type 0
Answered t = (t.read_input ≡ false) × (t.ans_count ≡ t.req_count)

read_answer-IsTester :
    (i : RoundInputs) (t : Tester)
    → IsTester t
    → (done : Bool) × (u : Tester) × (read_answer i t ≡ ok (done, u))
      × IsTester u
      × ((done ≡ false) ⊎ Exits i)
unfolding read_answer
read_answer-IsTester i t v = elim (Bool-cases (ltb t.ans_count t.req_count)) [
  | inr e ↦ (false, t, rw e refl, v, inl refl)
  | inl e ↦ elim (Option-cases i.msg) [
    | inl no_msg ↦ (false, t, rw (e, no_msg) refl, v, inl refl)
    | inr (msg, got) ↦
        let (done, u, run, w, why) = receive_message-IsTester msg t v in
        (
          done,
          u,
          rw (e, got, run) refl,
          w,
          elim why [ inl goes_on ↦ inl goes_on | inr exit ↦ inr (msg, got, exit) ],
        )
  ]
]

abbrev all_answered : Tester → Bool
all_answered u = not u.read_input && not (ltb u.ans_count u.req_count)

all_answered-Answered : (u : Tester) → IsTester u → all_answered u ≡ true → Answered u
all_answered-Answered u v h = let some_left = v.balance in (ground arith, ground arith)

ending :
    (E : Type 0) (exits : Bool) (u : Tester)
    → IsTester u
    → (exits ≡ false) ⊎ E
    → ((exits || all_answered u) ≡ false) ⊎ (E ⊎ Answered u)
ending E exits u v (inr e) = inr (inl e)
ending E exits u v (inl e) = elim (Bool-cases (all_answered u)) [
  | inl h ↦ inr (inr (all_answered-Answered u v h))
  | inr h ↦ inl (rw (e, h) refl)
]

-- In a state in which every word in the table has been sent under its number, every word sent is
-- in the table or has a printed answer, and the counters are right, a round of the tester's loop
-- never fails, whatever it reads, and leaves such a state. It is the last one only if the message
-- was the request to exit, or the input has ended and there are as many answers as words.
pub round-IsTester :
    (i : RoundInputs) (t : Tester)
    → IsTester t
    → (done : Bool) × (u : Tester) × (round i t ≡ ok (done, u))
      × IsTester u
      × ((done ≡ false) ⊎ (Exits i ⊎ Answered u))
unfolding round
round-IsTester i t v =
    let (s, sends, vs) = send_word-IsTester i t v in
    let (exits, u, run, w, why) = read_answer-IsTester i s vs in
    (exits || all_answered u, u, rw (sends, run) refl, w, ending (Exits i) exits u w why)

abbrev pub SomeOf : (RoundInputs → Type 0) → List RoundInputs → Type 0
SomeOf P [] = ⊥
SomeOf P (i ∷ is) = P i ⊎ SomeOf P is

-- how the loop ends: it does not within the rounds given; or with right counters, for one of the two
-- reasons
abbrev pub Outcomes : List RoundInputs → Outcome Tester → Type 0
Outcomes is o =
    (o ≡ out_of_fuel) ⊎ ((u : Tester) × (o ≡ ok u) × IsTester u × (SomeOf Exits is ⊎ Answered u))

later :
    (i : RoundInputs) (is : List RoundInputs) (o : Outcome Tester)
    → Outcomes is o
    → Outcomes (i ∷ is) o
later i is o (inl e) = inl e
later i is o (inr (u, e, w, inl exit)) = inr (u, e, w, inl (inr exit))
later i is o (inr (u, e, w, inr answered)) = inr (u, e, w, inr answered)

now :
    (i : RoundInputs) (is : List RoundInputs) (u : Tester)
    → Exits i ⊎ Answered u
    → SomeOf Exits (i ∷ is) ⊎ Answered u
now i is u (inl exit) = inl (inl exit)
now i is u (inr answered) = inr answered

loop-stop :
    (i : RoundInputs) (is : List RoundInputs) (t u : Tester)
    → round i t ≡ ok (true, u)
    → loop (i ∷ is) t ≡ ok u
unfolding loop
loop-stop i is t u run = rw run refl

loop-go :
    (i : RoundInputs) (is : List RoundInputs) (t u : Tester)
    → round i t ≡ ok (false, u)
    → loop (i ∷ is) t ≡ loop is u
unfolding loop
loop-go i is t u run = rw run refl

loop-round :
    (i : RoundInputs) (is : List RoundInputs) (t u : Tester) (done : Bool)
    → round i t ≡ ok (done, u)
    → IsTester u
    → (done ≡ false) ⊎ (Exits i ⊎ Answered u)
    → Outcomes is (loop is u)
    → Outcomes (i ∷ is) (loop (i ∷ is) t)
loop-round i is t u true run w (inl e) rest = cc
loop-round i is t u true run w (inr why) rest = inr (u, loop-stop i is t u run, w, now i is u why)
loop-round i is t u false run w why rest =
    subst (Outcomes (i ∷ is)) (sym (loop-go i is t u run)) (later i is (loop is u) rest)

-- From a state with right counters the tester's loop never fails, whatever the rounds read. Either it
-- has not ended after them; or it ends with right counters, and one of the messages was the request to
-- exit, or the input has ended and there are as many answers as words.
pub loop-IsTester : (is : List RoundInputs) (t : Tester) → IsTester t → Outcomes is (loop is t)
unfolding loop
loop-IsTester [] t v = inl refl
loop-IsTester (i ∷ is) t v =
    let (done, u, run, w, why) = round-IsTester i t v in
    loop-round i is t u done run w why (loop-IsTester is u w)
