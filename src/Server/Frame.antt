-- ===== src/Server/Frame.antt =====
-- What the first half of a round leaves alone: the words received, and the two flags.
use automaton_state_machine.Base.{
  ℕ, Option, none, some, Bool, true, false, List, [], ◌∷◌, ◌++◌, ◌≡◌, refl, ◌∙◌, arith,
  if◌then◌else◌, Bool-cases, Option-cases, inl, inr,
}
use automaton_state_machine.Base.Outcome.{Outcome, ok, undefined, out_of_fuel, ends, ◌>>=◌}
use automaton_state_machine.HashMap.Ops.{find}
use automaton_state_machine.HashMap.Laws.{assign}
use automaton_state_machine.Server.State.{
  Text, to_pid, RunSlot, Buffers, Server, Scanner, hash_map_int_cmp, close_pipe, dec,
}
use automaton_state_machine.Server.Handlers.{
  copy_name, open_queue, new_slot, new_tester, register, register_all, throttle, unthrottle,
  source_slot, deliver, send_answer, finish_run, run_terminate,
}
use automaton_state_machine.Server.Cycle.{Inputs, read_events}

-- the words received, and the two flags, are as they were
pub record Frame (s s' : Server) : Type 0 where
  pub words : s'.rcd_count ≡ s.rcd_count
  pub should : s'.should_terminate ≡ s.should_terminate
  pub force : s'.force_termination ≡ s.force_termination

pub Frame-refl : (s : Server) → Frame s s
Frame-refl s = record { words = refl; should = refl; force = refl }

Frame-trans : (a b c : Server) → Frame a b → Frame b c → Frame a c
Frame-trans a b c f g = record {
  words = g.words ∙ f.words;
  should = g.should ∙ f.should;
  force = g.force ∙ f.force;
}

-- a property of the state, where there is one
abbrev pub After : (Server → Type 0) → Outcome Server → Type 0
After P (ok s) = P s
After P undefined = Unit
After P out_of_fuel = Unit
After P ends = Unit

pub After-trans :
    (a b : Server) (o : Outcome Server) → Frame a b → After (Frame b) o → After (Frame a) o
After-trans a b (ok s) f g = Frame-trans a b s f g
After-trans a b undefined f g = tt
After-trans a b out_of_fuel f g = tt
After-trans a b ends f g = tt

After-bind :
    (a : Server) (o : Outcome Server) (f : Server → Outcome Server)
    → After (Frame a) o
    → ((s : Server) → After (Frame s) (f s))
    → After (Frame a) (o >>= f)
After-bind a undefined f h next = tt
After-bind a out_of_fuel f h next = tt
After-bind a ends f h next = tt
After-bind a (ok s) f h next = After-trans a s (f s) h (next s)

pub new_tester-Frame : (s : Server) → After (Frame s) (new_tester s)
unfolding new_tester
new_tester-Frame s = queued (open_queue s.buffers.queue)
  where
    named :
        (queue : Text) (o : Outcome Text)
        → After (Frame s) (
            o >>= λ name. ok (record s {
              testers =
                  assign hash_map_int_cmp (to_pid s.buffers.pid) (new_slot queue name s) s.testers;
            }))
    named queue (ok name) = record { words = refl; should = refl; force = refl }
    named queue undefined = tt
    named queue out_of_fuel = tt
    named queue ends = tt

    queued :
        (o : Outcome Text)
        → After (Frame s) (
            o >>= λ queue. copy_name s.buffers.text >>= λ name. ok (record s {
              testers =
                  assign hash_map_int_cmp (to_pid s.buffers.pid) (new_slot queue name s) s.testers;
            }))
    queued (ok queue) = named queue (copy_name s.buffers.text)
    queued undefined = tt
    queued out_of_fuel = tt
    queued ends = tt

pub if-After :
    (P : Server → Type 0) (b : Bool) (x y : Outcome Server)
    → After P x
    → After P y
    → After P (if b then x else y)
if-After P true x y p q = p
if-After P false x y p q = q

with_buffers-After :
    (s : Server) (b : Buffers) (o : Outcome Server)
    → After (Frame (record s { buffers = b })) o
    → After (Frame s) o
with_buffers-After s b (ok t) h = record { words = h.words; should = h.should; force = h.force }
with_buffers-After s b undefined h = tt
with_buffers-After s b out_of_fuel h = tt
with_buffers-After s b ends h = tt

register-Frame : (scan : Scanner) (msg : Text) (s : Server) → After (Frame s) (register scan msg s)
unfolding register
register-Frame scan msg s =
    let (matches, b) = scan.register msg s.buffers in
    let s₁ : Server = record s { buffers = b } in
    if-After (Frame s) matches (new_tester s₁) (ok s₁)
      (with_buffers-After s b (new_tester s₁) (new_tester-Frame s₁))
      (record { words = refl; should = refl; force = refl })

register_all-Frame :
    (scan : Scanner) (msgs : List Text) (s : Server) → After (Frame s) (register_all scan msgs s)
unfolding register_all
register_all-Frame scan [] s = Frame-refl s
register_all-Frame scan (msg ∷ msgs) s =
    After-bind s (register scan msg s) (register_all scan msgs) (register-Frame scan msg s)
      (register_all-Frame scan msgs)

throttle-Frame : (s : Server) → Frame s (throttle s)
unfolding throttle
throttle-Frame s = record { words = ground arith; should = ground arith; force = ground arith }

send_answer-Frame : (rs : RunSlot) (key : ℕ) (s : Server) → Frame s (send_answer rs key s)
unfolding send_answer deliver
send_answer-Frame rs key s = elim (Option-cases (find hash_map_int_cmp key s.testers)) [
  | inl missing ↦ rw (missing, send_answer) (Frame-refl s)
  | inr (ts, at) ↦ rw (at, send_answer) (record { words = refl; should = refl; force = refl })
]

finish_run-Frame : (pid : ℕ) (rs : RunSlot) (s : Server) → After (Frame s) (finish_run pid rs s)
unfolding finish_run
finish_run-Frame pid rs s = elim (Option-cases (source_slot rs.tester_source_pid none s.testers)) [
  | inl missing ↦ rw (missing, finish_run) tt
  | inr (key, at) ↦
      let s₁ : Server = record s { actions = s.actions ++ close_pipe rs.pid ∷ [] } in
      let f = send_answer-Frame rs key s₁ in
      rw (at, finish_run) (record { words = f.words; should = f.should; force = f.force })
]

run_terminate-Frame :
    (scan : Scanner) (msg : Option Text) (s : Server) → After (Frame s) (run_terminate scan msg s)
unfolding run_terminate
run_terminate-Frame scan none s = Frame-refl s
run_terminate-Frame scan (some msg) s =
    let b = (scan.terminate msg s.buffers).1 in
    let s₁ : Server = record s { buffers = b } in
    let s₂ : Server = record s₁ { active_tasks_count = dec s.active_tasks_count } in
    let s₃ = unthrottle s₂ in
    let f : Frame s s₃ = record {
      words = ground arith;
      should = ground arith;
      force = ground arith;
    } in
    elim (Bool-cases (scan.terminate msg s.buffers).0) [
      | inr fails ↦ rw fails (record { words = refl; should = refl; force = refl })
      | inl matches ↦ elim (Option-cases (find hash_map_int_cmp (to_pid b.pid) s₃.runs)) [
        | inl missing ↦ rw matches (rw missing f)
        | inr (rs, at) ↦ rw matches (
            rw at (
              After-trans s s₃ (finish_run (to_pid b.pid) rs s₃) f
                (finish_run-Frame (to_pid b.pid) rs s₃)))
      ]
    ]

pub read_events-Frame :
    (scan : Scanner) (i : Inputs) (s : Server) → After (Frame s) (read_events scan i s)
unfolding read_events
read_events-Frame scan i s =
    After-bind s (register_all scan i.registers s)
      (λ s'. run_terminate scan i.run_term_msg (throttle s'))
      (register_all-Frame scan i.registers s)
      (λ s'.
        After-trans s' (throttle s') (run_terminate scan i.run_term_msg (throttle s'))
          (throttle-Frame s') (run_terminate-Frame scan i.run_term_msg (throttle s')))
