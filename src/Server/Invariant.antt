-- ===== src/Server/Invariant.antt =====
-- What every round keeps: the counters agree with the sessions, and every run has its tester.
pub mod Register
pub mod RunEnd
pub mod Parse
pub mod Round
pub mod Messages
use automaton_state_machine.Base.{
  ℕ, zero, suc, ◌+◌, ◌≤◌, ◌<◌, ◌==◌, Option, none, some, Bool, true, false, List, [], ◌∷◌, ◌++◌,
  ◌≡◌, ◌≢◌, refl, sym, ◌∙◌, arith, if◌then◌else◌, length, length-append, Bool-cases, Option-cases,
  inl, inr, subst, ltb, lt→ltb,
}
use automaton_state_machine.Base.Int.{ℤ}
use automaton_state_machine.Base.Outcome.{Outcome, ok, undefined, out_of_fuel, ◌>>=◌}
use automaton_state_machine.HashMap.Ops.{Bucket, find, detach}
use automaton_state_machine.HashMap.Laws.{assign}
use automaton_state_machine.Server.State.{
  Text, to_pid, Action, RunSlot, TesterSlot, Buffers, Scan, Server, Scanner, hash_map_int_cmp,
  modify, start, dec, inc, answer, close_pipe, write_graph,
}
use automaton_state_machine.Server.Handlers.{
  new_slot, new_tester, register, register_all, throttle, unthrottle, source_slot, send_answer,
  finish_run, run_terminate, exec_loop, obtain_tester, launch, parse_word, report,
}
use automaton_state_machine.Server.Sessions.{
  lookup, sum, Every, Every-impl, Every-append, Every-detach, Every-modify, sum-assign_zero,
  length-assign, lookup-assign_self, sum-modify, length-detach_le, length-detach,
  lookup-assign-none, lookup-modify-none, lookup-Every,
}

abbrev pub rcd : TesterSlot → ℕ
rcd ts = ts.rcd_count

abbrev pub acc : TesterSlot → ℕ
acc ts = ts.acc_count

abbrev pub Keyed : ℕ → TesterSlot → Type 0
Keyed k ts = ts.pid ≡ k

abbrev pub Owned : Bucket ℕ TesterSlot → ℕ → RunSlot → Type 0
Owned testers k rs = lookup rs.tester_source_pid testers ≢ none

-- The buffers hold a word of fewer than 100 characters, which fits the array that it is copied to, and
-- a name of fewer than 50, which fits that of a queue.
pub record Short (b : Buffers) : Type 0 where
  pub word : length b.text < 100
  pub name : length b.queue < 50

pub record IsServer (s : Server) : Type 0 where
  -- no more words are accepted than answers are sent, and no more answers are sent than words are
  -- received, the runs that are under way counted with the answers
  pub accepted : s.acc_count ≤ s.snt_count
  pub pending : s.snt_count + length s.runs ≤ s.rcd_count
  -- the testers' counts do not exceed the server's
  pub received : sum rcd s.testers ≤ s.rcd_count
  pub answered : sum acc s.testers ≤ s.acc_count
  -- a session is under its tester's pid, and every run belongs to a tester with a session
  pub keyed : Every Keyed s.testers
  pub owned : Every (Owned s.testers) s.runs
  pub short : Short s.buffers

-- What `sscanf` reads from the message is short, or leaves what is there.
abbrev pub Fits : Scan → Text → Type 0
Fits f msg = (b : Buffers) → Short b → Short (f msg b).1

abbrev pub FitsAll : Scan → List Text → Type 0
FitsAll f [] = Unit
FitsAll f (msg ∷ msgs) = Fits f msg × FitsAll f msgs

abbrev pub FitsIf : Scan → Option Text → Type 0
FitsIf f none = Unit
FitsIf f (some msg) = Fits f msg

pub Owned-mono :
    (ts ts' : Bucket ℕ TesterSlot) (runs : Bucket ℕ RunSlot)
    → ((k : ℕ) → lookup k ts' ≡ none → lookup k ts ≡ none)
    → Every (Owned ts) runs
    → Every (Owned ts') runs
Owned-mono ts ts' runs back =
    Every-impl (Owned ts) (Owned ts') (λ k rs has gone. has (back rs.tester_source_pid gone)) runs

-- a result, and a property of it
abbrev pub Post : (Server → Type 0) → Outcome Server → Type 0
Post P o = (s : Server) × (o ≡ ok s) × P s

pub Post-bind :
    (P Q : Server → Type 0) (o : Outcome Server) (f : Server → Outcome Server)
    → Post P o
    → ((s : Server) → P s → Post Q (f s))
    → Post Q (o >>= f)
Post-bind P Q o f (s, run, p) next = let (s', run', q) = next s p in (s', rw run run', q)

pub start-IsServer : (buffers : Buffers) → Short buffers → IsServer (start buffers)
start-IsServer buffers short = record {
  accepted = omega arith;
  pending = omega arith;
  received = omega arith;
  answered = omega arith;
  keyed = tt;
  owned = tt;
  short = short;
}

pub with_buffers :
    (s : Server) (b : Buffers) → IsServer s → Short b → IsServer (record s { buffers = b })
with_buffers s b w short = record {
  accepted = w.accepted;
  pending = w.pending;
  received = w.received;
  answered = w.answered;
  keyed = w.keyed;
  owned = w.owned;
  short = short;
}

-- The flags, the number of active tasks and the actions are free.
pub control-IsServer :
    (s : Server) (active : ℤ) (should force throttled : Bool) (actions : List Action)
    → IsServer s
    → IsServer (record s {
      active_tasks_count = active;
      should_terminate = should;
      force_termination = force;
      throttled_mode = throttled;
      actions = actions;
    })
control-IsServer s active should force throttled actions w = record {
  accepted = w.accepted;
  pending = w.pending;
  received = w.received;
  answered = w.answered;
  keyed = w.keyed;
  owned = w.owned;
  short = w.short;
}

pub if-IsServer :
    (b : Bool) (s t : Server) → IsServer s → IsServer t → IsServer (if b then s else t)
if-IsServer true s t p q = p
if-IsServer false s t p q = q
