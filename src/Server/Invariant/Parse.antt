-- ===== src/Server/Invariant/Parse.antt =====
-- A word to parse keeps the invariant.
use automaton_state_machine.Base.{
  ℕ, ◌+◌, ◌<◌, Option, none, some, true, [], ◌≢◌, refl, arith, length, Bool-cases, Option-cases,
  inl, inr,
}
use automaton_state_machine.HashMap.Ops.{detach}
use automaton_state_machine.HashMap.Laws.{assign}
use automaton_state_machine.Server.State.{
  Text, to_pid, RunSlot, Buffers, Server, Scanner, hash_map_int_cmp, modify,
}
use automaton_state_machine.Server.Handlers.{
  count_word, new_slot, exec_loop, obtain_tester, launch, parse_word, report,
}
use automaton_state_machine.Server.Sessions.{
  lookup, sum, Every-append, Every-detach, Every-modify, sum-assign_zero, length-assign,
  lookup-assign_self, sum-modify, lookup-modify-none,
}
use automaton_state_machine.Server.Invariant.{
  rcd, acc, Keyed, Owned, IsServer, Short, FitsIf, Owned-mono, Post, with_buffers, control-IsServer,
}
use automaton_state_machine.Server.State.{server_fork_retry_count}
use automaton_state_machine.Server.Handlers.{received, equal, exit_command}
use automaton_state_machine.Server.Invariant.Register.{set_tester-IsServer, new_tester-run}

-- the invariant, with a word received that no answer and no run stands for yet, from a tester that
-- has a session
record IsReady (s : Server) : Type 0 where
  books : IsServer s
  unanswered : s.snt_count + length s.runs < s.rcd_count
  uncounted : sum rcd s.testers < s.rcd_count
  known : lookup (to_pid s.buffers.pid) s.testers ≢ none

obtain_tester-IsReady :
    (s : Server)
    → IsServer s
    → s.snt_count + length s.runs < s.rcd_count
    → sum rcd s.testers < s.rcd_count
    → Post IsReady (obtain_tester s)
unfolding obtain_tester
obtain_tester-IsReady s w unanswered uncounted =
    let pid = to_pid s.buffers.pid in
    let ts = new_slot s.buffers.queue s.buffers.text s in
    elim (Option-cases (lookup pid s.testers)) [
      | inl missing ↦ (
        record s { testers = assign hash_map_int_cmp pid ts s.testers },
        rw (missing, obtain_tester) (new_tester-run s w.short),
        record {
          books = set_tester-IsServer s s.buffers.queue s.buffers.text w;
          unanswered = unanswered;
          uncounted = omega (arith, sum-assign_zero rcd pid ts s.testers refl);
          known = lookup-assign_self pid ts s.testers;
        },
      )
      | inr (old, at) ↦ (
        s,
        rw (at, obtain_tester) refl,
        record {
          books = w;
          unanswered = unanswered;
          uncounted = uncounted;
          known = λ gone. ground (arith, at, gone);
        },
      )
    ]

count_word-IsReady :
    (s : Server)
    → IsReady s
    → IsServer (count_word s)
      × ((count_word s).snt_count + length (count_word s).runs < (count_word s).rcd_count)
      × (lookup (to_pid s.buffers.pid) (count_word s).testers ≢ none)
unfolding count_word
count_word-IsReady s r =
    let pid = to_pid s.buffers.pid in
    let w = r.books in
    (
      record {
        accepted = w.accepted;
        pending = w.pending;
        received =
            omega (arith, sum-modify rcd pid received 1 s.testers (λ v. omega arith), r.uncounted);
        answered =
            omega (arith, sum-modify acc pid received 0 s.testers (λ v. omega arith), w.answered);
        keyed = Every-modify Keyed pid received s.testers (λ a v h. h) w.keyed;
        owned =
            Owned-mono s.testers (modify pid received s.testers) s.runs
              (λ j. lookup-modify-none pid j received s.testers) w.owned;
        short = w.short;
      },
      r.unanswered,
      λ gone. r.known (lookup-modify-none pid pid received s.testers gone),
    )

launch-IsServer :
    (pid : Option ℕ) (s : Server)
    → IsServer s
    → s.snt_count + length s.runs < s.rcd_count
    → lookup (to_pid s.buffers.pid) s.testers ≢ none
    → IsServer (launch pid s)
unfolding launch
launch-IsServer none s w unanswered known = w
launch-IsServer (some pid) s w unanswered known =
    let rs : RunSlot = record {
      pid = pid;
      tester_source_pid = to_pid s.buffers.pid;
      loc_id = s.buffers.loc_id;
    } in
    record {
      accepted = w.accepted;
      pending = omega (arith, length-assign pid rs s.runs);
      received = w.received;
      answered = w.answered;
      keyed = w.keyed;
      owned =
          Every-append (Owned s.testers) (detach hash_map_int_cmp pid s.runs) pid rs
            (Every-detach (Owned s.testers) pid s.runs w.owned) known;
      short = w.short;
    }

parse_word-IsServer :
    (exec : ℕ → Option ℕ) (s : Server) → IsServer s → Post IsServer (parse_word exec s)
unfolding parse_word
parse_word-IsServer exec s w =
    let s₀ : Server = record s { rcd_count = s.rcd_count + 1 } in
    let w₀ : IsServer s₀ = record {
      accepted = w.accepted;
      pending = omega (arith, w.pending);
      received = omega (arith, w.received);
      answered = w.answered;
      keyed = w.keyed;
      owned = w.owned;
      short = w.short;
    } in
    let (s₁, run, r) =
      obtain_tester-IsReady s₀ w₀ (omega (arith, w.pending)) (omega (arith, w.received)) in
    let (w₂, unanswered, known) = count_word-IsReady s₁ r in
    (
      launch (exec_loop exec server_fork_retry_count 0) (count_word s₁),
      rw run refl,
      launch-IsServer (exec_loop exec server_fork_retry_count 0) (count_word s₁) w₂ unanswered
          known,
    )

pub report-IsServer :
    (scan : Scanner) (exec : ℕ → Option ℕ) (msg : Option Text) (s : Server)
    → FitsIf scan.parse msg
    → IsServer s
    → Post IsServer (report scan exec msg s)
unfolding report
report-IsServer scan exec none s sc w = (s, refl, w)
report-IsServer scan exec (some msg) s sc w =
    let emptied : Buffers = record s.buffers { text = [] } in
    let short : Short emptied = record { word = omega arith; name = w.short.name } in
    let w₀ = with_buffers s emptied w short in
    let b = (scan.parse msg emptied).1 in
    let s₁ : Server = record s { buffers = b } in
    let w₁ = with_buffers s b w (sc emptied short) in
    elim (Bool-cases (equal msg exit_command)) [
      | inl stops ↦ (
        record s { buffers = emptied; should_terminate = true },
        rw stops refl,
        control-IsServer (record s { buffers = emptied }) s.active_tasks_count true
            s.force_termination s.throttled_mode s.actions w₀,
      )
      | inr other ↦ elim (Bool-cases (scan.parse msg emptied).0) [
        | inl matches ↦
            let (s₂, run, w₂) = parse_word-IsServer exec s₁ w₁ in
            (s₂, rw other (rw matches run), w₂)
        | inr fails ↦ (s₁, rw other (rw fails refl), w₁)
      ]
    ]
