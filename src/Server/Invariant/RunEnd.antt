-- ===== src/Server/Invariant/RunEnd.antt =====
-- The end of a run, and throttling, keep the invariant.
use automaton_state_machine.Base.{
  ℕ, ◌+◌, Bool, ap, ◌∙◌, ◌==◌, Option, none, some, true, false, [], ◌∷◌, ◌++◌, ◌≡◌, ◌≢◌, refl,
  arith, if◌then◌else◌, Bool-cases, Option-cases, inl, inr,
}
use automaton_state_machine.Base.Outcome.{ok}
use automaton_state_machine.HashMap.Ops.{Bucket, find, detach}
use automaton_state_machine.Server.State.{
  Text, to_pid, RunSlot, TesterSlot, Server, Scanner, hash_map_int_cmp, modify, dec, close_pipe,
  answer,
}
use automaton_state_machine.Server.Handlers.{
  throttle, unthrottle, source_slot, deliver, accepted, send_answer, finish_run, run_terminate,
}
use automaton_state_machine.Server.Sessions.{
  lookup, Every, Every-if, Every-detach, Every-modify, sum-modify, length-detach,
  lookup-modify-none, lookup-Every,
}
use automaton_state_machine.Server.Invariant.{
  rcd, acc, Keyed, Owned, IsServer, FitsIf, Owned-mono, Post, with_buffers, control-IsServer,
  if-IsServer,
}

pub throttle-IsServer : (s : Server) → IsServer s → IsServer (throttle s)
unfolding throttle
throttle-IsServer s w =
    if-IsServer _ _ _
      (control-IsServer s s.active_tasks_count s.should_terminate s.force_termination true s.actions
        w)
      w

-- A run's tester is found: the loop stops at its slot.
pub source_slot-found :
    (pid : ℕ) (last : Option ℕ) (testers : Bucket ℕ TesterSlot)
    → Every Keyed testers
    → lookup pid testers ≢ none
    → source_slot pid last testers ≡ some pid
unfolding source_slot find
source_slot-found pid last [] keyed has = absurd (has refl)
source_slot-found pid last ((k, ts) ∷ es) (key, keyed) has = elim (Bool-cases (ts.pid == pid)) [
  | inl same ↦ rw same (ground (arith, key))
  | inr differ ↦
      rw differ (source_slot-found pid (some k) es keyed (λ gone. has (ground (arith, key, gone))))
]

some_injective : {a b : TesterSlot} → some a ≡ some b → a ≡ b
some_injective e = cc

-- the accepted words of the tester whose slot is changed, or is not
lookup-accepted :
    (won : Bool) (k : ℕ) (ts : TesterSlot) (es : Bucket ℕ TesterSlot)
    → lookup k es ≡ some ts
    → lookup k (if won then modify k accepted es else es)
      ≡ some (record ts { acc_count = ts.acc_count + (if won then 1 else 0) })
unfolding find modify
lookup-accepted false k ts es at = at ∙ ap (λ n. some (record ts { acc_count = n })) (omega arith)
lookup-accepted true k ts [] at = cc
lookup-accepted true k ts ((a, v) ∷ es) at = elim (Bool-cases (a == k)) [
  | inl same ↦
      let here : v ≡ ts = some_injective (rw same at at) in
      rw same (rw same (ap (λ x. some (accepted x)) here))
  | inr differ ↦ rw differ (rw differ (lookup-accepted true k ts es (rw differ at at)))
]

lookup-some : {V : Type 0} (o : Option V) → o ≢ none → (v : V) × (o ≡ some v)
lookup-some none h = absurd (h refl)
lookup-some (some v) h = (v, refl)

-- the session of the run is removed as its answer is sent
deliver-IsServer :
    (s : Server) (rs : RunSlot) (ts : TesterSlot) (key pid : ℕ) (left : RunSlot)
    → IsServer s
    → lookup pid s.runs ≡ some left
    → IsServer (record (deliver rs key ts s) { runs = detach hash_map_int_cmp pid s.runs })
unfolding deliver
deliver-IsServer s rs ts key pid left w at =
    let won = s.buffers.result == 1 in
    let testers = if won then modify key accepted s.testers else s.testers in
    record {
      accepted = ground (arith, w.accepted);
      pending = ground (arith, w.pending, length-detach pid left s.runs at);
      received =
          ground (arith, w.received, sum-modify rcd key accepted 0 s.testers (λ v. omega arith));
      answered =
          ground (arith, w.answered, sum-modify acc key accepted 1 s.testers (λ v. omega arith));
      keyed =
          Every-if Keyed won (modify key accepted s.testers) s.testers
            (Every-modify Keyed key accepted s.testers (λ a v h. h) w.keyed) w.keyed;
      owned =
          Owned-mono s.testers testers (detach hash_map_int_cmp pid s.runs)
            (λ j gone. ground (
              arith,
              lookup-modify-none j key accepted s.testers,
              lookup-modify-none key j accepted s.testers,
            ))
            (Every-detach (Owned s.testers) pid s.runs w.owned);
      short = w.short;
    }

finish_run-run :
    (s : Server) (pid : ℕ) (rs : RunSlot) (key : ℕ) (ts : TesterSlot)
    → source_slot rs.tester_source_pid none s.testers ≡ some key
    → lookup key s.testers ≡ some ts
    → finish_run pid rs s
      ≡ ok
          (record (deliver rs key ts (record s { actions = s.actions ++ close_pipe rs.pid ∷ [] })) {
            runs = detach hash_map_int_cmp pid s.runs;
          })
unfolding finish_run send_answer deliver
finish_run-run s pid rs key ts found slot = rw (found, finish_run) (rw (slot, send_answer) refl)

pub finish_run-deliver :
    (s : Server) (pid : ℕ) (rs : RunSlot)
    → IsServer s
    → lookup pid s.runs ≡ some rs
    → (ts : TesterSlot) × (lookup rs.tester_source_pid s.testers ≡ some ts)
      × (finish_run pid rs s
          ≡ ok
              (record (deliver rs rs.tester_source_pid ts
                (record s { actions = s.actions ++ close_pipe rs.pid ∷ [] })) {
                  runs = detach hash_map_int_cmp pid s.runs;
                }))
unfolding deliver
finish_run-deliver s pid rs w at =
    let has = lookup-Every (Owned s.testers) pid rs s.runs at w.owned in
    let (ts, slot) = lookup-some (lookup rs.tester_source_pid s.testers) has in
    (
      ts,
      slot,
      finish_run-run s pid rs rs.tester_source_pid ts
          (source_slot-found rs.tester_source_pid none s.testers w.keyed has) slot,
    )

-- In a state that satisfies the invariant, where a run that has a session ends, the server closes
-- the run's pipe and sends one answer: to the queue of the tester that sent the word, with the
-- word's number and the result. It counts the answer, and the accepted word if the result is 1,
-- for itself and in that tester's session, whose other fields stay; and the run's session is
-- removed.
pub finish_run-answer :
    (s : Server) (pid : ℕ) (rs : RunSlot)
    → IsServer s
    → lookup pid s.runs ≡ some rs
    → (ts : TesterSlot) × (u : Server) × (lookup rs.tester_source_pid s.testers ≡ some ts)
      × (finish_run pid rs s ≡ ok u)
      × (u.actions
          ≡ (s.actions ++ close_pipe rs.pid ∷ [])
            ++ answer ts.tester_input_queue rs.loc_id s.buffers.result ∷ [])
      × (u.snt_count ≡ s.snt_count + 1)
      × (u.acc_count ≡ s.acc_count + (if s.buffers.result == 1 then 1 else 0))
      × (lookup rs.tester_source_pid u.testers
          ≡ some
              (record ts { acc_count = ts.acc_count + (if s.buffers.result == 1 then 1 else 0) }))
      × (u.runs ≡ detach hash_map_int_cmp pid s.runs)
unfolding deliver
finish_run-answer s pid rs w at =
    let (ts, slot, run) = finish_run-deliver s pid rs w at in
    (
      ts,
      _,
      slot,
      run,
      refl,
      refl,
      ground arith,
      lookup-accepted (s.buffers.result == 1) rs.tester_source_pid ts s.testers slot,
      refl,
    )

finish_run-IsServer :
    (s : Server) (pid : ℕ) (rs : RunSlot)
    → IsServer s
    → lookup pid s.runs ≡ some rs
    → Post IsServer (finish_run pid rs s)
finish_run-IsServer s pid rs w at =
    let (ts, slot, run) = finish_run-deliver s pid rs w at in
    let s₁ : Server = record s { actions = s.actions ++ close_pipe rs.pid ∷ [] } in
    let w₁ =
      control-IsServer s s.active_tasks_count s.should_terminate s.force_termination
        s.throttled_mode s₁.actions w in
    (_, run, deliver-IsServer s₁ rs ts rs.tester_source_pid pid rs w₁ at)

pub unthrottle-IsServer : (s : Server) → IsServer s → IsServer (unthrottle s)
unthrottle-IsServer s w =
    if-IsServer _ _ _
      (control-IsServer s s.active_tasks_count s.should_terminate s.force_termination false
        s.actions w)
      w

pub run_terminate-IsServer :
    (scan : Scanner) (msg : Option Text) (s : Server)
    → FitsIf scan.terminate msg
    → IsServer s
    → Post IsServer (run_terminate scan msg s)
unfolding run_terminate
run_terminate-IsServer scan none s sc w = (s, refl, w)
run_terminate-IsServer scan (some msg) s sc w =
    let b = (scan.terminate msg s.buffers).1 in
    let s₁ : Server = record s { buffers = b } in
    let w₁ = with_buffers s b w (sc s.buffers w.short) in
    let s₂ : Server = record s₁ { active_tasks_count = dec s.active_tasks_count } in
    let s₃ = unthrottle s₂ in
    let w₃ = unthrottle-IsServer s₂ (
      control-IsServer s₁ (dec s.active_tasks_count) s.should_terminate s.force_termination
        s.throttled_mode s.actions w₁) in
    elim (Bool-cases (scan.terminate msg s.buffers).0) [
      | inr fails ↦ (s₁, rw fails refl, w₁)
      | inl matches ↦ elim (Option-cases (lookup (to_pid b.pid) s₃.runs)) [
        | inl missing ↦ (s₃, rw matches (rw missing refl), w₃)
        | inr (rs, at) ↦
            let (s₄, run, w₄) = finish_run-IsServer s₃ (to_pid b.pid) rs w₃ at in
            (s₄, rw matches (rw at run), w₄)
      ]
    ]
