-- ===== src/Server/Invariant/Register.antt =====
-- Registrations keep the invariant.
use automaton_state_machine.Base.{
  List, [], ◌∷◌, ◌≡◌, refl, arith, length, Bool-cases, inl, inr, lt→ltb, ltb, false,
}
use automaton_state_machine.Base.Outcome.{ok}
use automaton_state_machine.HashMap.Ops.{detach}
use automaton_state_machine.HashMap.Laws.{assign}
use automaton_state_machine.Server.State.{Text, to_pid, Server, Scanner, hash_map_int_cmp}
use automaton_state_machine.Server.Handlers.{new_slot, new_tester, register, register_all}
use automaton_state_machine.Server.Sessions.{
  Every-append, Every-detach, sum-assign_zero, lookup-assign-none,
}
use automaton_state_machine.Server.Invariant.{
  rcd, acc, Keyed, IsServer, Short, Fits, FitsAll, Owned-mono, Post, Post-bind, with_buffers,
}

-- the session that `new_tester` sets
pub set_tester-IsServer :
    (s : Server) (queue name : Text)
    → IsServer s
    → IsServer (record s {
      testers = assign hash_map_int_cmp (to_pid s.buffers.pid) (new_slot queue name s) s.testers;
    })
set_tester-IsServer s queue name w =
    let k = to_pid s.buffers.pid in
    let ts = new_slot queue name s in
    record {
      accepted = w.accepted;
      pending = w.pending;
      received = omega (arith, sum-assign_zero rcd k ts s.testers refl, w.received);
      answered = omega (arith, sum-assign_zero acc k ts s.testers refl, w.answered);
      keyed =
          Every-append Keyed (detach hash_map_int_cmp k s.testers) k ts
            (Every-detach Keyed k s.testers w.keyed) refl;
      owned =
          Owned-mono s.testers (assign hash_map_int_cmp k ts s.testers) s.runs
            (λ j. lookup-assign-none k j ts s.testers) w.owned;
      short = w.short;
    }

pub new_tester-run :
    (s : Server)
    → Short s.buffers
    → new_tester s
      ≡ ok (record s {
        testers =
            assign hash_map_int_cmp
              (to_pid s.buffers.pid)
              (new_slot s.buffers.queue s.buffers.text s)
              s.testers;
      })
unfolding new_tester
new_tester-run s short =
    let free : ltb 50 (length s.buffers.queue) ≡ false = ground (arith, short.name) in
    rw
      (
        free,
        lt→ltb (length s.buffers.queue) 50 short.name,
        lt→ltb (length s.buffers.text) 100 short.word,
      )
      refl

register-IsServer :
    (scan : Scanner) (msg : Text) (s : Server)
    → Fits scan.register msg
    → IsServer s
    → Post IsServer (register scan msg s)
unfolding register
register-IsServer scan msg s sc w =
    let b = (scan.register msg s.buffers).1 in
    let s₁ : Server = record s { buffers = b } in
    let w₁ = with_buffers s b w (sc s.buffers w.short) in
    elim (Bool-cases (scan.register msg s.buffers).0) [
      | inl matches ↦ (
        record s₁ {
          testers = assign hash_map_int_cmp (to_pid b.pid) (new_slot b.queue b.text s₁) s.testers;
        },
        rw matches (new_tester-run s₁ w₁.short),
        set_tester-IsServer s₁ b.queue b.text w₁,
      )
      | inr fails ↦ (s₁, rw fails refl, w₁)
    ]

pub register_all-IsServer :
    (scan : Scanner) (msgs : List Text) (s : Server)
    → FitsAll scan.register msgs
    → IsServer s
    → Post IsServer (register_all scan msgs s)
unfolding register_all
register_all-IsServer scan [] s sc w = (s, refl, w)
register_all-IsServer scan (msg ∷ msgs) s sc w =
    Post-bind IsServer IsServer (register scan msg s) (register_all scan msgs)
      (register-IsServer scan msg s sc.0 w) (λ s' w'. register_all-IsServer scan msgs s' sc.1 w')
