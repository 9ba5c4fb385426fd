-- ===== src/ExitHandlers/Order.antt =====
-- The order in which the handlers of src/onexit.h run.
use automaton_state_machine.Base.{
  ℕ, ◌+◌, ◌≤◌, ◌<◌, ◌≡◌, refl, true, false, ◌==◌, List, [], ◌∷◌, ◌++◌, ltb, lt→ltb, if◌then◌else◌,
  Option, some, length, length-append, arith, append_assoc, append-nil, sym, subst, ◌∙◌,
}
use automaton_state_machine.Base.Outcome.{Outcome, ok, undefined, ◌>>=◌}
use automaton_state_machine.ExitHandlers.Ops.{
  Handlers, no_handlers, on_exit_max_handlers_count, run_slots, run_gc, onexit_handler_op,
  exit_handler_add, exit_handler_exec, exit_handler_override_gc,
}

module _ {H : Type 0} where
  -- handlers added one after the other
  unfoldable pub add_all : List H → Handlers H → Outcome (Handlers H)
  add_all [] s = ok s
  add_all (h ∷ hs) s = exit_handler_add (some h) s >>= λ (run, t). add_all hs t

  -- the slots from slot `i` on hold the handlers of a list
  abbrev pub InSlots : (ℕ → Option H) → ℕ → List H → Type 0
  InSlots slots i [] = Unit {0}
  InSlots slots i (h ∷ hs) = (slots i ≡ some h) × InSlots slots (i + 1) hs

  InSlots-run :
      (hs : List H) (i : ℕ) (slots : ℕ → Option H)
      → InSlots slots i hs
      → i + length hs ≤ on_exit_max_handlers_count
      → run_slots (length hs) i slots ≡ ok hs
  unfolding run_slots
  InSlots-run [] i slots h fits = refl
  InSlots-run (x ∷ hs) i slots h fits =
      rw
        (
          lt→ltb i on_exit_max_handlers_count (omega arith),
          h.0,
          InSlots-run hs (i + 1) slots h.1 (omega arith),
        )
        refl

  -- a write behind the list, and one at its end
  InSlots-store :
      (hs : List H) (i m : ℕ) (slots : ℕ → Option H) (v : Option H)
      → i + length hs ≤ m
      → InSlots slots i hs
      → InSlots (λ j. if m == j then v else slots j) i hs
  InSlots-store [] i m slots v h all = tt
  InSlots-store (x ∷ hs) i m slots v h all =
      let other : (m == i) ≡ false = ground arith in
      (rw other all.0, InSlots-store hs (i + 1) m slots v (omega arith) all.1)

  InSlots-append :
      (hs : List H) (i m : ℕ) (slots : ℕ → Option H) (x : H)
      → m ≡ i + length hs
      → slots m ≡ some x
      → InSlots slots i hs
      → InSlots slots i (hs ++ x ∷ [])
  InSlots-append [] i m slots x h e all =
      let same : m ≡ i = omega (arith, h) in (subst (λ k. slots k ≡ some x) same e, tt)
  InSlots-append (y ∷ hs) i m slots x h e all =
      (all.0, InSlots-append hs (i + 1) m slots x (omega arith) e all.1)

  -- the handlers that have been added
  record Added (hs : List H) (s : Handlers H) : Type 0 where
    count : s.count ≡ length hs
    held : InSlots s.slots 0 hs

  add-Added :
      (hs : List H) (s : Handlers H) (x : H)
      → Added hs s
      → length hs < on_exit_max_handlers_count
      → (t : Handlers H) × (exit_handler_add (some x) s ≡ ok ([], t))
        × Added (hs ++ x ∷ []) t
        × (t.called ≡ s.called)
        × (t.gc_slot ≡ s.gc_slot)
  unfolding onexit_handler_op
  add-Added hs s x a room =
      let inside : s.count < on_exit_max_handlers_count = omega (arith, a.count) in
      (
        record s { slots = λ j. if s.count == j then some x else s.slots j; count = s.count + 1 },
        rw (lt→ltb s.count on_exit_max_handlers_count inside) refl,
        record {
          count = omega (arith, a.count, length-append hs (x ∷ []));
          held =
              let here : (s.count == s.count) ≡ true = ground arith in
              InSlots-append hs 0 s.count _ x (omega (arith, a.count)) (rw here refl)
                (InSlots-store hs 0 s.count s.slots (some x) (omega (arith, a.count)) a.held);
        },
        refl,
        refl,
      )

  add_all-Added :
      (hs done : List H) (s : Handlers H)
      → Added done s
      → length done + length hs ≤ on_exit_max_handlers_count
      → (t : Handlers H) × (add_all hs s ≡ ok t)
        × Added (done ++ hs) t
        × (t.called ≡ s.called)
        × (t.gc_slot ≡ s.gc_slot)
  unfolding add_all
  add_all-Added [] done s a room =
      (s, refl, subst (λ xs. Added xs s) (sym (append-nil done)) a, refl, refl)
  add_all-Added (h ∷ hs) done s a room =
      let (t, run, b, same, gc) = add-Added done s h a (omega arith) in
      let (u, rest, c, same', gc') =
        add_all-Added hs (done ++ h ∷ []) t b (omega (arith, length-append done (h ∷ []))) in
      (
        u,
        rw (run, rest) refl,
        subst (λ xs. Added xs u) (append_assoc done (h ∷ []) hs) c,
        same' ∙ same,
        gc' ∙ gc,
      )

  exec-Added :
      (hs : List H) (g : Option H) (s : Handlers H)
      → Added hs s
      → s.called ≡ false
      → s.gc_slot ≡ g
      → length hs ≤ on_exit_max_handlers_count
      → exit_handler_exec s ≡ ok (hs ++ run_gc g, record s { called = true })
  unfolding onexit_handler_op
  exec-Added hs g s a fresh gc room =
      let run : run_slots s.count 0 s.slots ≡ ok hs =
        rw a.count (InSlots-run hs 0 s.slots a.held (omega arith)) in
      rw (run, fresh, gc) refl

  -- handlers, the one of the garbage collector, and more handlers are added, and then all are run
  unfoldable pub run_all : List H → H → List H → Outcome (List H × Handlers H)
  run_all hs g ks = add_all hs (no_handlers H) >>= λ s.
      exit_handler_override_gc (some g) s >>= λ (run, t). add_all ks t >>= exit_handler_exec

  -- `ExitHandlerExec` runs the handlers that were added, at most ten, in the order in which they were
  -- added, and the handler of the garbage collector behind them, though it was set before some of
  -- them; running the handlers again runs none.
  pub exit_handler_exec-order :
      (hs : List H) (g : H) (ks : List H)
      → length hs + length ks ≤ on_exit_max_handlers_count
      → (t : Handlers H) × (run_all hs g ks ≡ ok ((hs ++ ks) ++ g ∷ [], t))
        × (exit_handler_exec t ≡ ok ([], t))
  unfolding onexit_handler_op run_all
  exit_handler_exec-order hs g ks room =
      let (s, add, a, fresh, gc) =
        add_all-Added hs [] (no_handlers H) (record { count = refl; held = tt }) (omega arith) in
      let set : Handlers H = record s { gc_slot = some g } in
      let (u, more, b, fresh', gc') =
        add_all-Added ks hs set (record { count = a.count; held = a.held }) room in
      let last =
        exec-Added (hs ++ ks) (some g) u b (fresh' ∙ fresh) gc'
          (omega (arith, length-append hs ks)) in
      (record u { called = true }, rw (add, more) last, refl)

  -- A handler that is added to ten others is written behind the array of the slots.
  pub exit_handler_add-overrun :
      (hs : List H) (x : H)
      → length hs ≡ on_exit_max_handlers_count
      → (add_all hs (no_handlers H) >>= exit_handler_add (some x)) ≡ undefined
  unfolding onexit_handler_op
  exit_handler_add-overrun hs x full =
      let (s, add, a, fresh, gc) =
        add_all-Added hs [] (no_handlers H) (record { count = refl; held = tt }) (omega arith) in
      let over : ltb s.count on_exit_max_handlers_count ≡ false = ground (arith, a.count) in
      rw add (rw over refl)
