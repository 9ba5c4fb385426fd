-- ===== src/Pipe/Owned.antt =====
-- Calls that close a pipe of src/msg_pipe.h, and the descriptors that the pipe owns.
use automaton_state_machine.Base.{
  ◌≡◌, ◌⊎◌, inl, inr, refl, ap, Bool, Bool-cases, true, false, ◌&&◌, List, [], ◌∷◌, none,
}
use automaton_state_machine.Base.Int.{ℤ, pos, negsuc}
use automaton_state_machine.Base.Step.{Step, continues, then_do}
use automaton_state_machine.Pipe.Ops.{
  MsgPipe, After, msg_pipe_close_read, msg_pipe_close_write, msg_pipe_abandon, msg_pipe_close,
}

pub data Request : Type 0 where
  close_read : Request
  close_write : Request
  abandon : Request
  close_both : Request

module _ (close : ℤ → Bool) where
  abbrev pub perform : Request → MsgPipe → List ℤ → Step After
  perform close_read = msg_pipe_close_read close
  perform close_write = msg_pipe_close_write close
  perform abandon = msg_pipe_abandon close
  perform close_both = msg_pipe_close close

  -- the results of the calls, in order, and the pipe and the closed descriptors at the end
  unfoldable pub perform_all : List Request → MsgPipe → List ℤ → Step (List ℤ × MsgPipe × List ℤ)
  perform_all [] p closed = continues ([], p, closed)
  perform_all (r ∷ rs) p closed = then_do (perform r p closed) λ a.
      then_do (perform_all rs a.pipe a.closed)
        λ (results, q, after). continues (a.result ∷ results, q, after)

-- The descriptors that are closed are those of the directions that are not open, once each.
abbrev pub Closings : Bool → Bool → ℤ → ℤ → List ℤ → Type 0
Closings true true r w closed = closed ≡ []
Closings true false r w closed = closed ≡ w ∷ []
Closings false true r w closed = closed ≡ r ∷ []
Closings false false r w closed = (closed ≡ r ∷ w ∷ []) ⊎ (closed ≡ w ∷ r ∷ [])

pub record Owns (r w : ℤ) (p : MsgPipe) (closed : List ℤ) : Type 0 where
  pub reads : p.read_desc ≡ r
  pub writes : p.write_desc ≡ w
  pub balance : Closings p.opened_read p.opened_write r w closed

and-right : (a b : Bool) → (a && b) ≡ true → b ≡ true
and-right true b h = h
and-right false b h = cc

module _ (r w : ℤ) (closed : List ℤ) where
  Closings-read :
      (open_read open_write : Bool)
      → open_read ≡ true
      → Closings open_read open_write r w closed
      → Closings false open_write r w (r ∷ closed)
  Closings-read true true h c = ap (λ xs. r ∷ xs) c
  Closings-read true false h c = inl (ap (λ xs. r ∷ xs) c)
  Closings-read false open_write h c = cc

  Closings-write :
      (open_read open_write : Bool)
      → open_write ≡ true
      → Closings open_read open_write r w closed
      → Closings open_read false r w (w ∷ closed)
  Closings-write true true h c = ap (λ xs. w ∷ xs) c
  Closings-write false true h c = inr (ap (λ xs. w ∷ xs) c)
  Closings-write open_read false h c = cc

module _ (close : ℤ → Bool) (succeeds : (d : ℤ) → close d ≡ true) (r w : ℤ) where
  -- a call ends, with a pipe that owns its descriptors as before
  abbrev Keeps : Step After → Type 0
  Keeps s = (a : After) × (s ≡ continues a) × Owns r w a.pipe a.closed

  close_read-Owns :
      (p : MsgPipe) (closed : List ℤ)
      → Owns r w p closed
      → Keeps (msg_pipe_close_read close p closed)
  unfolding msg_pipe_close_read
  close_read-Owns p closed own = elim (Bool-cases (p.good && p.opened_read)) [
    | inr e ↦ (record { result = negsuc 0; pipe = p; closed = closed }, rw e refl, own)
    | inl e ↦ (
      record {
        result = pos 1;
        pipe = record p { opened_read = false };
        closed = p.read_desc ∷ closed;
      },
      rw (e, succeeds p.read_desc) refl,
      record {
        reads = own.reads;
        writes = own.writes;
        balance = rw own.reads (
            Closings-read r w closed p.opened_read p.opened_write (and-right p.good p.opened_read e)
              own.balance);
      },
    )
  ]

  close_write-Owns :
      (p : MsgPipe) (closed : List ℤ)
      → Owns r w p closed
      → Keeps (msg_pipe_close_write close p closed)
  unfolding msg_pipe_close_write
  close_write-Owns p closed own = elim (Bool-cases (p.good && p.opened_write)) [
    | inr e ↦ (record { result = negsuc 0; pipe = p; closed = closed }, rw e refl, own)
    | inl e ↦ (
      record {
        result = pos 1;
        pipe = record p { opened_write = false };
        closed = p.write_desc ∷ closed;
      },
      rw (e, succeeds p.write_desc) refl,
      record {
        reads = own.reads;
        writes = own.writes;
        balance = rw own.writes (
            Closings-write r w closed p.opened_read p.opened_write
              (and-right p.good p.opened_write e) own.balance);
      },
    )
  ]

  abandon-Owns :
      (p : MsgPipe) (closed : List ℤ) → Owns r w p closed → Keeps (msg_pipe_abandon close p closed)
  unfolding msg_pipe_abandon
  abandon-Owns p closed own = elim (Bool-cases p.good) [
    | inr e ↦ (record { result = negsuc 0; pipe = p; closed = closed }, rw e refl, own)
    | inl e ↦ (
      record {
        result = pos 1;
        pipe = record p { buff = none; buff_size = pos 0; good = false };
        closed = closed;
      },
      rw e refl,
      record { reads = own.reads; writes = own.writes; balance = own.balance },
    )
  ]

  close-steps :
      (p : MsgPipe) (closed : List ℤ) (a b c : After)
      → p.good ≡ true
      → msg_pipe_close_read close p closed ≡ continues a
      → msg_pipe_close_write close a.pipe a.closed ≡ continues b
      → msg_pipe_abandon close b.pipe b.closed ≡ continues c
      → msg_pipe_close close p closed ≡ continues c
  unfolding msg_pipe_close
  close-steps p closed a b c e ea eb ec = rw (ea, eb, ec, e) refl

  close-Owns :
      (p : MsgPipe) (closed : List ℤ) → Owns r w p closed → Keeps (msg_pipe_close close p closed)
  unfolding msg_pipe_close
  close-Owns p closed own = elim (Bool-cases p.good) [
    | inr e ↦ (record { result = negsuc 0; pipe = p; closed = closed }, rw e refl, own)
    | inl e ↦
        let (a, ea, owna) = close_read-Owns p closed own in
        let (b, eb, ownb) = close_write-Owns a.pipe a.closed owna in
        let (c, ec, ownc) = abandon-Owns b.pipe b.closed ownb in
        (c, close-steps p closed a b c e ea eb ec, ownc)
  ]

  perform-Owns :
      (q : Request) (p : MsgPipe) (closed : List ℤ)
      → Owns r w p closed
      → Keeps (perform close q p closed)
  perform-Owns close_read = close_read-Owns
  perform-Owns close_write = close_write-Owns
  perform-Owns abandon = abandon-Owns
  perform-Owns close_both = close-Owns

  pub perform_all-Owns :
      (qs : List Request) (p : MsgPipe) (closed : List ℤ)
      → Owns r w p closed
      → (results : List ℤ) × (after : MsgPipe) × (now : List ℤ) × (perform_all close qs p closed
          ≡ continues (results, after, now))
        × Owns r w after now
  unfolding perform_all
  perform_all-Owns [] p closed own = ([], p, closed, refl, own)
  perform_all-Owns (q ∷ qs) p closed own =
      let (a, e, owna) = perform-Owns q p closed own in
      let (results, after, now, f, owned) = perform_all-Owns qs a.pipe a.closed owna in
      (a.result ∷ results, after, now, rw (e, f) refl, owned)
