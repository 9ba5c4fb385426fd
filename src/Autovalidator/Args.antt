-- ===== src/Autovalidator/Args.antt =====
-- Which files the arguments name, and what is printed of a file.
use automaton_state_machine.Base.{
  ℕ, zero, suc, ◌+◌, ◌-◌, ◌<◌, ◌≤◌, ◌≡◌, refl, ap, ◌∙◌, Bool, true, false, ◌||◌, List, [], ◌∷◌,
  ◌++◌, ◌==◌, lt→ltb, if◌then◌else◌, Option, some, length, get_elem?, arith, Bool-cases, inl, inr,
  subst,
}
use automaton_state_machine.Base.Int.{pos, negsuc}
use automaton_state_machine.Base.Outcome.{ok, undefined, ◌>>=◌}
use automaton_state_machine.Base.Step.{continues}
use automaton_state_machine.Text.Scan.{Text}
use automaton_state_machine.Automaton.Loader.Input.{append_lines-append}
use automaton_state_machine.Autovalidator.Ops.{
  Arguments, no_arguments, max_testers_procs, print_buf_size, is_verbose_flag, output_name,
  add_file, read_args, clear_files, print_file,
}

-- The file is printed whole, between its header and a newline.
pub print_file-whole :
    (header input : Text)
    → print_file header (some input) false
      ≡ ok (
          continues
            (b'[' ∷ b' ' ∷ (header ++ (b' ' ∷ b']' ∷ b':' ∷ b'\n' ∷ (input ++ b'\n' ∷ [])))))
unfolding print_file
print_file-whole header input =
    rw
      (append_lines-append (length input + 1) (print_buf_size - 1) [] input (omega arith)
        (omega arith))
      refl

-- The program writes behind an array before it reads its arguments.
pub clear_files-undefined :
    (n : ℕ) (files : ℕ → Option Text) → clear_files (suc n) files ≡ undefined
unfolding clear_files
clear_files-undefined n files = refl

-- the arguments that name files, and whether there is a flag
abbrev pub names_in : List Text → List Text
names_in [] = []
names_in (arg ∷ args) = if is_verbose_flag arg then names_in args else arg ∷ names_in args

abbrev pub flag_in : List Text → Bool
flag_in [] = false
flag_in (arg ∷ args) = is_verbose_flag arg || flag_in args

-- What the loop makes of arguments that name the files `names`: from the state `f` with `n` testers on.
record Read (f : Arguments) (n : ℕ) (names : List Text) (flag : Bool) (g : Arguments) : Type 0 where
  server : g.server_input ≡ f.server_input
  count : g.testers_count ≡ pos (n + length names)
  flags : g.verbose ≡ (f.verbose || flag)
  kept : (k : ℕ) → k < n → g.tester_input k ≡ f.tester_input k
  added : (k : ℕ) → k < length names → g.tester_input (n + k) ≡ get_elem? names k

abbrev with_tester : ℕ → Text → ℕ → Arguments → Arguments
with_tester i arg n f = record f {
  tester_output = λ j. if n == j then some (output_name i) else f.tester_output j;
  tester_input = λ j. if n == j then some arg else f.tester_input j;
  testers_count = pos (n + 1);
}

add_file-tester :
    (i n : ℕ) (arg : Text) (f : Arguments)
    → n < max_testers_procs
    → add_file i arg (pos n) f ≡ ok (with_tester i arg n f)
unfolding add_file
add_file-tester i n arg f room = rw (lt→ltb n 100 room) refl

Read-tester :
    (i n : ℕ) (arg : Text) (f g : Arguments) (names : List Text) (flag : Bool)
    → Read (with_tester i arg n f) (n + 1) names flag g
    → Read f n (arg ∷ names) flag g
Read-tester i n arg f g names flag r = record {
  server = r.server;
  count = r.count ∙ ap pos (omega arith);
  flags = r.flags;
  kept = λ k h. r.kept k (omega arith) ∙ ground arith;
  added = λ k.
      elim k as (λ k. k < suc (length names) → g.tester_input (n + k) ≡ get_elem? (arg ∷ names) k) [
        | zero ↦ λ h. ap g.tester_input (omega arith) ∙ r.kept n (omega arith) ∙ ground arith
        | suc k ↦ λ h. ap g.tester_input (omega arith) ∙ r.added k (omega arith)
      ];
}

read_args-Read :
    (i : ℕ) (args : List Text) (f : Arguments) (n : ℕ)
    → f.testers_count ≡ pos n
    → n + length (names_in args) ≤ max_testers_procs
    → (g : Arguments) × (read_args i args f ≡ ok g) × Read f n (names_in args) (flag_in args) g
unfolding read_args
read_args-Read i [] f n e room = (
  f,
  refl,
  record {
    server = refl;
    count = e ∙ ap pos (omega arith);
    flags = ground arith;
    kept = λ k h. refl;
    added = λ k h. absurd (omega arith);
  },
)
read_args-Read i (arg ∷ args) f n e room = elim (Bool-cases (is_verbose_flag arg)) [
  | inl flag ↦
      let (g, run, r) =
        read_args-Read (i + 1) args (record f { verbose = true }) n e (rw flag at room) in
      rw flag (
        g,
        run,
        record {
          server = r.server;
          count = r.count;
          flags = r.flags ∙ ground arith;
          kept = r.kept;
          added = r.added;
        },
      )
  | inr name ↦
      let room' : n + suc (length (names_in args)) ≤ max_testers_procs = rw name at room in
      let (g, run, r) =
        read_args-Read (i + 1) args (with_tester i arg n f) (n + 1) refl (omega arith) in
      rw name (
        g,
        ap (λ c. add_file i arg c f >>= λ f'. read_args (i + 1) args f') e
            ∙ rw (add_file-tester i n arg f (omega arith)) run,
        Read-tester i n arg f g (names_in args) (flag_in args) r,
      )
]

abbrev with_server : Text → Arguments → Arguments
with_server server f = record f { server_input = some server; testers_count = pos 0 }

read_args-start :
    (i : ℕ) (args : List Text) (f : Arguments) (server : Text) (testers : List Text)
    → f.testers_count ≡ negsuc 0
    → names_in args ≡ server ∷ testers
    → length testers ≤ max_testers_procs
    → (g : Arguments) × (read_args i args f ≡ ok g)
      × Read (with_server server f) 0 testers (flag_in args) g
unfolding read_args add_file
read_args-start i [] f server testers e names room = cc
read_args-start i (arg ∷ args) f server testers e names room =
    elim (Bool-cases (is_verbose_flag arg)) [
      | inl flag ↦
          let (g, run, r) =
            read_args-start (i + 1) args (record f { verbose = true }) server testers e
              (rw flag at names) room in
          rw flag (
            g,
            run,
            record {
              server = r.server;
              count = r.count;
              flags = r.flags ∙ ground arith;
              kept = r.kept;
              added = r.added;
            },
          )
      | inr name ↦
          let here : arg ∷ names_in args ≡ server ∷ testers = rw name at names in
          let first : arg ≡ server = cc in
          let rest : names_in args ≡ testers = cc in
          let (g, run, r) =
            read_args-Read (i + 1) args (with_server arg f) 0 refl (rw rest (omega arith)) in
          rw name (
            g,
            ap (λ c. add_file i arg c f >>= λ f'. read_args (i + 1) args f') e ∙ run,
            subst (λ t. Read (with_server t f) 0 testers (flag_in args) g) first
                (subst (λ ts. Read (with_server arg f) 0 ts (flag_in args) g) rest r),
          )
    ]

-- Of at least one and at most 101 arguments that are not the flag, the first is the server's file, and
-- the others are the testers' files, in order; a flag anywhere sets the verbose mode.
pub read_args-files :
    (args : List Text) (server : Text) (testers : List Text)
    → names_in args ≡ server ∷ testers
    → length testers ≤ max_testers_procs
    → (g : Arguments) × (read_args 1 args no_arguments ≡ ok g)
      × (g.server_input ≡ some server)
      × (g.testers_count ≡ pos (length testers))
      × (g.verbose ≡ flag_in args)
      × ((k : ℕ) → k < length testers → g.tester_input k ≡ get_elem? testers k)
read_args-files args server testers e room =
    let (g, run, r) = read_args-start 1 args no_arguments server testers refl e room in
    (
      g,
      run,
      r.server,
      r.count ∙ ap pos (omega arith),
      r.flags,
      λ k h. ap g.tester_input (omega arith) ∙ r.added k h,
    )
