-- ===== src/Shell/Prompt.antt =====
-- super.c, `line`, `simpleline`, `janet_line_get` and `janet_line_getter`: one line is read.
pub mod Answer
pub mod Fresh
pub mod Lines
pub mod Typing
pub mod Valid
use puny_gui.Prelude.{
  until_nul, ℕ, zero, suc, ◌+◌, ◌-◌, Bool, true, false, not, ◌&&◌, ◌||◌, List, [], ◌∷◌, ◌++◌,
  Option, none, some, length, ltb, leb, ◌==◌, if◌then◌else◌, update, slice, codes,
}
use puny_gui.Shell.State.{Editor, Key, Read, byte, eof, failed, Status, running, exited, crashed}
use puny_gui.Shell.Terminal.{next_read, after_read, rawmode, norawmode, getcols}
use puny_gui.Shell.History.{addhistory, replacehistory, str_same}
use puny_gui.Shell.Keys.{key_of, press, Next, again, accepted, rejected}

abbrev pub is_running : Status → Bool
is_running running = true
is_running _ = false

-- One round of the loop: a byte is read, and its key is handled.
unfoldable pub on_read : Read → Editor → Editor × Next
unfolding key_of press
on_read (byte c) s = press (key_of c) s
on_read eof s = (s, rejected)
on_read failed s = (s, rejected)

unfoldable pub round : Editor → Editor × Next
unfolding next_read after_read on_read
round s = on_read (next_read s.input) (after_read s)

-- The loop goes on after a round, unless that returns or the process has ended.
unfoldable pub carry_on : (Editor → Editor × Next) → Editor × Next → Editor × Next
carry_on rest (s, accepted) = (s, accepted)
carry_on rest (s, rejected) = (s, rejected)
carry_on rest (s, again) = elim (is_running s.status) [ true ↦ rest s | false ↦ (s, rejected) ]

-- for (;;) …. Each round reads, so that fuel above the length of the input is enough.
unfoldable pub rounds : ℕ → Editor → Editor × Next
unfolding round carry_on
rounds zero s = (s, again)
rounds (suc f) s = carry_on (rounds f) (round s)

-- What `line` sets before it reads.
unfoldable pub fresh_line : Editor → Editor
unfolding getcols addhistory
fresh_line s =
    let (cols, s₁) = getcols s in
    addhistory
      (record s₁ { cols = cols; plen = length s.prompt; len = 0; pos = 0; buf = update s₁.buf 0 0 })

unfoldable pub line : Editor → Editor × Next
unfolding fresh_line rounds
line s =
    let s' = fresh_line s in
    if s'.host.tty_ok
    then rounds (suc (length s'.input)) (record s' { out = s'.out ++ s'.prompt })
    else (s', rejected)

-- The bytes up to the end of the line, its newline included.
unfoldable pub simple_bytes : List Read → List ℕ
simple_bytes [] = []
simple_bytes (eof ∷ rest) = []
simple_bytes (failed ∷ rest) = []
simple_bytes (byte c ∷ rest) = elim (c == 10) [ true ↦ c ∷ [] | false ↦ c ∷ simple_bytes rest ]

unfoldable pub simple_rest : List Read → List Read
simple_rest [] = []
simple_rest (eof ∷ rest) = rest
simple_rest (failed ∷ rest) = rest
simple_rest (byte c ∷ rest) = elim (c == 10) [ true ↦ rest | false ↦ simple_rest rest ]

-- The buffer that `simpleline` fills, and the state.
unfoldable pub simpleline : Editor → List ℕ × Editor
unfolding simple_bytes simple_rest
simpleline s = (simple_bytes s.input, record s { input = simple_rest s.input })

abbrev pub badterms : List (List ℕ)
badterms = codes "cons25" ∷ codes "dumb" ∷ codes "emacs" ∷ []

abbrev pub is_listed : List ℕ → List (List ℕ) → Bool
is_listed t [] = false
is_listed t (b ∷ bs) = str_same t b || is_listed t bs

unfoldable pub checktermsupport : Editor → Bool
unfolding str_same
checktermsupport s = elim s.host.term [ none ↦ true | some t ↦ not (is_listed t badterms) ]

-- After a line that was not accepted: SIGINT is raised, or a newline is put out.
unfoldable pub give_up : Editor → Editor
unfolding norawmode
give_up s =
    let s' = norawmode s in
    if s'.sigint_flag
    then record s' { raised = s'.raised + 1 }
    else record s' { err = s'.err ++ 10 ∷ [] }

unfoldable pub take_line : Editor → List ℕ × Editor
unfolding norawmode replacehistory
take_line s =
    let s' = norawmode s in
    let s'' : Editor = record s' { err = s'.err ++ 10 ∷ [] } in
    (slice s''.buf 0 s''.len ++ 10 ∷ [], replacehistory s'')

unfoldable pub edit_line : Editor → List ℕ × Editor
unfolding line give_up take_line
edit_line s =
    let (s', next) = line s in
    elim next [ accepted ↦ take_line s' | rejected ↦ ([], give_up s') | again ↦ ([], give_up s') ]

-- The prompt, and the buffer that is handed back. Where the status is not `running` the process has
-- ended or nothing is known of it, and the bytes count for nothing.
unfoldable pub janet_line_get : List ℕ → Editor → List ℕ × Editor
unfolding simpleline checktermsupport rawmode edit_line
janet_line_get p s =
    let s₀ : Editor = record s { prompt = p; historyi = 0 } in
    if not s₀.host.isatty || not (checktermsupport s₀)
    then simpleline s₀
    else (let (s₁, raw) = rawmode s₀ in if raw then edit_line s₁ else simpleline s₁)

-- A Janet value, as far as the arguments of `getline` go.
pub data Janet : Type 0 where
  string buffer : List ℕ → Janet
  table : List (List Key) → Janet
  nil : Janet

-- The three arguments, with their defaults: `none` is a panic of the wrong arity or type.
unfoldable pub prompt_arg : List Janet → Option (List ℕ)
prompt_arg [] = some []
prompt_arg (string p ∷ rest) = some p
prompt_arg _ = none

unfoldable pub buffer_arg : List Janet → Option (List ℕ)
buffer_arg (p ∷ buffer b ∷ rest) = some b
buffer_arg (p ∷ b ∷ rest) = none
buffer_arg _ = some []

unfoldable pub env_arg : List Janet → Option (Option (List (List Key)))
env_arg (p ∷ b ∷ table t ∷ []) = some (some t)
env_arg (p ∷ b ∷ t ∷ []) = none
env_arg (p ∷ b ∷ t ∷ u ∷ rest) = none
env_arg _ = some none

-- The prompt is handed on as a C string, up to its first NUL. The buffer is emptied by
-- `janet_line_get` whatever it held. gbl_complete_env is set for the
-- call, and reset after it.
unfoldable pub janet_line_getter : List Janet → Editor → Option (List ℕ × Editor)
unfolding prompt_arg buffer_arg env_arg janet_line_get
janet_line_getter argv s = elim (prompt_arg argv) [
  | none ↦ none
  | some p ↦ elim (buffer_arg argv) [
    | none ↦ none
    | some b ↦ elim (env_arg argv) [
      | none ↦ none
      | some env ↦
          let (bytes, s') = janet_line_get (until_nul p) (record s { complete_env = env }) in
          some (bytes, record s' { complete_env = none })
    ]
  ]
]
