-- ===== src/Host/TtyInput/Calls.antt =====
-- internal/host/run_input.go: the calls on a terminal's input, and what it promises behind them.
use rmtx.Base.Int.{pos, pos_part}
use rmtx.Base.{
  ℕ, ◌%◌, ◌&&◌, if◌then◌else◌, ◌≡◌, ◌≤◌, Bool, Option, none, some, List, [], ◌∷◌, ◌++◌, ltb, length,
  ok,
}
use rmtx.Host.PipeInput.{max_queued_pipe_input_bytes}
use rmtx.Host.TtyInput.{
  Bytes, TtySize, TerminalKind, resizer, pty, plain, Terminal, TtyInput, fresh_input, attach,
  write_tty, resize_tty, stop_tty,
}

abbrev pub all_bytes : List Bytes → Bytes
all_bytes [] = []
all_bytes (p ∷ queue) = p ++ all_bytes queue

-- What was asked for last, alone.
abbrev pub only_last : List TtySize → List TtySize
only_last [] = []
only_last (s ∷ asked) = s ∷ []

abbrev pub blank : TerminalKind → Terminal
blank kind = record { kind = kind; written = []; size = none }

-- The calls that succeeded, with the bytes that were accepted and the sizes that were asked of the
-- terminal, the last one first: of those before it was there, only the last one reaches it. A
-- terminal that is attached has got nothing yet, and it is attached once.
pub data Runs : TtyInput → Bytes → List TtySize → Type 0 where
  started : Runs fresh_input [] []
  wrote :
      (i j : TtyInput) (accepted p : Bytes) (asked : List TtySize) (answer : Option ℕ)
      → Runs i accepted asked
      → write_tty answer i p ≡ (ok tt, j)
      → Runs j (accepted ++ p) asked
  resized :
      (i j : TtyInput) (accepted : Bytes) (asked : List TtySize) (wanted : TtySize) (resizes : Bool)
      → Runs i accepted asked
      → resize_tty resizes i wanted ≡ (ok tt, j)
      → Runs j accepted (wanted ∷ asked)
  attached :
      (i j : TtyInput) (accepted : Bytes) (asked : List TtySize) (answers : List (Option ℕ))
      (resizes : Bool) (kind : TerminalKind)
      → Runs i accepted asked
      → i.writer ≡ none
      → attach answers resizes (blank kind) i ≡ (ok tt, j)
      → Runs j accepted (only_last asked)
  was_stopped :
      (i : TtyInput) (accepted : Bytes) (asked : List TtySize)
      → Runs i accepted asked
      → Runs (stop_tty i) accepted asked

abbrev pub last_asked : List TtySize → Option TtySize
last_asked [] = none
last_asked (s ∷ asked) = some s

abbrev pub is_positive : TtySize → Bool
is_positive s = ltb 0 (pos_part s.rows) && ltb 0 (pos_part s.cols)

-- The lower 16 bits of both numbers.
abbrev pub cut : TtySize → TtySize
cut s = record { rows = pos (pos_part s.rows % 65536); cols = pos (pos_part s.cols % 65536) }

-- The size of a terminal of which these sizes were asked: a resizer has the last one, a pseudo
-- terminal the last positive one cut to 16 bits, and any other writer none.
abbrev pub shown_size : TerminalKind → List TtySize → Option TtySize
shown_size resizer asked = last_asked asked
shown_size pty [] = none
shown_size pty (s ∷ asked) = if is_positive s then some (cut s) else shown_size pty asked
shown_size plain asked = none

-- Before the terminal is there, what was accepted waits, within the limit; afterwards the terminal
-- has all of it, and its size.
abbrev pub Forwards : Option Terminal → TtyInput → Bytes → List TtySize → Type 0
Forwards none i accepted asked =
    (all_bytes i.queue ≡ accepted)
    × (i.queued ≡ length accepted)
    × (length accepted ≤ max_queued_pipe_input_bytes)
    × (i.resize ≡ last_asked asked)
Forwards (some t) i accepted asked =
    (t.written ≡ accepted) × (t.size ≡ shown_size t.kind asked) × (i.queue ≡ []) × (i.resize ≡ none)
