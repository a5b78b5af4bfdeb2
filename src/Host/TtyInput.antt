-- ===== src/Host/TtyInput.antt =====
-- internal/host/run_input.go: input for a run's terminal, which waits in a queue until the terminal
-- is there. A terminal is what was written to it and the size that it was last given since then.
-- server.go and pty_linux.go: how it is given a size. Elsewhere than on Linux `resizePTY` only fails.
pub mod Forwarded
pub mod Calls
use rmtx.Base.Int.{ℤ, pos, pos_part, is_nonpos}
use rmtx.Base.{
  ℕ, ◌+◌, ◌%◌, ◌^◌, not, ◌||◌, Bool, true, false, Option, none, some, List, [], ◌∷◌, ◌++◌,
  if◌then◌else◌, ltb, length, take, Result, ok, err,
}
use rmtx.Host.PipeInput.{max_queued_pipe_input_bytes}

abbrev pub Bytes : Type 0
Bytes = List ℕ

pub record TtySize : Type 0 where
  pub rows : ℤ
  pub cols : ℤ

-- A writer with a `ResizeTTY` of its own, which hands the size on to the library behind it; the file
-- of a pseudo terminal; any other writer.
pub data TerminalKind : Type 0 where
  resizer pty plain : TerminalKind

pub record Terminal : Type 0 where
  pub kind : TerminalKind
  pub written : Bytes
  pub size : Option TtySize

pub record TtyInput : Type 0 where
  pub writer : Option Terminal
  pub queue : List Bytes
  pub queued : ℕ
  pub resize : Option TtySize
  pub stopped : Bool

pub data TtyError : Type 0 where
  queue_exceeds_limit write_failed resize_failed : TtyError

abbrev pub fresh_input : TtyInput
fresh_input = record { writer = none; queue = []; queued = 0; resize = none; stopped = false }

-- A write: how many bytes the terminal took, when it failed.
abbrev pub write_terminal : Option ℕ → Terminal → Bytes → Result TtyError (Unit {0}) × Terminal
write_terminal none t p = (ok tt, record t { written = t.written ++ p })
write_terminal (some n) t p = (err write_failed, record t { written = t.written ++ take n p })

-- `resizePTY`: a size that is not positive is passed over, and uint16 cuts the others. `answer` is
-- whether the system call succeeds.
unfoldable pub resize_pty : Bool → Terminal → TtySize → Result TtyError (Unit {0}) × Terminal
resize_pty answer t size =
    if is_nonpos size.rows || is_nonpos size.cols
    then (ok tt, t)
    else if not answer
    then (err resize_failed, t)
    else (
      ok tt,
      record t {
        size = some (record {
          rows = pos (pos_part size.rows % 2 ^ 16);
          cols = pos (pos_part size.cols % 2 ^ 16);
        });
      },
    )

abbrev pub resize_own : Bool → Terminal → TtySize → Result TtyError (Unit {0}) × Terminal
resize_own true t size = (ok tt, record t { size = some size })
resize_own false t size = (err resize_failed, t)

-- `resizeTTYWriter`
abbrev pub resize_kind :
    TerminalKind → Bool → Terminal → TtySize → Result TtyError (Unit {0}) × Terminal
resize_kind resizer answer t size = resize_own answer t size
resize_kind pty answer t size = resize_pty answer t size
resize_kind plain answer t size = (ok tt, t)

abbrev pub resize_terminal : Bool → Terminal → TtySize → Result TtyError (Unit {0}) × Terminal
resize_terminal answer t size = resize_kind t.kind answer t size

-- The loop of `Attach`; `answers` are what the writes answer, in order, and none beyond them fails.
unfoldable pub flush :
    List (Option ℕ) → Terminal → List Bytes → Result TtyError (Unit {0}) × Terminal
flush answers t [] = (ok tt, t)
flush [] t (p ∷ queue) = flush [] (record t { written = t.written ++ p }) queue
flush (none ∷ answers) t (p ∷ queue) = flush answers (record t { written = t.written ++ p }) queue
flush (some n ∷ answers) t (p ∷ queue) = write_terminal (some n) t p

-- The end of `Attach`: a size that the terminal refused stays.
abbrev pub after_resize :
    TtyInput → Result TtyError (Unit {0}) × Terminal → Result TtyError (Unit {0}) × TtyInput
after_resize i (ok u, t) =
    (ok u, record i { writer = some t; queue = []; queued = 0; resize = none })
after_resize i (err e, t) = (err e, record i { writer = some t; queue = []; queued = 0 })

-- `Attach` behind its loop.
abbrev pub attach_resize :
    Bool → TtyInput → Terminal → Option TtySize → Result TtyError (Unit {0}) × TtyInput
attach_resize resizes i t none = (ok tt, record i { writer = some t; queue = []; queued = 0 })
attach_resize resizes i t (some size) = after_resize i (resize_terminal resizes t size)

abbrev pub after_flush :
    Bool → TtyInput → Result TtyError (Unit {0}) × Terminal → Result TtyError (Unit {0}) × TtyInput
after_flush resizes i (err e, t) = (err e, record i { writer = some t })
after_flush resizes i (ok u, t) = attach_resize resizes i t i.resize

unfoldable pub attach :
    List (Option ℕ) → Bool → Terminal → TtyInput → Result TtyError (Unit {0}) × TtyInput
attach answers resizes t i = after_flush resizes i (flush answers t i.queue)

abbrev pub with_terminal :
    TtyInput → Result TtyError (Unit {0}) × Terminal → Result TtyError (Unit {0}) × TtyInput
with_terminal i (r, t) = (r, record i { writer = some t })

-- `Write` of bytes that are not empty.
abbrev pub write_to :
    Option ℕ → Option Terminal → TtyInput → Bytes → Result TtyError (Unit {0}) × TtyInput
write_to answer none i p =
    if ltb max_queued_pipe_input_bytes (i.queued + length p)
    then (err queue_exceeds_limit, i)
    else (ok tt, record i { queue = i.queue ++ (p ∷ []); queued = i.queued + length p })
write_to answer (some t) i p = with_terminal i (write_terminal answer t p)

unfoldable pub write_tty : Option ℕ → TtyInput → Bytes → Result TtyError (Unit {0}) × TtyInput
write_tty answer i [] = (ok tt, i)
write_tty answer i (b ∷ p) = write_to answer i.writer i (b ∷ p)

abbrev pub resize_to :
    Bool → Option Terminal → TtyInput → TtySize → Result TtyError (Unit {0}) × TtyInput
resize_to resizes none i size = (ok tt, record i { resize = some size })
resize_to resizes (some t) i size = with_terminal i (resize_terminal resizes t size)

unfoldable pub resize_tty : Bool → TtyInput → TtySize → Result TtyError (Unit {0}) × TtyInput
resize_tty resizes i size = resize_to resizes i.writer i size

abbrev pub stop_tty : TtyInput → TtyInput
stop_tty i = record i { stopped = true }
