-- ===== src/Tests/Tty.antt =====
-- internal/host/run_input.go: input and a size before the terminal is there, and input after.
use rmtx.Base.{◌≡◌, refl, true, false, none, some, List, [], ◌∷◌, ok, ℕ}
use rmtx.Base.Int.{pos}
use rmtx.Host.TtyInput.{
  TtyInput, TtySize, Terminal, pty, resize_pty, fresh_input, write_tty, resize_tty, attach, flush,
}
use rmtx.Host.TtyInput.Calls.{Runs, Forwards, blank}
use rmtx.Host.TtyInput.Forwarded.{tty_forwarded}

abbrev size : TtySize
size = record { rows = pos 24; cols = pos 80 }

-- What a pseudo terminal ignores.
abbrev no_size : TtySize
no_size = record { rows = pos 24; cols = pos 0 }

abbrev waiting : TtyInput
waiting = record fresh_input { queue = (1 ∷ 2 ∷ []) ∷ []; queued = 2 }

abbrev sized : TtyInput
sized = record waiting { resize = some size }

abbrev terminal : List ℕ → Terminal
terminal written = record { kind = pty; written = written; size = some size }

abbrev shown : TtyInput
shown = record fresh_input { writer = some (terminal (1 ∷ 2 ∷ [])) }

abbrev last : TtyInput
last = record fresh_input { writer = some (terminal (1 ∷ 2 ∷ 3 ∷ [])) }

first_run : write_tty none fresh_input (1 ∷ 2 ∷ []) ≡ (ok tt, waiting)
unfolding write_tty
first_run = refl

size_run : resize_tty true waiting size ≡ (ok tt, sized)
unfolding resize_tty
size_run = refl

attach_run : attach [] true (blank pty) sized ≡ (ok tt, shown)
unfolding attach flush resize_pty
attach_run = refl

last_run : write_tty none shown (3 ∷ []) ≡ (ok tt, last)
unfolding write_tty
last_run = refl

ignored_run : resize_tty false last no_size ≡ (ok tt, last)
unfolding resize_tty resize_pty
ignored_run = refl

runs : Runs last (1 ∷ 2 ∷ 3 ∷ []) (no_size ∷ size ∷ [])
runs =
    Runs.resized last last (1 ∷ 2 ∷ 3 ∷ []) (size ∷ []) no_size false
      (Runs.wrote shown last (1 ∷ 2 ∷ []) (3 ∷ []) (size ∷ []) none
        (Runs.attached sized shown (1 ∷ 2 ∷ []) (size ∷ []) [] true pty
          (Runs.resized waiting sized (1 ∷ 2 ∷ []) [] size true
            (Runs.wrote fresh_input waiting [] (1 ∷ 2 ∷ []) [] none Runs.started first_run)
            size_run)
          refl attach_run)
        last_run)
      ignored_run

tty_forwarded_example : Forwards last.writer last (1 ∷ 2 ∷ 3 ∷ []) (no_size ∷ size ∷ [])
tty_forwarded_example = tty_forwarded last (1 ∷ 2 ∷ 3 ∷ []) (no_size ∷ size ∷ []) runs
