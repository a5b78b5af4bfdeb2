-- ===== src/Host/TtyInput/Forwarded.antt =====
-- internal/host/run_input.go: the terminal gets what was accepted, once and in order.
use mathlib.Core.Path.{subst}
use rmtx.Base.{
  ℕ, ◌+◌, ◌≡◌, refl, sym, ap, ◌∙◌, inl, inr, Bool, true, false, Option, none, some, List, [], ◌∷◌,
  ◌++◌, append_assoc, append-nil, ltb, length, length-append, Result, ok, err, Bool-cases, arith,
}
use rmtx.Host.PipeInput.{max_queued_pipe_input_bytes}
use rmtx.Host.TtyInput.{
  Bytes, TtySize, TerminalKind, resizer, pty, plain, resize_pty, resize_kind, resize_terminal,
  with_terminal, after_resize, Terminal, TtyInput, flush, TtyError, attach, after_flush,
  attach_resize, write_tty, write_to, resize_tty, resize_to, stop_tty,
}
use rmtx.Host.TtyInput.Calls.{
  all_bytes, only_last, blank, Runs, started, wrote, resized, attached, was_stopped, last_asked,
  is_positive, cut, shown_size, Forwards,
}

all_bytes-last :
    (queue : List Bytes) (p : Bytes) → all_bytes (queue ++ (p ∷ [])) ≡ all_bytes queue ++ p
all_bytes-last [] p = append-nil p
all_bytes-last (q ∷ queue) p =
    ap (λ rest. q ++ rest) (all_bytes-last queue p) ∙ sym (append_assoc q (all_bytes queue) p)

-- A flush that succeeds has written the whole queue.
flush-written :
    (answers : List (Option ℕ)) (t u : Terminal) (queue : List Bytes)
    → flush answers t queue ≡ (ok tt, u)
    → (u.written ≡ t.written ++ all_bytes queue) × (u.size ≡ t.size) × (u.kind ≡ t.kind)
unfolding flush
flush-written answers t u [] done =
    let same : t ≡ u = cc in
    (
      ap (λ v. v.written) (sym same) ∙ sym (append-nil t.written),
      ap (λ v. v.size) (sym same),
      ap (λ v. v.kind) (sym same),
    )
flush-written [] t u (p ∷ queue) done =
    let r = flush-written [] (record t { written = t.written ++ p }) u queue done in
    (r.0 ∙ append_assoc t.written p (all_bytes queue), r.1, r.2)
flush-written (none ∷ answers) t u (p ∷ queue) done =
    let r = flush-written answers (record t { written = t.written ++ p }) u queue done in
    (r.0 ∙ append_assoc t.written p (all_bytes queue), r.1, r.2)
flush-written (some n ∷ answers) t u (p ∷ queue) done =
    absurd (let failed = ap (λ r. r.0) done in cc)

wrote-Forwards :
    (w : Option Terminal) (i j : TtyInput) (accepted p : Bytes) (asked : List TtySize)
    (answer : Option ℕ)
    → i.writer ≡ w
    → Forwards w i accepted asked
    → write_to answer w i p ≡ (ok tt, j)
    → Forwards j.writer j (accepted ++ p) asked
wrote-Forwards none i j accepted p asked answer waits (bytes, count, small, last) done =
    elim (Bool-cases (ltb max_queued_pipe_input_bytes (i.queued + length p))) [
      | inl over ↦ absurd (let failed = ap (λ r. r.0) (simp over at done) in cc)
      | inr fits ↦
          let same = ap (λ r. r.1) (simp fits at done) in
          let sizes = length-append accepted p in
          rw⁻¹ same (
            simp waits
              (all_bytes-last i.queue p ∙ ap (λ b. b ++ p) bytes, omega arith, ground arith, last))
    ]
wrote-Forwards (some t) i j accepted p size none waits (bytes, last, empty, settled) done =
    let same = ap (λ r. r.1) done in rw⁻¹ same (ap (λ b. b ++ p) bytes, last, empty, settled)
wrote-Forwards (some t) i j accepted p size (some n) waits h done =
    absurd (let failed = ap (λ r. r.0) done in cc)

write_tty-Forwards :
    (i j : TtyInput) (accepted p : Bytes) (asked : List TtySize) (answer : Option ℕ)
    → Forwards i.writer i accepted asked
    → write_tty answer i p ≡ (ok tt, j)
    → Forwards j.writer j (accepted ++ p) asked
unfolding write_tty
write_tty-Forwards i j accepted [] asked answer h done =
    let same = ap (λ r. r.1) done in rw⁻¹ same (rw (append-nil accepted) h)
write_tty-Forwards i j accepted (b ∷ p) asked answer h done =
    wrote-Forwards i.writer i j accepted (b ∷ p) asked answer refl h done

-- A terminal that is asked for one more size.
resize_kind-shown :
    (kind : TerminalKind) (t u : Terminal) (asked : List TtySize) (wanted : TtySize)
    (resizes : Bool)
    → t.size ≡ shown_size kind asked
    → resize_kind kind resizes t wanted ≡ (ok tt, u)
    → (u.written ≡ t.written) × (u.kind ≡ t.kind) × (u.size ≡ shown_size kind (wanted ∷ asked))
unfolding resize_pty
resize_kind-shown resizer t u asked wanted true before done =
    let same = ap (λ r. r.1) done in rw⁻¹ same (refl, refl, refl)
resize_kind-shown resizer t u asked wanted false before done =
    absurd (let failed = ap (λ r. r.0) done in cc)
resize_kind-shown plain t u asked wanted resizes before done =
    let same = ap (λ r. r.1) done in rw⁻¹ same (refl, refl, before)
resize_kind-shown pty t u asked wanted resizes before done =
    elim (Bool-cases (is_positive wanted)) [
      | inr bad ↦
          let same : t ≡ u = ground (arith, done, bad) in
          rw⁻¹ same (refl, refl, ground (arith, bad, before))
      | inl good ↦ elim (Bool-cases resizes) [
        | inr refused ↦ absurd (ground (arith, done, good, refused))
        | inl works ↦
            let same : record t { size = some (cut wanted) } ≡ u =
              ground (arith, done, good, works) in
            rw⁻¹ same (refl, refl, ground (arith, good))
      ]
    ]

resize_terminal-shown :
    (t u : Terminal) (asked : List TtySize) (wanted : TtySize) (resizes : Bool)
    → t.size ≡ shown_size t.kind asked
    → resize_terminal resizes t wanted ≡ (ok tt, u)
    → (u.written ≡ t.written) × (u.size ≡ shown_size u.kind (wanted ∷ asked))
resize_terminal-shown t u asked wanted resizes before done =
    let (bytes, kind, size) = resize_kind-shown t.kind t u asked wanted resizes before done in
    (bytes, rw kind size)

with_terminal-Forwards :
    (i j : TtyInput) (t : Terminal) (accepted : Bytes) (asked : List TtySize) (wanted : TtySize)
    (resizes : Bool) (r : Result TtyError (Unit {0}) × Terminal)
    → resize_terminal resizes t wanted ≡ r
    → Forwards (some t) i accepted asked
    → with_terminal i r ≡ (ok tt, j)
    → Forwards j.writer j accepted (wanted ∷ asked)
with_terminal-Forwards i j t accepted asked wanted resizes (err e, u) run h done =
    absurd (let failed = ap (λ r. r.0) done in cc)
with_terminal-Forwards i j t accepted asked wanted resizes (ok _, u) run h done =
    let (bytes, size) = resize_terminal-shown t u asked wanted resizes h.1 run in
    let same = ap (λ r. r.1) done in rw⁻¹ same (bytes ∙ h.0, size, h.2, h.3)

resize_to-Forwards :
    (w : Option Terminal) (i j : TtyInput) (accepted : Bytes) (asked : List TtySize)
    (wanted : TtySize) (resizes : Bool)
    → i.writer ≡ w
    → Forwards w i accepted asked
    → resize_to resizes w i wanted ≡ (ok tt, j)
    → Forwards j.writer j accepted (wanted ∷ asked)
resize_to-Forwards none i j accepted asked wanted resizes waits (bytes, count, small, last) done =
    let same = ap (λ r. r.1) done in rw⁻¹ same (simp waits (bytes, count, small, refl))
resize_to-Forwards (some t) i j accepted asked wanted resizes waits h done =
    with_terminal-Forwards i j t accepted asked wanted resizes (resize_terminal resizes t wanted)
      refl h done

resize_tty-Forwards :
    (i j : TtyInput) (accepted : Bytes) (asked : List TtySize) (wanted : TtySize) (resizes : Bool)
    → Forwards i.writer i accepted asked
    → resize_tty resizes i wanted ≡ (ok tt, j)
    → Forwards j.writer j accepted (wanted ∷ asked)
unfolding resize_tty
resize_tty-Forwards i j accepted asked wanted resizes h done =
    resize_to-Forwards i.writer i j accepted asked wanted resizes refl h done

stop_tty-Forwards :
    (w : Option Terminal) (i : TtyInput) (accepted : Bytes) (asked : List TtySize)
    → Forwards w i accepted asked
    → Forwards w (stop_tty i) accepted asked
stop_tty-Forwards none i accepted asked h = h
stop_tty-Forwards (some t) i accepted asked h = h

after_resize-Forwards :
    (i j : TtyInput) (t : Terminal) (accepted : Bytes) (wanted : TtySize) (resizes : Bool)
    (r : Result TtyError (Unit {0}) × Terminal)
    → resize_terminal resizes t wanted ≡ r
    → t.written ≡ accepted
    → t.size ≡ shown_size t.kind []
    → after_resize i r ≡ (ok tt, j)
    → Forwards j.writer j accepted (wanted ∷ [])
after_resize-Forwards i j t accepted wanted resizes (err e, u) run bytes size done =
    absurd (let failed = ap (λ r. r.0) done in cc)
after_resize-Forwards i j t accepted wanted resizes (ok _, u) run bytes size done =
    let (same_bytes, shown) = resize_terminal-shown t u [] wanted resizes size run in
    let same = ap (λ r. r.1) done in rw⁻¹ same (same_bytes ∙ bytes, shown, refl, refl)

attach_resize-Forwards :
    (i j : TtyInput) (t : Terminal) (accepted : Bytes) (asked : List TtySize) (resizes : Bool)
    → t.written ≡ accepted
    → t.size ≡ shown_size t.kind []
    → i.resize ≡ last_asked asked
    → attach_resize resizes i t (last_asked asked) ≡ (ok tt, j)
    → Forwards j.writer j accepted (only_last asked)
attach_resize-Forwards i j t accepted [] resizes bytes size last done =
    let same = ap (λ r. r.1) done in rw⁻¹ same (bytes, size, refl, last)
attach_resize-Forwards i j t accepted (wanted ∷ asked) resizes bytes size last done =
    after_resize-Forwards i j t accepted wanted resizes (resize_terminal resizes t wanted) refl
      bytes size done

after_flush-Forwards :
    (i j : TtyInput) (accepted : Bytes) (asked : List TtySize) (resizes : Bool)
    (r : Result TtyError (Unit {0}) × Terminal)
    → ((u : Terminal) → r ≡ (ok tt, u) → (u.written ≡ accepted) × (u.size ≡ shown_size u.kind []))
    → i.resize ≡ last_asked asked
    → after_flush resizes i r ≡ (ok tt, j)
    → Forwards j.writer j accepted (only_last asked)
after_flush-Forwards i j accepted asked resizes (err e, t) flushed last done =
    absurd (let failed = ap (λ r. r.0) done in cc)
after_flush-Forwards i j accepted asked resizes (ok u, t) flushed last done =
    let (bytes, size) = flushed t refl in
    attach_resize-Forwards i j t accepted asked resizes bytes size last
      (subst (λ wanted. attach_resize resizes i t wanted ≡ (ok tt, j)) last done)

unsized : (kind : TerminalKind) → shown_size kind [] ≡ none
unsized resizer = refl
unsized pty = refl
unsized plain = refl

attach-Forwards :
    (i j : TtyInput) (accepted : Bytes) (asked : List TtySize) (answers : List (Option ℕ))
    (resizes : Bool) (kind : TerminalKind)
    → i.writer ≡ none
    → Forwards i.writer i accepted asked
    → attach answers resizes (blank kind) i ≡ (ok tt, j)
    → Forwards j.writer j accepted (only_last asked)
unfolding attach
attach-Forwards i j accepted asked answers resizes kind waits h done =
    let before : Forwards none i accepted asked = rw waits at h in
    after_flush-Forwards i j accepted asked resizes (flush answers (blank kind) i.queue)
      (λ u flushed.
        (let (bytes, size, _) = flush-written answers (blank kind) u i.queue flushed in
          (bytes ∙ before.0, size ∙ sym (unsized u.kind))))
      before.3 done

-- After any calls that succeeded, with a terminal of any kind attached at any one point among them:
-- before it is there, the bytes that were accepted wait in order, no more of them than the limit,
-- with the size that was asked for last; from then on the terminal has got exactly these bytes, in
-- order, and nothing waits. Of the size that waited and the later ones, a writer that resizes itself
-- has the last, a pseudo terminal the last whose rows and columns are positive, cut to 16 bits, and
-- any other writer none.
pub tty_forwarded :
    (i : TtyInput) (accepted : Bytes) (asked : List TtySize)
    → Runs i accepted asked
    → Forwards i.writer i accepted asked
tty_forwarded _ _ _ started = (refl, refl, omega arith, refl)
tty_forwarded _ _ _ (wrote i j accepted p asked answer r done) =
    write_tty-Forwards i j accepted p asked answer (tty_forwarded i accepted asked r) done
tty_forwarded _ _ _ (resized i j accepted asked wanted resizes r done) =
    resize_tty-Forwards i j accepted asked wanted resizes (tty_forwarded i accepted asked r) done
tty_forwarded _ _ _ (attached i j accepted asked answers resizes kind r waits done) =
    attach-Forwards i j accepted asked answers resizes kind waits (tty_forwarded i accepted asked r)
      done
tty_forwarded _ _ _ (was_stopped i accepted asked r) =
    stop_tty-Forwards i.writer i accepted asked (tty_forwarded i accepted asked r)
