-- ===== src/Host/PipeInput.antt =====
-- internal/host/run_input.go: the queue that carries a client's stdin to a run. The lock makes each
-- operation one step; a call that waits is one that answers `blocked`, and is tried again later.
pub mod Stream
use rmtx.Base.{
  ℕ, suc, ◌+◌, ◌-◌, ◌^◌, Bool, true, false, not, ◌&&◌, ◌||◌, Option, none, some, List, [], ◌∷◌,
  ◌++◌, ltb, leb, ◌==◌, if◌then◌else◌, length, take, drop, set, min,
}
use rmtx.Host.LogStream.{Chunk, slot}

abbrev pub max_queued_pipe_input_bytes : ℕ
max_queued_pipe_input_bytes = 2 ^ 20

pub record PipeInput : Type 0 where
  pub queue : List Chunk
  pub head : ℕ
  pub queued_bytes : ℕ
  pub closed : Bool
  pub stopped : Bool

abbrev pub new_pipe_input : PipeInput
new_pipe_input = record { queue = []; head = 0; queued_bytes = 0; closed = false; stopped = false }

-- io.ErrClosedPipe of a write and io.EOF of a read are `ended`.
pub data Outcome (A : Type 0) : Type 0 where
  blocked ended : Outcome A
  done : A → Outcome A

unfoldable pub write_input : Chunk → PipeInput → Outcome ℕ × PipeInput
write_input p q =
    if length p == 0
    then (done 0, q)
    else if q.closed || q.stopped
    then (ended, q)
    else if ltb max_queued_pipe_input_bytes (q.queued_bytes + length p)
    then (blocked, q)
    else (
      done (length p),
      record q { queue = q.queue ++ (p ∷ []); queued_bytes = q.queued_bytes + length p },
    )

-- `Read` behind its wait: the first item is used up, and spent slots are dropped with the last, or
-- the item is cut.
unfoldable pub spend : PipeInput → PipeInput
spend q = record q {
  queue = set q.queue q.head [];
  head = suc q.head;
  queued_bytes = q.queued_bytes - length (slot q.queue q.head);
}

unfoldable pub reset : PipeInput → PipeInput
reset q = if q.head == length q.queue then record q { queue = []; head = 0 } else q

unfoldable pub cut_item : ℕ → PipeInput → PipeInput
cut_item n q = record q {
  queue = set q.queue q.head (drop n (slot q.queue q.head));
  queued_bytes = q.queued_bytes - n;
}

unfoldable pub read_item : ℕ → PipeInput → Chunk × PipeInput
read_item room q =
    let item = slot q.queue q.head in
    if leb (length item) room then (item, reset (spend q)) else (take room item, cut_item room q)

-- `room` is len(p), for the buffer that is read into; the bytes read are what it then starts with.
unfoldable pub read_input : ℕ → PipeInput → Outcome Chunk × PipeInput
read_input room q =
    if room == 0
    then (done [], q)
    else if q.head == length q.queue
    then (if q.closed || q.stopped then (ended, q) else (blocked, q))
    else let (bytes, q') = read_item room q in (done bytes, q')

unfoldable pub close_input : PipeInput → PipeInput
close_input q = record q { closed = true }

-- `Stop` under its `once`, which has run when `stopped` is set.
unfoldable pub stop_input : PipeInput → PipeInput
stop_input q =
    if q.stopped then q else record q { stopped = true; queue = []; head = 0; queued_bytes = 0 }
