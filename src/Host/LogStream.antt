-- ===== src/Host/LogStream.antt =====
-- internal/host/log_stream.go: the queue of logs that are streamed to one client. The lock makes
-- each operation one step. Slots before `head` are spent, and hold nil.
pub mod Live
pub mod Enqueue
pub mod Next
use rmtx.Base.{
  ℕ, zero, suc, ◌+◌, ◌-◌, ◌*◌, ◌^◌, Bool, true, false, not, ◌&&◌, ◌||◌, Option, none, some, List,
  [], ◌∷◌, ◌++◌, ltb, leb, ◌==◌, if◌then◌else◌, length, drop, set, get_elem?,
}
use rmtx.Base.Text.{codes}

abbrev pub Chunk : Type 0
Chunk = List ℕ

abbrev pub max_queued_log_bytes : ℕ
max_queued_log_bytes = 2 ^ 20

abbrev pub max_queued_log_items : ℕ
max_queued_log_items = 1024

abbrev pub dropped_log_marker : Chunk
dropped_log_marker = codes "rmtx: slow client; older streamed logs dropped" ++ (10 ∷ [])

-- `failed` says that `err` is set.
pub record LogQueue : Type 0 where
  pub queue : List Chunk
  pub head : ℕ
  pub queued_bytes : ℕ
  pub dropped : Bool
  pub writing : Bool
  pub closed : Bool
  pub failed : Bool

unfoldable pub new_log_queue : LogQueue
new_log_queue = record {
  queue = [];
  head = 0;
  queued_bytes = 0;
  dropped = false;
  writing = false;
  closed = false;
  failed = false;
}

-- s.queue[i], where the slots past the end are never asked for.
abbrev pub slot : List Chunk → ℕ → Chunk
slot queue i = elim (get_elem? queue i) [ none ↦ [] | some item ↦ item ]

-- The last n bytes: buf[len(buf)-n:].
abbrev pub last_bytes : ℕ → Chunk → Chunk
last_bytes n buf = drop (length buf - n) buf

-- The body of the loops that make room; `mark` is set in the first, which sets `dropped`.
unfoldable pub drop_oldest : Bool → LogQueue → LogQueue
drop_oldest mark q = record q {
  queued_bytes = q.queued_bytes - length (slot q.queue q.head);
  queue = set q.queue q.head [];
  head = suc q.head;
  dropped = mark || q.dropped;
}

-- Room for `extra` bytes and, within `items`, for one more item.
abbrev pub is_full : ℕ → ℕ → LogQueue → Bool
is_full extra items q =
    ltb max_queued_log_bytes (q.queued_bytes + extra) || leb items (length q.queue - q.head)

-- The loops that make room. Each round moves `head`, so the queue's length is fuel enough.
unfoldable pub make_room : ℕ → Bool → ℕ → ℕ → LogQueue → LogQueue
make_room zero mark extra items q = q
make_room (suc fuel) mark extra items q =
    let later = make_room fuel mark extra items (drop_oldest mark q) in
    if is_full extra items q && ltb q.head (length q.queue) then later else q

abbrev pub append_item : Chunk → LogQueue → LogQueue
append_item item q = record q {
  queue = q.queue ++ (item ∷ []);
  queued_bytes = q.queued_bytes + length item;
}

-- if s.dropped: what the payload is cut to, and the queue with the marker.
unfoldable pub add_marker : Chunk → LogQueue → Chunk × LogQueue
add_marker buf q =
    if q.dropped
    then (let buf' = last_bytes (max_queued_log_bytes - length dropped_log_marker) buf in
        let roomy =
          make_room (length q.queue) false (length dropped_log_marker + length buf')
            (max_queued_log_items - 1) q in
        (buf', record (append_item dropped_log_marker roomy) { dropped = false }))
    else (buf, q)

-- Spent slots are reclaimed once they are half of the queue.
unfoldable pub compact : LogQueue → LogQueue
compact q =
    if ltb 0 q.head && leb (length q.queue) (q.head * 2)
    then record q { queue = drop q.head q.queue; head = 0 }
    else q

-- `Enqueue` of a payload on a queue that is open.
unfoldable pub enqueue_open : Chunk → LogQueue → LogQueue
enqueue_open p q =
    let buf = last_bytes max_queued_log_bytes p in
    let roomy = make_room (length q.queue) true (length buf) max_queued_log_items q in
    let (buf', marked) = add_marker buf roomy in append_item buf' (compact marked)

unfoldable pub enqueue : Chunk → LogQueue → LogQueue
enqueue p q = if length p == 0 || q.closed then q else enqueue_open p q

-- The body of `next`, and the reset of a queue whose slots are all spent.
unfoldable pub take_item : LogQueue → LogQueue
take_item q = record q {
  queue = set q.queue q.head [];
  head = suc q.head;
  queued_bytes = q.queued_bytes - length (slot q.queue q.head);
  writing = true;
}

unfoldable pub recycle : LogQueue → LogQueue
recycle q = if q.head == length q.queue then record q { queue = []; head = 0 } else q

-- `next` on a queue that is not waiting: none when it is empty and closed.
unfoldable pub next_item : LogQueue → Option Chunk × LogQueue
next_item q =
    if q.head == length q.queue
    then (none, q)
    else (some (slot q.queue q.head), recycle (take_item q))

-- `run` after its write: an error closes the queue and empties it.
unfoldable pub written : Bool → LogQueue → LogQueue
written true q = record q { writing = false }
written false q = record q {
  writing = false;
  failed = true;
  closed = true;
  queue = [];
  head = 0;
  queued_bytes = 0;
}

unfoldable pub close_queue : LogQueue → LogQueue
close_queue q = record q { closed = true }
