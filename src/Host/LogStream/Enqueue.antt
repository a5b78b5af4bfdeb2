-- ===== src/Host/LogStream/Enqueue.antt =====
-- What `Enqueue` keeps, and what it makes of the queue.
use rmtx.Base.{
  ℕ, zero, suc, ◌+◌, ◌-◌, ◌*◌, ◌≤◌, ◌<◌, ◌≡◌, ◌⊎◌, refl, ap, ◌∙◌, Bool, true, false, ◌&&◌, ◌||◌,
  List, [], ◌∷◌, ◌++◌, ltb, leb, ◌==◌, Bool-cases, inl, inr, arith, length, drop, length-append,
  length-drop, append_assoc,
}
use rmtx.Host.LogStream.{
  Chunk, LogQueue, max_queued_log_bytes, max_queued_log_items, dropped_log_marker, last_bytes,
  drop_oldest, make_room, append_item, add_marker, compact, enqueue_open, enqueue,
}
use rmtx.Host.LogStream.Live.{
  live, total, total-append, IsCounted, IsRoomier, make_room-IsRoomier, drop-append_inside,
}

make_room_dropped :
    (fuel : ℕ) (mark : Bool) (extra items : ℕ) (q : LogQueue)
    → q.dropped ≡ true
    → (make_room fuel mark extra items q).dropped ≡ true
unfolding make_room
make_room_dropped zero mark extra items q h = h
make_room_dropped (suc fuel) mark extra items q h =
    let later =
      make_room_dropped fuel mark extra items (drop_oldest mark q)
        (unfold drop_oldest in ground (arith, h)) in
    ground (arith, later, h)

-- If the first loop drops nothing, it changes nothing.
make_room_quiet :
    (fuel extra items : ℕ) (q : LogQueue)
    → (make_room fuel true extra items q).dropped ≡ false
    → make_room fuel true extra items q ≡ q
unfolding make_room
make_room_quiet zero extra items q h = refl
make_room_quiet (suc fuel) extra items q h =
    let later =
      make_room_dropped fuel true extra items (drop_oldest true q) (unfold drop_oldest in refl) in
    ground (arith, later, h)

append_item-IsCounted :
    (item : Chunk) (q : LogQueue)
    → IsCounted q
    → IsCounted (append_item item q) × (live (append_item item q) ≡ live q ++ (item ∷ []))
append_item-IsCounted item q (inside, counted) =
    let e = drop-append_inside q.head q.queue (item ∷ []) inside in
    (
      (
        omega (arith, length-append q.queue (item ∷ [])),
        rw e (omega (arith, counted, total-append (live q) (item ∷ []))),
      ),
      e,
    )

compact-IsCounted :
    (q : LogQueue) → IsCounted q → IsCounted (compact q) × (live (compact q) ≡ live q)
unfolding compact
compact-IsCounted q c = elim (Bool-cases (ltb 0 q.head && leb (length q.queue) (q.head * 2))) [
  | inl half ↦ rw half ((omega arith, c.1), refl)
  | inr few ↦ rw few (c, refl)
]

-- The live items alone: how many, and their bytes.
abbrev pub Fits : ℕ → ℕ → LogQueue → Type 0
Fits bytes items q = (q.queued_bytes ≤ bytes) × (length (live q) ≤ items)

-- The queue between two calls.
pub record IsWithin (q : LogQueue) : Type 0 where
  pub counted : IsCounted q
  pub fits : Fits max_queued_log_bytes max_queued_log_items q
  pub unmarked : q.dropped ≡ false

length-last_bytes : (n : ℕ) (buf : Chunk) → length (last_bytes n buf) ≤ n
length-last_bytes n buf = omega (arith, length-drop (length buf - n) buf)

-- Room, or an empty queue: either way `extra` more bytes and one more item fit.
roomier-Fits :
    (extra items : ℕ) (q q' : LogQueue)
    → extra ≤ max_queued_log_bytes
    → 0 < items
    → IsRoomier extra items q q'
    → Fits (max_queued_log_bytes - extra) (items - 1) q'
roomier-Fits extra items q q' small some_items r = elim r.enough [
  | inl room ↦ (ground (arith, room), ground (arith, room, length-drop q'.head q'.queue))
  | inr empty ↦
      let none_live : length (live q') ≡ 0 = omega (arith, length-drop q'.head q'.queue) in
      (omega (arith, r.counted, total_none (live q') none_live), omega arith)
]
  where
    total_none : (items : List Chunk) → length items ≡ 0 → total items ≡ 0
    total_none [] e = refl
    total_none (x ∷ xs) e = absurd (omega arith)

-- The last step: the payload goes behind the live items.
push-IsWithin :
    (buf : Chunk) (q : LogQueue)
    → IsCounted q
    → q.dropped ≡ false
    → length buf ≤ max_queued_log_bytes
    → Fits (max_queued_log_bytes - length buf) (max_queued_log_items - 1) q
    → IsWithin (append_item buf (compact q))
      × (live (append_item buf (compact q)) ≡ live q ++ (buf ∷ []))
push-IsWithin buf q c unmarked small (bytes, items) =
    let (cc', same_live) = compact-IsCounted q c in
    let (counted, e) = append_item-IsCounted buf (compact q) cc' in
    let same_bytes : (compact q).queued_bytes ≡ q.queued_bytes = unfold compact in ground arith in
    let same_mark : (compact q).dropped ≡ q.dropped = unfold compact in ground arith in
    let e' : live (append_item buf (compact q)) ≡ live q ++ (buf ∷ []) =
      e ∙ ap (λ t. t ++ (buf ∷ [])) same_live in
    (
      record {
        counted = counted;
        fits = (
          omega (arith, same_bytes, bytes, small),
          rw e' (omega (arith, length-append (live q) (buf ∷ []), items)),
        );
        unmarked = same_mark ∙ unmarked;
      },
      e',
    )

-- What a payload becomes in the queue: its last bytes behind the live items, or, when the queue
-- runs over, behind the marker and the items that are left.
abbrev pub Grows : Chunk → LogQueue → LogQueue → Type 0
Grows p q q' =
    (live q' ≡ live q ++ (last_bytes max_queued_log_bytes p ∷ []))
    ⊎ ((gone : ℕ) × (live q'
          ≡ drop gone (live q)
            ++ (dropped_log_marker
                ∷ last_bytes (max_queued_log_bytes - length dropped_log_marker)
                    (last_bytes max_queued_log_bytes p)
                ∷ [])))

drop-drop : (m n : ℕ) (xs : List Chunk) → (k : ℕ) × (drop m (drop n xs) ≡ drop k xs)
drop-drop m zero xs = (m, refl)
drop-drop zero (suc n) [] = (0, refl)
drop-drop (suc m) (suc n) [] = (0, refl)
drop-drop m (suc n) (x ∷ xs) = let (k, e) = drop-drop m n xs in (suc k, e)

module _ (p : Chunk) (q : LogQueue) (v : IsWithin q) where
  abbrev buf : Chunk
  buf = last_bytes max_queued_log_bytes p

  abbrev roomy : LogQueue
  roomy = make_room (length q.queue) true (length buf) max_queued_log_items q

  first_loop : IsRoomier (length buf) max_queued_log_items q roomy
  first_loop =
      make_room-IsRoomier (length q.queue) true (length buf) max_queued_log_items q v.counted
        (omega arith)

  quiet-IsWithin :
      roomy.dropped ≡ false
      → IsWithin (append_item buf (compact roomy)) × Grows p q (append_item buf (compact roomy))
  quiet-IsWithin h =
      let small = length-last_bytes max_queued_log_bytes p in
      let (within, e) =
        push-IsWithin buf roomy first_loop.counted h small
          (roomier-Fits (length buf) max_queued_log_items q roomy small (omega arith) first_loop) in
      (
        within,
        inl (
            e
            ∙ ap (λ s. live s ++ (buf ∷ []))
                (make_room_quiet (length q.queue) (length buf) max_queued_log_items q h)),
      )

  abbrev short : Chunk
  short = last_bytes (max_queued_log_bytes - length dropped_log_marker) buf

  abbrev roomier : LogQueue
  roomier =
      make_room (length roomy.queue) false (length dropped_log_marker + length short)
        (max_queued_log_items - 1) roomy

  abbrev marked : LogQueue
  marked = record (append_item dropped_log_marker roomier) { dropped = false }

  second_loop :
      IsRoomier (length dropped_log_marker + length short) (max_queued_log_items - 1) roomy roomier
  second_loop = make_room-IsRoomier _ false _ _ roomy first_loop.counted (omega arith)

  marked-IsWithin :
      IsWithin (append_item short (compact marked)) × Grows p q (append_item short (compact marked))
  marked-IsWithin =
      let small : length short ≤ max_queued_log_bytes - length dropped_log_marker =
        length-last_bytes (max_queued_log_bytes - length dropped_log_marker) buf in
      let (bytes, items) =
        roomier-Fits _ _ roomy roomier (omega (arith, small)) (omega arith) second_loop in
      let (counted, e) = append_item-IsCounted dropped_log_marker roomier second_loop.counted in
      let (within, e') = push-IsWithin short marked counted refl (omega (arith, small)) (
        omega (arith, bytes, small),
        rw e (omega (arith, items, length-append (live roomier) (dropped_log_marker ∷ []))),
      ) in
      let (gone, dropped) = drop-drop second_loop.gone first_loop.gone (live q) in
      let left : live roomier ≡ drop gone (live q) =
        second_loop.live_is ∙ ap (drop second_loop.gone) first_loop.live_is ∙ dropped in
      (
        within,
        inr (
          gone,
          e'
              ∙ ap (λ t. t ++ (short ∷ [])) e
              ∙ append_assoc (live roomier) (dropped_log_marker ∷ []) (short ∷ [])
              ∙ ap (λ t. t ++ (dropped_log_marker ∷ short ∷ [])) left,
        ),
      )

  enqueue_open-Grows : IsWithin (enqueue_open p q) × Grows p q (enqueue_open p q)
  unfolding enqueue_open add_marker
  enqueue_open-Grows = elim (Bool-cases roomy.dropped) [
    | inl over ↦ simp over marked-IsWithin
    | inr quiet ↦ simp quiet (quiet-IsWithin quiet)
  ]

-- Between calls the queue holds at most `maxQueuedLogItems` live items of at most
-- `maxQueuedLogBytes` bytes together, its counter is their size, and every `Enqueue` keeps that.
pub enqueue-IsWithin : (p : Chunk) (q : LogQueue) → IsWithin q → IsWithin (enqueue p q)
unfolding enqueue
enqueue-IsWithin p q v = elim (Bool-cases (length p == 0 || q.closed)) [
  | inl skip ↦ rw skip v
  | inr go ↦ rw go (enqueue_open-Grows p q v).0
]

-- A payload that an open queue takes is the last live item, behind the old ones or, when the
-- limits are met, behind a marker and the newest of them.
pub enqueue-Grows :
    (p : Chunk) (q : LogQueue)
    → IsWithin q
    → q.closed ≡ false
    → 0 < length p
    → Grows p q (enqueue p q)
unfolding enqueue
enqueue-Grows p q v running some_bytes =
    let go : (length p == 0 || q.closed) ≡ false = ground arith in
    rw go (enqueue_open-Grows p q v).1
