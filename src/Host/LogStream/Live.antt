-- ===== src/Host/LogStream/Live.antt =====
-- The items of the queue that are not spent.
use rmtx.Base.{
  ℕ, zero, suc, ◌+◌, ◌≤◌, ◌<◌, ◌≡◌, ◌⊎◌, refl, sym, ap, ◌∙◌, Bool, false, ◌&&◌, List, [], ◌∷◌, ◌++◌,
  ltb, Bool-cases, inl, inr, arith, length, drop, set, length-set,
}
use rmtx.Host.LogStream.{Chunk, LogQueue, slot, drop_oldest, is_full, make_room}

abbrev pub live : LogQueue → List Chunk
live q = drop q.head q.queue

abbrev pub total : List Chunk → ℕ
total [] = 0
total (item ∷ items) = length item + total items

pub total-append : (xs ys : List Chunk) → total (xs ++ ys) ≡ total xs + total ys
total-append [] ys = omega arith
total-append (x ∷ xs) ys = omega (arith, total-append xs ys)

-- The head lies in the queue, and the counter is the size of what is live.
abbrev pub IsCounted : LogQueue → Type 0
IsCounted q = (q.head ≤ length q.queue) × (q.queued_bytes ≡ total (live q))

pub drop-slot :
    (queue : List Chunk) (i : ℕ)
    → i < length queue
    → drop i queue ≡ slot queue i ∷ drop (suc i) queue
drop-slot [] i h = absurd (omega arith)
drop-slot (item ∷ queue) zero h = refl
drop-slot (item ∷ queue) (suc i) h = drop-slot queue i (omega arith)

pub drop-set :
    (queue : List Chunk) (i : ℕ) (item : Chunk)
    → drop (suc i) (set queue i item) ≡ drop (suc i) queue
drop-set [] i item = refl
drop-set (x ∷ queue) zero item = refl
drop-set (x ∷ queue) (suc i) item = drop-set queue i item

pub drop-append_inside :
    (n : ℕ) (xs ys : List Chunk) → n ≤ length xs → drop n (xs ++ ys) ≡ drop n xs ++ ys
drop-append_inside zero xs ys h = refl
drop-append_inside (suc n) [] ys h = absurd (omega arith)
drop-append_inside (suc n) (x ∷ xs) ys h = drop-append_inside n xs ys (omega arith)

pub drop_oldest-live :
    (mark : Bool) (q : LogQueue)
    → q.head < length q.queue
    → live q ≡ slot q.queue q.head ∷ live (drop_oldest mark q)
unfolding drop_oldest
drop_oldest-live mark q h =
    drop-slot q.queue q.head h
    ∙ ap (λ t. slot q.queue q.head ∷ t) (sym (drop-set q.queue q.head []))

pub drop_oldest-IsCounted :
    (mark : Bool) (q : LogQueue)
    → q.head < length q.queue
    → IsCounted q
    → IsCounted (drop_oldest mark q)
unfolding drop_oldest
drop_oldest-IsCounted mark q h (inside, counted) =
    let e : total (live q) ≡ total (slot q.queue q.head ∷ live (drop_oldest mark q)) =
      ap total (drop_oldest-live mark q h) in
    (omega (arith, length-set q.queue q.head []), omega (arith, e, counted))

-- What making room does: some of the oldest live items go, the counter stays right, and there is
-- room, or nothing is left.
pub record IsRoomier (extra items : ℕ) (q q' : LogQueue) : Type 0 where
  pub counted : IsCounted q'
  pub same_length : length q'.queue ≡ length q.queue
  pub gone : ℕ
  pub live_is : live q' ≡ drop gone (live q)
  pub enough : (is_full extra items q' ≡ false) ⊎ (q'.head ≡ length q'.queue)
  pub still_closed : q'.closed ≡ q.closed

pub make_room-IsRoomier :
    (fuel : ℕ) (mark : Bool) (extra items : ℕ) (q : LogQueue)
    → IsCounted q
    → length q.queue ≤ fuel + q.head
    → IsRoomier extra items q (make_room fuel mark extra items q)
unfolding make_room
make_room-IsRoomier zero mark extra items q c h = record {
  counted = c;
  same_length = refl;
  gone = 0;
  live_is = refl;
  enough = inr (omega (arith, c));
  still_closed = refl;
}
make_room-IsRoomier (suc fuel) mark extra items q c h =
    elim (Bool-cases (is_full extra items q && ltb q.head (length q.queue))) [
      | inr roomy ↦ rw roomy (record {
        counted = c;
        same_length = refl;
        gone = 0;
        live_is = refl;
        enough = elim (Bool-cases (is_full extra items q)) [
          | inl full ↦ inr (ground (arith, c))
          | inr fits ↦ inl fits
        ];
        still_closed = refl;
      })
      | inl more ↦
          let inside : q.head < length q.queue = ground arith in
          let q' = drop_oldest mark q in
          let same : length q'.queue ≡ length q.queue =
            unfold drop_oldest in length-set q.queue q.head [] in
          let r =
            make_room-IsRoomier fuel mark extra items q' (drop_oldest-IsCounted mark q inside c)
              (unfold drop_oldest in omega (arith, length-set q.queue q.head [])) in
          rw more (record {
            counted = r.counted;
            same_length = r.same_length ∙ same;
            gone = suc r.gone;
            live_is = r.live_is ∙ sym (ap (drop (suc r.gone)) (drop_oldest-live mark q inside));
            enough = r.enough;
            still_closed = r.still_closed ∙ (unfold drop_oldest in refl);
          })
    ]
