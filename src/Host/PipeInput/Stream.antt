-- ===== src/Host/PipeInput/Stream.antt =====
-- The queue as the stream of bytes that are waiting.
use rmtx.Base.{
  ℕ, zero, suc, ◌+◌, ◌≤◌, ◌<◌, min, ◌≡◌, refl, sym, ap, ◌∙◌, true, false, ◌||◌, List, [], ◌∷◌, ◌++◌,
  ltb, leb, ◌==◌, Bool-cases, inl, inr, arith, length, take, drop, set, length-set, length-append,
  length-drop, length-take, take-append-drop, append_assoc, append-nil, All, All-append,
}
use mathlib.Core.Path.{subst}
use rmtx.Host.LogStream.{Chunk, slot}
use rmtx.Host.LogStream.Live.{drop-slot, drop-set, drop-append_inside}
use rmtx.Host.LogStream.Next.{drop_all}
use rmtx.Host.PipeInput.{
  PipeInput, Outcome, blocked, ended, done, max_queued_pipe_input_bytes, write_input, spend, reset,
  cut_item, close_input, stop_input, read_item, read_input,
}

abbrev pub items : PipeInput → List Chunk
items q = drop q.head q.queue

abbrev pub flat : List Chunk → Chunk
flat [] = []
flat (x ∷ xs) = x ++ flat xs

-- The bytes that wait to be read.
abbrev pub waiting : PipeInput → Chunk
waiting q = flat (items q)

flat-append : (xs ys : List Chunk) → flat (xs ++ ys) ≡ flat xs ++ flat ys
flat-append [] ys = refl
flat-append (x ∷ xs) ys =
    ap (λ t. x ++ t) (flat-append xs ys) ∙ sym (append_assoc x (flat xs) (flat ys))

drop-set_here :
    (queue : List Chunk) (i : ℕ) (item : Chunk)
    → i < length queue
    → drop i (set queue i item) ≡ item ∷ drop (suc i) queue
drop-set_here [] i item h = absurd (omega arith)
drop-set_here (x ∷ queue) zero item h = refl
drop-set_here (x ∷ queue) (suc i) item h = drop-set_here queue i item (omega arith)

abbrev pub IsFilled : Chunk → Type 0
IsFilled item = 0 < length item

-- The counter is the number of bytes that wait, within the limit, and no item is empty.
pub record IsValid (q : PipeInput) : Type 0 where
  pub inside : q.head ≤ length q.queue
  pub counted : q.queued_bytes ≡ length (waiting q)
  pub bounded : q.queued_bytes ≤ max_queued_pipe_input_bytes
  pub filled : All IsFilled (items q)

push-IsValid :
    (p : Chunk) (q : PipeInput)
    → IsValid q
    → 0 < length p
    → q.queued_bytes + length p ≤ max_queued_pipe_input_bytes
    → IsValid (record q { queue = q.queue ++ (p ∷ []); queued_bytes = q.queued_bytes + length p })
      × (flat (drop q.head (q.queue ++ (p ∷ []))) ≡ waiting q ++ p)
push-IsValid p q v some_bytes fits =
    let here = drop-append_inside q.head q.queue (p ∷ []) v.inside in
    let e : flat (drop q.head (q.queue ++ (p ∷ []))) ≡ waiting q ++ p =
      ap flat here ∙ flat-append (items q) (p ∷ []) ∙ ap (λ t. waiting q ++ t) (append-nil p) in
    (
      record {
        inside = omega (arith, v.inside, length-append q.queue (p ∷ []));
        counted = omega (arith, v.counted, ap length e, length-append (waiting q) p);
        bounded = fits;
        filled = rw here (All-append IsFilled (items q) (p ∷ []) v.filled (some_bytes, tt));
      },
      e,
    )

-- What a write does to the stream.
abbrev pub Wrote : Chunk → PipeInput → Outcome ℕ → PipeInput → Type 0
Wrote p q (done n) q' = (n ≡ length p) × (waiting q' ≡ waiting q ++ p)
Wrote p q blocked q' = (q' ≡ q) × (max_queued_pipe_input_bytes < length (waiting q) + length p)
Wrote p q ended q' = (q' ≡ q) × ((q.closed || q.stopped) ≡ true)

-- A write puts all its bytes behind the stream, or changes nothing: it is refused once the input
-- is closed or stopped, and waits only when the limit would be passed.
pub write_input-Wrote :
    (p : Chunk) (q : PipeInput)
    → IsValid q
    → IsValid (write_input p q).1 × Wrote p q (write_input p q).0 (write_input p q).1
unfolding write_input
write_input-Wrote p q v = elim (Bool-cases (length p == 0)) [
  | inl empty ↦ simp empty (
    v,
    (
      ground (arith, empty),
      sym (append-nil (waiting q))
          ∙ ap (λ t. waiting q ++ t) (sym (drop_all 0 p (ground (arith, empty)))),
    ),
  )
  | inr full ↦ simp full (elim (Bool-cases (q.closed || q.stopped)) [
    | inl over ↦ simp over (v, (refl, refl))
    | inr going ↦
        simp going
          (elim (Bool-cases (ltb max_queued_pipe_input_bytes (q.queued_bytes + length p))) [
            | inl much ↦ simp much (v, (refl, ground (arith, much, v.counted)))
            | inr fits ↦
                let (valid, e) = push-IsValid p q v (ground (arith, full)) (ground (arith, fits)) in
                simp fits (valid, (refl, e))
          ])
  ])
]

spend-IsValid :
    (q : PipeInput)
    → IsValid q
    → q.head < length q.queue
    → IsValid (spend q)
      × (waiting q ≡ slot q.queue q.head ++ waiting (spend q))
      × (0 < length (slot q.queue q.head))
unfolding spend
spend-IsValid q v inside =
    let first = drop-slot q.queue q.head inside in
    let rest = drop-set q.queue q.head [] in
    let e : waiting q ≡ slot q.queue q.head ++ flat (drop (suc q.head) (set q.queue q.head [])) =
      ap flat first ∙ ap (λ t. slot q.queue q.head ++ flat t) (sym rest) in
    let (some_bytes, others) = subst (All IsFilled) first v.filled in
    (
      record {
        inside = omega (arith, inside, length-set q.queue q.head []);
        counted = omega (
          arith,
          v.counted,
          ap length e,
          length-append (slot q.queue q.head) (flat (drop (suc q.head) (set q.queue q.head []))),
        );
        bounded = omega (arith, v.bounded);
        filled = subst (All IsFilled) (sym rest) others;
      },
      e,
      some_bytes,
    )

reset-IsValid : (q : PipeInput) → IsValid q → IsValid (reset q) × (waiting (reset q) ≡ waiting q)
unfolding reset
reset-IsValid q v = elim (Bool-cases (q.head == length q.queue)) [
  | inl spent ↦
      let e = drop_all q.head q.queue (ground (arith, spent)) in
      simp spent (
        record {
          inside = omega arith;
          counted = v.counted ∙ ap (λ t. length (flat t)) e;
          bounded = v.bounded;
          filled = tt;
        },
        ap flat (sym e),
      )
  | inr more ↦ simp more (v, refl)
]

cut_item-IsValid :
    (n : ℕ) (q : PipeInput)
    → IsValid q
    → q.head < length q.queue
    → n < length (slot q.queue q.head)
    → IsValid (cut_item n q) × (waiting q ≡ take n (slot q.queue q.head) ++ waiting (cut_item n q))
unfolding cut_item
cut_item-IsValid n q v inside short =
    let item = slot q.queue q.head in
    let first = drop-slot q.queue q.head inside in
    let here = drop-set_here q.queue q.head (drop n item) inside in
    let e : waiting q ≡ take n item ++ flat (drop q.head (set q.queue q.head (drop n item))) =
      ap flat first
      ∙ ap (λ t. t ++ flat (drop (suc q.head) q.queue)) (sym (take-append-drop n item))
      ∙ append_assoc (take n item) (drop n item) (flat (drop (suc q.head) q.queue))
      ∙ ap (λ t. take n item ++ flat t) (sym here) in
    let (_, others) = subst (All IsFilled) first v.filled in
    (
      record {
        inside = omega (arith, inside, length-set q.queue q.head (drop n item));
        counted = omega (
          arith,
          v.counted,
          ap length e,
          length-take n item,
          length-append (take n item) (flat (drop q.head (set q.queue q.head (drop n item)))),
        );
        bounded = omega (arith, v.bounded);
        filled = subst (All IsFilled) (sym here) (omega (arith, length-drop n item), others);
      },
      e,
    )

-- What a read does to the stream.
abbrev pub Gave : ℕ → PipeInput → Outcome Chunk → PipeInput → Type 0
Gave room q (done bytes) q' =
    (waiting q ≡ bytes ++ waiting q') × (length bytes ≤ room) × (min room 1 ≤ length bytes)
Gave room q blocked q' = (q' ≡ q) × (waiting q ≡ []) × ((q.closed || q.stopped) ≡ false)
Gave room q ended q' = (q' ≡ q) × (waiting q ≡ []) × ((q.closed || q.stopped) ≡ true)

read_item-Gave :
    (room : ℕ) (q : PipeInput)
    → IsValid q
    → 0 < room
    → q.head < length q.queue
    → IsValid (read_item room q).1 × Gave room q (done (read_item room q).0) (read_item room q).1
unfolding read_item
read_item-Gave room q v some_room inside =
    elim (Bool-cases (leb (length (slot q.queue q.head)) room)) [
      | inl whole ↦
          let (spent, e, some_bytes) = spend-IsValid q v inside in
          let (valid, same) = reset-IsValid (spend q) spent in
          simp whole (
            valid,
            (
              e ∙ ap (λ t. slot q.queue q.head ++ t) (sym same),
              ground (arith, whole),
              omega (arith, some_bytes),
            ),
          )
      | inr part ↦
          let (valid, e) = cut_item-IsValid room q v inside (ground (arith, part)) in
          let size = length-take room (slot q.queue q.head) in
          simp part (valid, (e, omega (arith, size), ground (arith, part, size, some_room)))
    ]

-- A read gives the first bytes of the stream, at least one when the buffer has room and at most
-- what it has room for, and leaves the others. It waits, or ends, only when no byte waits: it waits
-- while the input is open and ends once it is closed or stopped.
pub read_input-Gave :
    (room : ℕ) (q : PipeInput)
    → IsValid q
    → IsValid (read_input room q).1 × Gave room q (read_input room q).0 (read_input room q).1
unfolding read_input
read_input-Gave room q v = elim (Bool-cases (room == 0)) [
  | inl small ↦ simp small (v, (refl, omega arith, ground (arith, small)))
  | inr fit ↦ simp fit (elim (Bool-cases (q.head == length q.queue)) [
    | inl empty ↦
        let e = ap flat (drop_all q.head q.queue (ground (arith, empty))) in
        simp empty (elim (Bool-cases (q.closed || q.stopped)) [
          | inl over ↦ simp over (v, (refl, e, refl))
          | inr going ↦ simp going (v, (refl, e, refl))
        ])
    | inr more ↦
        simp more (read_item-Gave room q v (ground (arith, fit)) (ground (arith, more, v.inside)))
  ])
]

-- Closing keeps the bytes that wait, and stopping drops them.
pub close_input-IsValid :
    (q : PipeInput) → IsValid q → IsValid (close_input q) × (waiting (close_input q) ≡ waiting q)
unfolding close_input
close_input-IsValid q v = (
  record { inside = v.inside; counted = v.counted; bounded = v.bounded; filled = v.filled },
  refl,
)

pub stop_input-IsValid : (q : PipeInput) → IsValid q → IsValid (stop_input q)
unfolding stop_input
stop_input-IsValid q v = elim (Bool-cases q.stopped) [
  | inl over ↦ simp over v
  | inr going ↦
      simp going
        (record { inside = omega arith; counted = refl; bounded = omega arith; filled = tt })
]
