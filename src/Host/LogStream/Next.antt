-- ===== src/Host/LogStream/Next.antt =====
-- What `next` takes from the queue, and what the writer's loop keeps.
use rmtx.Base.{
  if◌then◌else◌, not, ◌||◌, ℕ, zero, suc, ◌≤◌, ◌<◌, ◌≡◌, refl, sym, ap, ◌∙◌, Bool, true, false,
  Option, none, some, List, [], ◌∷◌, ◌==◌, Bool-cases, inl, inr, arith, length, drop, set,
  length-set,
}
use rmtx.Host.LogStream.{LogQueue, slot, Chunk, take_item, recycle, next_item, written}
use rmtx.Host.LogStream.Live.{live, total, drop-slot, drop-set}
use rmtx.Host.LogStream.Enqueue.{IsWithin}

pub drop_all : {A : Type 0} (n : ℕ) (xs : List A) → length xs ≤ n → drop n xs ≡ []
drop_all zero [] h = refl
drop_all zero (x ∷ xs) h = absurd (omega arith)
drop_all (suc n) [] h = refl
drop_all (suc n) (x ∷ xs) h = drop_all n xs (omega arith)

-- What `next` answers on live items.
abbrev pub Taken : List Chunk → Option Chunk → List Chunk → Type 0
Taken items none items' = (items ≡ []) × (items' ≡ [])
Taken items (some item) items' = items ≡ item ∷ items'

recycle-IsWithin : (q : LogQueue) → IsWithin q → IsWithin (recycle q) × (live (recycle q) ≡ live q)
unfolding recycle
recycle-IsWithin q v = elim (Bool-cases (q.head == length q.queue)) [
  | inl spent ↦
      let e = drop_all q.head q.queue (ground (arith, spent)) in
      simp spent (
        record {
          counted = (omega arith, v.counted.1 ∙ ap total e);
          fits = (v.fits.0, omega arith);
          unmarked = v.unmarked;
        },
        sym e,
      )
  | inr more ↦ simp more (v, refl)
]

take_item-IsWithin :
    (q : LogQueue)
    → q.head < length q.queue
    → IsWithin q
    → IsWithin (take_item q) × (live q ≡ slot q.queue q.head ∷ live (take_item q))
unfolding take_item
take_item-IsWithin q inside v =
    let e : live q ≡ slot q.queue q.head ∷ drop (suc q.head) (set q.queue q.head []) =
      drop-slot q.queue q.head inside
      ∙ ap (λ t. slot q.queue q.head ∷ t) (sym (drop-set q.queue q.head [])) in
    let size = ap total e in
    let count = ap length e in
    (
      record {
        counted = (omega (arith, length-set q.queue q.head []), omega (arith, size, v.counted));
        fits = (omega (arith, v.fits), omega (arith, v.fits, count));
        unmarked = v.unmarked;
      },
      e,
    )

-- `next` takes the oldest live item and leaves the others, and answers none only when there is no
-- live item; both keep the limits.
pub next_item-Taken :
    (q : LogQueue)
    → IsWithin q
    → IsWithin (next_item q).1 × Taken (live q) (next_item q).0 (live (next_item q).1)
unfolding next_item
next_item-Taken q v = elim (Bool-cases (q.head == length q.queue)) [
  | inl empty ↦ let e = drop_all q.head q.queue (ground (arith, empty)) in simp empty (v, (e, e))
  | inr more ↦
      let (taken, e) = take_item-IsWithin q (ground (arith, more, v.counted)) v in
      let (clean, same) = recycle-IsWithin (take_item q) taken in
      simp more (clean, e ∙ ap (λ t. slot q.queue q.head ∷ t) (sym same))
]

-- A write that succeeds leaves all live items, and one that fails leaves none and closes the queue;
-- both keep the limits.
pub written-IsWithin :
    (done : Bool) (q : LogQueue)
    → IsWithin q
    → IsWithin (written done q)
      × (live (written done q) ≡ (if done then live q else []))
      × ((written done q).closed ≡ (not done || q.closed))
unfolding written
written-IsWithin true q v =
    (record { counted = v.counted; fits = v.fits; unmarked = v.unmarked }, refl, refl)
written-IsWithin false q v = (
  record {
    counted = (omega arith, refl);
    fits = (omega arith, omega arith);
    unmarked = v.unmarked;
  },
  refl,
  refl,
)
