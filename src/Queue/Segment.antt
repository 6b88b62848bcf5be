-- ===== src/Queue/Segment.antt =====
-- Queues, and that dequeue and enqueue of src/queue.c keep them.
use yabwf.Prelude.{
  ℕ, ◌≡◌, refl, ap, ◌∙◌, true, false, Option, none, some, List, [], ◌∷◌, ◌++◌, ◌==◌, All,
  All-append_left, All-append_right, All-append, arith,
}
use yabwf.Queue.{Links, Heap, update, set_prev, is_at, dequeue, enqueue}
use yabwf.Queue.Linked.{
  first, last_of, IsLinked, IsAway, IsUnique, IsLinked-frame, linked_at, unlinked, dequeue-unlinked,
  unlinked_same, is_at_sym, first-IsAway, last-IsAway, unlinked-IsLinked, last_apart, first_apart,
  none-IsAway,
}

-- A queue: its head and the links.
abbrev pub IsQueue : Option ℕ → Heap → List ℕ → Type 0
IsQueue head heap xs = (head ≡ first xs) × IsLinked heap none xs × IsUnique xs

All-same :
    (heap heap' : Heap)
    → ((y : ℕ) → heap' y ≡ heap y)
    → (xs : List ℕ) → All (λ y. heap' y ≡ heap y) xs
All-same heap heap' h [] = tt
All-same heap heap' h (x ∷ xs) = (h x, All-same heap heap' h xs)

IsUnique-without :
    (before : List ℕ) (x : ℕ) (behind : List ℕ)
    → IsUnique (before ++ x ∷ behind)
    → IsUnique (before ++ behind)
IsUnique-without [] x behind (_, unique) = unique
IsUnique-without (a ∷ before) x behind (away, unique) = (
  All-append _ before behind (All-append_left _ before (x ∷ behind) away)
      (All-append_right _ before (x ∷ behind) away).1,
  IsUnique-without before x behind unique,
)

head_without :
    (before : List ℕ) (x : ℕ) (behind : List ℕ) (heap : Heap)
    → IsLinked heap none (before ++ x ∷ behind)
    → IsUnique (before ++ x ∷ behind)
    → (dequeue (first (before ++ x ∷ behind)) x heap).0 ≡ first (before ++ behind)
unfolding dequeue
head_without [] x behind heap (linked, h) unique =
    let itself : (x == x) ≡ true = ground arith in rw itself (ap (λ links. links.next) linked)
head_without (a ∷ before) x behind heap h (away, unique) =
    let differ : (a == x) ≡ false = (All-append_right _ before (x ∷ behind) away).0 in
    rw differ refl

none_or_last : (y : ℕ) (xs : List ℕ) → IsAway (some y) xs → is_at (last_of none xs) y ≡ false
none_or_last y [] away = refl
none_or_last y (x ∷ xs) away = last-IsAway y x xs away

-- A request taken out of the queue that it stands in leaves the others in their order; its own links
-- become null, and those of requests in other queues stay.
pub dequeue-IsQueue :
    (head : Option ℕ) (heap : Heap) (before : List ℕ) (x : ℕ) (behind : List ℕ)
    → IsQueue head heap (before ++ x ∷ behind)
    → IsQueue (dequeue head x heap).0 (dequeue head x heap).1 (before ++ behind)
      × ((y : ℕ) → IsAway (some y) (before ++ x ∷ behind) → (dequeue head x heap).1 y ≡ heap y)
dequeue-IsQueue head heap before x behind (at_head, linked, unique) =
    let l = last_of none before in
    let here = linked_at heap none before x behind linked in
    let hl = last_apart none before x behind unique refl in
    let hf = first_apart before x behind unique in
    let same : (y : ℕ) → (dequeue head x heap).1 y ≡ unlinked heap x l (first behind) y =
      λ y. dequeue-unlinked head x heap l (first behind) y here hl hf in
    (
      (
        ap (λ h. (dequeue h x heap).0) at_head ∙ head_without before x behind heap linked unique,
        IsLinked-frame _ _ none (before ++ behind) (All-same _ _ same (before ++ behind)) (
            unlinked-IsLinked heap none before x behind linked unique
              (none-IsAway (before ++ x ∷ behind))),
        IsUnique-without before x behind unique,
      ),
      λ y away.
          let rest = All-append_right _ before (x ∷ behind) away in
          same y
          ∙ unlinked_same heap x l (first behind) y (is_at_sym y x rest.0)
              (none_or_last y before (All-append_left _ before (x ∷ behind) away))
              (first-IsAway y behind rest.1),
    )

placed_same-All :
    (heap : Heap) (x b : ℕ) (links : Links) (ys : List ℕ)
    → IsAway (some x) ys
    → IsAway (some b) ys
    → All (λ y. update (set_prev heap (some b) (some x)) x links y ≡ heap y) ys
placed_same-All heap x b links [] hx hb = tt
placed_same-All heap x b links (y ∷ ys) (hx, hxs) (hb, hbs) =
    (rw (is_at_sym x y hx, is_at_sym b y hb) refl, placed_same-All heap x b links ys hxs hbs)

-- A request that stands in no place of the queue becomes its first.
pub enqueue-IsQueue :
    (head : Option ℕ) (heap : Heap) (x : ℕ) (xs : List ℕ)
    → IsQueue head heap xs
    → IsAway (some x) xs
    → IsQueue (enqueue head x heap).0 (enqueue head x heap).1 (x ∷ xs)
      × ((y : ℕ) → IsAway (some y) (x ∷ xs) → (enqueue head x heap).1 y ≡ heap y)
unfolding enqueue
enqueue-IsQueue head heap x [] (at_head, linked, unique) away =
    let itself : (x == x) ≡ true = ground arith in
    ((refl, (rw (itself, at_head) refl, tt), (away, unique)), λ y h. rw (at_head, h.0) refl)
enqueue-IsQueue head heap x (b ∷ bs) (at_head, linked, (fresh, unique)) (hx, away) =
    let itself : (x == x) ≡ true = ground arith in
    let differ : (b == x) ≡ false = is_at_sym x b hx in
    let itself' : (b == b) ≡ true = ground arith in
    (
      (
        refl,
        (
          rw (itself, at_head) refl,
          (
            rw (at_head, differ, itself')
                (ap (λ links. record { next = links.next; prev = some x }) linked.0),
            IsLinked-frame heap _ (some b) bs
                (rw at_head
                  (placed_same-All heap x b (record { next = some b; prev = none }) bs away fresh))
                linked.1,
          ),
        ),
        ((hx, away), (fresh, unique)),
      ),
      λ y h. rw (at_head, h.0, h.1.0) refl,
    )
