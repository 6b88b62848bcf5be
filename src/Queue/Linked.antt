-- ===== src/Queue/Linked.antt =====
-- What the links of a list of requests look like, and what they are when one is taken out.
use yabwf.Prelude.{
  ℕ, ◌≡◌, refl, ap, ◌∙◌, true, false, Option, none, some, List, [], ◌∷◌, ◌++◌, ◌==◌, if◌then◌else◌,
  All, All-append_left, All-append_right, arith,
}
use yabwf.Queue.{Heap, is_at, dequeue}

abbrev pub first : List ℕ → Option ℕ
first [] = none
first (x ∷ xs) = some x

-- The last element, or what stands in front of the list.
abbrev pub last_of : Option ℕ → List ℕ → Option ℕ
last_of p [] = p
last_of p (x ∷ xs) = last_of (some x) xs

-- The requests of the list are linked in its order, behind `p`.
abbrev pub IsLinked : Heap → Option ℕ → List ℕ → Type 0
IsLinked heap p [] = Unit
IsLinked heap p (x ∷ xs) =
    (heap x ≡ record { next = first xs; prev = p }) × IsLinked heap (some x) xs

-- The request, if there is one, is not in the list.
abbrev pub IsAway : Option ℕ → List ℕ → Type 0
IsAway p = All (λ y. is_at p y ≡ false)

abbrev pub IsUnique : List ℕ → Type 0
IsUnique [] = Unit
IsUnique (x ∷ xs) = IsAway (some x) xs × IsUnique xs

-- Links that are the same in the list make no difference.
pub IsLinked-frame :
    (heap heap' : Heap) (p : Option ℕ) (xs : List ℕ)
    → All (λ x. heap' x ≡ heap x) xs
    → IsLinked heap p xs
    → IsLinked heap' p xs
IsLinked-frame heap heap' p [] same h = tt
IsLinked-frame heap heap' p (x ∷ xs) (same_x, same) (linked, h) =
    (same_x ∙ linked, IsLinked-frame heap heap' (some x) xs same h)

pub linked_at :
    (heap : Heap) (p : Option ℕ) (before : List ℕ) (x : ℕ) (behind : List ℕ)
    → IsLinked heap p (before ++ x ∷ behind)
    → heap x ≡ record { next = first behind; prev = last_of p before }
linked_at heap p [] x behind (linked, h) = linked
linked_at heap p (a ∷ before) x behind (linked, h) = linked_at heap (some a) before x behind h

-- The links behind taking out `x`, which stands between `l` and `f`.
abbrev pub unlinked : Heap → ℕ → (l f : Option ℕ) → Heap
unlinked heap x l f y = if y == x then record { next = none; prev = none } else record {
  next = if is_at l y then f else (heap y).next;
  prev = if is_at f y then l else (heap y).prev;
}

apart : (a b : ℕ) → is_at (some a) b ≡ false → (b == a) ≡ false
apart a b h = ground arith

pub dequeue-unlinked :
    (head : Option ℕ) (x : ℕ) (heap : Heap) (l f : Option ℕ) (y : ℕ)
    → heap x ≡ record { next = f; prev = l }
    → is_at l x ≡ false
    → is_at f x ≡ false
    → (dequeue head x heap).1 y ≡ unlinked heap x l f y
unfolding dequeue
dequeue-unlinked head x heap none none y h hl hf = rw (h, h) refl
dequeue-unlinked head x heap none (some f) y h hl hf = rw h (ground arith)
dequeue-unlinked head x heap (some l) none y h hl hf = rw (h, apart l x hl) (ground arith)
dequeue-unlinked head x heap (some l) (some f) y h hl hf = rw (h, apart l x hl) (ground arith)

pub unlinked_same :
    (heap : Heap) (x : ℕ) (l f : Option ℕ) (y : ℕ)
    → is_at (some x) y ≡ false
    → is_at l y ≡ false
    → is_at f y ≡ false
    → unlinked heap x l f y ≡ heap y
unlinked_same heap x l f y hx hl hf =
    let differ : (y == x) ≡ false = ground arith in rw (differ, hl, hf) refl

unlinked_same-All :
    (heap : Heap) (x : ℕ) (l f : Option ℕ) (ys : List ℕ)
    → IsAway (some x) ys
    → IsAway l ys
    → IsAway f ys
    → All (λ y. unlinked heap x l f y ≡ heap y) ys
unlinked_same-All heap x l f [] hx hl hf = tt
unlinked_same-All heap x l f (y ∷ ys) (hx, hxs) (hl, hls) (hf, hfs) =
    (unlinked_same heap x l f y hx hl hf, unlinked_same-All heap x l f ys hxs hls hfs)

pub is_at_sym : (a b : ℕ) → is_at (some a) b ≡ false → is_at (some b) a ≡ false
is_at_sym a b h = ground arith

pub first-IsAway : (a : ℕ) (xs : List ℕ) → IsAway (some a) xs → is_at (first xs) a ≡ false
first-IsAway a [] h = refl
first-IsAway a (x ∷ xs) (h, _) = is_at_sym a x h

pub last-IsAway :
    (a c : ℕ) (xs : List ℕ) → IsAway (some a) (c ∷ xs) → is_at (last_of (some c) xs) a ≡ false
last-IsAway a c [] (h, _) = is_at_sym a c h
last-IsAway a c (x ∷ xs) (_, h) = last-IsAway a x xs h

-- Taking out the first one.
unlinked_first :
    (heap : Heap) (p : Option ℕ) (x : ℕ) (behind : List ℕ)
    → IsLinked heap (some x) behind
    → IsAway (some x) behind
    → IsUnique behind
    → IsAway p behind
    → IsLinked (unlinked heap x p (first behind)) p behind
unlinked_first heap p x [] h away unique hp = tt
unlinked_first heap p x (b ∷ bs) (linked, h) (away, aways) (fresh, unique) (hp, hps) =
    let differ : (b == x) ≡ false = ground arith in
    let itself : (b == b) ≡ true = ground arith in
    (
      rw (differ, hp, itself) (ap (λ links. record { next = links.next; prev = p }) linked),
      IsLinked-frame heap _ (some b) bs (unlinked_same-All heap x p (some b) bs aways hps fresh) h,
    )

pub unlinked-IsLinked :
    (heap : Heap) (p : Option ℕ) (before : List ℕ) (x : ℕ) (behind : List ℕ)
    → IsLinked heap p (before ++ x ∷ behind)
    → IsUnique (before ++ x ∷ behind)
    → IsAway p (before ++ x ∷ behind)
    → IsLinked (unlinked heap x (last_of p before) (first behind)) p (before ++ behind)
unlinked-IsLinked heap p [] x behind (linked, h) (away, unique) (hp, hps) =
    unlinked_first heap p x behind h away unique hps
unlinked-IsLinked heap p (a ∷ []) x behind (linked, h) ((ax, away), unique) (hp, hps) =
    let itself : (a == a) ≡ true = ground arith in
    (
      rw (ax, itself, first-IsAway a behind away)
          (ap (λ links. record { next = first behind; prev = links.prev }) linked),
      unlinked-IsLinked heap (some a) [] x behind h unique (ax, away),
    )
unlinked-IsLinked heap p (a ∷ c ∷ before) x behind (linked, h) (away, unique) (hp, hps) = (
  unlinked_same heap x _ (first behind) a
        (is_at_sym a x (All-append_right _ (c ∷ before) (x ∷ behind) away).0)
        (last-IsAway a c before (All-append_left _ (c ∷ before) (x ∷ behind) away))
        (first-IsAway a behind (All-append_right _ (c ∷ before) (x ∷ behind) away).1)
      ∙ linked,
  unlinked-IsLinked heap (some a) (c ∷ before) x behind h unique away,
)

pub last_apart :
    (p : Option ℕ) (before : List ℕ) (x : ℕ) (behind : List ℕ)
    → IsUnique (before ++ x ∷ behind)
    → is_at p x ≡ false
    → is_at (last_of p before) x ≡ false
last_apart p [] x behind unique h = h
last_apart p (a ∷ before) x behind (away, unique) h =
    last_apart (some a) before x behind unique (All-append_right _ before (x ∷ behind) away).0

pub first_apart :
    (before : List ℕ) (x : ℕ) (behind : List ℕ)
    → IsUnique (before ++ x ∷ behind)
    → is_at (first behind) x ≡ false
first_apart [] x behind (away, unique) = first-IsAway x behind away
first_apart (a ∷ before) x behind (away, unique) = first_apart before x behind unique

pub none-IsAway : (xs : List ℕ) → IsAway none xs
none-IsAway [] = tt
none-IsAway (x ∷ xs) = (refl, none-IsAway xs)
