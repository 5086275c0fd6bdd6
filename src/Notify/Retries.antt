-- ===== src/Notify/Retries.antt =====
-- internal/notify/notify.go, internal/store/store.go: how often a delivery is put back to be tried again. What
-- the bound rests on: the numbers of the table's rows against the log of retries.
pub mod Claims
pub mod Owing
pub mod Pass
pub mod Round
pub mod Bound
use thornhill.Base.{
  ℕ, zero, suc, ◌+◌, ◌≤◌, ◌<◌, ◌≡◌, ◌≢◌, refl, sym, ◌∙◌, ap, Bool, true, false, not, ◌&&◌, ◌||◌,
  ◌⊎◌, inl, inr, Option, none, some, List, [], ◌∷◌, ◌++◌, ◌==◌, arith, if◌then◌else◌,
}
use thornhill.Store.Outbox.{has_number}
use thornhill.Store.Outbox.Push.{DeliveryRow, PushDelivery}

abbrev pub count : ℕ → List ℕ → ℕ
count k [] = 0
count k (x ∷ xs) = if x == k then count k xs + 1 else count k xs

pub count-append :
    (k x : ℕ) (xs : List ℕ)
    → count k (xs ++ x ∷ []) ≡ (if x == k then count k xs + 1 else count k xs)
count-append k x [] = refl
count-append k x (y ∷ xs) = ground (arith, count-append k x xs)

abbrev pub keys : List PushDelivery → List ℕ
keys [] = []
keys (d ∷ ds) = d.id ∷ keys ds

-- One for a key that still waits in this pass.
abbrev pub due : List ℕ → ℕ → ℕ
due pend k = if has_number k pend then 1 else 0

-- The rows stand in the order of their keys, beyond `b`.
abbrev pub InOrder : ℕ → List DeliveryRow → Type 0
InOrder b [] = Unit {0}
InOrder b (d ∷ rows) = (b < d.id) × InOrder d.id rows

-- Each row was claimed more often than it was put back, strictly while it waits in this pass.
abbrev pub Backed : List ℕ → ℕ → List ℕ → List DeliveryRow → Type 0
Backed c next pend [] = Unit {0}
Backed c next pend (d ∷ rows) =
    (count d.id c + due pend d.id ≤ d.attempts) × (d.id < next) × Backed c next pend rows

-- What still waits in this pass: different keys, each claimed more often than put back.
abbrev pub Waiting : List ℕ → List PushDelivery → Type 0
Waiting c [] = Unit {0}
Waiting c (d ∷ ds) =
    (count d.id c < d.attempts) × (has_number d.id (keys ds) ≡ false) × Waiting c ds

pub Backed-drop :
    (c : List ℕ) (next x : ℕ) (pend : List ℕ) (rows : List DeliveryRow)
    → Backed c next (x ∷ pend) rows
    → Backed c next pend rows
unfolding has_number
Backed-drop c next x pend [] h = tt
Backed-drop c next x pend (d ∷ rows) (n, lt, h) =
    (ground arith, lt, Backed-drop c next x pend rows h)

pub Backed-none :
    (c : List ℕ) (next : ℕ) (pend : List ℕ) (rows : List DeliveryRow)
    → Backed c next pend rows
    → Backed c next [] rows
unfolding has_number
Backed-none c next pend [] h = tt
Backed-none c next pend (d ∷ rows) (n, lt, h) = (ground arith, lt, Backed-none c next pend rows h)

-- A key that waited is put back.
pub Backed-retry :
    (c : List ℕ) (next x : ℕ) (pend : List ℕ) (rows : List DeliveryRow)
    → has_number x pend ≡ false
    → Backed c next (x ∷ pend) rows
    → Backed (c ++ x ∷ []) next pend rows
unfolding has_number
Backed-retry c next x pend [] p h = tt
Backed-retry c next x pend (d ∷ rows) p (n, lt, h) =
    (ground (arith, count-append d.id x c), lt, Backed-retry c next x pend rows p h)

pub Waiting-retry :
    (c : List ℕ) (x : ℕ) (ds : List PushDelivery)
    → has_number x (keys ds) ≡ false
    → Waiting c ds
    → Waiting (c ++ x ∷ []) ds
unfolding has_number
Waiting-retry c x [] p h = tt
Waiting-retry c x (d ∷ ds) p (n, fresh, h) =
    (ground (arith, count-append d.id x c), fresh, Waiting-retry c x ds (ground arith) h)

-- A key below the rows may be added to what waits.
pub Backed-below :
    (c : List ℕ) (next x b : ℕ) (pend : List ℕ) (rows : List DeliveryRow)
    → x ≤ b
    → InOrder b rows
    → Backed c next pend rows
    → Backed c next (x ∷ pend) rows
unfolding has_number
Backed-below c next x b pend [] le o h = tt
Backed-below c next x b pend (d ∷ rows) le (lo, o) (n, lt, h) =
    (ground arith, lt, Backed-below c next x d.id pend rows (omega arith) o h)
