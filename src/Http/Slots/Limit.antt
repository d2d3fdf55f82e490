-- ===== src/Http/Slots/Limit.antt =====
-- The limit on the live dashboards of src/http.c, when the workers interleave.
use minimoni.Prelude.{
  List, Option, [], ap, arith, get_elem?, length, length-replicate, length-set, none, refl,
  replicate, set, some, suc, sym, zero, ℕ, ◌+◌, ◌∙◌, ◌∷◌, ◌≡◌, ◌≤◌,
}
use minimoni.Http.Slots.{
  Slots, Step, Steps, Worker, acquiring, goes, http_start, leaves, loads, outside, refuses, reloads,
  sse_reserve, stays, streaming, streams, takes, weight,
}

abbrev weight_of : Option Worker → ℕ
weight_of none = 0
weight_of (some w) = weight w

streams-set :
    (ws : List Worker) (i : ℕ) (old new : Worker)
    → get_elem? ws i ≡ some old
    → streams (set ws i new) + weight old ≡ streams ws + weight new
unfolding streams
streams-set [] i old new h = cc
streams-set (w ∷ ws) zero old new h =
    let same : weight w ≡ weight old = ap weight_of h in omega arith
streams-set (w ∷ ws) (suc i) old new h = omega (arith, streams-set ws i old new h)

streams_at :
    (ws : List Worker) (i : ℕ) (old : Worker) → get_elem? ws i ≡ some old → weight old ≤ streams ws
unfolding streams
streams_at [] i old h = cc
streams_at (w ∷ ws) zero old h = let same : weight w ≡ weight old = ap weight_of h in omega arith
streams_at (w ∷ ws) (suc i) old h = omega (arith, streams_at ws i old h)

-- The counter is the number of streams, and within the limit; no worker comes or goes.
abbrev IsSlots : ℕ → ℕ → Slots → Type 0
IsSlots max pool s =
    (s.sse_active ≡ streams s.workers) × (s.sse_active ≤ max) × (length s.workers ≡ pool)

Step-IsSlots : (max pool : ℕ) (s t : Slots) → Step max s t → IsSlots max pool s → IsSlots max pool t
Step-IsSlots max pool _ _ (loads s i h) inv =
    let moved = streams-set s.workers i outside (acquiring s.sse_active) h in
    (omega arith, inv.1, length-set s.workers i (acquiring s.sse_active) ∙ inv.2)
Step-IsSlots max pool _ _ (refuses s i active h full) inv =
    let moved = streams-set s.workers i (acquiring active) outside h in
    (omega arith, inv.1, length-set s.workers i outside ∙ inv.2)
Step-IsSlots max pool _ _ (takes s i active h free same) inv =
    let moved = streams-set s.workers i (acquiring active) streaming h in
    (omega arith, omega arith, length-set s.workers i streaming ∙ inv.2)
Step-IsSlots max pool _ _ (reloads s i active h free) inv =
    let moved = streams-set s.workers i (acquiring active) (acquiring s.sse_active) h in
    (omega arith, inv.1, length-set s.workers i (acquiring s.sse_active) ∙ inv.2)
Step-IsSlots max pool _ _ (leaves s i h) inv =
    let moved = streams-set s.workers i streaming outside h in
    let held = streams_at s.workers i streaming h in
    (omega arith, omega arith, length-set s.workers i outside ∙ inv.2)

Steps-IsSlots :
    (max pool : ℕ) (s t : Slots) → Steps max s t → IsSlots max pool s → IsSlots max pool t
Steps-IsSlots max pool _ _ (stays s) inv = inv
Steps-IsSlots max pool _ _ (goes s t u step rest) inv =
    Steps-IsSlots max pool t u rest (Step-IsSlots max pool s t step inv)

streams-outside : (n : ℕ) → streams (replicate n outside) ≡ 0
unfolding streams
streams-outside zero = refl
streams-outside (suc n) = omega (arith, streams-outside n)

start-IsSlots : (max : ℕ) → IsSlots max (max + sse_reserve max) (http_start max)
start-IsSlots max = (
  sym (streams-outside (max + sse_reserve max)),
  omega arith,
  length-replicate (max + sse_reserve max) outside,
)

-- From the start of the server on, however the workers interleave and whatever exchanges fail, the
-- counter is the number of streams, at most max_dashboards workers stream, and at least two of the
-- pool do not.
pub streams_limit :
    (max : ℕ) (s : Slots)
    → Steps max (http_start max) s
    → (s.sse_active ≡ streams s.workers)
      × (streams s.workers ≤ max)
      × (streams s.workers + 2 ≤ length s.workers)
unfolding sse_reserve
streams_limit max s steps =
    let inv =
      Steps-IsSlots max (max + sse_reserve max) (http_start max) s steps (start-IsSlots max) in
    (inv.0, omega arith, ground arith)
