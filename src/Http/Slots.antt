-- ===== src/Http/Slots.antt =====
-- sse_reserve, sse_acquire and handler_stream of src/http.c: the slots of the live dashboards. The
-- workers run at the same time; a step is one atomic operation of one of them.
pub mod Limit
use minimoni.Prelude.{
  List, [], get_elem?, if◌then◌else◌, ltb, replicate, set, some, ℕ, ◌+◌, ◌-◌, ◌/◌, ◌<◌, ◌∷◌, ◌≡◌,
  ◌≤◌,
}

unfoldable pub sse_reserve : ℕ → ℕ
sse_reserve max_dashboards =
    let reserve = max_dashboards / 16 in if ltb 2 reserve then reserve else 2

-- Where a worker is: outside handler_stream, in sse_acquire with the value of `active` that it last
-- read, or in stream_loop with a slot.
pub data Worker : Type 0 where
  outside : Worker
  acquiring : ℕ → Worker
  streaming : Worker

pub record Slots : Type 0 where
  pub sse_active : ℕ
  pub workers : List Worker

abbrev pub move : Slots → ℕ → ℕ → Worker → Slots
move s i active w = record { sse_active = active; workers = set s.workers i w }

-- atomic_load; a refusal, which answers 503; the exchange, which succeeds only on the value that was
-- read; its failure, also a spurious one, which reads the value again; and atomic_fetch_sub.
pub data Step (max : ℕ) : Slots → Slots → Type 0 where
  loads :
      (s : Slots) (i : ℕ)
      → get_elem? s.workers i ≡ some outside
      → Step max s (move s i s.sse_active (acquiring s.sse_active))
  refuses :
      (s : Slots) (i active : ℕ)
      → get_elem? s.workers i ≡ some (acquiring active)
      → max ≤ active
      → Step max s (move s i s.sse_active outside)
  takes :
      (s : Slots) (i active : ℕ)
      → get_elem? s.workers i ≡ some (acquiring active)
      → active < max
      → s.sse_active ≡ active
      → Step max s (move s i (active + 1) streaming)
  reloads :
      (s : Slots) (i active : ℕ)
      → get_elem? s.workers i ≡ some (acquiring active)
      → active < max
      → Step max s (move s i s.sse_active (acquiring s.sse_active))
  leaves :
      (s : Slots) (i : ℕ)
      → get_elem? s.workers i ≡ some streaming
      → Step max s (move s i (s.sse_active - 1) outside)

pub data Steps (max : ℕ) : Slots → Slots → Type 0 where
  stays : (s : Slots) → Steps max s s
  goes : (s t u : Slots) → Step max s t → Steps max t u → Steps max s u

-- http_start: as many workers as dashboards, and the reserve.
abbrev pub http_start : ℕ → Slots
http_start max = record { sse_active = 0; workers = replicate (max + sse_reserve max) outside }

abbrev pub weight : Worker → ℕ
weight outside = 0
weight (acquiring active) = 0
weight streaming = 1

-- The workers that hold a slot.
pub streams : List Worker → ℕ
streams [] = 0
streams (w ∷ ws) = weight w + streams ws
