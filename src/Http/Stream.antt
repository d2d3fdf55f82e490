-- ===== src/Http/Stream.antt =====
-- stream_loop of src/http.c. Time is counted in its naps of a second. What it is answered at a time:
-- `stopping t` is ctx->stopping, `has_row t` whether db_current gives a row, `frame_ok t` whether
-- stream_frame can write it, and `keepalive_ok t` whether the comment can be written.
pub mod Ends
use minimoni.Prelude.{
  Bool, List, Option, [], false, if◌then◌else◌, ltb, none, not, some, suc, true, zero, ℕ, ◌%◌, ◌&&◌,
  ◌++◌, ◌+◌, ◌==◌, ◌>>=◌, ◌||◌, ◌∷◌,
}

pub record Client : Type 0 where
  pub stopping : ℕ → Bool
  pub has_row : ℕ → Bool
  pub frame_ok : ℕ → Bool
  pub keepalive_ok : ℕ → Bool

-- What it writes.
pub data Sent : Type 0 where
  frame keepalive : ℕ → Sent

module _ (refresh_seconds keepalive_seconds : ℕ) (client : Client) where
  -- ka_active && i % ka == 0
  abbrev pub is_keepalive : ℕ → Bool
  is_keepalive i =
      (ltb 0 keepalive_seconds && ltb keepalive_seconds refresh_seconds)
      && i % keepalive_seconds == 0

  -- The loop over i, with `left` naps to go, at time t: `false` when the client is gone.
  unfoldable pub wait_from : ℕ → ℕ → ℕ → ℕ × List Sent × Bool
  wait_from zero i t = (t, [], true)
  wait_from (suc left) i t =
      let (end, sent, alive) = wait_from left (i + 1) (t + 1) in
      if client.stopping t
      then (t, [], true)
      else if not (is_keepalive i)
      then (end, sent, alive)
      else if not (client.keepalive_ok (t + 1))
      then (t + 1, [], false)
      else (end, keepalive (t + 1) ∷ sent, alive)

  -- The loop, at most `rounds` times round: the time at which it ends, and what it wrote.
  unfoldable pub stream_from : ℕ → ℕ → Option (ℕ × List Sent)
  stream_from zero t = none
  stream_from (suc rounds) t =
      let (end, sent, alive) = wait_from refresh_seconds 1 t in
      let rest = stream_from rounds end in
      let framed = if client.has_row t then frame t ∷ [] else [] in
      if client.has_row t && not (client.frame_ok t)
      then some (t, [])
      else if not alive || client.stopping end
      then some (end, framed ++ sent)
      else do (stop, later) ← rest; some (stop, framed ++ sent ++ later)
