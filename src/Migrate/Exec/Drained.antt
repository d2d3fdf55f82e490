-- ===== src/Migrate/Exec/Drained.antt =====
-- What drain_both of src/migrate/exec.c captures.
use minimoni.Prelude.{
  Bool, Bool-cases, Bytes, Option, ap, arith, false, false≢true, if-holds, inl, inr, leb, length,
  none, not, refl, some, suc, sym, take, true, zero, ℕ, ◌+◌, ◌-◌, ◌<◌, ◌||◌, ◌∙◌, ◌≡◌, ◌≢◌, ◌≤◌,
  ◌⊎◌,
}
use minimoni.Migrate.Exec.{
  Pipe, Poll, Polled, drain_both, err_ready, interrupted, opened, out_ready, poll_error, some_ready,
}
use minimoni.Migrate.Exec.Sink.{Captures, Holds, captured, read_if-Captures, weight}

-- Of the pipes that are open one is ready.
one_ready :
    (poll : Poll) (out err : Pipe)
    → (out.open_fd || err.open_fd) ≡ true
    → (out_ready poll out err ≡ false)
    → (err_ready poll out err ≡ true)
one_ready poll out err h k = ground arith

still_heavy :
    (out err : Pipe) (k : ℕ)
    → (out.open_fd || err.open_fd) ≡ true
    → k + (weight out + weight err) ≤ 0
    → ⊥
still_heavy out err k live h = ground arith

fewer :
    (k i : ℕ) {a a' b b' rounds : ℕ} {first other : Bool}
    → (a' < a) ⊎ ((first ≡ false) × (a' ≡ a))
    → (b' < b) ⊎ ((other ≡ false) × (b' ≡ b))
    → (first ≡ false → other ≡ true)
    → k - i + (a + b) ≤ suc rounds
    → k - (i + 1) + (a' + b') ≤ rounds
fewer k i (inl x) (inl y) one h = omega arith
fewer k i (inl x) (inr (f, y)) one h = omega arith
fewer k i (inr (f, x)) (inl y) one h = omega arith
fewer k i (inr (f, x)) (inr (g, y)) one h = absurd (false≢true (sym g ∙ one f))

module _ (polls : ℕ → Poll) where
  -- A poll fails, or a read of the child's output, or of its errors.
  abbrev pub CutOff : (Poll → Bool) → Type 0
  CutOff fails = (i : ℕ) × (((polls i).polled ≡ poll_error) ⊎ (fails (polls i) ≡ true))

  abbrev pub OutCut : Type 0
  OutCut = CutOff (λ poll. poll.out_fails)

  abbrev pub ErrCut : Type 0
  ErrCut = CutOff (λ poll. poll.err_fails)

  -- What the two hold at the end.
  abbrev Drained : Bytes → Bytes → ℕ → ℕ → Option (Pipe × Pipe) → Type 0
  Drained out_stream err_stream out_size err_size o =
      (p : Pipe) × (q : Pipe) × (o ≡ some (p, q))
      × Holds OutCut out_stream out_size p
      × Holds ErrCut err_stream err_size q

  ended :
      (a b : Bytes) (m n : ℕ) (out err : Pipe)
      → (out.open_fd || err.open_fd) ≡ false
      → Captures OutCut a m out
      → Captures ErrCut b n err
      → Drained a b m n (some (out, err))
  ended a b m n out err over ho he = (
    out,
    err,
    refl,
    captured OutCut a m out (inl (ground arith)) ho,
    captured ErrCut b n err (inl (ground arith)) he,
  )

  drain_both-Drained :
      (k : ℕ) (quiet : (j : ℕ) → k ≤ j → (polls j).polled ≢ interrupted) (rounds i : ℕ)
      (a b : Bytes) (m n : ℕ) (out err : Pipe)
      → Captures OutCut a m out
      → Captures ErrCut b n err
      → k - i + (weight out + weight err) ≤ rounds
      → Drained a b m n (drain_both polls rounds i out err)
  unfolding drain_both
  drain_both-Drained k quiet zero i a b m n out err ho he enough =
      if-holds (Drained a b m n) (out.open_fd || err.open_fd) none (some (out, err))
        (λ live. absurd (still_heavy out err (k - i) live enough))
        (λ over. ended a b m n out err over ho he)
  drain_both-Drained k quiet (suc rounds) i a b m n out err ho he enough =
      let poll = polls i in
      let (out_next, out_less) =
        read_if-Captures OutCut a m poll.out_fails poll.out_bytes (out_ready poll out err) out
          (λ e. (i, inr e)) (λ r. ground arith) ho in
      let (err_next, err_less) =
        read_if-Captures ErrCut b n poll.err_fails poll.err_bytes (err_ready poll out err) err
          (λ e. (i, inr e)) (λ r. ground arith) he in
      if-holds (Drained a b m n) (not (out.open_fd || err.open_fd)) (some (out, err)) _
        (λ over. ended a b m n out err (ground arith) ho he)
        (λ live.
          let open_one : (out.open_fd || err.open_fd) ≡ true = ground arith in
          elim (polled_cases poll.polled) [
            | inl e ↦ rw e (
                drain_both-Drained k quiet rounds (i + 1) a b m n _ _ out_next err_next
                  (fewer k i out_less err_less (one_ready poll out err open_one) enough))
            | inr (inl e) ↦
                let before : i < k = early i e in
                rw e (drain_both-Drained k quiet rounds (i + 1) a b m n out err ho he (omega arith))
            | inr (inr e) ↦ rw e (
              out,
              err,
              refl,
              captured OutCut a m out (inr (i, inl e)) ho,
              captured ErrCut b n err (inr (i, inl e)) he,
            )
          ])
    where
      polled_cases : (p : Polled) → (p ≡ some_ready) ⊎ (p ≡ interrupted) ⊎ (p ≡ poll_error)
      polled_cases some_ready = inl refl
      polled_cases interrupted = inr (inl refl)
      polled_cases poll_error = inr (inr refl)

      early : (i : ℕ) → (polls i).polled ≡ interrupted → i < k
      early i e = elim (Bool-cases (leb k i)) [
        | inl h ↦ absurd (quiet i (ground arith) e)
        | inr h ↦ ground arith
      ]

  at_start : (F : Type 0) (size : ℕ) (stream : Bytes) → Captures F stream size (opened size stream)
  at_start F size stream = (ap (λ r. take r stream) (omega arith), refl, inl refl)

  -- If from the k-th poll on none is interrupted by a signal, then however the child's two streams
  -- interleave, wherever their reads are cut and whatever fails, the loop ends within k rounds, as
  -- many as the child writes bytes, and two more. Each buffer then holds a start of its own stream,
  -- all but the byte for the NUL, and all of that unless a poll failed or a read of that stream.
  pub drain_both-captures :
      (k : ℕ) (out err : Bytes) (out_size err_size : ℕ)
      → ((j : ℕ) → k ≤ j → (polls j).polled ≢ interrupted)
      → (p : Pipe) × (q : Pipe) × (drain_both polls
            (k + (length out + length err + 2))
            0
            (opened out_size out)
            (opened err_size err)
          ≡ some (p, q))
        × Holds OutCut out out_size p
        × Holds ErrCut err err_size q
  drain_both-captures k out err out_size err_size quiet =
      drain_both-Drained k quiet (k + (length out + length err + 2)) 0 out err out_size err_size
        (opened out_size out) (opened err_size err) (at_start OutCut out_size out)
        (at_start ErrCut err_size err) (omega arith)
