-- ===== src/Http/Stream/Ends.antt =====
-- The end of a live stream of src/http.c.
use minimoni.Prelude.{
  ==_iff, Bool, Bool-cases, List, Option, [], ap, arith, false, false≢true, if-holds, inl, inr, not,
  refl, some, suc, sym, true, zero, ℕ, ◌&&◌, ◌++◌, ◌+◌, ◌<◌, ◌==◌, ◌>>=◌, ◌||◌, ◌∙◌, ◌∷◌, ◌≡◌, ◌≤◌,
  ◌⊎◌,
}
use minimoni.Http.Stream.{Client, Sent, is_keepalive, keepalive, stream_from, wait_from}

module _ (refresh keepalive_seconds : ℕ) (client : Client) where
  abbrev wait : ℕ → ℕ → ℕ → ℕ × List Sent × Bool
  wait = wait_from refresh keepalive_seconds client

  -- A wait that starts before the server stops ends by then; and it is over early only if the server
  -- stops or the client is gone.
  abbrev EndsBy : ℕ → ℕ → ℕ → ℕ × List Sent × Bool → Type 0
  EndsBy stop left t (end, sent, alive) =
      (end ≤ stop) × ((alive ≡ false) ⊎ ((client.stopping end ≡ true) ⊎ (end ≡ t + left)))

  not_yet :
      (t stop : ℕ)
      → client.stopping stop ≡ true
      → t ≤ stop
      → client.stopping t ≡ false
      → t + 1 ≤ stop
  not_yet t stop h below goes_on = elim (Bool-cases (t == stop)) [
    | inl same ↦
        absurd (false≢true (sym goes_on ∙ ap (λ x. client.stopping x) ((==_iff t stop).0 same) ∙ h))
    | inr other ↦ ground arith
  ]

  EndsBy-next :
      (stop left t : ℕ) (p : ℕ × List Sent × Bool)
      → EndsBy stop left (t + 1) p
      → EndsBy stop (suc left) t p
  EndsBy-next stop left t (end, sent, alive) (within, why) = (
    within,
    elim why [
      | inl gone ↦ inl gone
      | inr (inl stops) ↦ inr (inl stops)
      | inr (inr all) ↦ inr (inr (omega arith))
    ],
  )

  wait_from-EndsBy :
      (left i t stop : ℕ)
      → client.stopping stop ≡ true
      → t ≤ stop
      → EndsBy stop left t (wait left i t)
  unfolding wait_from
  wait_from-EndsBy zero i t stop h below = (below, inr (inr (omega arith)))
  wait_from-EndsBy (suc left) i t stop h below =
      if-holds (EndsBy stop (suc left) t) (client.stopping t) (t, [], true) _
        (λ now. (below, inr (inl now)))
        (λ goes_on.
          let later = not_yet t stop h below goes_on in
          let p = wait left (i + 1) (t + 1) in
          let rest : EndsBy stop (suc left) t p =
            EndsBy-next stop left t p (wait_from-EndsBy left (i + 1) (t + 1) stop h later) in
          if-holds (EndsBy stop (suc left) t)
            (not (is_keepalive refresh keepalive_seconds client i)) (p.0, p.1, p.2) _
            (λ quiet. rest)
            (λ beat.
              if-holds (EndsBy stop (suc left) t) (not (client.keepalive_ok (t + 1)))
                (t + 1, [], false) (p.0, keepalive (t + 1) ∷ p.1, p.2) (λ gone. (later, inl refl))
                (λ there. (rest.0, rest.1))))

  abbrev EndsIn : ℕ → Option (ℕ × List Sent) → Type 0
  EndsIn stop o = (end : ℕ) × (sent : List Sent) × (o ≡ some (end, sent)) × (end ≤ stop)

  EndsIn-more :
      (stop : ℕ) (o : Option (ℕ × List Sent)) (before : List Sent)
      → EndsIn stop o
      → EndsIn stop (o >>= λ (end, later). some (end, before ++ later))
  EndsIn-more stop o before (end, sent, e, within) = rw e (end, before ++ sent, refl, within)

  ends_later :
      (t stop : ℕ) (p : ℕ × List Sent × Bool)
      → 0 < refresh
      → EndsBy stop refresh t p
      → (not p.2 || client.stopping p.0) ≡ false
      → t < p.0
  ends_later t stop (end, sent, alive) r (within, inl gone) goes_on = ground arith
  ends_later t stop (end, sent, alive) r (within, inr (inl stops)) goes_on = ground arith
  ends_later t stop (end, sent, alive) r (within, inr (inr all)) goes_on = omega arith

  stream_from-EndsIn :
      (rounds t stop : ℕ)
      → 0 < refresh
      → client.stopping stop ≡ true
      → t ≤ stop
      → stop < t + rounds
      → EndsIn stop (stream_from refresh keepalive_seconds client rounds t)
  unfolding stream_from
  stream_from-EndsIn zero t stop r h below enough = absurd (omega arith)
  stream_from-EndsIn (suc rounds) t stop r h below enough =
      let p = wait refresh 1 t in
      let waited : EndsBy stop refresh t p = wait_from-EndsBy refresh 1 t stop h below in
      if-holds (EndsIn stop) (client.has_row t && not (client.frame_ok t)) (some (t, [])) _
        (λ gone. (t, [], refl, below))
        (λ written.
          if-holds (EndsIn stop) (not p.2 || client.stopping p.0) _ _
            (λ over. (p.0, _, refl, waited.0))
            (λ goes_on.
              let later = ends_later t stop p r waited goes_on in
              EndsIn-more stop (stream_from refresh keepalive_seconds client rounds p.0) _
                (stream_from-EndsIn rounds p.0 stop r h waited.0 (omega arith))))

  -- A live stream gives its worker back: whatever the client does and however rows and keepalives
  -- fall, once the server is stopping the loop has ended by that second, within as many rounds as
  -- there were seconds, and one, if the refresh is a second or more.
  pub stream_from-ends :
      (stop : ℕ)
      → 0 < refresh
      → client.stopping stop ≡ true
      → (end : ℕ) × (sent : List Sent) × (stream_from refresh keepalive_seconds client (stop + 1) 0
          ≡ some (end, sent))
        × (end ≤ stop)
  stream_from-ends stop r h = stream_from-EndsIn (stop + 1) 0 stop r h (omega arith) (omega arith)
