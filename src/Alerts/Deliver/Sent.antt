-- ===== src/Alerts/Deliver/Sent.antt =====
-- What write_all of src/alerts.c sends.
use Prim.Native.Nat.{min}
use minimoni.Prelude.{
  Bool, Bytes, [], ap, append_assoc, arith, drop, if-holds, length, length-drop, not, refl, suc,
  sym, take, take-append-drop, true, zero, ℕ, ◌++◌, ◌+◌, ◌<◌, ◌==◌, ◌||◌, ◌∙◌, ◌∷◌, ◌≡◌, ◌≤◌,
}
use minimoni.Alerts.Deliver.{write_all, write_from}

module _ (in_time : ℕ → Bool) (sends : ℕ → ℕ) where
  abbrev write : ℕ → ℕ → Bytes → Bytes
  write = write_from in_time sends

  abbrev StartOf : Bytes → Bytes → Type 0
  StartOf buf sent = (rest : Bytes) × (buf ≡ sent ++ rest)

  abbrev taken : ℕ → Bytes → ℕ
  taken i buf = min (sends i) (length buf)

  write_from-StartOf : (calls i : ℕ) (buf : Bytes) → StartOf buf (write calls i buf)
  unfolding write_from
  write_from-StartOf zero i buf = (buf, refl)
  write_from-StartOf (suc calls) i buf =
      let n = taken i buf in
      let (rest, e) = write_from-StartOf calls (i + 1) (drop n buf) in
      if-holds (StartOf buf) (length buf == 0 || not (in_time i) || n == 0) []
        (take n buf ++ write calls (i + 1) (drop n buf)) (λ stops. (buf, refl))
        (λ goes_on. (
          rest,
          sym (take-append-drop n buf)
              ∙ ap (λ r. take n buf ++ r) e
              ∙ sym (append_assoc (take n buf) (write calls (i + 1) (drop n buf)) rest),
        ))

  write_from-whole :
      (calls i : ℕ) (buf : Bytes)
      → ((j : ℕ) → in_time j ≡ true)
      → ((j : ℕ) → 0 < sends j)
      → length buf ≤ calls
      → write calls i buf ≡ buf
  unfolding write_from
  write_from-whole zero i [] timely sends_some enough = refl
  write_from-whole zero i (c ∷ buf) timely sends_some enough = absurd (omega arith)
  write_from-whole (suc calls) i [] timely sends_some enough = refl
  write_from-whole (suc calls) i (c ∷ buf) timely sends_some enough =
      let n = taken i (c ∷ buf) in
      let some_sent : 0 < n = omega (arith, sends_some i) in
      let none_left = length-drop n (c ∷ buf) in
      let rest =
        write_from-whole calls (i + 1) (drop n (c ∷ buf)) timely sends_some (omega arith) in
      if-holds (λ s. s ≡ c ∷ buf) (length (c ∷ buf) == 0 || not (in_time i) || n == 0) []
        (take n (c ∷ buf) ++ write calls (i + 1) (drop n (c ∷ buf)))
        (λ stops. ground (arith, timely i))
        (λ goes_on. ap (λ r. take n (c ∷ buf) ++ r) rest ∙ take-append-drop n (c ∷ buf))

-- However little send takes at a time, write_all hands over the whole request if each call comes in
-- time and takes something; and whatever fails, what it handed over is a start of the request, in
-- order and without a gap.
pub write_all-StartOf :
    (in_time late : ℕ → Bool) (sends less : ℕ → ℕ) (buf : Bytes)
    → ((j : ℕ) → in_time j ≡ true)
    → ((j : ℕ) → 0 < sends j)
    → (write_all in_time sends buf ≡ buf)
      × ((rest : Bytes) × (buf ≡ write_all late less buf ++ rest))
unfolding write_all
write_all-StartOf in_time late sends less buf timely sends_some = (
  write_from-whole in_time sends (length buf) 0 buf timely sends_some (omega arith),
  write_from-StartOf late less (length buf) 0 buf,
)
