-- ===== src/Alerts/Reply/Chunks.antt =====
-- What the reading loops of src/alerts.c keep of a reply that arrives in chunks.
use minimoni.Prelude.{
  Bytes, List, [], ap, append-nil, append_assoc, arith, length, length-take, refl, suc, take, zero,
  ℕ, ◌++◌, ◌-◌, ◌<◌, ◌∙◌, ◌∷◌, ◌≡◌,
}
use minimoni.Alerts.Reply.{head_size, keep_head, read_reply}

pub joined : List Bytes → Bytes
joined [] = []
joined (buf ∷ bufs) = buf ++ joined bufs

none_left : (k : ℕ) → 0 ≡ 0 - k
none_left k = omega arith

all_left : (n : ℕ) → n ≡ n - 0
all_left n = omega arith

one_less : (n k : ℕ) → n - k ≡ suc n - suc k
one_less n k = omega arith

take-append : (n : ℕ) (xs ys : Bytes) → take n (xs ++ ys) ≡ take n xs ++ take (n - length xs) ys
take-append zero xs ys = ap (λ k. take k ys) (none_left (length xs))
take-append (suc n) [] ys = ap (λ k. take k ys) (all_left (suc n))
take-append (suc n) (x ∷ xs) ys =
    ap (λ zs. x ∷ zs)
      (take-append n xs ys ∙ ap (λ k. take n xs ++ take k ys) (one_less n (length xs)))

take_whole : (n : ℕ) (xs : Bytes) → length xs < n → take n xs ≡ xs
take_whole zero xs h = absurd (omega arith)
take_whole (suc n) [] h = refl
take_whole (suc n) (x ∷ xs) h = rw (take_whole n xs (omega arith))

keep_head-take :
    (seen buf : Bytes) → keep_head (take head_size seen) buf ≡ take head_size (seen ++ buf)
unfolding keep_head
keep_head-take seen buf = ground (
  arith,
  take-append head_size seen buf,
  length-take head_size seen,
  take_whole head_size seen,
  append-nil (take head_size seen),
)

read_reply-take :
    (bufs : List Bytes) (seen : Bytes)
    → read_reply (take head_size seen) bufs ≡ take head_size (seen ++ joined bufs)
unfolding read_reply joined
read_reply-take [] seen = rw append-nil
read_reply-take (buf ∷ bufs) seen =
    rw keep_head-take (read_reply-take bufs (seen ++ buf) ∙ rw append_assoc)

-- However the reply is cut into chunks, what the reading loop keeps is its first 15 bytes.
pub read_reply-joined : (bufs : List Bytes) → read_reply [] bufs ≡ take head_size (joined bufs)
read_reply-joined bufs = read_reply-take bufs []
