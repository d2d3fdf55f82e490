-- ===== src/Alerts/Reply.antt =====
-- head_t, keep_head and reply_ok of src/alerts.c: the first bytes of a webhook's reply. `text` is
-- the array up to `len`, and what follows is zero; strchr stops at the first zero byte, also at one
-- that was received.
pub mod Chunks
use minimoni.Prelude.{
  Bool, Bytes, List, Option, [], codes, false, if◌then◌else◌, leb, length, none, some, take, true,
  ℕ, ◌&&◌, ◌++◌, ◌-◌, ◌==◌, ◌∷◌,
}
use minimoni.Strtol.{is_digit}
use minimoni.Alerts.Url.{strip_prefix}

-- sizeof(text) - 1
abbrev pub head_size : ℕ
head_size = 15

unfoldable pub keep_head : Bytes → Bytes → Bytes
keep_head text buf =
    if leb head_size (length text) then text else text ++ take (head_size - length text) buf

-- code[1] == '2' && isdigit(code[2]) && isdigit(code[3]), from the text behind the space
abbrev pub is_success : Bytes → Bool
is_success (a ∷ b ∷ c ∷ rest) = a == b'2' && is_digit b && is_digit c
is_success _ = false

-- The text behind strchr(text, ' '), which stops at a NUL; `none` for NULL.
pub after_space : Bytes → Option Bytes
after_space [] = none
after_space (c ∷ s) =
    let rest = after_space s in if c == b' ' then some s else if c == 0 then none else rest

abbrev pub starts : Bytes → Bytes → Bool
starts p s = elim (strip_prefix p s) [ none ↦ false | some rest ↦ true ]

abbrev pub success_in : Option Bytes → Bool
success_in none = false
success_in (some code) = is_success code

unfoldable pub reply_ok : Bytes → Bool
reply_ok text = starts (codes "HTTP/") text && success_in (after_space text)

-- The loops that read the reply: keep_head on each chunk.
unfoldable pub read_reply : Bytes → List Bytes → Bytes
read_reply text [] = text
read_reply text (buf ∷ bufs) = read_reply (keep_head text buf) bufs
