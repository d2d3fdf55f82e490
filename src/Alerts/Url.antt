-- ===== src/Alerts/Url.antt =====
-- parse_url of src/alerts.c: the parts of a webhook URL. A part that does not fit its buffer is an
-- error: the sizes are those of post_webhook, 256 for the host, 8 for the port, 512 for the path.
pub mod Parts
use minimoni.Prelude.{
  Bool, Bytes, Option, [], codes, false, if◌then◌else◌, length, ltb, none, some, true, ℕ, ◌==◌, ◌∷◌,
}

pub record Url : Type 0 where
  pub https : Bool
  pub host : Bytes
  pub port : Bytes
  pub path : Bytes

-- strncmp(s, p, strlen(p)) == 0, with what follows the prefix
pub strip_prefix : Bytes → Bytes → Option Bytes
strip_prefix [] s = some s
strip_prefix (p ∷ ps) [] = none
strip_prefix (p ∷ ps) (c ∷ s) = if p == c then strip_prefix ps s else none

-- The text before the first `c`, and the text from it on, if `c` is there.
pub split_at : ℕ → Bytes → Bytes × Option Bytes
split_at c [] = ([], none)
split_at c (x ∷ s) =
    let (before, found) = split_at c s in if x == c then ([], some (x ∷ s)) else (x ∷ before, found)

-- fit_printf of a text: the text, or a failure unless it all fits with the NUL.
abbrev pub fit : ℕ → Bytes → Option Bytes
fit size s = if ltb (length s) size then some s else none

abbrev pub default_port : Bool → Bytes
default_port https = if https then codes "443" else codes "80"

unfoldable pub url_of : Bool → Option Bytes → Option Bytes → Option Bytes → Option Url
url_of https (some host) (some port) (some path) =
    some (record { https = https; host = host; port = port; path = path })
url_of https _ _ _ = none

-- The host and the port in the text before the slash: `colon` is the text from the colon on.
pub host_port : Bool → Bytes → Option Bytes → Bytes × Bytes
host_port https before none = (before, default_port https)
host_port https before (some []) = (before, [])
host_port https before (some (colon ∷ port)) = (before, port)

abbrev pub path_of : Option Bytes → Bytes
path_of none = b'/' ∷ []
path_of (some slash) = slash

pub parse_from : Bool → Bytes → Option Url
parse_from https start =
    let (authority, slash) = split_at b'/' start in
    let (before, colon) = split_at b':' authority in
    let (host, port) = host_port https before colon in
    url_of https (fit 256 host) (fit 8 port) (fit 512 (path_of slash))

unfoldable pub parse_url : Bytes → Option Url
parse_url url = elim (strip_prefix (codes "https://") url) [
  | some start ↦ parse_from true start
  | none ↦ elim (strip_prefix (codes "http://") url) [
    | some start ↦ parse_from false start
    | none ↦ none
  ]
]
