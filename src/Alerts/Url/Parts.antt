-- ===== src/Alerts/Url/Parts.antt =====
-- What parse_url of src/alerts.c makes of a URL that is put together from its parts.
use minimoni.Prelude.{
  All, All-append, Bool, Bytes, [], append_assoc, arith, codes, false, if◌then◌else◌, none, refl,
  some, true, ℕ, ◌++◌, ◌∙◌, ◌∷◌, ◌≡◌, ◌≢◌,
}
use minimoni.Alerts.Url.{
  default_port, fit, host_port, parse_from, parse_url, split_at, strip_prefix, url_of,
}

abbrev pub scheme_text : Bool → Bytes
scheme_text https = if https then codes "https://" else codes "http://"

-- A text in which `c` does not occur.
abbrev pub Without : ℕ → Bytes → Type 0
Without c = All (λ x. x ≢ c)

split_at-absent : (c : ℕ) (s : Bytes) → Without c s → split_at c s ≡ (s, none)
unfolding split_at
split_at-absent c [] h = refl
split_at-absent c (x ∷ s) h = ground (arith, h.0, split_at-absent c s h.1)

split_at-found :
    (c : ℕ) (s rest : Bytes) → Without c s → split_at c (s ++ c ∷ rest) ≡ (s, some (c ∷ rest))
unfolding split_at
split_at-found c [] rest h = ground arith
split_at-found c (x ∷ s) rest h = ground (arith, h.0, split_at-found c s rest h.1)

parse_url-scheme :
    (https : Bool) (start : Bytes) → parse_url (scheme_text https ++ start) ≡ parse_from https start
unfolding parse_url strip_prefix
parse_url-scheme true start = refl
parse_url-scheme false start = refl

split-authority :
    (host port path : Bytes)
    → Without b'/' host
    → Without b'/' port
    → split_at b'/' (host ++ b':' ∷ (port ++ b'/' ∷ path))
      ≡ (host ++ b':' ∷ port, some (b'/' ∷ path))
split-authority host port path a c = rw (← append_assoc host (b':' ∷ port) (b'/' ∷ path)) (
    split_at-found b'/' (host ++ b':' ∷ port) path
      (All-append (λ x. x ≢ b'/') host (b':' ∷ port) a (omega arith, c)))

parse_from-port :
    (https : Bool) (host port path : Bytes)
    → Without b'/' host
    → Without b':' host
    → Without b'/' port
    → parse_from https (host ++ b':' ∷ (port ++ b'/' ∷ path))
      ≡ url_of https (fit 256 host) (fit 8 port) (fit 512 (b'/' ∷ path))
unfolding parse_from host_port
parse_from-port https host port path a b c =
    rw (split-authority host port path a c, split_at-found b':' host port b)

parse_from-default :
    (https : Bool) (host : Bytes)
    → Without b'/' host
    → Without b':' host
    → parse_from https host
      ≡ url_of https (fit 256 host) (some (default_port https)) (some (b'/' ∷ []))
unfolding parse_from host_port
parse_from-default true host a b = rw (split_at-absent b'/' host a, split_at-absent b':' host b)
parse_from-default false host a b = rw (split_at-absent b'/' host a, split_at-absent b':' host b)

-- A URL with host, port and path, of which the host holds no colon or slash and the port no slash,
-- is read as those parts if each fits its buffer, and refused otherwise.
pub parse_url-port :
    (https : Bool) (host port path : Bytes)
    → Without b'/' host
    → Without b':' host
    → Without b'/' port
    → parse_url (scheme_text https ++ (host ++ b':' ∷ (port ++ b'/' ∷ path)))
      ≡ url_of https (fit 256 host) (fit 8 port) (fit 512 (b'/' ∷ path))
parse_url-port https host port path a b c =
    parse_url-scheme https _ ∙ parse_from-port https host port path a b c

-- Without a port the scheme's default port is used, and without a path the path is "/".
pub parse_url-default :
    (https : Bool) (host : Bytes)
    → Without b'/' host
    → Without b':' host
    → parse_url (scheme_text https ++ host)
      ≡ url_of https (fit 256 host) (some (default_port https)) (some (b'/' ∷ []))
parse_url-default https host a b = parse_url-scheme https host ∙ parse_from-default https host a b
