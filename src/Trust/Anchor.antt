-- ===== src/Trust/Anchor.antt =====
-- copy and add_anchor of src/trust.c, over what BearSSL's X.509 decoder gives of a certificate. What
-- is freed is not modelled.
pub mod Added
use minimoni.Prelude.{
  Bool, Bytes, List, Option, [], length, none, not, refuse, some, ℕ, ◌++◌, ◌+◌, ◌>>=◌, ◌∷◌,
}
use minimoni.Trust.Buffer.{append_all, empty}

-- br_x509_pkey: RSA with n and e, EC with its curve and q, or another type.
pub data Pkey : Type 0 where
  rsa_key : Bytes → Bytes → Pkey
  ec_key : ℕ → Bytes → Pkey
  other_key : ℕ → Pkey

-- What the decoder gives: the distinguished name in the calls of its callback, the key, and whether
-- it is of an authority.
pub record Certificate : Type 0 where
  pub dn_parts : List Bytes
  pub pkey : Option Pkey
  pub is_ca : Bool

-- br_x509_trust_anchor
pub record Anchor : Type 0 where
  pub dn : Bytes
  pub ca_flag : Bool
  pub anchor_key : Pkey

module _ (malloc realloc : ℕ → Bool) where
  -- `none` for NULL
  unfoldable pub copy : Bytes → Option Bytes
  copy src = refuse (not (malloc (length src))) src

  -- The key's copy; `none` where `copied` stays 0.
  unfoldable pub copy_key : Pkey → Option Pkey
  copy_key (rsa_key n e) = do own_n ← copy n; own_e ← copy e; some (rsa_key own_n own_e)
  copy_key (ec_key curve q) = do own_q ← copy q; some (ec_key curve own_q)
  copy_key (other_key key_type) = none

  -- t->anchors, with `count` for its length in `grown`; `none` for -1, which leaves them.
  unfoldable pub add_anchor : (ℕ → Bool) → List Anchor → Certificate → Option (List Anchor)
  add_anchor grown anchors c = do
    let dn = append_all realloc empty c.dn_parts
    pk ← c.pkey
    name ← refuse dn.failed_alloc dn.data_bytes
    own ← copy_key pk
    refuse (not (grown (length anchors + 1)))
        (anchors ++ record { dn = name; ca_flag = c.is_ca; anchor_key = own } ∷ [])
