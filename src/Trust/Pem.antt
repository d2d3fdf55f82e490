-- ===== src/Trust/Pem.antt =====
-- pem_push, trust_load and trust_system_file of src/trust.c.
pub mod Loaded
use minimoni.Prelude.{
  Bool, Bytes, List, Option, [], codes, false, if◌then◌else◌, none, not, some, str_eq, true, ℕ,
  ◌&&◌, ◌+◌, ◌||◌, ◌∷◌,
}
use minimoni.Trust.Buffer.{Block, bytes_append, empty}

abbrev pub system_ca_files : List Bytes
system_ca_files =
    codes "/etc/ssl/certs/ca-certificates.crt"
    ∷ codes "/etc/pki/tls/certs/ca-bundle.crt"
    ∷ codes "/etc/ssl/ca-bundle.pem"
    ∷ codes "/etc/pki/tls/cacert.pem"
    ∷ codes "/etc/pki/ca-trust/extracted/pem/tls-ca-bundle.pem"
    ∷ codes "/etc/ssl/cert.pem"
    ∷ []

-- The first that access can read; `none` for NULL.
unfoldable pub first_readable : (Bytes → Bool) → List Bytes → Option Bytes
first_readable readable [] = none
first_readable readable (f ∷ fs) =
    let rest = first_readable readable fs in if readable f then some f else rest

unfoldable pub trust_system_file : (Bytes → Bool) → Option Bytes
trust_system_file readable = first_readable readable system_ca_files

-- What br_pem_decoder_push gives in turn: the bytes that it has decoded for the destination, and
-- its events, the beginning of an object with the object's name.
pub data Event : Type 0 where
  begin_object : Bytes → Event
  decoded : Bytes → Event
  end_object : Event
  pem_error : Event

-- pem_read_t, with the number of anchors of the trust_t
pub record PemRead : Type 0 where
  pub der : Block
  pub in_object : Bool
  pub in_cert : Bool
  pub loaded : ℕ
  pub bad : Bool

abbrev pub no_read : PemRead
no_read = record { der = empty; in_object = false; in_cert = false; loaded = 0; bad = false }

-- `add_anchor` is whether add_anchor takes a certificate.
module _ (realloc : ℕ → Bool) (add_anchor : Bytes → Bool) where
  unfoldable pub pem_event : PemRead → Event → PemRead
  pem_event r (begin_object name) = record r {
    in_object = true;
    in_cert = str_eq name (codes "CERTIFICATE");
    der = record r.der { data_bytes = []; failed_alloc = false };
  }
  pem_event r (decoded bytes) =
      if r.in_cert then record r { der = bytes_append realloc r.der bytes } else r
  pem_event r end_object = record r {
    loaded =
        if (r.in_cert && not r.der.failed_alloc) && add_anchor r.der.data_bytes
        then r.loaded + 1
        else r.loaded;
    in_object = false;
    in_cert = false;
  }
  pem_event r pem_error = record r { bad = true }

  -- The loop, which stops at an error.
  unfoldable pub pem_push : PemRead → List Event → PemRead
  pem_push r [] = r
  pem_push r (e ∷ es) = if r.bad then r else pem_push (pem_event r e) es

  -- The chunks of the file, up to an error.
  unfoldable pub push_chunks : PemRead → List (List Event) → PemRead
  push_chunks r [] = r
  push_chunks r (c ∷ cs) = let next = pem_push r c in if next.bad then next else push_chunks next cs

  -- `none` for -1. The file is the events of its chunks, `none` when it does not open, and `closing`
  -- those of the newline at the end.
  unfoldable pub trust_load : Option (List (List Event)) → List Event → Bool → Option ℕ
  trust_load none closing ferror = none
  trust_load (some chunks) closing ferror =
      let r = pem_push (push_chunks no_read chunks) closing in
      if r.bad || r.in_object || ferror then none else some r.loaded
