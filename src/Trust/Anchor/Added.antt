-- ===== src/Trust/Anchor/Added.antt =====
-- What add_anchor of src/trust.c adds.
use minimoni.Prelude.{
  Bool, Bool-cases, Bytes, List, OnSome, OnSome-bind, OnSome-if, [], false, false≢true, flatten,
  if-holds, if◌then◌else◌, inl, inr, length, ltb, none, not, refl, refuse, some, sym, true, ℕ, ◌++◌,
  ◌+◌, ◌-◌, ◌∙◌, ◌∷◌, ◌≡◌,
}
use minimoni.Trust.Buffer.{Block, append_all, bytes_append, empty}
use minimoni.Trust.Buffer.Grown.{append_all-flatten}
use minimoni.Trust.Anchor.{
  Anchor, Certificate, Pkey, add_anchor, copy, copy_key, ec_key, other_key, rsa_key,
}

-- What the certificate says, as an anchor.
abbrev pub anchor_of : Certificate → Pkey → Anchor
anchor_of c pk = record { dn = flatten c.dn_parts; ca_flag = c.is_ca; anchor_key = pk }

abbrev pub is_supported : Pkey → Bool
is_supported (rsa_key n e) = true
is_supported (ec_key curve q) = true
is_supported (other_key key_type) = false

abbrev pub always : ℕ → Bool
always n = true

append_all-kept :
    (parts : List Bytes) (b : Block)
    → b.failed_alloc ≡ false
    → (append_all always b parts).failed_alloc ≡ false
unfolding append_all bytes_append
append_all-kept [] b e = e
append_all-kept (p ∷ parts) b e = append_all-kept parts (bytes_append always b p) (kept b p e)
  where
    kept :
        (b : Block) (p : Bytes)
        → b.failed_alloc ≡ false
        → (bytes_append always b p).failed_alloc ≡ false
    kept b p e = rw e (
        if-holds (λ (c : Block). c.failed_alloc ≡ false)
          (not (ltb (b.cap - length b.data_bytes) (length p))) _ _ (λ h. refl) (λ h. refl))

module _ (malloc realloc : ℕ → Bool) where
  copy-same : (src : Bytes) → OnSome (λ own. own ≡ src) (copy malloc realloc src)
  unfolding copy
  copy-same src =
      OnSome-if (λ own. own ≡ src) (not (malloc (length src))) none (some src) (λ e. tt) (λ e. refl)

  copy_key-same : (pk : Pkey) → OnSome (λ own. own ≡ pk) (copy_key malloc realloc pk)
  unfolding copy_key
  copy_key-same (rsa_key n e) =
      OnSome-bind (λ own. own ≡ n) (λ own. own ≡ rsa_key n e) (copy malloc realloc n) _
        (copy-same n)
        (λ own_n same_n.
          OnSome-bind (λ own. own ≡ e) (λ own. own ≡ rsa_key n e) (copy malloc realloc e) _
            (copy-same e) (λ own_e same_e. rw (same_n, same_e) refl))
  copy_key-same (ec_key curve q) =
      OnSome-bind (λ own. own ≡ q) (λ own. own ≡ ec_key curve q) (copy malloc realloc q) _
        (copy-same q) (λ own_q same_q. rw same_q refl)
  copy_key-same (other_key key_type) = tt

  name-whole :
      (parts : List Bytes)
      → OnSome
          (λ name. name ≡ flatten parts)
          (refuse
            (append_all realloc empty parts).failed_alloc
            (append_all realloc empty parts).data_bytes)
  name-whole parts =
      OnSome-if (λ name. name ≡ flatten parts) (append_all realloc empty parts).failed_alloc none
        (some (append_all realloc empty parts).data_bytes) (λ e. tt)
        (λ e. elim (append_all-flatten realloc parts).1 [
          | inl failed ↦ absurd (false≢true (sym e ∙ failed))
          | inr same ↦ same
        ])

  add_anchor-adds :
      (grown : ℕ → Bool) (anchors : List Anchor) (c : Certificate) (pk : Pkey)
      → c.pkey ≡ some pk
      → OnSome
          (λ after. after ≡ anchors ++ anchor_of c pk ∷ [])
          (add_anchor malloc realloc grown anchors c)
  unfolding add_anchor
  add_anchor-adds grown anchors c pk e = rw e (
      OnSome-bind (λ name. name ≡ flatten c.dn_parts) _ _ _ (name-whole c.dn_parts)
        (λ name same_name.
          OnSome-bind (λ own. own ≡ pk) _ (copy_key malloc realloc pk) _ (copy_key-same pk)
            (λ own same_key.
              OnSome-if _ (not (grown (length anchors + 1))) none _ (λ full. tt)
                (λ fits. rw (same_name, same_key) refl))))

copy_key-supported :
    (pk : Pkey) → copy_key always always pk ≡ (if is_supported pk then some pk else none)
unfolding copy_key copy
copy_key-supported (rsa_key n e) = refl
copy_key-supported (ec_key curve q) = refl
copy_key-supported (other_key key_type) = refl

add_anchor-taken :
    (anchors : List Anchor) (c : Certificate) (pk : Pkey)
    → c.pkey ≡ some pk
    → add_anchor always always always anchors c
      ≡ (if is_supported pk then some (anchors ++ anchor_of c pk ∷ []) else none)
unfolding add_anchor
add_anchor-taken anchors c pk e =
    let kept = append_all-kept c.dn_parts empty refl in
    let whole : (append_all always empty c.dn_parts).data_bytes ≡ flatten c.dn_parts =
      elim (append_all-flatten always c.dn_parts).1 [
        | inl failed ↦ absurd (false≢true (sym kept ∙ failed))
        | inr same ↦ same
      ] in
    rw (e, kept, copy_key-supported pk, whole)
      (elim (Bool-cases (is_supported pk)) [ inl h ↦ rw h refl | inr h ↦ rw h refl ])

-- Where add_anchor succeeds, it adds one anchor behind those that were there, with the whole name,
-- the key and the CA flag of the certificate, however the decoder cuts the name; and while memory is
-- there it succeeds for every certificate with an RSA or an EC key.
pub add_anchor-whole :
    (malloc realloc grown : ℕ → Bool) (anchors : List Anchor) (c : Certificate) (pk : Pkey)
    → c.pkey ≡ some pk
    → OnSome
        (λ after. after ≡ anchors ++ anchor_of c pk ∷ [])
        (add_anchor malloc realloc grown anchors c)
      × (add_anchor always always always anchors c
          ≡ (if is_supported pk then some (anchors ++ anchor_of c pk ∷ []) else none))
add_anchor-whole malloc realloc grown anchors c pk e =
    (add_anchor-adds malloc realloc grown anchors c pk e, add_anchor-taken anchors c pk e)
