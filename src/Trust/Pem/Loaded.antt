-- ===== src/Trust/Pem/Loaded.antt =====
-- What trust_load of src/trust.c loads.
use minimoni.Trust.Buffer.{Block, bytes_append, new_cap}
use minimoni.Prelude.{
  Bool, Bool-cases, Bytes, List, Option, [], ap, arith, codes, false, false≢true, flatten, if-holds,
  if◌then◌else◌, inl, inr, length, ltb, none, not, refl, select, some, str_eq, sym, true, ℕ, ◌&&◌,
  ◌++◌, ◌+◌, ◌-◌, ◌||◌, ◌∙◌, ◌∷◌, ◌≡◌,
}
use minimoni.Trust.Pem.{
  Event, PemRead, begin_object, decoded, end_object, no_read, pem_error, pem_event, pem_push,
  push_chunks, trust_load,
}

-- Whether a file is sound: no error, and every object that begins also ends.
unfoldable pub sound : Bool → List Event → Bool
sound inside [] = not inside
sound inside (begin_object name ∷ es) = sound true es
sound inside (decoded bytes ∷ es) = sound inside es
sound inside (end_object ∷ es) = sound false es
sound inside (pem_error ∷ es) = false

-- The decoded certificates of a file up to an error, `o` being the one that is open.
unfoldable pub certificates : Option Bytes → List Event → List Bytes
certificates o [] = []
certificates o (begin_object name ∷ es) =
    if str_eq name (codes "CERTIFICATE") then certificates (some []) es else certificates none es
certificates (some der) (decoded bytes ∷ es) = certificates (some (der ++ bytes)) es
certificates none (decoded bytes ∷ es) = certificates none es
certificates (some der) (end_object ∷ es) = der ∷ certificates none es
certificates none (end_object ∷ es) = certificates none es
certificates o (pem_error ∷ es) = []

answer :
    (bad inside ferror ok : Bool) (n m : ℕ)
    → not (bad || inside) ≡ ok
    → n ≡ m
    → (if bad || inside || ferror then none else some n)
      ≡ (if ok && not ferror then some m else none)
answer bad inside ferror ok n m h e = ground arith

module _ (realloc : ℕ → Bool) (add_anchor : Bytes → Bool) where
  bad_stays : (es : List Event) (r : PemRead) → r.bad ≡ true → pem_push realloc add_anchor r es ≡ r
  unfolding pem_push
  bad_stays [] r h = refl
  bad_stays (e ∷ es) r h = simp h refl

  pem_push-append :
      (es fs : List Event) (r : PemRead)
      → pem_push realloc add_anchor r (es ++ fs)
        ≡ pem_push realloc add_anchor (pem_push realloc add_anchor r es) fs
  unfolding pem_push
  pem_push-append [] fs r = refl
  pem_push-append (e ∷ es) fs r = elim (Bool-cases r.bad) [
    | inl h ↦ simp h (sym (bad_stays fs r h))
    | inr h ↦ simp h (pem_push-append es fs (pem_event realloc add_anchor r e))
  ]

  push_chunks-flatten :
      (cs : List (List Event)) (r : PemRead)
      → push_chunks realloc add_anchor r cs ≡ pem_push realloc add_anchor r (flatten cs)
  unfolding push_chunks flatten
  push_chunks-flatten [] r = unfold pem_push in refl
  push_chunks-flatten (c ∷ cs) r = elim (Bool-cases (pem_push realloc add_anchor r c).bad) [
    | inl h ↦ simp h (sym (pem_push-append c (flatten cs) r ∙ bad_stays (flatten cs) _ h))
    | inr h ↦ simp h (
        push_chunks-flatten cs (pem_push realloc add_anchor r c)
        ∙ sym (pem_push-append c (flatten cs) r))
  ]

  -- The certificate that is open.
  abbrev cert_of : PemRead → Option Bytes
  cert_of r = if r.in_cert then some r.der.data_bytes else none

  abbrev Going : PemRead → Bool → Type 0
  Going r inside = (r.bad ≡ false) × (r.der.failed_alloc ≡ false) × (r.in_object ≡ inside)

  -- What a read comes to, from a number of anchors on.
  abbrev Reads : PemRead → ℕ → Bool → List Bytes → Type 0
  Reads q loaded ok certs =
      (not (q.bad || q.in_object) ≡ ok) × (q.loaded ≡ loaded + length (select add_anchor certs))

  pem_push-next :
      (e : Event) (es : List Event) (r : PemRead)
      → r.bad ≡ false
      → pem_push realloc add_anchor r (e ∷ es)
        ≡ pem_push realloc add_anchor (pem_event realloc add_anchor r e) es
  unfolding pem_push
  pem_push-next e es r h = simp h refl

  bytes_append-works :
      (b : Block) (src : Bytes)
      → ((n : ℕ) → realloc n ≡ true)
      → b.failed_alloc ≡ false
      → ((bytes_append realloc b src).failed_alloc ≡ false)
        × ((bytes_append realloc b src).data_bytes ≡ b.data_bytes ++ src)
  unfolding bytes_append
  bytes_append-works b src ok h =
      let P = λ (c : Block). (c.failed_alloc ≡ false) × (c.data_bytes ≡ b.data_bytes ++ src) in
      if-holds P b.failed_alloc _ _ (λ failed. absurd (false≢true (sym h ∙ failed)))
        (λ works.
          if-holds P (not (ltb (b.cap - length b.data_bytes) (length src))) _ _
            (λ room. (refl, refl))
            (λ full.
              if-holds P (not (realloc (new_cap b src))) _ _
                (λ none_left. absurd (false≢true (sym (ap not (ok (new_cap b src))) ∙ none_left)))
                (λ more. (refl, refl))))

  cert_in : (r : PemRead) → r.in_cert ≡ true → cert_of r ≡ some r.der.data_bytes
  cert_in r c = simp c refl

  cert_out : (r : PemRead) → r.in_cert ≡ false → cert_of r ≡ none
  cert_out r c = simp c refl

  decoded_in :
      (r : PemRead) (bytes : Bytes)
      → r.in_cert ≡ true
      → pem_event realloc add_anchor r (decoded bytes)
        ≡ record r { der = bytes_append realloc r.der bytes }
  unfolding pem_event
  decoded_in r bytes c = simp c refl

  decoded_out :
      (r : PemRead) (bytes : Bytes)
      → r.in_cert ≡ false
      → pem_event realloc add_anchor r (decoded bytes) ≡ r
  unfolding pem_event
  decoded_out r bytes c = simp c refl

  Reads-begin :
      (es : List Event) (r : PemRead) (name : Bytes)
      → Reads
          (pem_push realloc add_anchor (pem_event realloc add_anchor r (begin_object name)) es)
          r.loaded
          (sound true es)
          (certificates (if str_eq name (codes "CERTIFICATE") then some [] else none) es)
      → Reads
          (pem_push realloc add_anchor (pem_event realloc add_anchor r (begin_object name)) es)
          r.loaded
          (sound true es)
          (if str_eq name (codes "CERTIFICATE")
            then certificates (some []) es
            else certificates none es)
  Reads-begin es r name all = elim (Bool-cases (str_eq name (codes "CERTIFICATE"))) [
    | inl e ↦ rw e (rw e at all)
    | inr e ↦ rw e (rw e at all)
  ]

  ended :
      (es : List Event) (r : PemRead)
      → r.der.failed_alloc ≡ false
      → (pem_event realloc add_anchor r end_object).loaded
          + length (select add_anchor (certificates none es))
        ≡ r.loaded + length (select add_anchor (certificates (cert_of r) (end_object ∷ es)))
  unfolding pem_event certificates select
  ended es r works = elim (Bool-cases r.in_cert) [
    | inl c ↦ elim (Bool-cases (add_anchor r.der.data_bytes)) [
      | inl a ↦ simp (c, works, a) (omega arith)
      | inr a ↦ simp (c, works, a) refl
    ]
    | inr c ↦ simp c refl
  ]

  reads :
      (es : List Event) (r : PemRead) (inside : Bool)
      → ((n : ℕ) → realloc n ≡ true)
      → Going r inside
      → Reads
          (pem_push realloc add_anchor r es)
          r.loaded
          (sound inside es)
          (certificates (cert_of r) es)
  unfolding sound certificates select pem_event
  reads [] r inside ok (h, works, place) =
      unfold pem_push select in (ground (arith, h, place), omega arith)
  reads (begin_object name ∷ es) r inside ok (h, works, place) =
      rw (pem_push-next (begin_object name) es r h) (
        Reads-begin es r name (
          reads es (pem_event realloc add_anchor r (begin_object name)) true ok
            (unfold pem_event in (h, refl, refl))))
  reads (decoded bytes ∷ es) r inside ok (h, works, place) =
      rw (pem_push-next (decoded bytes) es r h) (elim (Bool-cases r.in_cert) [
        | inl c ↦
            let (fine, grown) = bytes_append-works r.der bytes ok works in
            let next = record r { der = bytes_append realloc r.der bytes } in
            let (sure, counted) = reads es next inside ok (h, fine, place) in
            rw (decoded_in r bytes c) (
              sure,
              counted
                  ∙ ap (λ certs. r.loaded + length (select add_anchor certs))
                      (ap (λ o. certificates o es) (cert_in next c ∙ ap some grown)
                        ∙ sym (ap (λ o. certificates o (decoded bytes ∷ es)) (cert_in r c))),
            )
        | inr c ↦
            let (sure, counted) = reads es r inside ok (h, works, place) in
            rw (decoded_out r bytes c) (
              sure,
              counted
                  ∙ ap (λ certs. r.loaded + length (select add_anchor certs))
                      (ap (λ o. certificates o es) (cert_out r c)
                        ∙ sym (ap (λ o. certificates o (decoded bytes ∷ es)) (cert_out r c))),
            )
      ])
  reads (end_object ∷ es) r inside ok (h, works, place) =
      let (sure, counted) =
        reads es (pem_event realloc add_anchor r end_object) false ok
          (unfold pem_event in (h, works, refl)) in
      rw (pem_push-next end_object es r h) (sure, counted ∙ ended es r works)
  reads (pem_error ∷ es) r inside ok (h, works, place) =
      rw
        (
          pem_push-next pem_error es r h,
          bad_stays es (pem_event realloc add_anchor r pem_error) (unfold pem_event in refl),
        )
        (unfold pem_event select in (refl, omega arith))

  -- If memory is there, trust_load of a file that opens gives the number of certificates in it whose
  -- anchor is taken, each decoded from its whole object wherever the chunks are cut; and it gives -1
  -- exactly if the decoder finds an error, an object does not end, or the file cannot be read.
  pub trust_load-certificates :
      (chunks : List (List Event)) (closing : List Event) (ferror : Bool)
      → ((n : ℕ) → realloc n ≡ true)
      → trust_load realloc add_anchor (some chunks) closing ferror ≡ (
          if sound false (flatten chunks ++ closing) && not ferror
          then some (length (select add_anchor (certificates none (flatten chunks ++ closing))))
          else none)
  unfolding trust_load
  trust_load-certificates chunks closing ferror ok =
      let file = flatten chunks ++ closing in
      let whole : pem_push realloc add_anchor (push_chunks realloc add_anchor no_read chunks)
            closing
          ≡ pem_push realloc add_anchor no_read file =
        ap (λ r. pem_push realloc add_anchor r closing) (push_chunks-flatten chunks no_read)
        ∙ sym (pem_push-append (flatten chunks) closing no_read) in
      let (sure, counted) = reads file no_read false ok (refl, refl, refl) in
      let q = pem_push realloc add_anchor no_read file in
      rw whole (answer q.bad q.in_object ferror _ _ _ sure (counted ∙ omega arith))
