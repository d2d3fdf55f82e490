-- ===== src/Metrics/Memory/Last.antt =====
-- read_meminfo of src/metrics.c against the last value of each key.
use minimoni.Prelude.{
  Bytes, List, Option, [], ap, arith, codes, false, if◌then◌else◌, none, refl, some, str_eq,
  str_eq_iff, true, ℕ, ◌<◌, ◌==◌, ◌∙◌, ◌∷◌, ◌≡◌, ◌≤◌, ◌⊎◌,
}
use minimoni.Double.{Double}
use minimoni.Db.Snapshot.{Metrics}
use minimoni.Metrics.Read.{fgets_all, split_key_value}
use minimoni.Metrics.Memory.{
  MemInfo, available_kb, no_info, note_key, note_pair, read_meminfo, scan_meminfo, set_memory,
  ullong_max,
}

abbrev pub value_of : Bytes → Option (Bytes × ℕ) → ℕ → ℕ
value_of key none v = v
value_of key (some (k, val)) v = if str_eq k key then val else v

-- The number behind the last line with this key, or v.
unfoldable pub last_of : Bytes → List Bytes → ℕ → ℕ
last_of key [] v = v
last_of key (line ∷ lines) v = last_of key lines (value_of key (split_key_value line 64) v)

exclusive : (key a b : Bytes) → str_eq a b ≡ false → str_eq key a ≡ true → str_eq key b ≡ false
exclusive key a b apart h = rw ((str_eq_iff key a).0 h) apart

apart :
    (str_eq (codes "MemTotal:") (codes "MemFree:") ≡ false)
    × (str_eq (codes "MemTotal:") (codes "MemAvailable:") ≡ false)
    × (str_eq (codes "MemFree:") (codes "MemAvailable:") ≡ false)
    × (str_eq (codes "MemTotal:") (codes "SwapTotal:") ≡ false)
    × (str_eq (codes "MemFree:") (codes "SwapTotal:") ≡ false)
    × (str_eq (codes "MemAvailable:") (codes "SwapTotal:") ≡ false)
    × (str_eq (codes "MemTotal:") (codes "SwapFree:") ≡ false)
    × (str_eq (codes "MemFree:") (codes "SwapFree:") ≡ false)
    × (str_eq (codes "MemAvailable:") (codes "SwapFree:") ≡ false)
    × (str_eq (codes "SwapTotal:") (codes "SwapFree:") ≡ false)
unfolding str_eq
apart = (refl, refl, refl, refl, refl, refl, refl, refl, refl, refl)

note_key-total :
    (key : Bytes) (val : ℕ) (i : MemInfo)
    → (note_key key val i).mem_total_kb
      ≡ value_of (codes "MemTotal:") (some (key, val)) i.mem_total_kb
unfolding note_key
note_key-total key val i = ground (arith)

note_key-free :
    (key : Bytes) (val : ℕ) (i : MemInfo)
    → (note_key key val i).mem_free_kb ≡ value_of (codes "MemFree:") (some (key, val)) i.mem_free_kb
unfolding note_key
note_key-free key val i =
    ground (arith, exclusive key (codes "MemTotal:") (codes "MemFree:") apart.0)

note_key-available :
    (key : Bytes) (val : ℕ) (i : MemInfo)
    → (note_key key val i).mem_available_kb
      ≡ value_of (codes "MemAvailable:") (some (key, val)) i.mem_available_kb
unfolding note_key
note_key-available key val i = ground (
  arith,
  exclusive key (codes "MemTotal:") (codes "MemAvailable:") apart.1,
  exclusive key (codes "MemFree:") (codes "MemAvailable:") apart.2,
)

note_key-swap_total :
    (key : Bytes) (val : ℕ) (i : MemInfo)
    → (note_key key val i).swap_total_kb
      ≡ value_of (codes "SwapTotal:") (some (key, val)) i.swap_total_kb
unfolding note_key
note_key-swap_total key val i = ground (
  arith,
  exclusive key (codes "MemTotal:") (codes "SwapTotal:") apart.3,
  exclusive key (codes "MemFree:") (codes "SwapTotal:") apart.4,
  exclusive key (codes "MemAvailable:") (codes "SwapTotal:") apart.5,
)

note_key-swap_free :
    (key : Bytes) (val : ℕ) (i : MemInfo)
    → (note_key key val i).swap_free_kb
      ≡ value_of (codes "SwapFree:") (some (key, val)) i.swap_free_kb
unfolding note_key
note_key-swap_free key val i = ground (
  arith,
  exclusive key (codes "MemTotal:") (codes "SwapFree:") apart.6,
  exclusive key (codes "MemFree:") (codes "SwapFree:") apart.7,
  exclusive key (codes "MemAvailable:") (codes "SwapFree:") apart.8,
  exclusive key (codes "SwapTotal:") (codes "SwapFree:") apart.9,
)

module _ (key : Bytes) (field : MemInfo → ℕ)
    (noted : (k : Bytes) (v : ℕ) (i : MemInfo)
      → field (note_key k v i) ≡ value_of key (some (k, v)) (field i)) where
  note_pair-value :
      (o : Option (Bytes × ℕ)) (i : MemInfo) → field (note_pair o i) ≡ value_of key o (field i)
  note_pair-value none i = refl
  note_pair-value (some (k, v)) i = noted k v i

  scan_meminfo-last :
      (lines : List Bytes) (i : MemInfo)
      → field (scan_meminfo lines i) ≡ last_of key lines (field i)
  unfolding scan_meminfo last_of
  scan_meminfo-last [] i = refl
  scan_meminfo-last (line ∷ lines) i =
      scan_meminfo-last lines (note_pair (split_key_value line 64) i)
      ∙ ap (last_of key lines) (note_pair-value (split_key_value line 64) i)

-- What the last lines with the five keys say.
abbrev pub last_info : List Bytes → MemInfo
last_info lines = record {
  mem_total_kb = last_of (codes "MemTotal:") lines 0;
  mem_free_kb = last_of (codes "MemFree:") lines 0;
  mem_available_kb = last_of (codes "MemAvailable:") lines ullong_max;
  swap_total_kb = last_of (codes "SwapTotal:") lines 0;
  swap_free_kb = last_of (codes "SwapFree:") lines 0;
}

scan_meminfo-last_info : (lines : List Bytes) → scan_meminfo lines no_info ≡ last_info lines
scan_meminfo-last_info lines =
    let total = scan_meminfo-last (codes "MemTotal:") (λ i. i.mem_total_kb) note_key-total in
    let free = scan_meminfo-last (codes "MemFree:") (λ i. i.mem_free_kb) note_key-free in
    let available =
      scan_meminfo-last (codes "MemAvailable:") (λ i. i.mem_available_kb) note_key-available in
    let swap_total =
      scan_meminfo-last (codes "SwapTotal:") (λ i. i.swap_total_kb) note_key-swap_total in
    let swap_free =
      scan_meminfo-last (codes "SwapFree:") (λ i. i.swap_free_kb) note_key-swap_free in
    λ j. record {
      mem_total_kb = total lines no_info j;
      mem_free_kb = free lines no_info j;
      mem_available_kb = available lines no_info j;
      swap_total_kb = swap_total lines no_info j;
      swap_free_kb = swap_free lines no_info j;
    }

available_kb-bounded :
    (i : MemInfo)
    → (available_kb i ≤ i.mem_total_kb)
      ⊎ ((available_kb i ≡ i.mem_free_kb) × (i.mem_total_kb < i.mem_free_kb))
available_kb-bounded i = ground arith

module _ {D : Type 0} ⦃d : Double D⦄ where
  -- read_meminfo depends only on the last line with each of its five keys, fails exactly if the
  -- last MemTotal is 0 or there is none, and counts no more memory as available than there is,
  -- unless MemFree itself is above MemTotal and is what is counted.
  pub read_meminfo-last :
      (file : Bytes) (m : Metrics D)
      → (read_meminfo file m ≡ (
          if (last_info (fgets_all 128 file)).mem_total_kb == 0
          then none
          else some (set_memory (last_info (fgets_all 128 file)) m)))
        × ((available_kb (last_info (fgets_all 128 file))
              ≤ (last_info (fgets_all 128 file)).mem_total_kb)
            ⊎ ((available_kb (last_info (fgets_all 128 file))
                  ≡ (last_info (fgets_all 128 file)).mem_free_kb)
                × ((last_info (fgets_all 128 file)).mem_total_kb
                    < (last_info (fgets_all 128 file)).mem_free_kb)))
  unfolding read_meminfo
  read_meminfo-last file m = (
    ap (λ (i : MemInfo). if i.mem_total_kb == 0 then none else some (set_memory i m))
        (scan_meminfo-last_info (fgets_all 128 file)),
    available_kb-bounded (last_info (fgets_all 128 file)),
  )
