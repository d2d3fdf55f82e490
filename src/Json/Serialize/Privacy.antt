-- ===== src/Json/Serialize/Privacy.antt =====
-- Which sizes json_serialize_current of src/json.c shows when the cards are in percent.
use minimoni.Prelude.{
  All, All-flatten, Bool, Bool-cases, Bytes, List, [], codes, false, false≢true, inl, inr, refl,
  str_eq, true, ◌∷◌, ◌≡◌,
}
use minimoni.Double.{Double}
use minimoni.Db.Snapshot.{DbRow}
use minimoni.Config.Settings.{Config, Listing, config_has, in_list}
use minimoni.Json.Call.{Call, array_str, begin, end, long, null, pair, raw, real, sep, str}
use minimoni.Json.Serialize.{Host, card_calls, group, is_percent, maybe, unless}

abbrev pub size_keys : List Bytes
size_keys = codes "mem_total" ∷ codes "swap_total" ∷ codes "disk_total" ∷ []

module _ {D : Type 0} where
  abbrev pub key_of : Call D → Bytes
  key_of (raw s) = []
  key_of sep = []
  key_of begin = []
  key_of end = []
  key_of (str k v) = k
  key_of (long k n) = k
  key_of (null k) = k
  key_of (real k x) = k
  key_of (pair k w c) = k
  key_of (array_str s emitted) = []

  abbrev pub HidesSize : Call D → Type 0
  HidesSize c = in_list (key_of c) size_keys ≡ false

  All-group :
      (P : Call D → Type 0) (names : Listing) (name : Bytes) (calls : List (Call D))
      → All P calls
      → All P (group names name calls)
  All-group P names name calls h = elim (Bool-cases (config_has names name)) [
    | inl e ↦ rw e h
    | inr e ↦ rw e tt
  ]

  HidesSize-maybe :
      (valid : Bool) (key : Bytes) (x : D)
      → in_list key size_keys ≡ false
      → HidesSize (maybe valid key x)
  HidesSize-maybe true key x h = h
  HidesSize-maybe false key x h = h

  All-unless : (P : Call D → Type 0) (b : Bool) (c : Call D) → b ≡ true → All P (unless b c)
  All-unless P true c h = tt
  All-unless P false c h = absurd (false≢true h)

module _ {D : Type 0} ⦃d : Double D⦄ where
  -- With the memory, swap and disk cards in percent, no metric group of json_serialize_current sends
  -- a total.
  pub card_calls-HidesSize :
      (r : DbRow D) (cfg : Config D) (host : Host D)
      → is_percent cfg.dashboard.units.memory_card_unit ≡ true
      → is_percent cfg.dashboard.units.swap_card_unit ≡ true
      → is_percent cfg.dashboard.units.disk_card_unit ≡ true
      → All HidesSize (card_calls r cfg host)
  unfolding card_calls in_list str_eq
  card_calls-HidesSize r cfg host hm hs hd =
      let cards = cfg.dashboard.cards in
      let grp = λ (name : Bytes) (calls : List (Call D)). All-group HidesSize cards name calls in
      let cpu = λ (key : Bytes) (x : D). HidesSize-maybe r.cpu_valid key x in
      let io = λ (key : Bytes) (x : D). HidesSize-maybe r.swap_io_valid key x in
      let net = λ (key : Bytes) (x : D). HidesSize-maybe r.net_valid key x in
      All-flatten HidesSize _ (
        grp (codes "cpu_load") _ (refl, (refl, (refl, tt))),
        (
          grp (codes "cpu_usage") _ (cpu _ _ refl, (cpu _ _ refl, (cpu _ _ refl, tt))),
          (
            grp (codes "memory") _ (refl, All-unless HidesSize _ _ hm),
            (
              grp (codes "swap") _
                  (HidesSize-maybe r.swap_valid _ _ refl, All-unless HidesSize _ _ hs),
              (
                grp (codes "swap_io") _ (io _ _ refl, (io _ _ refl, tt)),
                (
                  grp (codes "disk") _ (refl, All-unless HidesSize _ _ hd),
                  (
                    grp (codes "temp") _ (HidesSize-maybe r.temp_valid _ _ refl, tt),
                    (
                      grp (codes "net") _ (net _ _ refl, (net _ _ refl, tt)),
                      (grp (codes "uptime") _ (refl, tt), tt),
                    ),
                  ),
                ),
              ),
            ),
          ),
        ),
      )
