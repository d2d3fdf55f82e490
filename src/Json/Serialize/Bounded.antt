-- ===== src/Json/Serialize/Bounded.antt =====
-- The serializers of src/json.c and the buffer they are given.
use minimoni.Prelude.{Bool, Bytes, List, [], codes, false, ◌++◌, ◌∷◌}
use minimoni.Double.{Double}
use minimoni.Db.Snapshot.{DbRow}
use minimoni.Config.Settings.{Config, Listing, hide_all, only, show_all}
use minimoni.Json.Buffer.{Jbuf, jbuf_array_str, jbuf_raw, jbuf_sep, jbuf_str}
use minimoni.Json.Buffer.Fields.{Fits, Grows}
use minimoni.Json.Escape.{json_escape}
use minimoni.Json.Bounds.{
  Grows-refl, Grows-trans, array_str_of-Grows, perform-Grows, perform_all-Grows, raw-Grows,
  sep-Grows,
}
use minimoni.Json.Call.{perform, perform_all, str}
use minimoni.Json.Serialize.{
  Host, array_strs, card_calls, json_serialize_current, put_array, put_listing, text_calls,
  threshold_calls,
}

array_strs-Grows :
    (names : List Bytes) (j : Jbuf) (emitted : Bool) → Fits j → Grows j (array_strs j names emitted)
unfolding array_strs jbuf_array_str
array_strs-Grows [] j emitted h = Grows-refl j h
array_strs-Grows (s ∷ rest) j emitted h =
    let g = array_str_of-Grows j emitted (json_escape 96 s) h in
    Grows-trans j _ _ g (array_strs-Grows rest _ _ g.bounded)

put_array-Grows :
    (j : Jbuf) (opening : Bytes) (names : List Bytes) → Fits j → Grows j (put_array j opening names)
put_array-Grows j opening names h =
    let a = sep-Grows j h in
    let b = Grows-trans j _ _ a (raw-Grows (jbuf_sep j) opening a.bounded) in
    let c =
      Grows-trans j _ _ b
        (array_strs-Grows names (jbuf_raw (jbuf_sep j) opening) false b.bounded) in
    Grows-trans j _ _ c
      (raw-Grows (array_strs (jbuf_raw (jbuf_sep j) opening) names false) (codes "]") c.bounded)

put_text-Grows : (j : Jbuf) (s : Bytes) → Fits j → Grows j (jbuf_raw (jbuf_sep j) s)
put_text-Grows j s h =
    let a = sep-Grows j h in Grows-trans j _ _ a (raw-Grows (jbuf_sep j) s a.bounded)

put_listing-Grows :
    (j : Jbuf) (key : Bytes) (names : Listing) → Fits j → Grows j (put_listing j key names)
put_listing-Grows j key show_all h = put_text-Grows j _ h
put_listing-Grows j key hide_all h = put_text-Grows j _ h
put_listing-Grows j key (only names) h = put_array-Grows j _ names h

module _ {D : Type 0} ⦃d : Double D⦄ where
  -- Whatever the row, the configuration and the host, json_serialize_current keeps the text and its
  -- closing NUL within the buffer, only adds to what is there, and does not forget an overflow.
  pub json_serialize_current-Grows :
      (j : Jbuf) (r : DbRow D) (cfg : Config D) (host : Host D)
      → Fits j
      → Grows j (json_serialize_current j r cfg host)
  unfolding json_serialize_current perform
  json_serialize_current-Grows j r cfg host h =
      let a = perform-Grows {D = D} j (str (codes "timestamp") r.timestamp) h in
      let stamped = jbuf_str j (codes "timestamp") r.timestamp in
      let calls = card_calls r cfg host ++ text_calls cfg in
      let b = Grows-trans j _ _ a (perform_all-Grows calls stamped a.bounded) in
      let written = perform_all stamped calls in
      let names = cfg.dashboard.ranges in
      let opening = codes "\"ranges\":[" in
      let c = Grows-trans j _ _ b (put_array-Grows written opening names b.bounded) in
      let ranges = put_array written opening names in
      let key = codes "\"charts\":" in
      let e = Grows-trans j _ _ c (put_listing-Grows ranges key cfg.dashboard.charts c.bounded) in
      let charts = put_listing ranges key cfg.dashboard.charts in
      let key' = codes "\"cards\":" in
      let f = Grows-trans j _ _ e (put_listing-Grows charts key' cfg.dashboard.cards e.bounded) in
      let cards = put_listing charts key' cfg.dashboard.cards in
      Grows-trans j _ _ f (perform_all-Grows (threshold_calls r cfg host) cards f.bounded)
