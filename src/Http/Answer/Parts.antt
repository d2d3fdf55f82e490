-- ===== src/Http/Answer/Parts.antt =====
-- The body of /api/metrics in src/http.c.
use minimoni.Db.Query.Whole.{fetch_all-whole}
use minimoni.Downsample.{pick_bucket}
use minimoni.Db.Store.{Store, done}
use minimoni.Prelude.{
  Bool-cases, Bytes, List, Option, [], ap, append-nil, append_assoc, arith, codes, false,
  if◌then◌else◌, inl, inr, length, map, none, refl, some, sym, take, true, ℕ, ◌++◌, ◌+◌, ◌<◌, ◌==◌,
  ◌∙◌, ◌∷◌, ◌≡◌,
}
use minimoni.Double.{Double}
use minimoni.Config.Settings.{Config}
use minimoni.Db.Snapshot.{Columns, DbRow}
use minimoni.Db.Tiers.{Row}
use minimoni.Db.Query.{blank, db_count_range, db_query_range, range_rows}
use minimoni.Json.Buffer.{Jbuf}
use minimoni.Json.Serialize.{Host}
use minimoni.Http.Answer.{
  Request, Writing, emit_all, emit_part, handler_metrics, metrics_body, metrics_reply, pick_range,
  point_json, points_of, range_seconds, row_at, rows_of, units_json,
}

-- The texts that fitted their buffers.
unfoldable pub kept : List Jbuf → List Bytes
kept [] = []
kept (j ∷ js) = let rest = kept js in if j.overflow then rest else j.text ∷ rest

-- A comma before each.
unfoldable pub commas : List Bytes → Bytes
commas [] = []
commas (t ∷ ts) = b',' ∷ (t ++ commas ts)

-- A comma between each two.
unfoldable pub join : List Bytes → Bytes
join [] = []
join (t ∷ []) = t
join (t ∷ u ∷ ts) = t ++ (b',' ∷ join (u ∷ ts))

join-commas : (ts : List Bytes) (t : Bytes) → join (t ∷ ts) ≡ t ++ commas ts
unfolding join commas
join-commas [] t = sym (append-nil t)
join-commas (u ∷ ts) t = ap (λ r. t ++ (b',' ∷ r)) (join-commas ts u)

emit_part-omitted : (j : Jbuf) (w : Writing) → j.overflow ≡ true → emit_part j w ≡ w
unfolding emit_part
emit_part-omitted j (out, n) e = rw e refl

emit_part-later :
    (j : Jbuf) (out : Bytes) (n : ℕ)
    → j.overflow ≡ false
    → 0 < n
    → emit_part j (out, n) ≡ (out ++ (b',' ∷ j.text), n + 1)
unfolding emit_part
emit_part-later j out n e h =
    let some_out : (n == 0) ≡ false = ground arith in simp (e, some_out) refl

emit_part-first :
    (j : Jbuf) (out : Bytes) → j.overflow ≡ false → emit_part j (out, 0) ≡ (out ++ j.text, 1)
unfolding emit_part
emit_part-first j out e = simp e (ap (λ n. (out ++ j.text, n)) (one_more))
  where
    one_more : 0 + 1 ≡ 1
    one_more = omega arith

kept-omitted : (j : Jbuf) (js : List Jbuf) → j.overflow ≡ true → kept (j ∷ js) ≡ kept js
unfolding kept
kept-omitted j js e = simp e refl

kept-text : (j : Jbuf) (js : List Jbuf) → j.overflow ≡ false → kept (j ∷ js) ≡ j.text ∷ kept js
unfolding kept
kept-text j js e = simp e refl

emit_all-commas :
    (js : List Jbuf) (out : Bytes) (n : ℕ)
    → 0 < n
    → (emit_all js (out, n)).0 ≡ out ++ commas (kept js)
unfolding emit_all commas
emit_all-commas [] out n h = unfold kept in sym (append-nil out)
emit_all-commas (j ∷ js) out n h = elim (Bool-cases j.overflow) [
  | inl e ↦
      ap (λ w. (emit_all js w).0) (emit_part-omitted j (out, n) e)
      ∙ emit_all-commas js out n h
      ∙ ap (λ ts. out ++ commas ts) (sym (kept-omitted j js e))
  | inr e ↦
      ap (λ w. (emit_all js w).0) (emit_part-later j out n e h)
      ∙ emit_all-commas js (out ++ (b',' ∷ j.text)) (n + 1) (omega arith)
      ∙ append_assoc out (b',' ∷ j.text) (commas (kept js))
      ∙ ap (λ ts. out ++ commas ts) (sym (kept-text j js e))
]

emit_one : (j : Jbuf) (out : Bytes) → (emit_part j (out, 1)).0 ≡ out ++ commas (kept (j ∷ []))
unfolding emit_all
emit_one j out = emit_all-commas (j ∷ []) out 1 (omega arith)

emit_all-join : (js : List Jbuf) (out : Bytes) → (emit_all js (out, 0)).0 ≡ out ++ join (kept js)
unfolding emit_all
emit_all-join [] out = unfold join kept in sym (append-nil out)
emit_all-join (j ∷ js) out = elim (Bool-cases j.overflow) [
  | inl e ↦
      ap (λ w. (emit_all js w).0) (emit_part-omitted j (out, 0) e)
      ∙ emit_all-join js out
      ∙ ap (λ ts. out ++ join ts) (sym (kept-omitted j js e))
  | inr e ↦
      ap (λ w. (emit_all js w).0) (emit_part-first j out e)
      ∙ emit_all-commas js (out ++ j.text) 1 (omega arith)
      ∙ append_assoc out j.text (commas (kept js))
      ∙ ap (λ r. out ++ r) (sym (join-commas (kept js) j.text))
      ∙ ap (λ ts. out ++ join ts) (sym (kept-text j js e))
]

module _ {D : Type 0} ⦃d : Double D⦄ (iso : ℕ → Bytes) (avg : List (Columns D) → Columns D)
    (long_max : ℕ) (cfg : Config D) (host : Host D) where
  -- The object of the range, its points and its units.
  abbrev pub metrics_json : Bytes → List (DbRow D) → Bytes
  metrics_json range_str rows =
      codes "{\"range\":\""
      ++ range_str
      ++ codes "\",\"points\":["
      ++ join (kept (map (point_json iso avg long_max cfg host) rows))
      ++ codes "]"
      ++ commas (kept (units_json iso avg long_max cfg host rows ∷ []))
      ++ codes "}"

  metrics_body-json :
      (range_str : Bytes) (rows : List (DbRow D))
      → metrics_body iso avg long_max cfg host range_str rows ≡ metrics_json range_str rows
  unfolding metrics_body
  metrics_body-json range_str rows =
      let start = codes "{\"range\":\"" ++ range_str ++ codes "\",\"points\":[" in
      let list = join (kept (map (point_json iso avg long_max cfg host) rows)) in
      let units = units_json iso avg long_max cfg host rows in
      ap (λ out. (emit_part units (out ++ codes "]", 1)).0 ++ codes "}")
        (emit_all-join (map (point_json iso avg long_max cfg host) rows) start)
      ∙ ap (λ out. out ++ codes "}") (emit_one units ((start ++ list) ++ codes "]"))

  rows_of-map :
      (rows : List (Row (Columns D))) (k : ℕ)
      → rows_of iso avg long_max cfg host (take (length rows) (map some rows ++ blank k))
        ≡ map (row_at iso avg long_max cfg host) rows
  unfolding rows_of
  rows_of-map [] k = refl
  rows_of-map (r ∷ rows) k = ap (◌∷◌ (row_at iso avg long_max cfg host r)) (rows_of-map rows k)

  -- The bucket that a request asks for.
  abbrev pub bucket_for : Request → Store (Columns D) → ℕ
  bucket_for q s =
      let rsec = range_seconds long_max (pick_range cfg.dashboard.ranges q.range_var) in
      pick_bucket rsec cfg.collect.interval_seconds (points_of long_max q.points_var)
        (db_count_range rsec q.count_now q.count_prepared q.count_step s)

  -- The rows that it asks for, as read.
  abbrev pub rows_for : Request → Store (Columns D) → List (DbRow D)
  rows_for q s = map (row_at iso avg long_max cfg host) (
      range_rows avg (range_seconds long_max (pick_range cfg.dashboard.ranges q.range_var))
        q.query_now (bucket_for q s) s)

  -- If memory is there and the query ends well, /api/metrics answers 200 with a JSON object of the
  -- range, every row of that range in order, raw or of the chosen bucket, with a comma between each
  -- two, and the units; a point or units that do not fit their buffer are left out with their
  -- comma.
  pub handler_metrics-json :
      (q : Request) (s : Store (Columns D))
      → ((n : ℕ) → q.alloc n ≡ true)
      → q.query_prepared ≡ true
      → q.query_last ≡ done
      → handler_metrics iso avg long_max cfg host q s ≡ record {
        status = 200;
        content_length = none;
        body = metrics_json (pick_range cfg.dashboard.ranges q.range_var) (rows_for q s);
      }
  unfolding handler_metrics db_query_range
  handler_metrics-json q s ok prepared last =
      let range_str = pick_range cfg.dashboard.ranges q.range_var in
      let rows = range_rows avg (range_seconds long_max range_str) q.query_now (bucket_for q s) s in
      let ((g, k, read, (cells, whole, count, low, high)), on_error, on_busy) =
        fetch_all-whole q.alloc rows ok in
      let taken : take g.cnt g.rows ≡ take (length rows) (map some rows ++ blank k) =
        λ j. take (count j) (cells j) in
      simp (prepared, last)
        (ap (metrics_reply iso avg long_max cfg host range_str) read
          ∙ ap
              (λ (cs : List (Option (Row (Columns D)))). record {
                status = 200;
                content_length = none;
                body =
                    metrics_body iso avg long_max cfg host range_str
                      (rows_of iso avg long_max cfg host cs);
              })
              taken
          ∙ ap
              (λ (rs : List (DbRow D)). record {
                status = 200;
                content_length = none;
                body = metrics_body iso avg long_max cfg host range_str rs;
              })
              (rows_of-map rows k)
          ∙ ap (λ (b : Bytes). record { status = 200; content_length = none; body = b })
              (metrics_body-json range_str (map (row_at iso avg long_max cfg host) rows)))
