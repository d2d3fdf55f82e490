-- ===== src/Migrate/Snapshot.antt =====
-- migrate_snapshot of src/migrate/snapshot.c, with remove_file and remove_sidecars: a copy under a
-- temporary name that is renamed over the destination when it is complete. `Files` is what stands at
-- the two names and at those of the files that SQLite keeps beside them; `Copying` is what the system
-- and the child process answer.
pub mod Removed
pub mod Whole
use minimoni.Prelude.{Bool, List, [], false, if◌then◌else◌, not, true, ◌&&◌, ◌∷◌}

pub data Content : Type 0 where
  -- no file, an empty one, an earlier copy, a part of this run's copy, the whole of it
  nothing fresh earlier partial copied : Content

-- The temporary name and the destination.
pub data Base : Type 0 where
  dst tmp : Base

-- The file itself, or the one with a suffix of SUFFIXES.
pub data SqliteFile : Type 0 where
  database journal wal shm : SqliteFile

abbrev pub suffixes : List SqliteFile
suffixes = journal ∷ wal ∷ shm ∷ []

abbrev pub Files : Type 0
Files = Base → SqliteFile → Content

abbrev pub same_base : Base → Base → Bool
same_base dst dst = true
same_base tmp tmp = true
same_base _ _ = false

abbrev pub same_file : SqliteFile → SqliteFile → Bool
same_file database database = true
same_file journal journal = true
same_file wal wal = true
same_file shm shm = true
same_file _ _ = false

abbrev pub is_at : Base → SqliteFile → Base → SqliteFile → Bool
is_at b f c g = same_base b c && same_file f g

abbrev pub put : Base → SqliteFile → Content → Files → Files
put b f content fs c g = if is_at b f c g then content else fs c g

pub record Copying : Type 0 where
  -- the name fits tmp, and a name with a suffix fits side
  pub tmp_path_fits : Bool
  pub side_fits : Base → SqliteFile → Bool
  -- unlink succeeds or finds no file; the unlink of tmp after a failure succeeds
  pub removable : Base → SqliteFile → Bool
  pub tmp_unlinked : Bool
  pub created : Bool
  -- migrate_exec of VACUUM INTO returns 0; what a failed one makes of tmp, and what is left beside it
  pub vacuumed : Bool
  pub left_over : Content → Content
  pub left_beside : SqliteFile → Content
  pub renamed : Bool

-- `true` for the result 0, here and below.
unfoldable pub remove_file : Copying → Base → SqliteFile → Files → Files × Bool
remove_file env b f fs = if env.removable b f then (put b f nothing fs, true) else (fs, false)

-- The loop over the suffixes.
unfoldable pub remove_from : Copying → Base → List SqliteFile → Files → Files × Bool
remove_from env b [] fs = (fs, true)
remove_from env b (f ∷ rest) fs =
    let (after, ok) = remove_file env b f fs in
    let later = remove_from env b rest after in
    if not (env.side_fits b f) then (fs, false) else if not ok then (after, false) else later

abbrev pub remove_sidecars : Copying → Base → Files → Files × Bool
remove_sidecars env b fs = remove_from env b suffixes fs

-- unlink(tmp), whose result is not looked at
abbrev pub unlink_tmp : Copying → Files → Files
unlink_tmp env fs = if env.tmp_unlinked then put tmp database nothing fs else fs

-- rename(tmp, dst_path)
abbrev pub rename_over : Copying → Files → Files × Bool
rename_over env fs =
    if not env.renamed
    then (unlink_tmp env fs, false)
    else (put tmp database nothing (put dst database (fs tmp database) fs), true)

unfoldable pub replace_dst : Copying → Files → Files × Bool
replace_dst env fs =
    let (bare, ok) = remove_sidecars env dst fs in
    if not ok then (unlink_tmp env bare, false) else rename_over env bare

-- What VACUUM INTO tmp leaves: the complete copy if it succeeds.
abbrev pub vacuum : Copying → Files → Files
vacuum env fs dst f = fs dst f
vacuum env fs tmp database = if env.vacuumed then copied else env.left_over (fs tmp database)
vacuum env fs tmp f = env.left_beside f

unfoldable pub fill_tmp : Copying → Files → Files × Bool
fill_tmp env fs =
    let filled = vacuum env (put tmp database fresh fs) in
    if not env.created
    then (fs, false)
    else if not env.vacuumed
    then (unlink_tmp env filled, false)
    else replace_dst env filled

unfoldable pub migrate_snapshot : Copying → Files → Files × Bool
migrate_snapshot env fs =
    let (cleared, ok) = remove_file env tmp database fs in
    let (bare, sides_ok) = remove_sidecars env tmp cleared in
    if not env.tmp_path_fits
    then (fs, false)
    else if not ok
    then (cleared, false)
    else if not sides_ok
    then (bare, false)
    else fill_tmp env bare
