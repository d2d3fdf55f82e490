-- ===== src/Migrate/Exec.antt =====
-- src/migrate/exec.c: the run of `minimoni db exec` as a child process, whose two pipes are read at
-- once. A stream is the bytes that the child has still to write and that are not yet read. A read of
-- a pipe that is ready gives a byte at least, or the end of the stream, or it fails.
pub mod Drained
pub mod Sink
use Prim.Native.Nat.{min}
use minimoni.Prelude.{
  Bool, Bytes, Option, [], drop, false, if◌then◌else◌, is_positive, length, ltb, negsuc, none, not,
  pos, pos_part, some, suc, take, true, zero, ℕ, ℤ, ◌&&◌, ◌++◌, ◌+◌, ◌-◌, ◌==◌, ◌||◌,
}

-- sink_t with its stream: `open_fd` while the pfd entry is not -1.
pub record Pipe : Type 0 where
  pub open_fd : Bool
  pub left : Bytes
  pub kept : Bytes
  pub size : ℕ

-- What poll comes to: a number above 0, EINTR, or another error.
pub data Polled : Type 0 where
  some_ready interrupted poll_error : Polled

-- A poll: which pipe is ready, whether the other is too, how many bytes more than one each read
-- gives at most, and whether it fails instead.
pub record Poll : Type 0 where
  pub polled : Polled
  pub out_first : Bool
  pub both_ready : Bool
  pub out_bytes : ℕ
  pub err_bytes : ℕ
  pub out_fails : Bool
  pub err_fails : Bool

abbrev pub room : Pipe → ℕ
room p = p.size - 1 - length p.kept

-- What one read gives: of the room in the buffer, or of the 1024 bytes of scratch.
abbrev pub read_bytes : ℕ → Pipe → ℕ
read_bytes more p =
    min (more + 1) (min (if ltb (length p.kept + 1) p.size then room p else 1024) (length p.left))

-- n: -1 for an error
abbrev pub read_result : Bool → ℕ → Pipe → ℤ
read_result fails more p = if fails then negsuc 0 else pos (read_bytes more p)

-- sink_read, and pfd[i].fd = -1 where it returns 0
unfoldable pub sink_read : Bool → ℕ → Pipe → Pipe
sink_read fails more p =
    let n = read_result fails more p in
    if not (is_positive n)
    then record p { open_fd = false }
    else if ltb (length p.kept + 1) p.size
    then record p { left = drop (pos_part n) p.left; kept = p.kept ++ take (pos_part n) p.left }
    else record p { left = drop (pos_part n) p.left }

abbrev pub out_ready : Poll → Pipe → Pipe → Bool
out_ready poll out err = out.open_fd && (poll.out_first || poll.both_ready || not err.open_fd)

abbrev pub err_ready : Poll → Pipe → Pipe → Bool
err_ready poll out err = err.open_fd && (not poll.out_first || poll.both_ready || not out.open_fd)

abbrev pub read_if : Bool → Bool → ℕ → Pipe → Pipe
read_if ready fails more p = if ready then sink_read fails more p else p

-- The loop, at most `rounds` times round.
unfoldable pub drain_both : (ℕ → Poll) → ℕ → ℕ → Pipe → Pipe → Option (Pipe × Pipe)
drain_both polls zero i out err = if out.open_fd || err.open_fd then none else some (out, err)
drain_both polls (suc rounds) i out err =
    let poll = polls i in
    let again = drain_both polls rounds (i + 1) out err in
    let rest =
      drain_both polls rounds (i + 1)
        (read_if (out_ready poll out err) poll.out_fails poll.out_bytes out)
        (read_if (err_ready poll out err) poll.err_fails poll.err_bytes err) in
    if not (out.open_fd || err.open_fd)
    then some (out, err)
    else elim poll.polled [ some_ready ↦ rest | interrupted ↦ again | poll_error ↦ some (out, err) ]

abbrev pub opened : ℕ → Bytes → Pipe
opened size stream = record { open_fd = true; left = stream; kept = []; size = size }

-- How the child ended, and what migrate_exec returns for it: -1, -2 and -3 are the negsuc ones.
pub data Ended : Type 0 where
  no_child wait_failed killed : Ended
  exited : ℕ → Ended

unfoldable pub exec_result : Ended → ℤ
exec_result no_child = negsuc 0
exec_result wait_failed = negsuc 0
exec_result killed = negsuc 2
exec_result (exited rc) = if rc == 127 then negsuc 1 else pos rc
