-- ===== src/Streams.antt =====
-- `io.Reader` and `io.Writer` as the code uses them. A reader is the bytes that are left in it, and
-- the error that comes behind them, if any; a writer is what it took so far, and the outcomes of
-- the writes to come, which succeed when the list has run out.
pub mod Laws
use marmot_cli.Common.{
  ℕ, List, [], ◌∷◌, ◌++◌, Option, none, some, Bytes, Result, ok, err, leb, length, take, drop,
  codes, if◌then◌else◌,
}

pub record Reader : Type 0 where
  pub bytes : Bytes
  pub fault : Option Bytes

pub record Writer : Type 0 where
  pub written : Bytes
  pub faults : List (Option Bytes)

-- `io.ReadAll`
unfoldable pub read_all : Reader → Result Bytes Bytes
read_all r = elim r.fault [ none ↦ ok r.bytes | some e ↦ err e ]

-- `io.ReadFull(r, buf)` for a buffer of `n` bytes: the bytes, and the reader behind them.
unfoldable pub read_full : ℕ → Reader → Result Bytes (Bytes × Reader)
read_full n r =
    if leb n (length r.bytes)
    then ok (take n r.bytes, record r { bytes = drop n r.bytes })
    else err (elim r.fault [ none ↦ codes "unexpected EOF" | some e ↦ e ])

write_to : Writer → List (Option Bytes) → Bytes → Writer × Result Bytes (Unit {0})
write_to w [] bs = (record w { written = w.written ++ bs }, ok tt)
write_to w (none ∷ fs) bs = (record { written = w.written ++ bs; faults = fs }, ok tt)
write_to w (some e ∷ fs) bs = (record w { faults = fs }, err e)

-- `w.Write(bs)`
unfoldable pub write : Writer → Bytes → Writer × Result Bytes (Unit {0})
unfolding write_to
write w bs = write_to w w.faults bs

-- A buffer or a file that takes everything.
abbrev pub fresh : Writer
fresh = record { written = []; faults = [] }

-- A reader of the bytes, with no error behind them.
abbrev pub reader : Bytes → Reader
reader bs = record { bytes = bs; fault = none }
