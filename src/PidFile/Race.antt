-- ===== src/PidFile/Race.antt =====
-- Two processes in `AcquirePIDFile` at once, one call of the system at a time, none of which fails. A file
-- that is open is the one that was created: it keeps its writer when its name is removed.
use marmot_cli.Common.{
  ℕ, ◌≡◌, refl, Bool, true, false, List, [], ◌∷◌, Option, none, some, Bytes, if◌then◌else◌,
}
use marmot_cli.PidFile.{read_pid_file, pid_text, trim_left, trim_right}
use marmot_cli.PidFile.Laws.{holder_of}

-- Which of the two processes.
pub data Process : Type 0 where
  first second : Process

-- Where a process is: before an attempt, which is its last one or not; before the write to the file that it
-- created; before the read; before the removal; and at the end, with the file or refused.
pub data Phase : Type 0 where
  trying : Bool → Phase
  writing reading removing : Phase
  holding refused : Phase

-- The text of the file and the process that created it.
abbrev pub Named : Type 0
Named = Option (Process × Bytes)

pub record Shared : Type 0 where
  pub file : Named
  pub first_phase : Phase
  pub second_phase : Phase

abbrev is_same : Process → Process → Bool
is_same first first = true
is_same second second = true
is_same first second = false
is_same second first = false

abbrev pub text_of : Named → Option Bytes
text_of none = none
text_of (some (p, text)) = some text

-- `OpenFile` with `O_EXCL`.
try_open : Process → Bool → Named → Named × Phase
try_open p last none = (some (p, []), writing)
try_open p last (some file) = (some file, if last then refused else reading)

write_pid : Process → ℕ → Named → Named
write_pid p pid none = none
write_pid p pid (some (q, text)) = if is_same p q then some (q, pid_text pid) else some (q, text)

-- `ReadPIDFile` and `IsProcessRunning`: a file that is gone cannot be read.
found : Option ℕ → Phase
found none = removing
found (some holder) = refused

look : (ℕ → Bool) → Named → Phase
unfolding found
look running file = found (holder_of running (text_of file))

-- The next call of a process.
call : (ℕ → Bool) → Process → ℕ → Phase → Named → Named × Phase
unfolding try_open write_pid
call running p pid (trying last) file = try_open p last file
call running p pid writing file = (write_pid p pid file, holding)
call running p pid reading file = (file, look running file)
call running p pid removing file = (none, trying true)
call running p pid holding file = (file, holding)
call running p pid refused file = (file, refused)

module _ (running : ℕ → Bool) (one two : ℕ) where
  pub turn : Process → Shared → Shared
  unfolding call
  turn first s =
      let (file, phase) = call running first one s.first_phase s.file in
      record s { file = file; first_phase = phase }
  turn second s =
      let (file, phase) = call running second two s.second_phase s.file in
      record s { file = file; second_phase = phase }

  pub schedule : List Process → Shared → Shared
  unfolding turn
  schedule [] s = s
  schedule (p ∷ ps) s = schedule ps (turn p s)

  abbrev pub begin : Named → Shared
  begin file = record { file = file; first_phase = trying false; second_phase = trying false }

  -- The file does not keep two daemons from starting at once: whichever processes they are, and with no
  -- file there at first, there is an order of their calls after which both hold it. The second finds the
  -- file that the first has created and not written yet, takes it for a stale one and removes it.
  pub schedule_both :
      (calls : List Process) × ((schedule calls (begin none)).first_phase ≡ holding)
      × ((schedule calls (begin none)).second_phase ≡ holding)
  unfolding schedule look read_pid_file trim_left trim_right
  schedule_both = (first ∷ second ∷ second ∷ second ∷ second ∷ second ∷ first ∷ [], refl, refl)
