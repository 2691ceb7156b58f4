-- ===== src/PidFile.antt =====
-- The pid file of internal/daemon/pidfile.go, which keeps a second daemon from starting. Whether a
-- process runs is a function, from what `Signal(0)` answers.
pub mod Stop
pub mod Laws
pub mod Race
mod Examples
use marmot_cli.Common.{
  ℕ, zero, suc, ◌+◌, ◌-◌, ◌^◌, Bool, true, false, not, ◌&&◌, ◌||◌, List, [], ◌∷◌, ◌++◌, Option,
  none, some, Bytes, codes, decimal, decimal_value, is_digit, is_empty, ◌==◌, leb, ltb, Result, ok,
  err, if◌then◌else◌,
}

-- The space characters of ASCII.
abbrev pub is_space : ℕ → Bool
is_space c = c == 32 || (leb 9 c && leb c 13)

unfoldable pub trim_left : Bytes → Bytes
trim_left [] = []
trim_left (c ∷ cs) = if is_space c then trim_left cs else c ∷ cs

unfoldable pub trim_right : Bytes → Bytes
trim_right [] = []
trim_right (c ∷ cs) =
    let rest = trim_right cs in if is_empty rest && is_space c then [] else c ∷ rest

-- `strings.TrimSpace`
abbrev pub trim_space : Bytes → Bytes
trim_space s = trim_right (trim_left s)

unfoldable pub are_digits : Bytes → Bool
are_digits [] = true
are_digits (c ∷ cs) = is_digit c && are_digits cs

-- `strconv.Atoi` of digits, `none` for its error; it fails from 2 ^ 63 on.
unfoldable pub natural : Bytes → Option ℕ
natural [] = none
natural (c ∷ cs) =
    if not (are_digits (c ∷ cs))
    then none
    else if ltb (decimal_value (c ∷ cs) 0) (2 ^ 63)
    then some (decimal_value (c ∷ cs) 0)
    else none

abbrev pub positive : Option ℕ → Option ℕ
positive none = none
positive (some zero) = none
positive (some (suc n)) = some (suc n)

-- A sign may stand before the digits; a number that is negative or zero is no process.
abbrev pub signed : Bytes → Option ℕ
signed [] = none
signed (c ∷ cs) = if c == 43 then natural cs else natural (c ∷ cs)

-- What `ReadPIDFile` makes of the file's text; `none` is an error.
unfoldable pub read_pid_file : Bytes → Option ℕ
read_pid_file text = positive (signed (trim_space text))

pub data PidError : Type 0 where
  mkdir_failed create_failed write_failed close_failed remove_failed : Bytes → PidError
  exists : PidError
  already_running : ℕ → PidError

-- The errors of the calls; `unlink` is that of the removal after a failed write, which goes unseen.
pub record TryFaults : Type 0 where
  pub create : Option Bytes
  pub write : Option Bytes
  pub close : Option Bytes
  pub unlink : Option Bytes

abbrev pub pid_text : ℕ → Bytes
pid_text pid = decimal pid ++ (10 ∷ [])

abbrev cleared : TryFaults → Bytes → Option Bytes
cleared f text = elim f.unlink [ none ↦ none | some e ↦ some text ]

-- The state is the file's text, if the file is there.
unfoldable pub try_acquire :
    TryFaults → ℕ → Option Bytes → Option Bytes × Result PidError (Unit {0})
try_acquire f pid (some text) = elim f.create [
  | some e ↦ (some text, err (create_failed e))
  | none ↦ (some text, err exists)
]
try_acquire f pid none = elim f.create [
  | some e ↦ (none, err (create_failed e))
  | none ↦ elim f.write [
    | some e ↦ (cleared f [], err (write_failed e))
    | none ↦ elim f.close [
      | some e ↦ (cleared f (pid_text pid), err (close_failed e))
      | none ↦ (some (pid_text pid), ok tt)
    ]
  ]
]

remove_and_try :
    Option Bytes → TryFaults → ℕ → Option Bytes → Option Bytes × Result PidError (Unit {0})
remove_and_try (some e) f pid file = (file, err (remove_failed e))
remove_and_try none f pid file = try_acquire f pid none

-- `ReadPIDFile`; the first argument is the error of `os.ReadFile`.
abbrev pub read_from : Option Bytes → Bytes → Option ℕ
read_from none text = read_pid_file text
read_from (some e) text = none

-- After the file was found to exist: who holds it?
inspect :
    (ℕ → Bool)
    → Option Bytes
    → TryFaults
    → ℕ
    → Bytes
    → Option ℕ
    → Option Bytes × Result PidError (Unit {0})
unfolding remove_and_try
inspect running remove f pid text none = remove_and_try remove f pid (some text)
inspect running remove f pid text (some holder) =
    if running holder
    then (some text, err (already_running holder))
    else remove_and_try remove f pid (some text)

-- What comes of a first attempt at a file that is there: only where the error is that it exists, the file is
-- read.
after_try :
    (ℕ → Bool)
    → Option Bytes
    → Option Bytes
    → TryFaults
    → ℕ
    → Bytes
    → Result PidError (Unit {0})
    → Option Bytes × Result PidError (Unit {0})
unfolding inspect
after_try running read remove g pid text (err exists) =
    inspect running remove g pid text (read_from read text)
after_try running read remove g pid text (err (mkdir_failed e)) = (some text, err (mkdir_failed e))
after_try running read remove g pid text (err (create_failed e)) =
    (some text, err (create_failed e))
after_try running read remove g pid text (err (write_failed e)) = (some text, err (write_failed e))
after_try running read remove g pid text (err (close_failed e)) = (some text, err (close_failed e))
after_try running read remove g pid text (err (remove_failed e)) =
    (some text, err (remove_failed e))
after_try running read remove g pid text (err (already_running p)) =
    (some text, err (already_running p))
after_try running read remove g pid text (ok done) = (some text, ok done)

-- The faults are those of `MkdirAll`, of the first attempt, of the read of the file, of its removal and of the
-- second attempt.
unfoldable pub acquire_pid_file :
    (ℕ → Bool)
    → Option Bytes
    → TryFaults
    → Option Bytes
    → Option Bytes
    → TryFaults
    → ℕ
    → Option Bytes
    → Option Bytes × Result PidError (Unit {0})
unfolding after_try try_acquire
acquire_pid_file running (some e) f read remove g pid file = (file, err (mkdir_failed e))
acquire_pid_file running none f read remove g pid none = try_acquire f pid none
acquire_pid_file running none f read remove g pid (some text) =
    after_try running read remove g pid text (try_acquire f pid (some text)).1

-- The function that `AcquirePIDFile` returns; the flag is whether it has run before.
unfoldable pub release : Bool → Option Bytes → Option Bytes → Bool × Option Bytes
release true fault file = (true, file)
release false fault file = (true, elim fault [ none ↦ none | some e ↦ file ])
