-- ===== src/PidFile/Laws.antt =====
-- One process and the pid file.
use marmot_cli.Common.{
  ℕ, zero, suc, ◌+◌, ◌/◌, ◌%◌, ◌^◌, ◌<◌, ◌≡◌, inl, inr, refl, subst, ap, ◌∙◌, Bool, true, false, [],
  ◌∷◌, ◌++◌, Option, none, some, arith, Bytes, digits, decimal, decimal_value, is_empty, Bool-cases,
  Option-cases, ◌≢◌, ◌⊎◌, leb→le, leb→lt, leb, Result, ok, err, if◌then◌else◌,
}
use marmot_cli.PidFile.{
  trim_left, trim_right, signed, positive, are_digits, natural, read_pid_file, PidError,
  already_running, exists, create_failed, read_from, after_try, TryFaults, pid_text, try_acquire,
  remove_and_try, inspect, acquire_pid_file,
}

decimal_value-digits :
    (f n : ℕ) (out : Bytes) → n < f → decimal_value (digits f n out) 0 ≡ decimal_value out n
unfolding decimal_value digits
decimal_value-digits zero n out h = absurd (omega arith)
decimal_value-digits (suc f) n out h = elim (Bool-cases (leb n 9)) [
  | inl small ↦ rw small (ap (decimal_value out) (omega (arith, leb→le n 9 small)))
  | inr large ↦ rw large (
      decimal_value-digits f (n / 10) ((48 + n % 10) ∷ out) (omega (arith, leb→lt n 9 large))
      ∙ ap (decimal_value out) (omega arith))
]

decimal_value-decimal : (n : ℕ) → decimal_value (decimal n) 0 ≡ n
unfolding decimal decimal_value
decimal_value-decimal n = decimal_value-digits (n + 1) n [] (omega arith)

are_digits-digits :
    (f n : ℕ) (out : Bytes) → are_digits out ≡ true → are_digits (digits f n out) ≡ true
unfolding digits are_digits
are_digits-digits zero n out h = h
are_digits-digits (suc f) n out h =
    ground (arith, are_digits-digits f (n / 10) ((48 + n % 10) ∷ out))

positive-own : (n : ℕ) → 0 < n → positive (some n) ≡ some n
positive-own zero h = absurd (omega arith)
positive-own (suc n) h = refl

trim_left-digits :
    (s rest : Bytes) → is_empty s ≡ false → are_digits s ≡ true → trim_left (s ++ rest) ≡ s ++ rest
unfolding trim_left are_digits is_empty
trim_left-digits [] rest e h = cc
trim_left-digits (c ∷ cs) rest e h = ground arith

trim_right-digits : (s : Bytes) → are_digits s ≡ true → trim_right (s ++ (10 ∷ [])) ≡ s
unfolding trim_right are_digits is_empty
trim_right-digits [] h = refl
trim_right-digits (c ∷ cs) h = ground (arith, trim_right-digits cs)

natural-digits :
    (s : Bytes)
    → is_empty s ≡ false
    → are_digits s ≡ true
    → decimal_value s 0 < 2 ^ 63
    → signed s ≡ some (decimal_value s 0)
unfolding natural are_digits is_empty
natural-digits [] e h b = cc
natural-digits (c ∷ cs) e h b = ground arith

digits-is_empty : (f n : ℕ) (out : Bytes) → is_empty (digits (suc f) n out) ≡ false
unfolding digits is_empty
digits-is_empty zero n out = ground arith
digits-is_empty (suc f) n out = ground (arith, digits-is_empty f (n / 10) ((48 + n % 10) ∷ out))

decimal-is_empty : (n : ℕ) → is_empty (decimal n) ≡ false
unfolding decimal
decimal-is_empty n =
    subst (λ f. is_empty (digits f n []) ≡ false) {x = suc n} (omega arith) (digits-is_empty n n [])

-- The text that `AcquirePIDFile` writes for a process is read back as that process.
pub read_pid_file-pid_text :
    (pid : ℕ) → 0 < pid → pid < 2 ^ 63 → read_pid_file (pid_text pid) ≡ some pid
unfolding read_pid_file
read_pid_file-pid_text pid h b =
    let digits : are_digits (decimal pid) ≡ true =
      unfold decimal are_digits in are_digits-digits (pid + 1) pid [] refl in
    let full = decimal-is_empty pid in
    let value = decimal_value-decimal pid in
    rw
      (
        trim_left-digits (decimal pid) (10 ∷ []) full digits,
        trim_right-digits (decimal pid) digits,
        natural-digits (decimal pid) full digits (rw value b),
        value,
      )
      (positive-own pid h)

-- The process that holds the file: the one that it names, if that runs.
abbrev running_of : (ℕ → Bool) → Option ℕ → Option ℕ
running_of running none = none
running_of running (some h) = if running h then some h else none

abbrev pub holder_of : (ℕ → Bool) → Option Bytes → Option ℕ
holder_of running none = none
holder_of running (some text) = running_of running (read_pid_file text)

abbrev pub fine : TryFaults
fine = record { create = none; write = none; close = none; unlink = none }

-- Where the file is held, it stays and its holder is reported; else it is taken.
abbrev pub outcome : ℕ → Option Bytes → Option ℕ → Option Bytes × Result PidError (Unit {0})
outcome pid file none = (some (pid_text pid), ok tt)
outcome pid file (some h) = (file, err (already_running h))

inspect-outcome :
    (running : ℕ → Bool) (pid : ℕ) (text : Bytes) (o : Option ℕ)
    → inspect running none fine pid text o ≡ outcome pid (some text) (running_of running o)
unfolding inspect remove_and_try try_acquire
inspect-outcome running pid text none = refl
inspect-outcome running pid text (some h) = ground arith

-- Where no call fails, `AcquirePIDFile` reports the process that holds the file and leaves it, if there is
-- one; else, also where the file is stale or cannot be read, the file is taken for the caller.
pub acquire_pid_file_lem :
    (running : ℕ → Bool) (pid : ℕ) (file : Option Bytes)
    → acquire_pid_file running none fine none none fine pid file
      ≡ outcome pid file (holder_of running file)
unfolding acquire_pid_file try_acquire
acquire_pid_file_lem running pid none = refl
acquire_pid_file_lem running pid (some text) = inspect-outcome running pid text (read_pid_file text)

try_acquire_ok :
    (f : TryFaults) (pid : ℕ) (file : Option Bytes)
    → (try_acquire f pid file).1 ≡ ok tt
    → (try_acquire f pid file).0 ≡ some (pid_text pid)
unfolding try_acquire
try_acquire_ok f pid (some text) h = ground arith
try_acquire_ok f pid none h = ground arith

remove_and_try_ok :
    (remove : Option Bytes) (f : TryFaults) (pid : ℕ) (file : Option Bytes)
    → (remove_and_try remove f pid file).1 ≡ ok tt
    → (remove_and_try remove f pid file).0 ≡ some (pid_text pid)
unfolding remove_and_try
remove_and_try_ok (some e) f pid file h = cc
remove_and_try_ok none f pid file h = try_acquire_ok f pid none h

inspect_ok :
    (running : ℕ → Bool) (remove : Option Bytes) (f : TryFaults) (pid : ℕ) (text : Bytes)
    (o : Option ℕ)
    → (inspect running remove f pid text o).1 ≡ ok tt
    → (inspect running remove f pid text o).0 ≡ some (pid_text pid)
unfolding inspect
inspect_ok running remove f pid text none h = remove_and_try_ok remove f pid (some text) h
inspect_ok running remove f pid text (some holder) h =
    ground (arith, remove_and_try_ok remove f pid (some text))

try_acquire_exists :
    (f : TryFaults) (pid : ℕ) (text : Bytes)
    → (f.create ≡ none) × ((try_acquire f pid (some text)).1 ≡ err exists)
      ⊎ (e : Bytes) × ((try_acquire f pid (some text)).1 ≡ err (create_failed e))
unfolding try_acquire
try_acquire_exists f pid text = elim (Option-cases f.create) [
  | inl e ↦ inl (e, rw e refl)
  | inr (x, e) ↦ inr (x, rw e refl)
]

acquire_pid_file_ok :
    (running : ℕ → Bool) (mkdir : Option Bytes) (f : TryFaults) (read remove : Option Bytes)
    (g : TryFaults) (pid : ℕ) (file : Option Bytes)
    → (acquire_pid_file running mkdir f read remove g pid file).1 ≡ ok tt
    → (acquire_pid_file running mkdir f read remove g pid file).0 ≡ some (pid_text pid)
unfolding acquire_pid_file after_try
acquire_pid_file_ok running (some e) f read remove g pid file h = cc
acquire_pid_file_ok running none f read remove g pid none h = try_acquire_ok f pid none h
acquire_pid_file_ok running none f read remove g pid (some text) h =
    elim (try_acquire_exists f pid text) [
      | inl (made, e) ↦
          rw e (inspect_ok running remove g pid text (read_from read text) (rw e at h))
      | inr (x, e) ↦ absurd (cc (rw e at h))
    ]

-- Whatever fails, a file that is read and names a running process stays, and is not taken.
held :
    (running : ℕ → Bool) (mkdir : Option Bytes) (f : TryFaults) (remove : Option Bytes)
    (g : TryFaults) (pid other : ℕ)
    → 0 < pid
    → pid < 2 ^ 63
    → running pid ≡ true
    → let (file, r) = acquire_pid_file running mkdir f none remove g other (some (pid_text pid)) in
      (file ≡ some (pid_text pid)) × (r ≢ ok tt)
unfolding acquire_pid_file after_try inspect try_acquire
held running (some e) f remove g pid other h b alive = (refl, λ e. cc)
held running none f remove g pid other h b alive = elim (Option-cases f.create) [
  | inl e ↦ rw (e, read_pid_file-pid_text pid h b, alive) (refl, λ x. cc)
  | inr (x, e) ↦ rw e (refl, λ x. cc)
]

reported :
    (running : ℕ → Bool) (f : TryFaults) (remove : Option Bytes) (g : TryFaults) (pid other : ℕ)
    → 0 < pid
    → pid < 2 ^ 63
    → running pid ≡ true
    → acquire_pid_file running none
        (record f { create = none })
        none
        remove
        g
        other
        (some (pid_text pid))
      ≡ (some (pid_text pid), err (already_running pid))
unfolding acquire_pid_file after_try inspect try_acquire
reported running f remove g pid other h b alive = rw (read_pid_file-pid_text pid h b, alive) refl

-- While a process that acquired the file runs (its pid is positive and below 2 ^ 63), and the file is as it
-- left it, a later call of `AcquirePIDFile` that can read the file leaves it and does not succeed, whichever
-- of its other calls fail; where the directory is made and no other error comes of creating the file, it
-- reports that process.
pub acquire-acquire_pid_file :
    (running : ℕ → Bool) (mkdir mkdir' : Option Bytes) (f g f' g' : TryFaults)
    (read remove remove' : Option Bytes) (pid other : ℕ) (file : Option Bytes)
    → 0 < pid
    → pid < 2 ^ 63
    → running pid ≡ true
    → let (file', r) = acquire_pid_file running mkdir f read remove g pid file in
      r ≡ ok tt
      → let (file'', r') = acquire_pid_file running mkdir' f' none remove' g' other file' in
        (file'' ≡ file')
        × (r' ≢ ok tt)
        × (acquire_pid_file running none (record f' { create = none }) none remove' g' other file'
            ≡ (file', err (already_running pid)))
acquire-acquire_pid_file running mkdir mkdir' f g f' g' read remove remove' pid other file h b alive
      took =
    let taken = acquire_pid_file_ok running mkdir f read remove g pid file took in
    let (kept, refused) = held running mkdir' f' remove' g' pid other h b alive in
    rw taken (kept, refused, reported running f' remove' g' pid other h b alive)
