-- ===== src/PidFile/Examples.antt =====
-- A machine on which process 4 runs, and the theorems on the pid file at it.
use marmot_cli.Common.{
  ℕ, ◌≡◌, ◌≢◌, ◌↔◌, pos, true, refl, Bool, List, none, some, arith, codes, decimal, digits,
  decimal_value, is_empty, ok, err, ◌==◌, ◌*◌, ◌<◌, Ends, false,
}
use marmot_cli.PidFile.{
  trim_left, trim_right, are_digits, natural, read_pid_file, already_running, try_acquire,
  acquire_pid_file,
}
use marmot_cli.PidFile.Laws.{
  fine, outcome, holder_of, acquire_pid_file_lem, acquire-acquire_pid_file,
}
use marmot_cli.PidFile.Stop.{Watched, sent, poll_sleep, poll, poll_all, stop_process}
use marmot_cli.PidFile.Stop.Polls.{Sleeps, stop_process-Ends}
use marmot_cli.PidFile.Race.{Process, holding, schedule, begin, schedule_both}

abbrev running : ℕ → Bool
running pid = pid == 4

padded : read_pid_file (codes " +12 ") ≡ some 12
unfolding read_pid_file trim_left trim_right natural are_digits decimal_value is_empty
padded = refl

negative : read_pid_file (codes "-12") ≡ none
unfolding read_pid_file trim_left trim_right natural are_digits is_empty
negative = refl

stale :
    acquire_pid_file running none fine none none fine 4 (some (codes "77"))
    ≡ (some (codes "4\n"), ok tt)
unfolding acquire_pid_file try_acquire read_pid_file trim_left trim_right natural are_digits
    decimal_value is_empty decimal digits
stale = refl

taken : (acquire_pid_file running none fine none none fine 4 none).1 ≡ ok tt
unfolding acquire_pid_file try_acquire
taken = refl

acquire_pid_file_lem_example :
    acquire_pid_file running none fine none none fine 4 (some (codes "77"))
    ≡ outcome 4 (some (codes "77")) (holder_of running (some (codes "77")))
acquire_pid_file_lem_example = acquire_pid_file_lem running 4 (some (codes "77"))

acquire-acquire_pid_file_example :
    let (file', r) = acquire_pid_file running none fine none none fine 4 none in
    let (file'', r') = acquire_pid_file running none fine none none fine 9 file' in
    (file'' ≡ file')
    × (r' ≢ ok tt)
    × (acquire_pid_file running none fine none none fine 9 file' ≡ (file', err (already_running 4)))
acquire-acquire_pid_file_example =
    acquire-acquire_pid_file running none none fine fine fine fine none none none 4 9 none
      (omega arith) (omega arith) refl taken

schedule_both_example :
    (calls : List Process) × ((schedule running 4 9 calls (begin running 4 9 none)).first_phase
      ≡ holding)
    × ((schedule running 4 9 calls (begin running 4 9 none)).second_phase ≡ holding)
schedule_both_example = schedule_both running 4 9

-- The process is gone at the second poll.
abbrev watched : Watched
watched = record {
  find = none;
  signal = sent;
  clock = λ k. k * poll_sleep;
  running = λ k. k == 0;
  started = 0;
}

watched-Sleeps : Sleeps watched.clock
watched-Sleeps k = omega arith

stop_process-Ends_example :
    let deadline : ℕ = 1000000000 in
    Ends
      (poll watched.clock watched.running deadline)
      (record { polls = 0; stopped = false })
      (poll_all watched.clock watched.running deadline 1000000000)
    × ((stop_process watched (pos 4) 1000000000 ≡ ok tt) ↔ (
        (k : ℕ) × (watched.clock k < deadline)
        × (watched.running k ≡ false)
        × ((j : ℕ) → j < k → watched.running j ≡ true)))
stop_process-Ends_example =
    stop_process-Ends watched 4 1000000000 (omega arith) watched-Sleeps (omega arith) refl refl
