-- ===== src/PidFile/Stop/Polls.antt =====
-- That `StopProcess` waits no longer than its deadline, and sees every stop before it.
use marmot_cli.Common.{
  ℕ, zero, suc, pos, ◌↔◌, ◌+◌, ◌-◌, ◌/◌, ◌≤◌, ◌<◌, ◌≡◌, refl, subst, Bool, true, false, Bool-cases,
  inl, inr, none, some, arith, ok, Ends, exit, again, repeat-Ends, repeat-keeps, if◌then◌else◌,
}
use native.Mathlib.Decide.{dec_lt}
use native.Mathlib.Nat.{le_refl}
use marmot_cli.Storage.{Time}
use marmot_cli.PidFile.Stop.{
  poll_sleep, Polling, poll, poll_all, Watched, sent, stop_process, signalled, waited,
}

-- The clock goes on by what is slept, at least.
abbrev pub Sleeps : (ℕ → Time) → Type 0
Sleeps clock = (k : ℕ) → clock k + poll_sleep ≤ clock (suc k)

abbrev begin : Polling
begin = record { polls = 0; stopped = false }

module _ (clock : ℕ → Time) (running : ℕ → Bool) (deadline : Time) (sleeps : Sleeps clock) where
  -- The sleeps that are left, and one for the round that finds the process gone.
  left : Polling → ℕ
  left p = if p.stopped then 0 else suc ((deadline - clock p.polls + (poll_sleep - 1)) / poll_sleep)

  poll-lower : (s t : Polling) → poll clock running deadline s ≡ some t → left t < left s
  unfolding poll left
  poll-lower s t e = ground (arith, sleeps s.polls)

  poll_all-Ends :
      (timeout : ℕ)
      → deadline ≤ clock 0 + timeout
      → Ends (poll clock running deadline) begin (poll_all clock running deadline timeout)
  unfolding poll_all left
  poll_all-Ends timeout h =
      repeat-Ends (poll clock running deadline) left poll-lower (timeout / poll_sleep + 2) begin
        (omega arith)

  -- The clock does not go back.
  clock_mono : (k n : ℕ) → clock k ≤ clock (k + n)
  clock_mono k zero = let same : k + 0 ≡ k = omega arith in rw same (le_refl (clock k))
  clock_mono k (suc n) =
      let next : k + suc n ≡ suc (k + n) = omega arith in
      rw next (omega (arith, clock_mono k n, sleeps (k + n)))

  Ends-kept :
      {s last : Polling}
      → Ends (poll clock running deadline) s last
      → s.stopped ≡ true
      → last.stopped ≡ true
  unfolding poll
  Ends-kept (exit e) h = h
  Ends-kept (again e rest) h = absurd (ground arith)

  poll-on :
      (k : ℕ) (s t : Polling)
      → running k ≡ false
      → poll clock running deadline s ≡ some t
      → s.polls ≤ k
      → t.stopped ≡ false
      → t.polls ≤ k
  unfolding poll
  poll-on k s t gone e before on = elim (dec_lt s.polls k) [
    | yes early ↦ ground arith
    | no late ↦
        let same : s.polls ≡ k = omega arith in
        let gone_here : running s.polls ≡ false = rw same gone in ground arith
  ]

  -- From a poll that is not behind the one at which the process is gone, the loop comes to stop.
  Ends-stopped :
      (k : ℕ) {s last : Polling}
      → clock k < deadline
      → running k ≡ false
      → Ends (poll clock running deadline) s last
      → s.polls ≤ k
      → last.stopped ≡ true
  unfolding poll
  Ends-stopped k {s} early gone (exit e) before =
      let kept : clock s.polls ≤ clock k =
        subst (λ n. clock s.polls ≤ clock n) (omega arith) (clock_mono s.polls (k - s.polls)) in
      ground arith
  Ends-stopped k {s} early gone (again {t = t} e rest) before = elim (Bool-cases t.stopped) [
    | inl done ↦ Ends-kept rest done
    | inr on ↦ Ends-stopped k early gone rest (poll-on k s t gone e before on)
  ]

  -- What the loop has seen when it ends.
  record HasSeen (p : Polling) : Type 0 where
    alive : (j : ℕ) → j < p.polls → running j ≡ true
    gone : p.stopped ≡ true → (clock p.polls < deadline) × (running p.polls ≡ false)

  poll-HasSeen : (s t : Polling) → poll clock running deadline s ≡ some t → HasSeen s → HasSeen t
  unfolding poll
  poll-HasSeen s t e h = record {
    alive = λ j early. elim (dec_lt j s.polls) [
      | yes before ↦ h.alive j before
      | no late ↦
          let here : running s.polls ≡ true = ground arith in
          let same : j ≡ s.polls = ground arith in rw same here
    ];
    gone = λ done. ground arith;
  }

  poll_all-HasSeen : (timeout : ℕ) → HasSeen (poll_all clock running deadline timeout)
  unfolding poll_all
  poll_all-HasSeen timeout =
      repeat-keeps (poll clock running deadline) HasSeen poll-HasSeen (timeout / poll_sleep + 2)
        begin (record { alive = λ j early. absurd (omega arith); gone = λ done. absurd (cc) })

  poll_all-stopped :
      (timeout k : ℕ)
      → deadline ≤ clock 0 + timeout
      → clock k < deadline
      → running k ≡ false
      → (poll_all clock running deadline timeout).stopped ≡ true
  poll_all-stopped timeout k bound early gone =
      Ends-stopped k early gone (poll_all-Ends timeout bound) (omega arith)

stop_process-sent :
    (w : Watched) (pid timeout : ℕ)
    → 0 < pid
    → w.find ≡ none
    → w.signal ≡ sent
    → stop_process w (pos pid) timeout
      ≡ waited pid (poll_all w.clock w.running (w.started + timeout) timeout)
unfolding stop_process signalled
stop_process-sent w zero timeout h found signal = absurd (omega arith)
stop_process-sent w (suc n) timeout h found signal = rw (found, signal) refl

-- For a pid that is positive, where the signal is sent and the clock goes on by each sleep: the waiting ends
-- after at most as many polls as sleeps of 100 ms fit into the timeout, and two; and the call succeeds exactly
-- where there is a poll before the deadline that finds the process gone, with all polls before it finding it
-- running.
pub stop_process-Ends :
    (w : Watched) (pid timeout : ℕ)
    → 0 < pid
    → Sleeps w.clock
    → w.started ≤ w.clock 0
    → w.find ≡ none
    → w.signal ≡ sent
    → let deadline = w.started + timeout in
      Ends (poll w.clock w.running deadline) begin (poll_all w.clock w.running deadline timeout)
      × ((stop_process w (pos pid) timeout ≡ ok tt) ↔ (
          (k : ℕ) × (w.clock k < deadline)
          × (w.running k ≡ false)
          × ((j : ℕ) → j < k → w.running j ≡ true)))
unfolding waited
stop_process-Ends w pid timeout real sleeps start found signal =
    let deadline = w.started + timeout in
    let last = poll_all w.clock w.running deadline timeout in
    let seen = poll_all-HasSeen w.clock w.running deadline sleeps timeout in
    let waits = stop_process-sent w pid timeout real found signal in
    (
      poll_all-Ends w.clock w.running deadline sleeps timeout (omega arith),
      (
        λ h. elim (Bool-cases last.stopped) [
          | inl e ↦ (last.polls, (seen.gone e).0, (seen.gone e).1, seen.alive)
          | inr e ↦ absurd (cc (rw (waits, e) at h))
        ],
        λ g.
            let (k, early, gone, alive) = g in
            let stopped =
              poll_all-stopped w.clock w.running deadline sleeps timeout k (omega arith) early
                gone in
            rw (waits, stopped) refl,
      ),
    )
