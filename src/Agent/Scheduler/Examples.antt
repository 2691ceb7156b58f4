-- ===== src/Agent/Scheduler/Examples.antt =====
-- A toy cron, and a database that is scheduled twice.
use marmot_cli.Common.{
  ℕ, suc, ◌+◌, ◌≡◌, ◌≤◌, refl, false, not, List, [], ◌∷◌, ◌++◌, arith, Bytes, codes, text_eq,
  is_empty, Result, ok, err, ◌==◌, keep_if, All, Has, here, there, if◌then◌else◌, ap, subst, ◌∙◌,
}
use marmot_cli.Config.{find_database}
use marmot_cli.Config.Examples.{with_shop, shop}
use marmot_cli.Agent.Scheduler.{
  Job, backs_up, retries_uploads, Cron, Scheduler, entry_id, set_id, delete_id, schedule_database,
  start,
}
use marmot_cli.Agent.Scheduler.Entries.{Call, starts, schedules, call, run, run_one_entry}

-- A number above all ids.
abbrev pub above : List (ℕ × Job) → ℕ
above [] = 1
above ((id, job) ∷ es) = suc id + above es

pub above_fresh : (k : ℕ) (es : List (ℕ × Job)) → above es ≤ k → All (λ e. (e.0 == k) ≡ false) es
above_fresh k [] h = tt
above_fresh k ((id, job) ∷ es) h = (ground arith, above_fresh k es (omega arith))

abbrev pub add : Bytes → Job → List (ℕ × Job) → Result Bytes (List (ℕ × Job) × ℕ)
add spec job es =
    if is_empty spec then err (codes "empty spec") else ok (es ++ ((above es, job) ∷ []), above es)

pub add_ok :
    (spec : Bytes) (job : Job) (es : List (ℕ × Job)) {es' : List (ℕ × Job)} {id : ℕ}
    → add spec job es ≡ ok (es', id)
    → (es' ≡ es ++ ((id, job) ∷ [])) × All (λ e. (e.0 == id) ≡ false) es
add_ok spec job es {es'} {id} h =
    let fresh = above_fresh (above es) es (omega arith) in
    let taken : above es ≡ id = ground arith in
    let grown : es' ≡ es ++ ((above es, job) ∷ []) = ground arith in
    (
      grown ∙ ap (λ n. es ++ ((n, job) ∷ [])) taken,
      subst (λ n. All (λ e. (e.0 == n) ≡ false) es) taken fresh,
    )

abbrev pub toy_cron : Cron
toy_cron = record {
  State = List (ℕ × Job);
  add_func = add;
  remove = λ id es. keep_if (λ e. not (e.0 == id)) es;
  entries = λ es. es;
  entries-add_func = λ spec job es h. add_ok spec job es h;
  entries-remove = λ id es. refl;
}

abbrev idle : Scheduler toy_cron
idle = record { jobs = []; entry_ids = []; is_running = false }

abbrev calls : List (Call toy_cron)
calls = starts with_shop ∷ schedules with_shop (codes "shop") ∷ []

entries_after : (run toy_cron calls idle).jobs ≡ (3, retries_uploads) ∷ (5, backs_up shop) ∷ []
unfolding run call start schedule_database find_database entry_id set_id delete_id text_eq is_empty
    keep_if
entries_after = refl

-- The id of the shop's entry.
abbrev last_id : ℕ
last_id = 5

shop_entry : Has (last_id, backs_up shop) (run toy_cron calls idle).jobs
shop_entry = rw entries_after (there here)

run_one_entry_example : last_id ≡ last_id
run_one_entry_example =
    run_one_entry toy_cron calls idle 5 5 shop shop refl shop_entry shop_entry refl
