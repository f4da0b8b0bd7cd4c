-- ===== src/Summary/Drain.antt =====
-- The worker and its queue.
use bodhrik_fullstack_assess.Common.{
  ℕ, suc, ◌+◌, ◌≡◌, refl, sym, ap, ◌∙◌, subst, inl, inr, true, Option, none, some, List, [], ◌∷◌,
  arith, ◌==◌, if◌then◌else◌, ==_iff, Bool-cases, length, All,
}
use bodhrik_fullstack_assess.Models.{Database}
use bodhrik_fullstack_assess.Summary.Redis.{Job, Task, Redis, stored, blpop, ping}
use bodhrik_fullstack_assess.Summary.Service.{Printing}
use bodhrik_fullstack_assess.Summary.Worker.{counted, begin, handle, pass, worker_loop, run_worker}
use bodhrik_fullstack_assess.Summary.Finish.{
  Reachable, is_finished, outcome, processed, started, process_summary_job-Reachable,
  stored-put_both, conclude_finished,
}

-- The job of a task has ended, and its record can be read.
abbrev pub Ended : ℕ → Redis → Task → Type 0
Ended now r task =
    (job : Job) × (stored now task.job_id r.jobs ≡ some job) × (is_finished job.status ≡ true)

pub ping-Reachable :
    (r : Redis) → Reachable r → ping r ≡ (some tt, record r { calls = suc r.calls })
ping-Reachable r up = rw (up r.calls) refl

module _ (print : Printing) (now : ℕ) (db : Database) where
  -- the state after a pass that took the first task
  abbrev pub taken : Task → List Task → Redis → Redis
  taken task rest r =
      processed print now db task.job_id task.provider_id
        (record r { queue = rest; calls = suc r.calls })

  pub pass-taken :
      (task : Task) (rest : List Task) (r : Redis)
      → Reachable r
      → r.queue ≡ task ∷ rest
      → pass print now db r ≡ (1, taken task rest r)
  unfolding pass
  pass-taken task rest r up e =
      let popped : blpop r ≡ (some (some task), record r { queue = rest; calls = suc r.calls }) =
        rw (up r.calls, e) refl in
      let done =
        process_summary_job-Reachable print now db task.job_id task.provider_id
          (record r { queue = rest; calls = suc r.calls }) up in
      ap (handle print now db) popped ∙ ap (λ (q : Option Job × Redis). (counted q.0, q.1)) done

  pub stored-taken :
      (task : Task) (rest : List Task) (r : Redis) (key : ℕ)
      → stored now key (taken task rest r).jobs ≡ (
          if key == task.job_id
          then some (
              outcome print now db task.job_id task.provider_id
                (record r { queue = rest; calls = suc r.calls }))
          else stored now key r.jobs)
  stored-taken task rest r key =
      let r' = record r { queue = rest; calls = suc r.calls } in
      stored-put_both now now key task.job_id (started print now db task.job_id task.provider_id r')
        (outcome print now db task.job_id task.provider_id r') r.jobs (omega arith)

  Ended-taken : (task : Task) (rest : List Task) (r : Redis) → Ended now (taken task rest r) task
  Ended-taken task rest r =
      let r' = record r { queue = rest; calls = suc r.calls } in
      (
        outcome print now db task.job_id task.provider_id r',
        stored-taken task rest r task.job_id ∙ ground arith,
        conclude_finished print now db task.job_id task.provider_id
            (started print now db task.job_id task.provider_id r'),
      )

  Ended-keeps :
      (task other : Task) (rest : List Task) (r : Redis)
      → Ended now r other
      → Ended now (taken task rest r) other
  Ended-keeps task other rest r h = elim (Bool-cases (other.job_id == task.job_id)) [
    | inl e ↦
        let same : other.job_id ≡ task.job_id = (==_iff other.job_id task.job_id).0 e in
        let (job, found, ended) = Ended-taken task rest r in (job, rw same found, ended)
    | inr e ↦
        let (job, found, ended) = h in
        (job, stored-taken task rest r other.job_id ∙ rw e found, ended)
  ]

  -- What has ended stays so while the loop goes on.
  loop_keeps :
      (tasks : List Task) (n : ℕ) (r : Redis) (other : Task)
      → Reachable r
      → r.queue ≡ tasks
      → Ended now r other
      → Ended now (worker_loop print now db (length tasks) none n r).1 other
  unfolding worker_loop
  loop_keeps [] n r other up e h = h
  loop_keeps (task ∷ rest) n r other up e h =
      subst
        (λ (q : ℕ × Redis).
          Ended now (worker_loop print now db (length rest) none (n + q.0) q.1).1 other)
        (sym (pass-taken task rest r up e))
        (loop_keeps rest (n + 1) (taken task rest r) other up refl
          (Ended-keeps task other rest r h))

  -- A loop without limit that makes as many passes as the queue is long takes the whole queue,
  -- counts it, and ends every job.
  worker_loop_drains :
      (tasks : List Task) (n : ℕ) (r : Redis)
      → Reachable r
      → r.queue ≡ tasks
      → let (count, r') = worker_loop print now db (length tasks) none n r in
        (count ≡ n + length tasks) × (r'.queue ≡ []) × All (Ended now r') tasks
  unfolding worker_loop
  worker_loop_drains [] n r up e = (ground arith, e, tt)
  worker_loop_drains (task ∷ rest) n r up e =
      let r' = taken task rest r in
      let (count, empty, ended) = worker_loop_drains rest (n + 1) r' up refl in
      let first_ended = loop_keeps rest (n + 1) r' task up refl (Ended-taken task rest r) in
      subst
        (λ (q : ℕ × Redis).
          let (count, t) = worker_loop print now db (length rest) none (n + q.0) q.1 in
          (count ≡ n + length (task ∷ rest)) × (t.queue ≡ []) × All (Ended now t) (task ∷ rest))
        (sym (pass-taken task rest r up e)) (omega (arith, count), empty, (first_ended, ended))

  -- A worker that starts with Redis and the database up, without limit, and makes as many passes
  -- as the queue is long, returns the length of the queue, leaves it empty, and has ended the job
  -- of each of its tasks: completed or failed, but no longer queued or processing.
  pub run_worker_drains :
      (r : Redis)
      → Reachable r
      → let (count, r') = run_worker print now db true (length r.queue) none r in
        (count ≡ length r.queue) × (r'.queue ≡ []) × All (Ended now r') r.queue
  unfolding run_worker
  run_worker_drains r up =
      let r' = record r { calls = suc r.calls } in
      let eq : run_worker print now db true (length r.queue) none r
          ≡ worker_loop print now db (length r.queue) none 0 r' =
        ap (begin print now db true (length r.queue) none) (ping-Reachable r up) in
      subst
        (λ (q : ℕ × Redis). (q.0 ≡ length r.queue) × (q.1.queue ≡ []) × All (Ended now q.1) r.queue)
        (sym eq)
        (let (count, empty, ended) = worker_loop_drains r.queue 0 r' up refl in
          (omega (arith, count), empty, ended))
