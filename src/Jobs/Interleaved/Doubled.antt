-- ===== src/Jobs/Interleaved/Doubled.antt =====
-- Two live tasks, where a call of `start` comes between the two halves of a `stop`.
use bodhrik_fullstack_assess.Common.{
  ℕ, ◌<◌, ◌≡◌, refl, inl, true, false, some, [], ◌∷◌, arith, ◌==◌, length, ⊤,
}
use bodhrik_fullstack_assess.Jobs.Scheduler.{is_running, start}
use bodhrik_fullstack_assess.Jobs.Interleaved.{
  System, begin_stop, end_task, finish_stop, start_called, stop_called, task_ended, stop_resumed,
  Reach, here, next, Quiet,
}

-- A scheduler at work, whose task is `t`.
abbrev pub at_work : ℕ → ℕ → System
at_work t n = record {
  scheduler = record { running = true; task = some t; live = t ∷ []; next = n };
  waiting = [];
}

abbrev start_called_in : System → System
start_called_in s = record s { scheduler = start true s.scheduler }

-- A `start` between the two halves of a `stop` doubles the task: from every scheduler at work, a
-- stop, a start, the end of the old task, the rest of the stop and one more start lead to a
-- running scheduler with two live tasks, while no stop is suspended.
pub Reach-double :
    (t n : ℕ)
    → t < n
    → (u : System) × Reach (λ _. ⊤) (at_work t n) u
      × (is_running u.scheduler ≡ true)
      × Quiet u
      × (length u.scheduler.live ≡ 2)
unfolding begin_stop start
Reach-double t n lt =
    let stopped = begin_stop (at_work t n) in
    let started = start_called_in stopped in
    let ended = end_task t started in
    let left = finish_stop [] ended in
    let other : (n == t) ≡ false = ground arith in
    let own : (t == t) ≡ true = ground arith in
    (
      start_called_in left,
      next
          (next
            (next (next (next here (stop_called (at_work t n))) (start_called stopped true tt))
              (task_ended started t (inl (ground arith))))
            (stop_resumed ended [] [] t refl (ground arith)))
          (start_called left true tt),
      ground arith,
      refl,
      ground arith,
    )
