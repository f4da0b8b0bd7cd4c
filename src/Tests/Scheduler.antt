-- ===== src/Tests/Scheduler.antt =====
-- The scheduler's calls where they interleave.
use bodhrik_fullstack_assess.Common.{
  ◌≡◌, ◌≤◌, refl, ◌⊎◌, inl, true, [], ◌∷◌, arith, length, if◌then◌else◌, ⊤,
}
use bodhrik_fullstack_assess.Jobs.Scheduler.{is_running, start}
use bodhrik_fullstack_assess.Jobs.Interleaved.{
  System, new_system, begin_stop, end_task, finish_stop, start_called, stop_called, task_ended,
  stop_resumed, Reach, here, next, Quiet,
}
use bodhrik_fullstack_assess.Jobs.Interleaved.Orderly.{Reach-single}
use bodhrik_fullstack_assess.Jobs.Interleaved.Doubled.{at_work, Reach-double}

abbrev working : System
working = record new_system { scheduler = start true new_system.scheduler }

-- Two calls of `stop` overlap, and the task ends before either returns.
abbrev settled : System
settled = finish_stop [] (finish_stop (0 ∷ []) (end_task 0 (begin_stop (begin_stop working))))

path : Reach Quiet new_system settled
unfolding begin_stop start
path =
    next
      (next
        (next
          (next (next (next here (start_called new_system true refl)) (stop_called working))
            (stop_called (begin_stop working)))
          (task_ended (begin_stop (begin_stop working)) 0 (inl refl)))
        (stop_resumed (end_task 0 (begin_stop (begin_stop working))) [] (0 ∷ []) 0 refl refl))
      (stop_resumed (finish_stop (0 ∷ []) (end_task 0 (begin_stop (begin_stop working)))) [] [] 0
        refl refl)

Reach-single_example :
    (length settled.scheduler.live ≤ 1)
    × ((1 ≤ length settled.waiting)
        ⊎ (length settled.scheduler.live ≡ (if is_running settled.scheduler then 1 else 0)))
Reach-single_example = Reach-single settled path

Reach-double_example :
    (u : System) × Reach (λ _. ⊤) (at_work 0 1) u
    × (is_running u.scheduler ≡ true)
    × Quiet u
    × (length u.scheduler.live ≡ 2)
Reach-double_example = Reach-double 0 1 (omega arith)
