-- ===== src/Jobs/Interleaved/Orderly.antt =====
-- One live task, where no call of `start` comes between the two halves of a `stop`.
use bodhrik_fullstack_assess.Common.{
  ℕ, ◌≤◌, ◌<◌, ◌≡◌, refl, sym, ◌∙◌, subst, ◌⊎◌, inl, inr, Bool, true, false, none, some, List, [],
  ◌∷◌, ◌++◌, arith, ◌==◌, if◌then◌else◌, length, any, All,
}
use bodhrik_fullstack_assess.Jobs.Scheduler.{is_running, start}
use bodhrik_fullstack_assess.Jobs.Interleaved.{
  System, new_system, begin_stop, end_task, finish_stop, Step, start_called, stop_called,
  task_ended, stop_resumed, Reach, here, next, Quiet,
}

-- What holds where `start` is called in quiet states only: the scheduler is stopped, or it works,
-- or it stops, and then every suspended call awaits the one task.
pub record IsStopping (t : ℕ) (s : System) : Type 0 where
  pub stopped : s.scheduler.running ≡ false
  pub awaited : All (λ (w : ℕ). w ≡ t) s.waiting
  pub busy : 0 < length s.waiting
  pub task : (s.scheduler.task ≡ none) ⊎ (s.scheduler.task ≡ some t)
  pub live : (s.scheduler.live ≡ []) ⊎ (s.scheduler.live ≡ t ∷ [])

pub record IsIdle (s : System) : Type 0 where
  pub stopped : s.scheduler.running ≡ false
  pub no_task : s.scheduler.task ≡ none
  pub none_live : s.scheduler.live ≡ []
  pub quiet : s.waiting ≡ []

pub record IsWorking (t : ℕ) (s : System) : Type 0 where
  pub runs : s.scheduler.running ≡ true
  pub task : s.scheduler.task ≡ some t
  pub live : s.scheduler.live ≡ t ∷ []
  pub quiet : s.waiting ≡ []

pub data IsOrderly (s : System) : Type 0 where
  idle : IsIdle s → IsOrderly s
  working : (t : ℕ) → IsWorking t s → IsOrderly s
  stopping : (t : ℕ) → IsStopping t s → IsOrderly s

start-IsOrderly :
    (s : System) (b : Bool)
    → Quiet s
    → IsOrderly s
    → IsOrderly (record s { scheduler = start b s.scheduler })
unfolding start
start-IsOrderly s true q (idle h) = working s.scheduler.next (ground arith)
start-IsOrderly s false q (idle h) = idle (ground arith)
start-IsOrderly s b q (working t h) = working t (ground arith)
start-IsOrderly s b q (stopping t h) = absurd (ground arith)

stop-IsOrderly : (s : System) → IsOrderly s → IsOrderly (begin_stop s)
unfolding begin_stop
stop-IsOrderly s (idle h) = idle (ground arith)
stop-IsOrderly s (working t h) = stopping t (ground arith)
stop-IsOrderly s (stopping t h) = stopping t (ground arith)

end-IsOrderly :
    (s : System) (u : ℕ)
    → (any (λ w. w == u) s.waiting ≡ true) ⊎ (s.scheduler.running ≡ false)
    → IsOrderly s
    → IsOrderly (end_task u s)
end-IsOrderly s u c (idle h) = idle (ground arith)
end-IsOrderly s u c (working t h) = absurd (ground arith)
end-IsOrderly s u c (stopping t h) = stopping t (ground arith)

All-remove :
    (t u : ℕ) (before after : List ℕ)
    → All (λ (w : ℕ). w ≡ t) (before ++ u ∷ after)
    → (u ≡ t) × All (λ (w : ℕ). w ≡ t) (before ++ after)
All-remove t u [] after h = h
All-remove t u (b ∷ bs) after h = let (e, rest) = All-remove t u bs after h.1 in (e, (h.0, rest))

not_empty : (u : ℕ) (before after : List ℕ) → [] ≡ before ++ u ∷ after → ⊥
not_empty u [] after h = cc
not_empty u (b ∷ bs) after h = cc

not_live :
    (t : ℕ) (live : List ℕ)
    → (live ≡ []) ⊎ (live ≡ t ∷ [])
    → any (λ l. l == t) live ≡ false
    → live ≡ []
not_live t live (inl e) h = e
not_live t live (inr e) h = absurd (ground arith)

resume-IsOrderly :
    (s : System) (before after : List ℕ) (u : ℕ)
    → s.waiting ≡ before ++ u ∷ after
    → any (λ l. l == u) s.scheduler.live ≡ false
    → IsOrderly s
    → IsOrderly (finish_stop (before ++ after) s)
resume-IsOrderly s before after u w gone (idle h) =
    absurd (not_empty u before after (sym h.quiet ∙ w))
resume-IsOrderly s before after u w gone (working t h) =
    absurd (not_empty u before after (sym h.quiet ∙ w))
resume-IsOrderly s before after u w gone (stopping t h) =
    let (same, rest) = All-remove t u before after (subst (All (λ (x : ℕ). x ≡ t)) w h.awaited) in
    let gone' : any (λ l. l == t) s.scheduler.live ≡ false =
      subst (λ (x : ℕ). any (λ l. l == x) s.scheduler.live ≡ false) same gone in
    let empty = not_live t s.scheduler.live h.live gone' in go (before ++ after) rest empty
  where
    go :
        (ws : List ℕ)
        → All (λ (x : ℕ). x ≡ t) ws
        → s.scheduler.live ≡ []
        → IsOrderly (finish_stop ws s)
    go [] all empty =
        idle (record { stopped = h.stopped; no_task = refl; none_live = empty; quiet = refl })
    go (x ∷ xs) all empty = stopping t (record {
      stopped = h.stopped;
      awaited = all;
      busy = omega arith;
      task = inl refl;
      live = inl empty;
    })

Step-IsOrderly : {s t : System} → Step Quiet s t → IsOrderly s → IsOrderly t
Step-IsOrderly (start_called s b q) h = start-IsOrderly s b q h
Step-IsOrderly (stop_called s) h = stop-IsOrderly s h
Step-IsOrderly (task_ended s t c) h = end-IsOrderly s t c h
Step-IsOrderly (stop_resumed s before after t w gone) h = resume-IsOrderly s before after t w gone h

Reach-IsOrderly : {s t : System} → IsOrderly s → Reach Quiet s t → IsOrderly t
Reach-IsOrderly h here = h
Reach-IsOrderly h (next r st) = Step-IsOrderly st (Reach-IsOrderly h r)

-- Where no call of `start` comes between the two halves of a `stop`, however else the calls and
-- the ends of tasks interleave: at most one task is live, and once no `stop` is suspended, one is
-- live exactly where the scheduler is running.
pub Reach-single :
    (s : System)
    → Reach Quiet new_system s
    → (length s.scheduler.live ≤ 1)
      × ((1 ≤ length s.waiting)
          ⊎ (length s.scheduler.live ≡ (if is_running s.scheduler then 1 else 0)))
Reach-single s r = orderly_live s (Reach-IsOrderly start_idle r)
  where
    start_idle : IsOrderly new_system
    start_idle = idle (record { stopped = refl; no_task = refl; none_live = refl; quiet = refl })

    orderly_live :
        (s : System)
        → IsOrderly s
        → (length s.scheduler.live ≤ 1)
          × ((1 ≤ length s.waiting)
              ⊎ (length s.scheduler.live ≡ (if is_running s.scheduler then 1 else 0)))
    orderly_live s (idle h) = (ground arith, inr (ground arith))
    orderly_live s (working t h) = (ground arith, inr (ground arith))
    orderly_live s (stopping t h) = (ground arith, inl (ground arith))
