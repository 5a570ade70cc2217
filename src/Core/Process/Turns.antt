-- ===== src/Core/Process/Turns.antt =====
-- The round-robin of kernel/src/core/process.c: `scheduler_tick`, tick after tick.
use alephos.Prelude.{ℕ, zero, suc, ◌+◌, ◌-◌, ◌*◌, ◌<◌}
use alephos.Prelude.{◌≡◌, refl, sym, ap, ap₂, ◌∙◌, subst, ◌≢◌, true, false}
use alephos.Prelude.{Option, none, some, List, [], ◌∷◌, ◌++◌, append_assoc, arith}
use alephos.Prelude.{leb, if◌then◌else◌, ne→==}
use alephos.Prelude.{length}
use alephos.Prelude.{u32}
use alephos.Core.Process.{
  Process, Scheduler, Switch, store, points_to, scheduler_add, scheduler_next, process_switch,
  saved, spend, expire, tick_of, scheduler_tick,
}
use alephos.Core.Process.Chain.{Absent, Absent-append, store-same, store-other}
use alephos.Core.Process.Queue.{IsQueue, scheduler_add-IsQueue, scheduler_next-IsQueue}
use alephos.Core.Process.Times.{
  times, AllFresh, AllFresh-ext, AllFresh-store, AllFresh-append, scheduler_add-times,
  scheduler_next-current, scheduler_next-times, scheduler_add-current, IsQueue-store,
}

-- Process `c` runs and has used `u` ticks; these processes wait, the next one first.
pub record Turn (s : Scheduler) (c u : ℕ) (ps : List ℕ) : Type 0 where
  pub running : s.current_process ≡ some c
  pub used : times s.processes c ≡ (100, u)
  pub queue : IsQueue s ps
  pub waiting : Absent c ps
  pub whole : AllFresh s.processes ps

spend-Turn :
    (s : Scheduler) (c u : ℕ) (ps : List ℕ)
    → u < 100
    → Turn s c u ps
    → Turn (spend c s) c (u + 1) ps
unfolding spend
spend-Turn s c u ps h t = record {
  running = t.running;
  used =
      ap (λ x. (x.time_slice, x.time_used)) (store-same s.processes c _)
      ∙ ap₂ (λ x y. (x, y)) (ap (λ x. x.0) t.used) (ap (λ x. u32 (x.1 + 1)) t.used ∙ omega arith);
  queue = IsQueue-store s c _ ps t.waiting t.queue;
  waiting = t.waiting;
  whole = AllFresh-store s.processes c _ ps t.waiting t.whole;
}

-- The slice of `c` is over and `b` is the next one.
expire-Turn :
    (s : Scheduler) (c b u : ℕ) (ps : List ℕ)
    → Turn s c u (b ∷ ps)
    → Turn (expire (some b, (scheduler_next s).1) c).1 b 0 (ps ++ (c ∷ []))
unfolding expire process_switch points_to
expire-Turn s c b u ps t =
    let s1 : Scheduler = (scheduler_next s).1 in
    let reset : Process = record (s1.processes c) { time_used = 0 } in
    let s2 : Scheduler = record s1 { processes = store s1.processes c reset } in
    let s3 : Scheduler = scheduler_add s2 (some c) in
    let (found, rest) = scheduler_next-IsQueue s b ps t.queue in
    let after : IsQueue s3 (ps ++ (c ∷ [])) =
      scheduler_add-IsQueue s2 c ps (IsQueue-store s1 c reset ps t.waiting.1 rest) t.waiting.1 in
    let current : s3.current_process ≡ some c =
      scheduler_add-current s2 c ∙ scheduler_next-current s ∙ t.running in
    let before_add = λ (x : ℕ). λ (n : c ≢ x).
      scheduler_add-times s2 c x
      ∙ ap (λ y. (y.time_slice, y.time_used)) (store-other s1.processes c x reset n)
      ∙ scheduler_next-times s x in
    let ran : times s3.processes c ≡ (100, 0) =
      scheduler_add-times s2 c c
      ∙ ap (λ y. (y.time_slice, y.time_used)) (store-same s1.processes c reset)
      ∙ ap (λ x. (x.0, 0)) (scheduler_next-times s c ∙ t.used) in
    let fresh : AllFresh s3.processes ps =
      AllFresh-ext s2.processes s3.processes ps (scheduler_add-times s2 c) (
        AllFresh-store s1.processes c reset ps t.waiting.1
          (AllFresh-ext s.processes s1.processes ps (scheduler_next-times s) t.whole.1)) in
    subst
      (λ cur.
        Turn
          (if◌then◌else◌ {A = Option Switch × Scheduler} (points_to cur b) (none, s3)
            (
              some record {
                old_state = saved s3 s3.current_process;
                new_state = (s3.processes b).cpu_state;
              },
              record s3 { current_process = some b },
            )).1
          b 0 (ps ++ (c ∷ [])))
      (sym current)
      (rw (ne→== c b t.waiting.0) record {
        running = refl;
        used = before_add b t.waiting.0 ∙ t.whole.0;
        queue = record { links = after.links; tail = after.tail; distinct = after.distinct };
        waiting = Absent-append b c ps t.queue.distinct.0 (λ e. t.waiting.0 (sym e));
        whole = AllFresh-append s3.processes c ps ran fresh;
      })

-- The state after `n` ticks.
pub ticks : ℕ → Scheduler → Scheduler
ticks zero s = s
ticks (suc n) s = ticks n (scheduler_tick s).1

tick-Turn :
    (s : Scheduler) (c b u : ℕ) (ps : List ℕ)
    → Turn s c u (b ∷ ps)
    → u + 1 < 100
    → Turn (scheduler_tick s).1 c (u + 1) (b ∷ ps)
unfolding scheduler_tick tick_of
tick-Turn s c b u ps t h =
    let spent : Turn (spend c s) c (u + 1) (b ∷ ps) = spend-Turn s c u (b ∷ ps) (omega arith) t in
    let left : leb ((spend c s).processes c).time_slice ((spend c s).processes c).time_used
        ≡ false =
      ap (λ x. leb x.0 x.1) spent.used ∙ ground arith in
    subst (λ cur. Turn (tick_of cur s).1 c (u + 1) (b ∷ ps)) (sym t.running) (rw left spent)

tick-Turn_last :
    (s : Scheduler) (c b : ℕ) (ps : List ℕ)
    → Turn s c 99 (b ∷ ps)
    → Turn (scheduler_tick s).1 b 0 (ps ++ (c ∷ []))
unfolding scheduler_tick tick_of
tick-Turn_last s c b ps t =
    let s' : Scheduler = spend c s in
    let spent : Turn s' c 100 (b ∷ ps) = spend-Turn s c 99 (b ∷ ps) (omega arith) t in
    let over : leb (s'.processes c).time_slice (s'.processes c).time_used ≡ true =
      ap (λ x. leb x.0 x.1) spent.used in
    let found : (scheduler_next s').0 ≡ some b = (scheduler_next-IsQueue s' b ps spent.queue).0 in
    subst (λ cur. Turn (tick_of cur s).1 b 0 (ps ++ (c ∷ []))) (sym t.running)
      (rw over (
        subst (λ o. Turn (expire (o, (scheduler_next s').1) c).1 b 0 (ps ++ (c ∷ []))) (sym found)
          (expire-Turn s' c b 100 ps spent)))

-- After as many ticks as its slice has left, the running process goes to the end of the queue
-- and the next one runs.
ticks-Turn :
    (n : ℕ) (s : Scheduler) (c b u : ℕ) (ps : List ℕ)
    → u + suc n ≡ 100
    → Turn s c u (b ∷ ps)
    → Turn (ticks (suc n) s) b 0 (ps ++ (c ∷ []))
unfolding ticks
ticks-Turn zero s c b u ps h t =
    tick-Turn_last s c b ps (subst (λ u. Turn s c u (b ∷ ps)) (omega arith) t)
ticks-Turn (suc n) s c b u ps h t =
    ticks-Turn n (scheduler_tick s).1 c b (u + 1) ps (omega arith)
      (tick-Turn s c b u ps t (omega arith))

ticks-add : (m n : ℕ) (s : Scheduler) → ticks (m + n) s ≡ ticks n (ticks m s)
unfolding ticks
ticks-add zero n s = ap (λ k. ticks k s) {x = 0 + n} {y = n} (omega arith)
ticks-add (suc m) n s =
    ap (λ k. ticks k s) {x = suc m + n} {y = suc (m + n)} (omega arith)
    ∙ ticks-add m n (scheduler_tick s).1

-- Every waiting process gets the processor: in a state where one process runs that has used u
-- of its 100 ticks and valid, distinct processes with whole slices wait, the process with n
-- others before it runs once 100 - u and 100 * n ticks have passed.
pub ticks-runs :
    (s : Scheduler) (c u : ℕ) (ps : List ℕ) (d : ℕ) (qs : List ℕ)
    → u < 100
    → Turn s c u (ps ++ (d ∷ qs))
    → (ticks (suc (99 - u) + 100 * length ps) s).current_process ≡ some d
ticks-runs s c u [] d qs h t =
    ap (λ x. x.current_process)
      (ap (λ n. ticks n s) {x = suc (99 - u) + 100 * 0} {y = suc (99 - u)} (omega arith))
    ∙ (ticks-Turn (99 - u) s c d u qs (omega arith) t).running
ticks-runs s c u (b ∷ ps) d qs h t =
    let next = ticks-Turn (99 - u) s c b u (ps ++ (d ∷ qs)) (omega arith) t in
    let mid : Scheduler = ticks (suc (99 - u)) s in
    ap (λ x. x.current_process)
      (ticks-add (suc (99 - u)) (100 * length (b ∷ ps)) s
        ∙ ap (λ n. ticks n mid) {x = 100 * length (b ∷ ps)} {y = suc 99 + 100 * length ps}
            (omega arith))
    ∙ ticks-runs mid b 0 ps d (qs ++ (c ∷ [])) (omega arith)
        (subst (λ l. Turn mid b 0 l) (append_assoc ps (d ∷ qs) (c ∷ [])) next)
