-- ===== src/Core/Process/Tests.antt =====
-- The scheduler of kernel/src/core/process.c on three processes.
use alephos.Prelude.{ℕ, suc, ◌+◌, ◌-◌, ◌*◌}
use alephos.Prelude.{◌≡◌, refl}
use alephos.Prelude.{Option, none, some, [], ◌∷◌, arith}
use alephos.Prelude.{◌==◌, if◌then◌else◌}
use alephos.Core.Process.{Process, ProcessState, Scheduler, scheduler_add, scheduler_remove}
use alephos.Core.Process.Chain.{delete}
use alephos.Core.Process.Queue.{IsQueue, scheduler_add-IsQueue}
use alephos.Core.Process.Removal.{Yields, scheduler_remove-IsQueue}
use alephos.Core.Process.Turns.{Turn, ticks, ticks-runs}

abbrev process : Option ℕ → ℕ → Process
process next used = record {
  pid = 1;
  state = ProcessState.ready;
  stack = 65536;
  stack_size = 16384;
  cpu_state = 195328;
  next = next;
  time_slice = 100;
  time_used = used;
  name = [];
  priority = 1;
}

-- 100 runs and has used 98 ticks; 200 and 300 wait.
abbrev three : Scheduler
three = record {
  current_process = some 100;
  process_list = some 200;
  next_pid = 4;
  process_count = 3;
  ready_queue_head = some 200;
  ready_queue_tail = some 300;
  processes =
      λ a. if a == 200 then process (some 300) 0 else process none (if a == 100 then 98 else 0);
}

three-IsQueue : IsQueue three (200 ∷ 300 ∷ [])
three-IsQueue = record {
  links = (refl, (refl, refl));
  tail = refl;
  distinct = (((λ e. absurd (omega arith)), tt), (tt, tt));
}

three-Turn : Turn three 100 98 (200 ∷ 300 ∷ [])
three-Turn = record {
  running = refl;
  used = refl;
  queue = three-IsQueue;
  waiting = ((λ e. absurd (omega arith)), ((λ e. absurd (omega arith)), tt));
  whole = (refl, (refl, tt));
}

scheduler_add-IsQueue_example : IsQueue (scheduler_add three (some 100)) (200 ∷ 300 ∷ 100 ∷ [])
scheduler_add-IsQueue_example =
    scheduler_add-IsQueue three 100 (200 ∷ 300 ∷ []) three-IsQueue
      ((λ e. absurd (omega arith)), ((λ e. absurd (omega arith)), tt))

scheduler_remove-IsQueue_example :
    Yields (λ s'. IsQueue s' (delete 300 (200 ∷ 300 ∷ []))) (scheduler_remove 4 three (some 300))
scheduler_remove-IsQueue_example =
    scheduler_remove-IsQueue 4 three 300 (200 ∷ 300 ∷ []) (omega arith) three-IsQueue

ticks-runs_example : (ticks (suc (99 - 98) + 100 * 1) three).current_process ≡ some 300
ticks-runs_example = ticks-runs three 100 98 (200 ∷ []) 300 [] (omega arith) three-Turn
