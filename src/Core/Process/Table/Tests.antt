-- ===== src/Core/Process/Table/Tests.antt =====
-- The list of processes of kernel/src/core/process.c on a small state.
use alephos.Prelude.{ℕ, ◌+◌}
use alephos.Prelude.{◌≡◌, refl, sym, ◌∙◌, subst}
use alephos.Prelude.{Option, none, some, [], ◌∷◌, arith}
use alephos.Prelude.{◌==◌, if◌then◌else◌}
use mathlib.Core.Option.{some-injective}
use alephos.Allocator.{Allocator}
use alephos.Core.Process.{Process, ProcessState, Scheduler, scheduler_add}
use alephos.Core.Process.Chain.{delete}
use alephos.Core.Process.Queue.{IsQueue}
use alephos.Core.Process.Removal.{Yields}
use alephos.Core.Process.Table.{Kernel, context_at, process_create, process_destroy}
use alephos.Mm.Pmm.{alloc_page}
use alephos.Core.Process.Table.Listed.{
  IsListed, Misses, added, process_create-IsListed, scheduler_add-cuts, process_destroy-forgets,
}

-- Blocks are handed out one after another and never again.
abbrev counter : Allocator
counter = record { State = ℕ; malloc = λ n h. (some h, h + n); free = λ a h. h }

abbrev process : Option ℕ → Process
process next = record {
  pid = 1;
  state = ProcessState.new;
  stack = 65536;
  stack_size = 16384;
  cpu_state = 195328;
  next = next;
  time_slice = 100;
  time_used = 0;
  name = [];
  priority = 1;
}

-- Two processes, none of them scheduled
abbrev two : Scheduler
two = record {
  current_process = none;
  process_list = some 200;
  next_pid = 3;
  process_count = 2;
  ready_queue_head = none;
  ready_queue_tail = none;
  processes = λ a. if a == 200 then process (some 300) else process none;
}

abbrev kernel : Kernel ℕ
kernel = record {
  scheduler = two;
  contexts = λ a. record { rip = 0; cs = 0; rflags = 0; rsp = 0; ss = 0 };
  heap = 400;
  pages = record { bitmap = 0 ∷ 0 ∷ []; bitmap_size = 2; total_pages = 128; free_pages = 128 };
}

-- A structure that is written over.
abbrev scribble : Process → Process
scribble p = record p { next = none; pid = 0 }

first_page : (alloc_page kernel.pages).0 ≡ some 262144
unfolding alloc_page
first_page = refl

far_off : Misses (context_at 262144) (200 ∷ 300 ∷ [])
unfolding context_at
far_off = (refl, (refl, tt))

process_create-IsListed_example :
    IsListed
      (process_create counter scribble 4096 1 (b'a' ∷ []) kernel).1.scheduler
      (added (process_create counter scribble 4096 1 (b'a' ∷ []) kernel).0 (200 ∷ 300 ∷ []))
process_create-IsListed_example =
    process_create-IsListed counter scribble 4096 1 (b'a' ∷ []) kernel (200 ∷ 300 ∷ [])
      (λ at e.
        let given = some-injective 400 at e in
        ((λ f. absurd (omega (arith, given, f))), ((λ f. absurd (omega (arith, given, f))), tt)))
      (λ stack e.
        let given = some-injective 262144 stack (sym first_page ∙ e) in
        subst (λ a. Misses (context_at a) (200 ∷ 300 ∷ [])) given far_off)
      (refl, (refl, refl))

scheduler_add-cuts_example : IsListed (scheduler_add two (some 200)) (200 ∷ [])
scheduler_add-cuts_example = scheduler_add-cuts two [] (300 ∷ []) 200 tt tt (refl, (refl, refl))

process_destroy-forgets_example :
    Yields
      (λ k'. (k'.scheduler.process_list ≡ none) × IsQueue k'.scheduler (delete 200 []))
      (process_destroy counter 2 (some 200) kernel)
process_destroy-forgets_example =
    process_destroy-forgets counter 2 200 kernel [] (omega arith)
      (record { links = refl; tail = refl; distinct = tt }) refl
