-- ===== src/Core/Process/Table.antt =====
-- kernel/src/core/process.c: process_create and process_destroy. The kernel's state is the
-- scheduler's beside the saved processor states, by address, the heap and the pages. `malloc` is
-- an allocator given as a record, and the pages are those of kernel/src/mm/pmm.c.
pub mod Listed
mod Tests
use alephos.Prelude.{
  ℕ, zero, suc, ◌+◌, ◌-◌, ◌*◌, ◌/◌, ◌%◌, ◌^◌, ◌≤◌, ◌<◌, min, max, bit_and, bit_or, bit_xor,
}
use alephos.Prelude.{
  ◌≡◌, refl, sym, ap, ap₂, ◌∙◌, subst, ◌≢◌, ◌↔◌, ◌⊎◌, inl, inr, Bool, true, false, not, ◌&&◌, ◌||◌,
}
use alephos.Prelude.{Option, none, some, List, [], ◌∷◌, ◌++◌, append-nil, append_assoc, arith}
use alephos.Prelude.{
  ltb, leb, ◌==◌, if◌then◌else◌, is_some, Bool-cases, Option-cases, if_both, ltb→lt, ltb→le, lt→ltb,
  ==→eq, ==→ne, eq→==, ne→==,
}
use alephos.Prelude.{
  length, get_elem?, get_or, set, take, drop, replicate, length-append, length-set,
  length-replicate, length-take, length-drop, take-append-drop, get_or-set_self, get_or-set_ne,
  get_or-replicate, set-get_or, set-set, take-ge, drop-ge, take-of_append, drop-of_append,
}
use alephos.Prelude.{u8, u16, u32, u64, sub32, sub64}
use alephos.Prelude.{◌>>=◌}
use alephos.Allocator.{Allocator}
use alephos.Mm.Pmm.{Pmm, alloc_page, free_page}
use alephos.Tty.Terminal.{until_nul, copy_name}
use alephos.Core.Process.{
  Process, ProcessState, CpuState, Scheduler, Walk, ended, out_of_fuel, max_processes,
  stack_size_bytes, sizeof_process, sizeof_cpu_state, store, set_next, points_to, find_prev,
  scheduler_remove,
}

pub record Kernel (H : Type 0) : Type 0 where
  pub scheduler : Scheduler
  pub contexts : ℕ → CpuState
  pub heap : H
  pub pages : Pmm

-- `process->stack` is a `uint64_t *`, so that its offset counts words.
pub context_at : ℕ → ℕ
context_at stack = u64 (stack + (stack_size_bytes - sizeof_cpu_state) * 8)

-- The structure when everything in it is set but its link.
fill : ℕ → ℕ → List ℕ → ℕ → Process
unfolding copy_name until_nul context_at
fill pid priority name stack = record {
  pid = pid;
  state = ProcessState.new;
  stack = stack;
  stack_size = stack_size_bytes;
  cpu_state = context_at stack;
  next = none;
  time_slice = 100;
  time_used = 0;
  name = copy_name 31 (until_nul name) ++ (0 ∷ []);
  priority = priority;
}

-- The saved state that starts the process at `entry`.
first_context : ℕ → ℕ → CpuState
first_context entry stack = record {
  rip = entry;
  cs = 8;
  rflags = 514;
  rsp = u64 (stack + stack_size_bytes * 8);
  ss = 16;
}

put_context : (ℕ → CpuState) → ℕ → CpuState → ℕ → CpuState
put_context m a c b = if a == b then c else m b

-- Puts the structure at the front of the list of processes.
pub enlist : Scheduler → ℕ → Process → Scheduler
unfolding store
enlist s at p = record s {
  process_list = some at;
  process_count = u32 (s.process_count + 1);
  processes = store s.processes at (record p { next = s.process_list });
}

-- From the removal from the scheduler's queue on: the list of processes without `p`, if the walk
-- ended.
pub delist : Walk → ℕ → Scheduler → Option Scheduler
unfolding set_next points_to
delist w p s =
    if points_to s.process_list p
    then some (record s { process_list = (s.processes p).next })
    else elim w [
      | out_of_fuel ↦ none
      | ended q ↦ some (elim q [
        | none ↦ s
        | some a ↦ record s { processes = set_next s.processes a (s.processes p).next }
      ])
    ]

-- Whether the saved state at `c` and the process structure at `a` have a byte in common.
abbrev pub meets : ℕ → ℕ → Bool
meets c a = ltb c (a + sizeof_process) && ltb a (c + sizeof_cpu_state)

-- The structures once a saved state is written at `c`: the place is far behind the page of the
-- stack, and a structure that it meets is changed in a way that `junk` gives.
pub spill : (Process → Process) → (ℕ → Process) → ℕ → ℕ → Process
spill junk m c a = if meets c a then junk (m a) else m a

module _ (A : Allocator) (junk : Process → Process) where
  -- The rest of `process_create`, once the stack was asked for; without one the structure is given
  -- back as far as it was filled.
  with_stack : ℕ → ℕ → List ℕ → ℕ → Option ℕ × Pmm → Kernel A.State → Option ℕ × Kernel A.State
  unfolding fill first_context put_context enlist store spill
  with_stack entry priority name at (none, pages) k = (
    none,
    record k {
      scheduler = record k.scheduler {
        next_pid = u32 (k.scheduler.next_pid + 1);
        processes =
            store k.scheduler.processes at (record (fill k.scheduler.next_pid priority name 0) {
              cpu_state = (k.scheduler.processes at).cpu_state;
            });
      };
      heap = A.free at k.heap;
      pages = pages;
    },
  )
  with_stack entry priority name at (some stack, pages) k = (
    some at,
    record {
      scheduler =
          let filled =
            store k.scheduler.processes at (fill k.scheduler.next_pid priority name stack) in
          let spilled = spill junk filled (context_at stack) in
          enlist
            (record k.scheduler { next_pid = u32 (k.scheduler.next_pid + 1); processes = spilled })
            at (spilled at);
      contexts = put_context k.contexts (context_at stack) (first_context entry stack);
      heap = k.heap;
      pages = pages;
    },
  )

  with_process : ℕ → ℕ → List ℕ → Option ℕ × A.State → Kernel A.State → Option ℕ × Kernel A.State
  unfolding with_stack
  with_process entry priority name (none, heap) k = (none, record k { heap = heap })
  with_process entry priority name (some at, heap) k =
      with_stack entry priority name at (alloc_page k.pages) (record k { heap = heap })

  pub process_create : ℕ → ℕ → List ℕ → Kernel A.State → Option ℕ × Kernel A.State
  unfolding with_process
  process_create entry priority name k =
      if leb max_processes k.scheduler.process_count
      then (none, k)
      else with_process entry priority name (A.malloc sizeof_process k.heap) k

module _ (A : Allocator) where
  -- What is left of `process_destroy` once the process is in no list.
  release_process : ℕ → Kernel A.State → Scheduler → Kernel A.State
  release_process p k s = record k {
    scheduler = record s { process_count = sub32 s.process_count 1 };
    heap = A.free p k.heap;
    pages = free_page (s.processes p).stack k.pages;
  }

  -- `none` while a loop has not ended.
  pub process_destroy : ℕ → Option ℕ → Kernel A.State → Option (Kernel A.State)
  unfolding delist release_process find_prev
  process_destroy fuel none k = some k
  process_destroy fuel (some p) k = do
    s ← scheduler_remove fuel k.scheduler (some p)
    s' ← delist (find_prev fuel s.processes s.process_list p) p s
    some (release_process p k s')
