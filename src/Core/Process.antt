-- ===== src/Core/Process.antt =====
-- kernel/src/core/process.c and process.h: processes and the round-robin scheduler. A process is
-- named by the address of its structure; the structures are a function of the address, and one
-- field `next` links both the list of all processes and the ready queue, as in the code. A loop
-- along such links has fuel.
pub mod Chain
pub mod Queue
pub mod Removal
pub mod Times
pub mod Turns
pub mod Table
mod Tests
use alephos.Prelude.{
  ℕ, zero, suc, ◌+◌, ◌-◌, ◌*◌, ◌/◌, ◌%◌, ◌^◌, ◌≤◌, ◌<◌, min, max, bit_and, bit_or, bit_xor,
}
use alephos.Prelude.{
  ◌≡◌, refl, sym, ap, ap₂, ◌∙◌, subst, ◌≢◌, ◌↔◌, ◌⊎◌, inl, inr, Bool, true, false, not, ◌&&◌, ◌||◌,
}
use alephos.Prelude.{Option, none, some, List, [], ◌∷◌, ◌++◌, append-nil, append_assoc, arith}
use alephos.Prelude.{
  ltb, leb, ◌==◌, if◌then◌else◌, is_some, Bool-cases, Option-cases, if_both, ltb→lt, ltb→le, lt→ltb,
  ==→eq, ==→ne, eq→==, ne→==,
}
use alephos.Prelude.{
  length, get_elem?, get_or, set, take, drop, replicate, length-append, length-set,
  length-replicate, length-take, length-drop, take-append-drop, get_or-set_self, get_or-set_ne,
  get_or-replicate, set-get_or, set-set, take-ge, drop-ge, take-of_append, drop-of_append,
}
use alephos.Prelude.{u8, u16, u32, u64, sub32, sub64}
use mathlib.Core.Option
use alephos.Allocator.{Allocator}
use alephos.Mm.Pmm.{Pmm, alloc_page, free_page}
use alephos.Tty.Terminal.{until_nul, copy_name}

abbrev pub max_processes : ℕ
max_processes = 256

abbrev pub stack_size_bytes : ℕ
stack_size_bytes = 16384

abbrev pub sizeof_process : ℕ
sizeof_process = 96

abbrev pub sizeof_cpu_state : ℕ
sizeof_cpu_state = 160

pub data ProcessState : Type 0 where
  new ready running blocked terminated : ProcessState

-- `cpu_state_t`; the other registers are cleared by the code that fills these in.
pub record CpuState : Type 0 where
  pub rip : ℕ
  pub cs : ℕ
  pub rflags : ℕ
  pub rsp : ℕ
  pub ss : ℕ

-- `process_t` less `page_directory`, which the code neither sets nor reads.
pub record Process : Type 0 where
  pub pid : ℕ
  pub state : ProcessState
  pub stack : ℕ
  pub stack_size : ℕ
  pub cpu_state : ℕ
  pub next : Option ℕ
  pub time_slice : ℕ
  pub time_used : ℕ
  pub name : List ℕ
  pub priority : ℕ

-- The static variables, and the structures in memory.
pub record Scheduler : Type 0 where
  pub current_process : Option ℕ
  pub process_list : Option ℕ
  pub next_pid : ℕ
  pub process_count : ℕ
  pub ready_queue_head : Option ℕ
  pub ready_queue_tail : Option ℕ
  pub processes : ℕ → Process

pub store : (ℕ → Process) → ℕ → Process → ℕ → Process
store m a p b = if a == b then p else m b

pub set_next : (ℕ → Process) → ℕ → Option ℕ → ℕ → Process
unfolding store
set_next m a n = store m a (record (m a) { next = n })

-- Whether the pointer is that of the process.
pub points_to : Option ℕ → ℕ → Bool
points_to none p = false
points_to (some a) p = a == p

pub data Walk : Type 0 where
  ended : Option ℕ → Walk
  out_of_fuel : Walk

-- `while (prev && prev->next != process) prev = prev->next`
pub find_prev : ℕ → (ℕ → Process) → Option ℕ → ℕ → Walk
unfolding points_to
find_prev zero m prev p = out_of_fuel
find_prev (suc fuel) m none p = ended none
find_prev (suc fuel) m (some a) p =
    let rest = find_prev fuel m (m a).next p in
    if points_to (m a).next p then ended (some a) else rest

pub scheduler_init : Scheduler → Scheduler
scheduler_init s = record s { ready_queue_head = none; ready_queue_tail = none }

pub process_init : Scheduler → Scheduler
process_init s = record s {
  current_process = none;
  process_list = none;
  next_pid = 1;
  process_count = 0;
  ready_queue_head = none;
  ready_queue_tail = none;
}

enqueue : Option ℕ → ℕ → Scheduler → Scheduler
unfolding set_next
enqueue none p s = record s { ready_queue_head = some p; ready_queue_tail = some p }
enqueue (some t) p s = record s {
  processes = set_next s.processes t (some p);
  ready_queue_tail = some p;
}

pub scheduler_add : Scheduler → Option ℕ → Scheduler
unfolding enqueue store
scheduler_add s none = s
scheduler_add s (some p) = enqueue s.ready_queue_tail p (record s {
  processes =
      store s.processes p (record (s.processes p) { state = ProcessState.ready; next = none });
})

-- Takes the process out of the queue behind the one that the walk found.
unlink : Walk → ℕ → Scheduler → Option Scheduler
unfolding set_next points_to
unlink out_of_fuel p s = none
unlink (ended none) p s = some s
unlink (ended (some q)) p s = some (record s {
  processes = set_next s.processes q (s.processes p).next;
  ready_queue_tail = if points_to s.ready_queue_tail p then some q else s.ready_queue_tail;
})

-- `process->next = NULL`
detach : ℕ → Scheduler → Scheduler
unfolding set_next
detach p s = record s { processes = set_next s.processes p none }

-- `none` while the loop has not ended.
pub scheduler_remove : ℕ → Scheduler → Option ℕ → Option Scheduler
unfolding unlink detach find_prev points_to
scheduler_remove fuel s none = some s
scheduler_remove fuel s (some p) =
    if points_to s.ready_queue_head p
    then (let after = (s.processes p).next in
        some (
          detach p (record s {
            ready_queue_head = after;
            ready_queue_tail = if is_some after then s.ready_queue_tail else none;
          })))
    else Option.map (detach p) (unlink (find_prev fuel s.processes s.ready_queue_head p) p s)

take_first : Option ℕ → Scheduler → Option ℕ × Scheduler
unfolding set_next
take_first none s = (none, s)
take_first (some p) s =
    let after = (s.processes p).next in
    (
      some p,
      record s {
        ready_queue_head = after;
        ready_queue_tail = if is_some after then s.ready_queue_tail else none;
        processes = set_next s.processes p none;
      },
    )

pub scheduler_next : Scheduler → Option ℕ × Scheduler
unfolding take_first
scheduler_next s = take_first s.ready_queue_head s

-- A call of `context_switch`, with the addresses of the saved states; 0 is NULL.
pub record Switch : Type 0 where
  pub old_state : ℕ
  pub new_state : ℕ

saved : Scheduler → Option ℕ → ℕ
saved s none = 0
saved s (some p) = (s.processes p).cpu_state

-- The state when `context_switch` is called, and its arguments if it is.
pub process_switch : Scheduler → Option ℕ → Option Switch × Scheduler
unfolding saved points_to
process_switch s none = (none, s)
process_switch s (some n) = if points_to s.current_process n then (none, s) else (
  some record { old_state = saved s s.current_process; new_state = (s.processes n).cpu_state },
  record s { current_process = some n },
)

-- The slice of process `c` has expired, and `scheduler_next` gave the first argument.
expire : Option ℕ × Scheduler → ℕ → Option Switch × Scheduler
unfolding store scheduler_add process_switch
expire (none, s) c = (none, s)
expire (some n, s) c =
    process_switch
      (scheduler_add
        (record s { processes = store s.processes c (record (s.processes c) { time_used = 0 }) })
        (some c))
      (some n)

-- One more tick of process `c`
spend : ℕ → Scheduler → Scheduler
unfolding store
spend c s = record s {
  processes =
      store s.processes c
        (record (s.processes c) { time_used = u32 ((s.processes c).time_used + 1) });
}

tick_of : Option ℕ → Scheduler → Option Switch × Scheduler
unfolding spend expire scheduler_next
tick_of none s = (none, s)
tick_of (some c) s =
    let s' = spend c s in
    if leb (s'.processes c).time_slice (s'.processes c).time_used
    then expire (scheduler_next s') c
    else (none, s')

pub scheduler_tick : Scheduler → Option Switch × Scheduler
unfolding tick_of
scheduler_tick s = tick_of s.current_process s

pub get_current_process : Scheduler → Option ℕ
get_current_process s = s.current_process
