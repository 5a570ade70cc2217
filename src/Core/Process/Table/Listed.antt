-- ===== src/Core/Process/Table/Listed.antt =====
-- The list of all processes in kernel/src/core/process.c, which the ready queue shares its link with.
use alephos.Prelude.{ℕ, ◌+◌, ◌<◌}
use alephos.Prelude.{◌≡◌, refl, sym, ap, ◌∙◌, subst, true, false}
use alephos.Prelude.{Option, none, some, List, [], ◌∷◌, ◌++◌}
use alephos.Prelude.{leb, if◌then◌else◌, is_some, if_both, eq→==}
use alephos.Prelude.{length}
use alephos.Prelude.{u32}
use alephos.Prelude.{◌>>=◌}
use mathlib.Core.Option
use alephos.Allocator.{Allocator}
use alephos.Mm.Pmm.{Pmm, alloc_page}
use alephos.Core.Process.{
  Process, Scheduler, Walk, ended, out_of_fuel, store, set_next, points_to, enqueue, scheduler_add,
  scheduler_remove, find_prev, unlink, detach, max_processes, sizeof_process,
}
use alephos.Core.Process.Chain.{Absent, Chain, store-same, store-other, Chain-store, delete}
use alephos.Core.Process.Queue.{IsQueue}
use alephos.Core.Process.Removal.{Yields, scheduler_remove-IsQueue}
use alephos.Core.Process.Table.{
  Kernel, process_create, process_destroy, with_process, with_stack, enlist, delist, fill,
  release_process, meets, spill, context_at,
}

abbrev pub IsListed : Scheduler → List ℕ → Type 0
IsListed s ps = Chain s.processes s.process_list ps

abbrev pub added : Option ℕ → List ℕ → List ℕ
added none ps = ps
added (some p) ps = p ∷ ps

enlist-IsListed :
    (s : Scheduler) (at : ℕ) (p : Process) (ps : List ℕ)
    → Absent at ps
    → IsListed s ps
    → IsListed (enlist s at p) (at ∷ ps)
unfolding enlist
enlist-IsListed s at p ps n c =
    let new : Process = record p { next = s.process_list } in
    (
      refl,
      subst (λ q. Chain (store s.processes at new) q.next ps) (sym (store-same s.processes at new))
          (Chain-store s.processes s.process_list ps at new n c),
    )

-- The saved state at `c` meets none of these structures.
abbrev pub Misses : ℕ → List ℕ → Type 0
Misses c [] = Unit {0}
Misses c (p ∷ ps) = (meets c p ≡ false) × Misses c ps

Chain-spill :
    (junk : Process → Process) (m : ℕ → Process) (c : ℕ) (h : Option ℕ) (ps : List ℕ)
    → Misses c ps
    → Chain m h ps
    → Chain (spill junk m c) h ps
unfolding spill
Chain-spill junk m c h [] n l = l
Chain-spill junk m c h (p ∷ ps) n l = (
  l.0,
  subst (λ q. Chain (spill junk m c) q.next ps) (sym (ap (λ b. if b then junk (m p) else m p) n.0))
      (Chain-spill junk m c (m p).next ps n.1 l.1),
)

module _ (A : Allocator) (junk : Process → Process) (entry priority : ℕ) (name : List ℕ) where
  with_stack-IsListed :
      (at : ℕ) (r : Option ℕ × Pmm) (j : Kernel A.State) (ps : List ℕ)
      → Absent at ps
      → ((stack : ℕ) → r.0 ≡ some stack → Misses (context_at stack) ps)
      → IsListed j.scheduler ps
      → IsListed
          (with_stack A junk entry priority name at r j).1.scheduler
          (added (with_stack A junk entry priority name at r j).0 ps)
  unfolding with_stack
  with_stack-IsListed at (none, pages) j ps n miss l =
      Chain-store j.scheduler.processes j.scheduler.process_list ps at _ n l
  with_stack-IsListed at (some stack, pages) j ps n miss l =
      let new : Process = fill j.scheduler.next_pid priority name stack in
      let filled : ℕ → Process = store j.scheduler.processes at new in
      let spilled : ℕ → Process = spill junk filled (context_at stack) in
      enlist-IsListed
        (record j.scheduler { next_pid = u32 (j.scheduler.next_pid + 1); processes = spilled }) at
        (spilled at) ps n
        (Chain-spill junk filled (context_at stack) j.scheduler.process_list ps (miss stack refl)
          (Chain-store j.scheduler.processes j.scheduler.process_list ps at new n l))

  with_process-IsListed :
      (r : Option ℕ × A.State) (k : Kernel A.State) (ps : List ℕ)
      → ((at : ℕ) → r.0 ≡ some at → Absent at ps)
      → ((stack : ℕ) → (alloc_page k.pages).0 ≡ some stack → Misses (context_at stack) ps)
      → IsListed k.scheduler ps
      → IsListed
          (with_process A junk entry priority name r k).1.scheduler
          (added (with_process A junk entry priority name r k).0 ps)
  unfolding with_process
  with_process-IsListed (none, heap) k ps n miss c = c
  with_process-IsListed (some at, heap) k ps n miss c =
      with_stack-IsListed at (alloc_page k.pages) (record k { heap = heap }) ps (n at refl) miss c

  -- Whether it succeeds or not, process_create keeps the list of processes, with the new
  -- process in front if there is one, where malloc returns no block of a listed process and
  -- the saved state, which is written far behind the page of the stack, meets no listed
  -- process.
  pub process_create-IsListed :
      (k : Kernel A.State) (ps : List ℕ)
      → ((at : ℕ) → (A.malloc sizeof_process k.heap).0 ≡ some at → Absent at ps)
      → ((stack : ℕ) → (alloc_page k.pages).0 ≡ some stack → Misses (context_at stack) ps)
      → IsListed k.scheduler ps
      → let (p, k') = process_create A junk entry priority name k in
        IsListed k'.scheduler (added p ps)
  unfolding process_create
  process_create-IsListed k ps fresh miss c =
      if_both (λ r. IsListed r.1.scheduler (added r.0 ps))
        (leb max_processes k.scheduler.process_count) {x = (none, k)}
        {y = with_process A junk entry priority name (A.malloc sizeof_process k.heap) k} c
        (with_process-IsListed (A.malloc sizeof_process k.heap) k ps fresh miss c)

Chain-cut :
    (m : ℕ → Process) (h : Option ℕ) (xs ys : List ℕ) (p : ℕ) (q : Process)
    → Absent p xs
    → q.next ≡ none
    → Chain m h (xs ++ (p ∷ ys))
    → Chain (store m p q) h (xs ++ (p ∷ []))
Chain-cut m h [] ys p q n e c = (c.0, ap (λ x. x.next) (store-same m p q) ∙ e)
Chain-cut m h (x ∷ xs) ys p q n e c = (
  c.0,
  subst (λ y. Chain (store m p q) y.next (xs ++ (p ∷ []))) (sym (store-other m p x q n.0))
      (Chain-cut m (m x).next xs ys p q n.1 e c.1),
)

abbrev pub NotIn : Option ℕ → List ℕ → Type 0
NotIn none ps = Unit {0}
NotIn (some t) ps = Absent t ps

enqueue-IsListed :
    (t : Option ℕ) (p : ℕ) (s : Scheduler) (ps : List ℕ)
    → NotIn t ps
    → IsListed s ps
    → IsListed (enqueue t p s) ps
unfolding enqueue set_next
enqueue-IsListed none p s ps n c = c
enqueue-IsListed (some t) p s ps n c = Chain-store s.processes s.process_list ps t _ n c

-- scheduler_add of a listed process cuts the list of processes behind it: every process listed
-- after it is lost, if the end of the ready queue is neither it nor one before it.
pub scheduler_add-cuts :
    (s : Scheduler) (xs ys : List ℕ) (p : ℕ)
    → Absent p xs
    → NotIn s.ready_queue_tail (xs ++ (p ∷ []))
    → IsListed s (xs ++ (p ∷ ys))
    → IsListed (scheduler_add s (some p)) (xs ++ (p ∷ []))
unfolding scheduler_add
scheduler_add-cuts s xs ys p n e c =
    enqueue-IsListed s.ready_queue_tail p _ (xs ++ (p ∷ [])) e
      (Chain-cut s.processes s.process_list xs ys p _ n refl c)

-- What holds of the state if the call ended.
abbrev pub IfDone {ℓ} : {A : Type ℓ} → (A → Type 0) → Option A → Type 0
IfDone P none = Unit {0}
IfDone P (some a) = P a

detached :
    (s : Scheduler) (p : ℕ) (h : Option ℕ) (o : Option Scheduler)
    → IfDone (λ s'. s'.process_list ≡ h) o
    → IfDone
        (λ s'. ((s'.processes p).next ≡ none) × (s'.process_list ≡ h))
        (Option.map (detach p) o)
unfolding detach set_next
detached s p h none e = tt
detached s p h (some s') e = (ap (λ x. x.next) (store-same s'.processes p _), e)

unlink-list :
    (w : Walk) (p : ℕ) (s : Scheduler)
    → IfDone (λ s'. s'.process_list ≡ s.process_list) (unlink w p s)
unfolding unlink
unlink-list out_of_fuel p s = tt
unlink-list (ended none) p s = refl
unlink-list (ended (some q)) p s = refl

scheduler_remove-detached :
    (fuel : ℕ) (s : Scheduler) (p : ℕ)
    → IfDone
        (λ s'. ((s'.processes p).next ≡ none) × (s'.process_list ≡ s.process_list))
        (scheduler_remove fuel s (some p))
unfolding scheduler_remove
scheduler_remove-detached fuel s p =
    if_both (IfDone _) (points_to s.ready_queue_head p)
      (detached s p s.process_list
        (some (record s {
          ready_queue_head = (s.processes p).next;
          ready_queue_tail = if is_some (s.processes p).next then s.ready_queue_tail else none;
        }))
        refl)
      (detached s p s.process_list (unlink (find_prev fuel s.processes s.ready_queue_head p) p s)
        (unlink-list (find_prev fuel s.processes s.ready_queue_head p) p s))

delist-first :
    (w : Walk) (p : ℕ) (s : Scheduler)
    → s.process_list ≡ some p
    → delist w p s ≡ some (record s { process_list = (s.processes p).next })
unfolding delist points_to
delist-first w p s e =
    let here : points_to s.process_list p ≡ true = ap (λ h. points_to h p) e ∙ eq→== p p refl in
    rw here refl

destroy-first :
    (A : Allocator) (fuel p : ℕ) (k : Kernel A.State) (qs : List ℕ) (o : Option Scheduler)
    → Yields (λ s'. IsQueue s' qs) o
    → IfDone (λ s'. ((s'.processes p).next ≡ none) × (s'.process_list ≡ some p)) o
    → Yields
        (λ k'. (k'.scheduler.process_list ≡ none) × IsQueue k'.scheduler qs)
        (o >>= λ s.
          (delist (find_prev fuel s.processes s.process_list p) p s >>= λ s'.
          some (release_process A p k s')))
unfolding release_process
destroy-first A fuel p k qs none y d = y
destroy-first A fuel p k qs (some s) y d =
    subst
      (λ o.
        Yields (λ k'. (k'.scheduler.process_list ≡ none) × IsQueue k'.scheduler qs)
          (o >>= λ s'. some (release_process A p k s')))
      (sym (delist-first (find_prev fuel s.processes s.process_list p) p s d.1))
      (d.0, record { links = y.links; tail = y.tail; distinct = y.distinct })

-- With a valid ready queue, process_destroy of the process at the front of the list of
-- processes ends, takes it out of the ready queue, and leaves that list empty, whatever other
-- processes there were, for scheduler_remove has cleared the link.
pub process_destroy-forgets :
    (A : Allocator) (fuel p : ℕ) (k : Kernel A.State) (qs : List ℕ)
    → length qs + 1 < fuel
    → IsQueue k.scheduler qs
    → k.scheduler.process_list ≡ some p
    → Yields
        (λ k'. (k'.scheduler.process_list ≡ none) × IsQueue k'.scheduler (delete p qs))
        (process_destroy A fuel (some p) k)
unfolding process_destroy
process_destroy-forgets A fuel p k qs f v e =
    destroy-first A fuel p k (delete p qs) (scheduler_remove fuel k.scheduler (some p))
      (scheduler_remove-IsQueue fuel k.scheduler p qs f v)
      (subst
        (λ h.
          IfDone (λ s'. ((s'.processes p).next ≡ none) × (s'.process_list ≡ h))
            (scheduler_remove fuel k.scheduler (some p)))
        e (scheduler_remove-detached fuel k.scheduler p))
