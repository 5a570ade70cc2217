-- ===== src/Core/Process/Times.antt =====
-- What the operations of kernel/src/core/process.c keep of the processes' time slices.
use alephos.Prelude.{ℕ}
use alephos.Prelude.{◌≡◌, refl, ap, ◌∙◌, inl, inr}
use alephos.Prelude.{Option, none, some, List, [], ◌∷◌, ◌++◌}
use alephos.Prelude.{◌==◌, Bool-cases, ==→eq}
use alephos.Core.Process.{
  Process, Scheduler, store, set_next, enqueue, take_first, scheduler_add, scheduler_next,
}
use alephos.Core.Process.Chain.{Absent, store-other, Chain-store}
use alephos.Core.Process.Queue.{IsQueue}

-- The process's slice and what it has used of it.
abbrev pub times : (ℕ → Process) → ℕ → ℕ × ℕ
times m a = ((m a).time_slice, (m a).time_used)

-- Processes with their whole slice of 100 ticks left.
abbrev pub AllFresh : (ℕ → Process) → List ℕ → Type 0
AllFresh m [] = Unit {0}
AllFresh m (a ∷ ps) = (times m a ≡ (100, 0)) × AllFresh m ps

pub set_next-times :
    (m : ℕ → Process) (q : ℕ) (n : Option ℕ) (a : ℕ) → times (set_next m q n) a ≡ times m a
unfolding set_next store
set_next-times m q n a = elim (Bool-cases (q == a)) [
  | inl e ↦ rw (e, ==→eq q a e) refl
  | inr e ↦ rw e refl
]

pub AllFresh-ext :
    (m m' : ℕ → Process) (ps : List ℕ)
    → ((a : ℕ) → times m' a ≡ times m a)
    → AllFresh m ps
    → AllFresh m' ps
AllFresh-ext m m' [] e f = tt
AllFresh-ext m m' (a ∷ ps) e f = (e a ∙ f.0, AllFresh-ext m m' ps e f.1)

pub AllFresh-store :
    (m : ℕ → Process) (c : ℕ) (p : Process) (ps : List ℕ)
    → Absent c ps
    → AllFresh m ps
    → AllFresh (store m c p) ps
AllFresh-store m c p [] n f = tt
AllFresh-store m c p (a ∷ ps) n f = (
  ap (λ x. (x.time_slice, x.time_used)) (store-other m c a p n.0) ∙ f.0,
  AllFresh-store m c p ps n.1 f.1,
)

pub AllFresh-append :
    (m : ℕ → Process) (c : ℕ) (ps : List ℕ)
    → times m c ≡ (100, 0)
    → AllFresh m ps
    → AllFresh m (ps ++ (c ∷ []))
AllFresh-append m c [] e f = (e, tt)
AllFresh-append m c (a ∷ ps) e f = (f.0, AllFresh-append m c ps e f.1)

pub store-times :
    (m : ℕ → Process) (q : ℕ) (p : Process) (a : ℕ)
    → (p.time_slice, p.time_used) ≡ times m q
    → times (store m q p) a ≡ times m a
unfolding store
store-times m q p a h = elim (Bool-cases (q == a)) [
  | inl e ↦ rw e (h ∙ ap (times m) (==→eq q a e))
  | inr e ↦ rw e refl
]

enqueue-times :
    (t : Option ℕ) (p : ℕ) (s : Scheduler) (a : ℕ)
    → times (enqueue t p s).processes a ≡ times s.processes a
unfolding enqueue
enqueue-times none p s a = refl
enqueue-times (some t) p s a = set_next-times s.processes t (some p) a

pub scheduler_add-times :
    (s : Scheduler) (p a : ℕ) → times (scheduler_add s (some p)).processes a ≡ times s.processes a
unfolding scheduler_add
scheduler_add-times s p a =
    enqueue-times s.ready_queue_tail p _ a ∙ store-times s.processes p _ a refl

take_first-times :
    (h : Option ℕ) (s : Scheduler) (a : ℕ)
    → times (take_first h s).1.processes a ≡ times s.processes a
unfolding take_first
take_first-times none s a = refl
take_first-times (some p) s a = set_next-times s.processes p none a

take_first-current :
    (h : Option ℕ) (s : Scheduler) → (take_first h s).1.current_process ≡ s.current_process
unfolding take_first
take_first-current none s = refl
take_first-current (some p) s = refl

enqueue-current :
    (t : Option ℕ) (p : ℕ) (s : Scheduler) → (enqueue t p s).current_process ≡ s.current_process
unfolding enqueue
enqueue-current none p s = refl
enqueue-current (some t) p s = refl

pub scheduler_next-current :
    (s : Scheduler) → (scheduler_next s).1.current_process ≡ s.current_process
unfolding scheduler_next
scheduler_next-current s = take_first-current s.ready_queue_head s

pub scheduler_next-times :
    (s : Scheduler) (a : ℕ) → times (scheduler_next s).1.processes a ≡ times s.processes a
unfolding scheduler_next
scheduler_next-times s a = take_first-times s.ready_queue_head s a

pub scheduler_add-current :
    (s : Scheduler) (p : ℕ) → (scheduler_add s (some p)).current_process ≡ s.current_process
unfolding scheduler_add
scheduler_add-current s p = enqueue-current s.ready_queue_tail p _

pub IsQueue-store :
    (s : Scheduler) (c : ℕ) (p : Process) (ps : List ℕ)
    → Absent c ps
    → IsQueue s ps
    → IsQueue (record s { processes = store s.processes c p }) ps
IsQueue-store s c p ps n v = record {
  links = Chain-store s.processes s.ready_queue_head ps c p n v.links;
  tail = v.tail;
  distinct = v.distinct;
}
