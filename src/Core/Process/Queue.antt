-- ===== src/Core/Process/Queue.antt =====
-- The ready queue of kernel/src/core/process.c against a list of processes.
use alephos.Prelude.{ℕ}
use alephos.Prelude.{◌≡◌, refl, sym, ap}
use alephos.Prelude.{Option, none, some, List, [], ◌∷◌, ◌++◌}
use alephos.Prelude.{if◌then◌else◌, is_some}
use alephos.Core.Process.{
  Process, Scheduler, store, set_next, points_to, Walk, ended, out_of_fuel, find_prev, unlink,
  detach, enqueue, take_first, scheduler_add, scheduler_remove, scheduler_next,
}
use alephos.Core.Process.Chain.{
  Absent, Distinct, Chain, last_of, store-same, Chain-store, Distinct-append, last_of-append,
  Chain-link,
}

abbrev pub EndsAt : Option ℕ → List ℕ → Type 0
EndsAt t [] = t ≡ none
EndsAt t (a ∷ ps) = t ≡ some (last_of ps a)

-- The ready queue holds these processes, the next one first.
pub record IsQueue (s : Scheduler) (ps : List ℕ) : Type 0 where
  pub links : Chain s.processes s.ready_queue_head ps
  pub tail : EndsAt s.ready_queue_tail ps
  pub distinct : Distinct ps

-- scheduler_add puts a process that is not in a valid ready queue at its end.
pub scheduler_add-IsQueue :
    (s : Scheduler) (p : ℕ) (ps : List ℕ)
    → IsQueue s ps
    → Absent p ps
    → IsQueue (scheduler_add s (some p)) (ps ++ (p ∷ []))
unfolding scheduler_add enqueue
scheduler_add-IsQueue s p [] v n = rw v.tail (record {
  links = (refl, ap (λ x. x.next) (store-same s.processes p _));
  tail = refl;
  distinct = (tt, tt);
})
scheduler_add-IsQueue s p (a ∷ ps) v n =
    let new : Process = record (s.processes p) {
      state = alephos.Core.Process.ready;
      next = none;
    } in
    rw v.tail (record {
      links =
          Chain-link (store s.processes p new) s.ready_queue_head a ps p v.distinct n
            (ap (λ x. x.next) (store-same s.processes p new))
            (Chain-store s.processes s.ready_queue_head (a ∷ ps) p new n v.links);
      tail = ap some (sym (last_of-append p a ps));
      distinct = Distinct-append p (a ∷ ps) v.distinct n;
    })

-- `scheduler_next` takes the first process out, and finds none exactly in an empty queue.
pub scheduler_next-empty : (s : Scheduler) → IsQueue s [] → scheduler_next s ≡ (none, s)
unfolding scheduler_next take_first
scheduler_next-empty s v = ap (λ h. take_first h s) v.links

pub EndsAt-tail :
    (m : ℕ → Process) (h t : Option ℕ) (a : ℕ) (ps : List ℕ)
    → Chain m h ps
    → EndsAt t (a ∷ ps)
    → EndsAt (if is_some h then t else none) ps
EndsAt-tail m h t a [] c e = rw c refl
EndsAt-tail m h t a (b ∷ ps) c e = rw c.0 e

pub scheduler_next-IsQueue :
    (s : Scheduler) (a : ℕ) (ps : List ℕ)
    → IsQueue s (a ∷ ps)
    → ((scheduler_next s).0 ≡ some a) × IsQueue (scheduler_next s).1 ps
unfolding scheduler_next take_first set_next
scheduler_next-IsQueue s a ps v = rw v.links.0 (
  refl,
  record {
    links =
        Chain-store s.processes (s.processes a).next ps a (record (s.processes a) { next = none })
          v.distinct.0 v.links.1;
    tail = EndsAt-tail s.processes (s.processes a).next s.ready_queue_tail a ps v.links.1 v.tail;
    distinct = v.distinct.1;
  },
)
