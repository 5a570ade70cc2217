-- ===== src/Core/Process/Removal.antt =====
-- Taking a process out of the ready queue: `scheduler_remove` of kernel/src/core/process.c.
use alephos.Prelude.{ℕ, zero, suc, ◌+◌, ◌<◌}
use alephos.Prelude.{◌≡◌, refl, sym, ◌∙◌, subst, ◌≢◌, ◌⊎◌, inl, inr, true, false}
use alephos.Prelude.{Option, none, some, List, [], ◌∷◌, arith}
use alephos.Prelude.{◌==◌, if◌then◌else◌, is_some, Bool-cases, ==→eq, ==→ne, ne→==}
use alephos.Prelude.{length}
use mathlib.Core.Option
use alephos.Core.Process.{
  Process, Scheduler, store, set_next, points_to, Walk, ended, find_prev, unlink, detach,
  scheduler_remove,
}
use alephos.Core.Process.Chain.{
  Absent, Distinct, Chain, last_of, delete, store-same, store-other, Chain-store, Absent-last,
  Absent-deleted, Distinct-delete, delete-Absent,
}
use alephos.Core.Process.Queue.{IsQueue, EndsAt, EndsAt-tail}

-- The walk along a list that starts with another process ended before `p`, at process `at`.
record Before (m : ℕ → Process) (p a : ℕ) (ps : List ℕ) (w : Walk) (at : ℕ) : Type 0 where
  stops : w ≡ ended (some at)
  links : Chain (set_next m at (m p).next) (some a) (a ∷ delete p ps)
  last : last_of (delete p ps) a ≡ (if last_of ps a == p then at else last_of ps a)
  member : (x : ℕ) → Absent x (a ∷ ps) → x ≢ at

Chain-after_delete :
    (m : ℕ → Process) (a b p : ℕ) (ps : List ℕ)
    → (b == p) ≡ true
    → Distinct (a ∷ (b ∷ ps))
    → Chain m (some a) (a ∷ (b ∷ ps))
    → Before m p a (b ∷ ps) (ended (some a)) a
unfolding set_next
Chain-after_delete m a b p ps e d c =
    let same : b ≡ p = ==→eq b p e in
    let gone : delete p ps ≡ ps = delete-Absent p ps (subst (λ x. Absent x ps) same d.1.0) in
    let new : Process = record (m a) { next = (m p).next } in
    record {
      stops = refl;
      links =
          rw (e, gone)
            (
              refl,
              subst (λ x. Chain (store m a new) x.next ps) (sym (store-same m a new))
                  (subst (λ x. Chain (store m a new) (m x).next ps) same
                    (Chain-store m (m b).next ps a new d.0.1 c.1.1)),
            );
      last = rw (e, gone) (last_known ps d.1.0);
      member = λ x n. n.0;
    }
  where
    last_known :
        (qs : List ℕ) → Absent b qs → last_of qs a ≡ (if last_of qs b == p then a else last_of qs b)
    last_known [] n = rw e refl
    last_known (q ∷ qs) n =
        rw (ne→== (last_of qs q) p (λ x. Absent-last b q qs n (==→eq b p e ∙ sym x))) refl

Before-cons :
    (m : ℕ → Process) (p a b at : ℕ) (ps : List ℕ) (w : Walk)
    → (b == p) ≡ false
    → Absent a (b ∷ ps)
    → (m a).next ≡ some b
    → Before m p b ps w at
    → Before m p a (b ∷ ps) w at
unfolding set_next
Before-cons m p a b at ps w e n next r =
    let new : Process = record (m at) { next = (m p).next } in
    record {
      stops = r.stops;
      links = rw e (
        refl,
        subst (λ x. Chain (store m at new) x.next (b ∷ delete p ps))
            (sym (store-other m at a new (λ x. r.member a n (sym x))))
            (subst (λ x. Chain (store m at new) x (b ∷ delete p ps)) (sym next) r.links),
      );
      last = rw e r.last;
      member = λ x k. r.member x k.1;
    }

find_prev-walk :
    (fuel : ℕ) (m : ℕ → Process) (p a : ℕ) (ps : List ℕ)
    → length ps + 1 < fuel
    → Distinct (a ∷ ps)
    → (a == p) ≡ false
    → Chain m (some a) (a ∷ ps)
    → (Absent p (a ∷ ps) × (find_prev fuel m (some a) p ≡ ended none))
      ⊎ ((at : ℕ) × Before m p a ps (find_prev fuel m (some a) p) at)
unfolding find_prev points_to
find_prev-walk zero m p a ps f d e c = absurd (omega arith)
find_prev-walk (suc zero) m p a ps f d e c = absurd (omega arith)
find_prev-walk (suc (suc fuel)) m p a [] f d e c =
    inl (((λ x. ==→ne a p e (sym x)), tt), rw c.1 refl)
find_prev-walk (suc (suc fuel)) m p a (b ∷ ps) f d e c = elim (Bool-cases (b == p)) [
  | inl here ↦ inr (a, rw (c.1.0, here) (Chain-after_delete m a b p ps here d c))
  | inr there ↦
      rw (c.1.0, there)
        (elim (find_prev-walk (suc fuel) m p b ps (omega arith) d.1 there (refl, c.1.1)) [
          | inl absent ↦ inl (((λ x. ==→ne a p e (sym x)), absent.0), absent.1)
          | inr found ↦ inr (
            found.0,
            Before-cons m p a b found.0 ps (find_prev (suc fuel) m (some b) p) there d.0 c.1.0
                found.1,
          )
        ])
]

-- The call ended, and this holds of what it left.
abbrev pub Yields {ℓ} : {A : Type ℓ} → (A → Type 0) → Option A → Type 0
Yields P none = ⊥
Yields P (some s) = P s

detach-IsQueue :
    (s : Scheduler) (p : ℕ) (ps : List ℕ) → Absent p ps → IsQueue s ps → IsQueue (detach p s) ps
unfolding detach set_next
detach-IsQueue s p ps n v = record {
  links =
      Chain-store s.processes s.ready_queue_head ps p (record (s.processes p) { next = none }) n
        v.links;
  tail = v.tail;
  distinct = v.distinct;
}

abbrev Removed : ℕ → List ℕ → Option Scheduler → Type 0
Removed p ps r = Yields (λ s'. IsQueue s' (delete p ps)) r

remove-first :
    (s : Scheduler) (p a : ℕ) (ps : List ℕ)
    → (a == p) ≡ true
    → IsQueue s (a ∷ ps)
    → IsQueue
        (detach p (record s {
          ready_queue_head = (s.processes p).next;
          ready_queue_tail = if is_some (s.processes p).next then s.ready_queue_tail else none;
        }))
        (delete p (a ∷ ps))
remove-first s p a ps e v =
    let same : a ≡ p = ==→eq a p e in
    let n : Absent p ps = subst (λ x. Absent x ps) same v.distinct.0 in
    let rest : Chain s.processes (s.processes p).next ps =
      subst (λ x. Chain s.processes (s.processes x).next ps) same v.links.1 in
    rw (e, delete-Absent p ps n)
      (detach-IsQueue _ p ps n record {
        links = rest;
        tail = EndsAt-tail s.processes (s.processes p).next s.ready_queue_tail a ps rest v.tail;
        distinct = v.distinct.1;
      })

unlink-Before :
    (s : Scheduler) (p a at : ℕ) (ps : List ℕ) (w : Walk)
    → (a == p) ≡ false
    → IsQueue s (a ∷ ps)
    → Before s.processes p a ps w at
    → Removed p (a ∷ ps) (Option.map (detach p) (unlink w p s))
unfolding unlink points_to
unlink-Before s p a at ps w e v r =
    let rest : delete p (a ∷ ps) ≡ a ∷ delete p ps = rw e refl in
    let after = set_next s.processes at (s.processes p).next in
    rw (r.stops, Yields)
      (detach-IsQueue _ p _ (Absent-deleted p (a ∷ ps)) record {
        links =
            subst (Chain after s.ready_queue_head) (sym rest)
              (subst (λ h. Chain after h (a ∷ delete p ps)) (sym v.links.0) r.links);
        tail = subst (EndsAt _) (sym rest) (
            subst (λ t. (if points_to t p then some at else t) ≡ some (last_of (delete p ps) a))
              (sym v.tail) (new_tail r.last));
        distinct = Distinct-delete p (a ∷ ps) v.distinct;
      })
  where
    new_tail :
        {l : ℕ}
        → l ≡ (if last_of ps a == p then at else last_of ps a)
        → (if last_of ps a == p then some at else some (last_of ps a)) ≡ some l
    new_tail h = elim (Bool-cases (last_of ps a == p)) [
      | inl y ↦ rw (h, y) refl
      | inr y ↦ rw (h, y) refl
    ]

-- `scheduler_remove`, the head of the queue given
abbrev remove_from : ℕ → Scheduler → ℕ → Option ℕ → Option Scheduler
remove_from fuel s p h =
    if points_to h p
    then some (
        detach p (record s {
          ready_queue_head = (s.processes p).next;
          ready_queue_tail = if is_some (s.processes p).next then s.ready_queue_tail else none;
        }))
    else Option.map (detach p) (unlink (find_prev fuel s.processes h p) p s)

-- scheduler_remove on a valid ready queue ends, with as many rounds as there are processes in
-- the queue and two more, and takes the process out of the queue, wherever in it it is; the
-- others keep their order.
pub scheduler_remove-IsQueue :
    (fuel : ℕ) (s : Scheduler) (p : ℕ) (ps : List ℕ)
    → length ps + 1 < fuel
    → IsQueue s ps
    → Removed p ps (scheduler_remove fuel s (some p))
unfolding scheduler_remove points_to find_prev unlink
scheduler_remove-IsQueue zero s p ps f v = absurd (omega arith)
scheduler_remove-IsQueue (suc fuel) s p [] f v =
    subst (λ h. Removed p [] (remove_from (suc fuel) s p h)) (sym v.links)
      (detach-IsQueue s p [] tt v)
scheduler_remove-IsQueue (suc fuel) s p (a ∷ ps) f v =
    subst (λ h. Removed p (a ∷ ps) (remove_from (suc fuel) s p h)) (sym v.links.0)
      (elim (Bool-cases (a == p)) [
        | inl e ↦ rw (Yields, e) (remove-first s p a ps e v)
        | inr e ↦
            rw (Yields, e)
              (elim (find_prev-walk (suc fuel) s.processes p a ps (omega arith) v.distinct e
                (refl, v.links.1)) [
                  | inl absent ↦
                      rw (absent.1, Yields)
                        (let same : delete p (a ∷ ps) ≡ a ∷ ps =
                            delete-Absent p (a ∷ ps) absent.0 in
                          subst (IsQueue (detach p s)) (sym same)
                            (detach-IsQueue s p (a ∷ ps) absent.0 v))
                  | inr found ↦
                      unlink-Before s p a found.0 ps (find_prev (suc fuel) s.processes (some a) p) e
                        v found.1
                ])
      ])
