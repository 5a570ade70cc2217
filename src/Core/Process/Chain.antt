-- ===== src/Core/Process/Chain.antt =====
-- Linked lists of processes along `next`, for kernel/src/core/process.c.
use alephos.Prelude.{ℕ}
use alephos.Prelude.{◌≡◌, refl, sym, ap, ◌∙◌, subst, ◌≢◌, inl, inr}
use alephos.Prelude.{Option, none, some, List, [], ◌∷◌, ◌++◌}
use alephos.Prelude.{◌==◌, if◌then◌else◌, Bool-cases, ==→ne, eq→==, ne→==}
use alephos.Core.Process.{Process, store, set_next}

abbrev pub Absent : ℕ → List ℕ → Type 0
Absent a [] = Unit {0}
Absent a (b ∷ bs) = (a ≢ b) × Absent a bs

abbrev pub Distinct : List ℕ → Type 0
Distinct [] = Unit {0}
Distinct (a ∷ ps) = Absent a ps × Distinct ps

-- The links from `h` on lead through these processes and end.
abbrev pub Chain : (ℕ → Process) → Option ℕ → List ℕ → Type 0
Chain m h [] = h ≡ none
Chain m h (a ∷ ps) = (h ≡ some a) × Chain m (m a).next ps

abbrev pub last_of : List ℕ → ℕ → ℕ
last_of [] d = d
last_of (a ∷ ps) d = last_of ps a

abbrev pub delete : ℕ → List ℕ → List ℕ
delete p [] = []
delete p (a ∷ ps) = if a == p then delete p ps else a ∷ delete p ps

pub store-same : (m : ℕ → Process) (a : ℕ) (p : Process) → store m a p a ≡ p
unfolding store
store-same m a p = rw (eq→== a a refl) refl

pub store-other : (m : ℕ → Process) (a b : ℕ) (p : Process) → a ≢ b → store m a p b ≡ m b
unfolding store
store-other m a b p n = rw (ne→== a b n) refl

pub Chain-store :
    (m : ℕ → Process) (h : Option ℕ) (ps : List ℕ) (q : ℕ) (p : Process)
    → Absent q ps
    → Chain m h ps
    → Chain (store m q p) h ps
Chain-store m h [] q p n c = c
Chain-store m h (a ∷ ps) q p n c = (
  c.0,
  subst (λ x. Chain (store m q p) x.next ps) (sym (store-other m q a p n.0))
      (Chain-store m (m a).next ps q p n.1 c.1),
)

pub Absent-last : (x a : ℕ) (ps : List ℕ) → Absent x (a ∷ ps) → x ≢ last_of ps a
Absent-last x a [] n = n.0
Absent-last x a (b ∷ bs) n = Absent-last x b bs n.1

pub Absent-delete : (x p : ℕ) (ps : List ℕ) → Absent x ps → Absent x (delete p ps)
Absent-delete x p [] n = n
Absent-delete x p (a ∷ ps) n = elim (Bool-cases (a == p)) [
  | inl e ↦ rw e (Absent-delete x p ps n.1)
  | inr e ↦ rw e (n.0, Absent-delete x p ps n.1)
]

pub Absent-deleted : (p : ℕ) (ps : List ℕ) → Absent p (delete p ps)
Absent-deleted p [] = tt
Absent-deleted p (a ∷ ps) = elim (Bool-cases (a == p)) [
  | inl e ↦ rw e (Absent-deleted p ps)
  | inr e ↦ rw e ((λ q. ==→ne a p e (sym q)), Absent-deleted p ps)
]

pub Distinct-delete : (p : ℕ) (ps : List ℕ) → Distinct ps → Distinct (delete p ps)
Distinct-delete p [] d = d
Distinct-delete p (a ∷ ps) d = elim (Bool-cases (a == p)) [
  | inl e ↦ rw e (Distinct-delete p ps d.1)
  | inr e ↦ rw e (Absent-delete a p ps d.0, Distinct-delete p ps d.1)
]

pub delete-Absent : (p : ℕ) (ps : List ℕ) → Absent p ps → delete p ps ≡ ps
delete-Absent p [] n = refl
delete-Absent p (a ∷ ps) n = rw (ne→== a p (λ q. n.0 (sym q)), delete-Absent p ps n.1) refl

pub Absent-append : (x q : ℕ) (ps : List ℕ) → Absent x ps → x ≢ q → Absent x (ps ++ (q ∷ []))
Absent-append x q [] n e = (e, tt)
Absent-append x q (a ∷ ps) n e = (n.0, Absent-append x q ps n.1 e)

pub Distinct-append : (q : ℕ) (ps : List ℕ) → Distinct ps → Absent q ps → Distinct (ps ++ (q ∷ []))
Distinct-append q [] d n = (tt, tt)
Distinct-append q (a ∷ ps) d n =
    (Absent-append a q ps d.0 (λ e. n.0 (sym e)), Distinct-append q ps d.1 n.1)

pub last_of-append : (q d : ℕ) (ps : List ℕ) → last_of (ps ++ (q ∷ [])) d ≡ q
last_of-append q d [] = refl
last_of-append q d (a ∷ ps) = last_of-append q a ps

-- A process is linked behind the last one.
pub Chain-link :
    (m : ℕ → Process) (h : Option ℕ) (a : ℕ) (ps : List ℕ) (q : ℕ)
    → Distinct (a ∷ ps)
    → Absent q (a ∷ ps)
    → (m q).next ≡ none
    → Chain m h (a ∷ ps)
    → Chain (set_next m (last_of ps a) (some q)) h (a ∷ (ps ++ (q ∷ [])))
unfolding set_next
Chain-link m h a [] q d n e c =
    let p : Process = record (m a) { next = some q } in
    (
      c.0,
      (
        ap (λ x. x.next) (store-same m a p),
        ap (λ x. x.next) (store-other m a q p (λ x. n.0 (sym x))) ∙ e,
      ),
    )
Chain-link m h a (b ∷ bs) q d n e c =
    let p : Process = record (m (last_of bs b)) { next = some q } in
    let off = store-other m (last_of bs b) a p (λ x. Absent-last a b bs d.0 (sym x)) in
    (
      c.0,
      subst (λ x. Chain (store m (last_of bs b) p) x.next (b ∷ (bs ++ (q ∷ [])))) (sym off)
          (Chain-link m (m a).next b bs q d.1 n.1 e c.1),
    )
