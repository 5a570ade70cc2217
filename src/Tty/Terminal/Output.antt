-- ===== src/Tty/Terminal/Output.antt =====
-- What `tty_write` of kernel/src/core/drivers/tty/tty.c does with a buffer, escape sequences
-- included: it ends, and where it writes past the end of its own array.
use alephos.Prelude.{ℕ, zero, suc, ◌≤◌, ◌<◌}
use alephos.Prelude.{◌≡◌, inl, inr, Bool, true}
use alephos.Prelude.{List, [], ◌∷◌, arith}
use alephos.Prelude.{leb, ◌==◌, Bool-cases}
use alephos.Prelude.{length}
use alephos.Tty.Terminal.{
  Tty, Machine, process_escape, put_char, split_escape, Written, done, overrun, refused,
  out_of_fuel, write_loop,
}

pub split_escape-length : (cs : List ℕ) → length (split_escape cs).1 ≤ length cs
unfolding split_escape
split_escape-length [] = omega arith
split_escape-length (c ∷ cs) = ground (arith, split_escape-length cs)

abbrev pub AllTrue : (ℕ → Bool) → List ℕ → Type 0
AllTrue q [] = Unit {0}
AllTrue q (c ∷ cs) = (q c ≡ true) × AllTrue q cs

AllTrue-split : (q : ℕ → Bool) (cs : List ℕ) → AllTrue q cs → AllTrue q (split_escape cs).1
unfolding split_escape
AllTrue-split q [] a = tt
AllTrue-split q (c ∷ cs) a = elim (Bool-cases (c == 27)) [
  | inl esc ↦ rw esc a
  | inr text ↦ rw text (AllTrue-split q cs a.1)
]

-- The call ends, and `P` holds of what it leaves if it does not overrun.
abbrev pub Ends : {W : Type 0} → (Tty W → Type 0) → Written W → Type 0
Ends P (done n t h) = P t
Ends P overrun = Unit {0}
Ends P refused = Unit {0}
Ends P out_of_fuel = ⊥

module _ {W : Type 0} (P : Tty W → Type 0) (q : ℕ → Bool)
    (keep_char : (c : ℕ) (t : Tty W) (h : Machine W) (n : ℕ)
      → q c ≡ true
      → P t
      → P (put_char c t h n).1.0)
    (keep_escape : (seq : List ℕ) (t : Tty W) (h : Machine W)
      → P t
      → P (process_escape t h seq).0) where
  -- What each character and each escape sequence keeps, the whole loop keeps.
  pub write_loop-Ends :
      (fuel : ℕ) (cs : List ℕ) (t : Tty W) (h : Machine W) (n : ℕ)
      → length cs < fuel
      → AllTrue q cs
      → P t
      → Ends P (write_loop fuel cs t h n)
  unfolding write_loop
  write_loop-Ends zero cs t h n f a p = absurd (omega arith)
  write_loop-Ends (suc fuel) [] t h n f a p = p
  write_loop-Ends (suc fuel) (c ∷ cs) t h n f a p = elim (Bool-cases (c == 27)) [
    | inl esc ↦
        rw (esc, Ends, write_loop)
          (elim (Bool-cases (length (split_escape cs).0 == 0)) [
            | inl none_there ↦
                rw (none_there, Ends, write_loop)
                  (write_loop-Ends fuel cs t h n (omega arith) a.1 p)
            | inr some_there ↦
                rw (some_there, Ends, write_loop)
                  (elim (Bool-cases (leb 32 (length (split_escape cs).0))) [
                    | inl long ↦ rw (long, Ends, write_loop) tt
                    | inr short ↦
                        rw (short, Ends, write_loop)
                          (write_loop-Ends fuel (split_escape cs).1
                            (process_escape t h (split_escape cs).0).0
                            (process_escape t h (split_escape cs).0).1 n
                            (omega (arith, split_escape-length cs)) (AllTrue-split q cs a.1)
                            (keep_escape (split_escape cs).0 t h p))
                  ])
          ])
    | inr text ↦
        rw (text, Ends, write_loop)
          (write_loop-Ends fuel cs (put_char c t h n).1.0 (put_char c t h n).1.1
            (put_char c t h n).0 (omega arith) a.1 (keep_char c t h n a.0 p))
  ]
