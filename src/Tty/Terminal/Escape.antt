-- ===== src/Tty/Terminal/Escape.antt =====
-- Escape sequences in the text given to `tty_write` of kernel/src/core/drivers/tty/tty.c.
use alephos.Prelude.{ℕ, zero, suc, ◌<◌}
use alephos.Prelude.{◌≡◌, refl, ◌∙◌, inl, inr, Bool, true, false, not, ◌&&◌}
use alephos.Prelude.{some, List, [], ◌∷◌, arith}
use alephos.Prelude.{leb, ◌==◌, if◌then◌else◌, Bool-cases}
use alephos.Prelude.{length}
use alephos.Tty.Terminal.{
  Tty, Machine, is_active, process_escape, put_char, split_escape, Written, done, overrun, refused,
  out_of_fuel, write_loop, write,
}
use alephos.Tty.Terminal.Output.{split_escape-length}

-- Whether `n` characters that are no escape stand at the front.
abbrev pub runs : ℕ → List ℕ → Bool
runs zero cs = true
runs (suc n) [] = false
runs (suc n) (c ∷ cs) = not (c == 27) && runs n cs

-- Whether 32 characters that are no escape stand behind some escape.
abbrev pub long_escape : List ℕ → Bool
long_escape [] = false
long_escape (c ∷ cs) = if (c == 27) && runs 32 cs then true else long_escape cs

abbrev pub overruns : {W : Type 0} → Written W → Bool
overruns (done n t h) = false
overruns overrun = true
overruns refused = false
overruns out_of_fuel = false

runs-split : (n : ℕ) (cs : List ℕ) → runs n cs ≡ leb n (length (split_escape cs).0)
unfolding split_escape
runs-split zero cs = ground arith
runs-split (suc n) [] = ground arith
runs-split (suc n) (c ∷ cs) = ground (arith, runs-split n cs)

long-split : (cs : List ℕ) → long_escape (split_escape cs).1 ≡ long_escape cs
unfolding split_escape
long-split [] = refl
long-split (c ∷ cs) = elim (Bool-cases (c == 27)) [
  | inl esc ↦ rw esc (rw esc refl)
  | inr text ↦ rw text (long-split cs)
]

module _ {W : Type 0} where
  write_loop-overruns :
      (fuel : ℕ) (cs : List ℕ) (t : Tty W) (h : Machine W) (n : ℕ)
      → length cs < fuel
      → overruns (write_loop fuel cs t h n) ≡ long_escape cs
  unfolding write_loop
  write_loop-overruns zero cs t h n f = absurd (omega arith)
  write_loop-overruns (suc fuel) [] t h n f = refl
  write_loop-overruns (suc fuel) (c ∷ cs) t h n f = elim (Bool-cases (c == 27)) [
    | inl esc ↦
        rw (esc, overruns, runs-split 32 cs)
          (elim (Bool-cases (length (split_escape cs).0 == 0)) [
            | inl none_there ↦
                let short : leb 32 (length (split_escape cs).0) ≡ false = ground arith in
                rw (none_there, short, overruns) (write_loop-overruns fuel cs t h n (omega arith))
            | inr some_there ↦
                rw (some_there, overruns)
                  (elim (Bool-cases (leb 32 (length (split_escape cs).0))) [
                    | inl long ↦ rw (long, overruns) refl
                    | inr short ↦
                        rw (short, overruns)
                          (write_loop-overruns fuel (split_escape cs).1
                              (process_escape t h (split_escape cs).0).0
                              (process_escape t h (split_escape cs).0).1 n
                              (omega (arith, split_escape-length cs))
                            ∙ long-split cs)
                  ])
          ])
    | inr text ↦
        rw (text, overruns)
          (write_loop-overruns fuel cs (put_char c t h n).1.0 (put_char c t h n).1.1
            (put_char c t h n).0 (omega arith))
  ]

  -- tty_write on an active terminal writes past the end of its 32-byte array exactly when
  -- some escape character in the text has 32 characters behind it with no escape among them.
  pub write-overruns :
      (cs : List ℕ) (t : Tty W) (h : Machine W)
      → overruns (write (some t) (some cs) h) ≡ (is_active t.state && long_escape cs)
  unfolding write
  write-overruns cs t h = elim (Bool-cases (is_active t.state)) [
    | inl on ↦ rw (on, overruns) (write_loop-overruns (suc (length cs)) cs t h 0 (omega arith))
    | inr off ↦ rw (off, overruns) refl
  ]
