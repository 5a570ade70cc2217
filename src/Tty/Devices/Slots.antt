-- ===== src/Tty/Devices/Slots.antt =====
-- How many terminals there can ever be: kernel/src/core/drivers/tty/tty.c.
use alephos.Prelude.{ℕ, suc, ◌+◌, ◌-◌, ◌≤◌, min}
use alephos.Prelude.{◌≡◌, refl, inl, inr, true, false}
use alephos.Prelude.{some, List, [], ◌∷◌, arith}
use alephos.Prelude.{ltb, leb, if◌then◌else◌, is_some, Bool-cases}
use alephos.Tty.Devices.{Devices, create, destroy}

pub data Call : Type 0 where
  creates : List ℕ → Call
  destroys : ℕ → Call

abbrev pub creations : List Call → ℕ
creations [] = 0
creations (creates name ∷ calls) = suc (creations calls)
creations (destroys i ∷ calls) = creations calls

create-count :
    {W : Type 0} (d : Devices W) (name : List ℕ)
    → (is_some (create d name).0 ≡ ltb d.count 8)
      × ((create d name).1.count ≡ (if ltb d.count 8 then d.count + 1 else d.count))
unfolding create
create-count d name = elim (Bool-cases (leb 8 d.count)) [
  | inl full ↦ let rest : ltb d.count 8 ≡ false = ground arith in rw (full, rest) (refl, refl)
  | inr room ↦ let rest : ltb d.count 8 ≡ true = ground arith in rw (room, rest) (refl, refl)
]

module _ {W : Type 0} where
  -- The table after the calls, and how many of them made a terminal.
  pub perform : List Call → Devices W → ℕ × Devices W
  perform [] d = (0, d)
  perform (creates name ∷ calls) d =
      let (made, end) = perform calls (create d name).1 in
      ((if is_some (create d name).0 then made + 1 else made), end)
  perform (destroys i ∷ calls) d = perform calls (destroy d (some i))

  -- From a table with at most 8 terminals on, however tty_create and tty_destroy are called,
  -- the calls of tty_create succeed until 8 terminals were made and fail from then on: a
  -- destroyed one never frees its place.
  pub perform-made :
      (calls : List Call) (d : Devices W)
      → d.count ≤ 8
      → ((perform calls d).0 ≡ min (creations calls) (8 - d.count))
        × ((perform calls d).1.count ≡ min 8 (d.count + creations calls))
  unfolding perform destroy
  perform-made [] d h = (ground arith, ground arith)
  perform-made (creates name ∷ calls) d h =
      let (found, more) = create-count d name in
      let (made, end) = perform-made calls (create d name).1 (ground (arith, more)) in
      (ground (arith, made, found, more), ground (arith, end, more))
  perform-made (destroys i ∷ calls) d h = perform-made calls (destroy d (some i)) h
