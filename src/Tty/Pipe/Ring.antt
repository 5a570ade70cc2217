-- ===== src/Tty/Pipe/Ring.antt =====
-- The ring of a pipe as a queue of bytes: kernel/src/core/drivers/tty/pipe.c, the two copying loops.
use alephos.Prelude.{ℕ, zero, suc, ◌+◌, ◌-◌, ◌%◌, ◌≤◌, ◌<◌}
use alephos.Prelude.{◌≡◌, refl, sym, ap, ap₂, ◌∙◌, inl, inr}
use alephos.Prelude.{List, [], ◌∷◌, ◌++◌, append-nil, append_assoc, arith}
use alephos.Prelude.{ltb, leb, ◌==◌, if◌then◌else◌, Bool-cases}
use alephos.Prelude.{length, get_or, set, take, drop, length-set}
use alephos.Prelude.{u32, sub32}
use alephos.Bits.{bit_and_ones}
use alephos.Circular.{contents, contents-set, contents-pos}
use alephos.Tty.Pipe.{Pipe, next_pos, take_bytes, put_byte, write_bytes, WriteOutcome}

-- The indices stay in the buffer, and `write_pos` is `count` places on from `read_pos`.
pub record IsValid (p : Pipe) : Type 0 where
  pub storage : length p.buffer ≡ 4096
  pub head : p.read_pos < 4096
  pub fits : p.count ≤ 4096
  pub tail : p.write_pos ≡ (p.read_pos + p.count) % 4096

-- The bytes in the pipe, the oldest first.
abbrev pub items : Pipe → List ℕ
items p = contents 4096 p.buffer p.read_pos p.count

next_pos_lem : (pos : ℕ) → pos < 4096 → next_pos pos ≡ (pos + 1) % 4096
unfolding next_pos
next_pos_lem pos h = omega (arith, bit_and_ones 12 (u32 (pos + 1)))

-- `n` bytes were taken from `p`, and left `q`.
pub record Took (n : ℕ) (p : Pipe) (bytes : List ℕ) (q : Pipe) : Type 0 where
  pub valid : IsValid q
  pub order : bytes ++ items q ≡ items p
  pub size : length bytes ≡ n
  pub left : q.count ≡ p.count - n
  pub ends : (q.state ≡ p.state) × (q.readers ≡ p.readers) × (q.writers ≡ p.writers)

pub take_bytes-Took :
    (n : ℕ) (p : Pipe)
    → IsValid p
    → n ≤ p.count
    → let (bytes, q) = take_bytes n p in Took n p bytes q
unfolding take_bytes
take_bytes-Took zero p v h = record {
  valid = v;
  order = refl;
  size = refl;
  left = omega arith;
  ends = (refl, refl, refl);
}
take_bytes-Took (suc n) p v h =
    let first : Pipe = record p { read_pos = next_pos p.read_pos; count = sub32 p.count 1 } in
    let at : next_pos p.read_pos ≡ (p.read_pos + 1) % 4096 = next_pos_lem p.read_pos v.head in
    let less : sub32 p.count 1 ≡ p.count - 1 = omega arith in
    let valid : IsValid first = ground arith in
    let rest = take_bytes-Took n first valid (omega arith) in
    record {
      valid = rest.valid;
      order =
          ap (λ l. get_or p.buffer p.read_pos 0 ∷ l) rest.order
          ∙ (ap₂ (λ pos c. get_or p.buffer p.read_pos 0 ∷ contents 4096 p.buffer pos c) at less
              ∙ sym (contents-pos 4096 p.buffer p.read_pos p.count (omega arith)));
      size = ap suc rest.size;
      left = omega (arith, rest.left);
      ends = rest.ends;
    }

pub put_byte-IsValid : (p : Pipe) (b : ℕ) → IsValid p → p.count < 4096 → IsValid (put_byte p b)
unfolding put_byte
put_byte-IsValid p b v h =
    ground (arith, next_pos_lem p.write_pos, length-set p.buffer p.write_pos b)

pub count-put_byte : (p : Pipe) (b : ℕ) → p.count < 4096 → (put_byte p b).count ≡ p.count + 1
unfolding put_byte
count-put_byte p b h = omega arith

pub items-put_byte :
    (p : Pipe) (b : ℕ) → IsValid p → p.count < 4096 → items (put_byte p b) ≡ items p ++ (b ∷ [])
unfolding put_byte
items-put_byte p b v h =
    ap (contents 4096 (set p.buffer p.write_pos b) p.read_pos) {x = u32 (p.count + 1)}
      {y = suc p.count} (omega arith)
    ∙ contents-set 4096 p.buffer p.read_pos p.count b (omega arith) v.head h v.tail

-- What a client of the pipe may see of a write, with the bytes in the pipe in place of the ring.
pub data Put : Type 0 where
  wrote : ℕ → List ℕ → Put
  stalls : ℕ → List ℕ → List ℕ → Put
  failed : Put

abbrev pub view : WriteOutcome → Put
view (WriteOutcome.wrote n p) = Put.wrote n (items p)
view (WriteOutcome.stalls n src p) = Put.stalls n src (items p)
view WriteOutcome.failed = Put.failed

-- A bounded queue takes what fits. If bytes are left over it waits for a reader, and without any
-- reader it reports what it took, or fails if it took nothing.
unfoldable pub put_all : ℕ → List ℕ → ℕ → List ℕ → ℕ → Put
put_all room q readers src written =
    if leb (length src) room
    then Put.wrote (written + length src) (q ++ src)
    else (if readers == 0
        then (if ltb 0 (written + room)
            then Put.wrote (written + room) (q ++ take room src)
            else Put.failed)
        else Put.stalls (written + room) (drop room src) (q ++ take room src))

put_all-cons :
    (room : ℕ) (q : List ℕ) (readers b : ℕ) (src : List ℕ) (written : ℕ)
    → put_all (suc room) q readers (b ∷ src) written
      ≡ put_all room (q ++ (b ∷ [])) readers src (written + 1)
unfolding put_all
put_all-cons room q readers b src written =
    ground (arith, append_assoc q (b ∷ []) src, append_assoc q (b ∷ []) (take room src))

pub write_bytes-put_all :
    (p : Pipe) (src : List ℕ) (written : ℕ)
    → IsValid p
    → view (write_bytes p src written) ≡ put_all (4096 - p.count) (items p) p.readers src written
unfolding write_bytes put_all
write_bytes-put_all p [] written v = ground (arith, append-nil (items p))
write_bytes-put_all p (b ∷ src) written v = elim (Bool-cases (p.count == 4096)) [
  | inl full ↦ ground (arith, append-nil (items p))
  | inr room ↦
      let below : p.count < 4096 = ground (arith, v.fits) in
      let one : 4096 - p.count ≡ suc (4096 - (put_byte p b).count) =
        omega (arith, count-put_byte p b below) in
      rw (
        room,
        write_bytes-put_all (put_byte p b) src (written + 1) (put_byte-IsValid p b v below),
        items-put_byte p b v below,
        one,
        put_all-cons,
      )
]
