-- ===== src/Net/Dns/Names.antt =====
-- dns_encode_name of kernel/src/net/dns.c against the labels of a name.
use alephos.Prelude.{ℕ, zero, suc, ◌+◌, ◌≤◌, ◌<◌}
use alephos.Prelude.{◌≡◌, refl, ap, ap₂, ◌∙◌, false, ◌||◌}
use alephos.Prelude.{Option, none, some, List, [], ◌∷◌, ◌++◌, append-nil, arith}
use alephos.Prelude.{ltb, ◌==◌, if◌then◌else◌}
use alephos.Prelude.{length, length-append}
use alephos.Prelude.{◌>>=◌}
use alephos.Net.Dns.{split_dot, encode_from, dns_encode_name, dns_max_name_length}

-- No character is a dot.
abbrev NoDot : List ℕ → Type 0
NoDot [] = Unit {0}
NoDot (c ∷ cs) = ((c == 46) ≡ false) × NoDot cs

-- A label that a name may have: one to 63 characters, none a dot
pub record IsLabel (label : List ℕ) : Type 0 where
  pub some_letter : 0 < length label
  pub short : length label ≤ 63
  pub plain : NoDot label

abbrev pub AllLabels : List (List ℕ) → Type 0
AllLabels [] = Unit {0}
AllLabels (l ∷ ls) = IsLabel l × AllLabels ls

-- The name of a first label and of more, with dots between them
abbrev pub joined : List ℕ → List (List ℕ) → List ℕ
joined l [] = l
joined l (k ∷ ks) = l ++ (46 ∷ joined k ks)

-- Each label behind its length
abbrev pub wire : List ℕ → List (List ℕ) → List ℕ
wire l [] = length l ∷ l
wire l (k ∷ ks) = length l ∷ (l ++ wire k ks)

split_dot-last : (l : List ℕ) → NoDot l → split_dot l ≡ (l, none)
unfolding split_dot
split_dot-last [] d = refl
split_dot-last (c ∷ cs) d =
    ap₂ (λ b r. if b then ([], some cs) else (c ∷ r.0, r.1)) d.0 (split_dot-last cs d.1)

split_dot-more : (l rest : List ℕ) → NoDot l → split_dot (l ++ (46 ∷ rest)) ≡ (l, some rest)
unfolding split_dot
split_dot-more [] rest d = refl
split_dot-more (c ∷ cs) rest d =
    ap₂ (λ b r. if b then ([], some (cs ++ (46 ∷ rest))) else (c ∷ r.0, r.1)) d.0
      (split_dot-more cs rest d.1)

-- One round, its label known.
abbrev round : ℕ → ℕ → List ℕ × Option (List ℕ) → Option (List ℕ)
round fuel written r =
    let more : Option (List ℕ) = elim r.1 [
      | none ↦ some []
      | some s ↦ encode_from fuel s (written + length r.0 + 1)
    ] in
    if ltb 63 (length r.0) || ltb dns_max_name_length (written + length r.0 + 1)
    then none
    else (more >>= λ bytes. some (length r.0 ∷ (r.0 ++ bytes)))

encode_from-round :
    (fuel : ℕ) (s : List ℕ) (written : ℕ)
    → 0 < length s
    → encode_from (suc fuel) s written ≡ round fuel written (split_dot s)
unfolding encode_from
encode_from-round fuel [] written h = absurd (omega arith)
encode_from-round fuel (c ∷ cs) written h = refl

round-fits :
    (len written : ℕ) (more : Option (List ℕ))
    → len ≤ 63
    → written + len + 1 ≤ 255
    → (if ltb 63 len || ltb dns_max_name_length (written + len + 1) then none else more) ≡ more
round-fits len written more h1 h2 = ap (λ b. if b then none else more) {y = false} (ground arith)

encode_from-wire :
    (fuel : ℕ) (l : List ℕ) (ls : List (List ℕ)) (written : ℕ)
    → IsLabel l
    → AllLabels ls
    → written + length (wire l ls) ≤ 255
    → length (joined l ls) < fuel
    → encode_from fuel (joined l ls) written ≡ some (wire l ls)
encode_from-wire zero l ls written i is fits enough = absurd (omega arith)
encode_from-wire (suc fuel) l [] written i is fits enough =
    encode_from-round fuel l written i.some_letter
    ∙ ap (round fuel written) (split_dot-last l i.plain)
    ∙ round-fits (length l) written (some (length l ∷ (l ++ []))) i.short (omega (arith, fits))
    ∙ ap (λ x. some (length l ∷ x)) (append-nil l)
encode_from-wire (suc fuel) l (k ∷ ks) written i is fits enough =
    encode_from-round fuel (joined l (k ∷ ks)) written
      (omega (arith, i.some_letter, length-append l (46 ∷ joined k ks)))
    ∙ ap (round fuel written) (split_dot-more l (joined k ks) i.plain)
    ∙ round-fits (length l) written
        (encode_from fuel (joined k ks) (written + length l + 1) >>= λ bytes.
          some (length l ∷ (l ++ bytes)))
        i.short (omega (arith, fits, length-append l (wire k ks)))
    ∙ ap (λ o. o >>= λ bytes. some (length l ∷ (l ++ bytes)))
        (encode_from-wire fuel k ks (written + length l + 1) is.0 is.1
          (omega (arith, fits, length-append l (wire k ks)))
          (omega (arith, enough, length-append l (46 ∷ joined k ks))))

-- dns_encode_name of labels of one to 63 characters with dots between them, at most 255 bytes
-- with their lengths, ends and writes each label behind its length, in order, and a zero at the
-- end.
pub dns_encode_name-wire :
    (l : List ℕ) (ls : List (List ℕ))
    → IsLabel l
    → AllLabels ls
    → length (wire l ls) ≤ 255
    → dns_encode_name (joined l ls) ≡ some (wire l ls ++ (0 ∷ []))
unfolding dns_encode_name
dns_encode_name-wire l ls i is fits =
    ap (λ o. o >>= λ bytes. some (bytes ++ (0 ∷ [])))
      (encode_from-wire (suc (length (joined l ls))) l ls 0 i is (omega (arith, fits))
        (omega arith))
