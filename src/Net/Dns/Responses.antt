-- ===== src/Net/Dns/Responses.antt =====
-- dns_parse_response of kernel/src/net/dns.c: it ends, and what it takes for an address.
use alephos.Prelude.{ℕ, suc, ◌+◌, ◌≤◌, ◌<◌, bit_and}
use alephos.Prelude.{◌≡◌, refl, sym, subst, ◌⊎◌, inl, inr, Bool, false, not, ◌||◌}
use alephos.Prelude.{Option, none, some, arith}
use alephos.Prelude.{ltb, ◌==◌, if◌then◌else◌, Bool-cases}
use alephos.Prelude.{u32}
use alephos.Prelude.{◌>>=◌}
use alephos.Utils.Mem.{Memory}
use alephos.Core.Elf.{read_le}
use alephos.Core.Process.Removal.{Yields}
use mathlib.Core.Bool.{true≢false}
use alephos.Mm.Heap.Freeing.{Yields-bind, Yields-map}
use alephos.Net.Dns.{
  htons, Dns, skip_questions, find_address, response_address, count_response, dns_parse_response,
}
use alephos.Net.Dns.Walks.{Questions, Walks, skip_questions-Questions, find_address-Walks}

abbrev response_flags : Memory → ℕ
response_flags r = htons (read_le r 2 2)

-- A response without an error: the QR bit is set and RCODE is 0.
abbrev IsReply : Memory → Type 0
IsReply r = (¬ (bit_and (response_flags r) 0x8000 ≡ 0)) × (bit_and (response_flags r) 0xF ≡ 0)

-- What a response of `len` bytes gives: an address, or none and why.
pub data Response (r : Memory) (len : ℕ) : Option ℕ → Type 0 where
  short : len < 12 → Response r len none
  refused : ¬ IsReply r → Response r len none
  bad_question :
      12 ≤ len → IsReply r → Questions r len (htons (read_le r 4 2)) 12 none → Response r len none
  walked :
      {o : Option ℕ} (cur : ℕ)
      → 12 ≤ len
      → IsReply r
      → Questions r len (htons (read_le r 4 2)) 12 (some cur)
      → Walks r len (htons (read_le r 6 2)) cur o
      → Response r len o

response_address-Response :
    (r : Memory) (len : ℕ) → Yields (Response r len) (response_address r len)
unfolding response_address
response_address-Response r len =
    let body : Option (Option ℕ) =
      skip_questions (suc len) (htons (read_le r 4 2)) r 12 len >>= λ o. from o in
    elim (Bool-cases (ltb len 12)) [
      | inl e ↦
          subst (λ b. Yields (Response r len) (either b wrong body)) (sym e)
            (short (ground (arith, e)))
      | inr e ↦
          subst (λ b. Yields (Response r len) (either b wrong body)) (sym e)
            (elim (Bool-cases wrong) [
              | inl w ↦
                  subst (λ b. Yields (Response r len) (either false b body)) (sym w)
                    (refused (λ reply. true≢false (ground (arith, w, reply.0, reply.1))))
              | inr w ↦
                  subst (λ b. Yields (Response r len) (either false b body)) (sym w)
                    (Yields-bind (Questions r len (htons (read_le r 4 2)) 12) (Response r len)
                      (skip_questions (suc len) (htons (read_le r 4 2)) r 12 len) from
                      (skip_questions-Questions len (htons (read_le r 4 2)) r 12)
                      (answered (ground (arith, e)) (reply w)))
            ])
    ]
  where
    wrong : Bool
    wrong = (bit_and (response_flags r) 0x8000 == 0) || not (bit_and (response_flags r) 0xF == 0)

    either : Bool → Bool → Option (Option ℕ) → Option (Option ℕ)
    either ends bad body = if ends then some none else (if bad then some none else body)

    from : Option ℕ → Option (Option ℕ)
    from o = elim o [
      | none ↦ some none
      | some cur ↦ find_address (suc len) (htons (read_le r 6 2)) r cur len
    ]

    reply : wrong ≡ false → IsReply r
    reply w = (λ z. true≢false (ground (arith, w, z)), ground (arith, w))

    answered :
        12 ≤ len
        → IsReply r
        → (o : Option ℕ) → Questions r len (htons (read_le r 4 2)) 12 o
        → Yields (Response r len) (from o)
    answered room good none q = bad_question room good q
    answered room good (some cur) q =
        Yields-map (Walks r len (htons (read_le r 6 2)) cur) (Response r len)
          (find_address (suc len) (htons (read_le r 6 2)) r cur len)
          (λ o w. walked cur room good q w) (find_address-Walks len (htons (read_le r 6 2)) r cur)

-- What `dns_parse_response` returns: 0 with an error counted, or an address with a response counted.
abbrev pub Answers : Memory → ℕ → Dns → ℕ × Dns → Type 0
Answers r len d (ip, d') =
    (Response r len none
      × (ip ≡ 0)
      × (d' ≡ record d {
        dns_statistics = record d.dns_statistics { errors = u32 (d.dns_statistics.errors + 1) };
      }))
    ⊎ (Response r len (some ip)
        × (d' ≡ record d {
          dns_statistics = record d.dns_statistics {
            responses_received = u32 (d.dns_statistics.responses_received + 1);
          };
        }))

-- dns_parse_response ends on every response, whatever its bytes are. It returns 0 and counts an
-- error, or counts a response and returns an address. It returns an address only if the
-- response has twelve bytes at least, the QR bit and no error code, and it is the four bytes
-- behind the first record of type A with a length of four, as the code walks along the
-- questions and the answers, which does not skip the zero byte that ends a name; it returns 0
-- only if the response is too short, is no reply or has an error code, or this walk is cut by
-- the end of the response or finds no such record.
pub dns_parse_response-Answers :
    (r : Memory) (len : ℕ) (d : Dns) → Yields (Answers r len d) (dns_parse_response r len d)
unfolding dns_parse_response count_response
dns_parse_response-Answers r len d =
    Yields-bind (Response r len) (Answers r len d) (response_address r len)
      (λ o. some (
        (count_response o d.dns_statistics).0,
        record d { dns_statistics = (count_response o d.dns_statistics).1 },
      ))
      (response_address-Response r len) counted
  where
    counted :
        (o : Option ℕ)
        → Response r len o
        → Answers r len d (
          (count_response o d.dns_statistics).0,
          record d { dns_statistics = (count_response o d.dns_statistics).1 },
        )
    counted none a = inl (a, refl, refl)
    counted (some ip) a = inr (a, refl)
