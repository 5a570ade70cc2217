-- ===== src/Core/Ip/Packets/Connections.antt =====
-- The table of connections of kernel/src/core/drivers/net/ip.c: how a TCP segment takes a free entry.
use alephos.Prelude.{ℕ, zero, suc, ◌+◌}
use alephos.Prelude.{◌≡◌, refl, sym, ap, ap₂, ◌∙◌, subst, ◌⊎◌, inl, inr, Bool, true, false}
use alephos.Prelude.{Option, none, some, List, [], ◌∷◌, arith}
use alephos.Prelude.{if◌then◌else◌, Bool-cases}
use alephos.Prelude.{u32}
use mathlib.Core.Bool.{true≢false}
use alephos.Core.Ip.{
  Ip, Connection, listen, is_closed, matches, find_connection, allocate_connection, update, Request,
  opens, acknowledges, closes, other,
}
use alephos.Core.Ip.Packets.{connection_for, answer, is_opening, track}

-- The free entries
abbrev pub closed_count : List Connection → ℕ
closed_count [] = 0
closed_count (c ∷ cs) = (if is_closed c.state then 1 else 0) + closed_count cs

-- The entry at this index is there and in use.
abbrev OpenAt : ℕ → List Connection → Type 0
OpenAt i [] = ⊥
OpenAt zero (c ∷ cs) = is_closed c.state ≡ false
OpenAt (suc i) (c ∷ cs) = OpenAt i cs

-- The entry is in use, between these two addresses and ports.
abbrev pub IsPeer : ℕ → ℕ → ℕ → ℕ → Connection → Type 0
IsPeer local remote local_port remote_port c =
    (is_closed c.state ≡ false)
    × (c.local_ip ≡ local)
    × (c.remote_ip ≡ remote)
    × (c.local_port ≡ local_port)
    × (c.remote_port ≡ remote_port)

-- Some entry of the table is.
abbrev pub IsKnown : ℕ → ℕ → ℕ → ℕ → List Connection → Type 0
IsKnown local remote local_port remote_port [] = ⊥
IsKnown local remote local_port remote_port (c ∷ cs) =
    IsPeer local remote local_port remote_port c ⊎ IsKnown local remote local_port remote_port cs

module _ (local remote local_port remote_port : ℕ) where
  abbrev Located : List Connection → ℕ → Option ℕ → Type 0
  Located cs i none = ¬ IsKnown local remote local_port remote_port cs
  Located cs i (some j) =
      (k : ℕ) × (j ≡ i + k) × OpenAt k cs × IsKnown local remote local_port remote_port cs

  matches-IsPeer :
      (c : Connection)
      → matches local remote local_port remote_port c ≡ true
      → IsPeer local remote local_port remote_port c
  unfolding matches
  matches-IsPeer c e = (
    ground (arith, e),
    ground (arith, e),
    ground (arith, e),
    ground (arith, e),
    ground (arith, e),
  )

  IsPeer-matches :
      (c : Connection)
      → IsPeer local remote local_port remote_port c
      → matches local remote local_port remote_port c ≡ true
  unfolding matches
  IsPeer-matches c (o, a, b, d, e) = ground (arith, o, a, b, d, e)

  Located-cons :
      (c : Connection) (cs : List Connection) (i : ℕ) (o : Option ℕ)
      → matches local remote local_port remote_port c ≡ false
      → Located cs (i + 1) o
      → Located (c ∷ cs) i o
  Located-cons c cs i none e l = λ known. elim known [
    | inl peer ↦ true≢false (sym (IsPeer-matches c peer) ∙ e)
    | inr there ↦ l there
  ]
  Located-cons c cs i (some j) e (k, at, taken, known) =
      (suc k, omega (arith, at), taken, inr known)

  find_connection-Located :
      (cs : List Connection) (i : ℕ)
      → Located cs i (find_connection cs i local remote local_port remote_port)
  unfolding find_connection
  find_connection-Located [] i = λ known. known
  find_connection-Located (c ∷ cs) i =
      let rest : Option ℕ = find_connection cs (i + 1) local remote local_port remote_port in
      elim (Bool-cases (matches local remote local_port remote_port c)) [
        | inl e ↦
            let peer : IsPeer local remote local_port remote_port c = matches-IsPeer c e in
            subst (λ b. Located (c ∷ cs) i (if b then some i else rest)) (sym e)
              (0, omega arith, peer.0, inl peer)
        | inr e ↦
            subst (λ b. Located (c ∷ cs) i (if b then some i else rest)) (sym e)
              (Located-cons c cs i rest e (find_connection-Located cs (i + 1)))
      ]

-- A free entry is taken, or there is none.
abbrev Takes : List Connection → ℕ → Option ℕ × List Connection → Type 0
Takes cs i (none, cs') = (closed_count cs ≡ 0) × (cs' ≡ cs)
Takes cs i (some j, cs') =
    (k : ℕ) × (j ≡ i + k) × OpenAt k cs' × (closed_count cs' + 1 ≡ closed_count cs)

Takes-cons :
    (c : Connection) (cs : List Connection) (i : ℕ) (r : Option ℕ × List Connection)
    → is_closed c.state ≡ false
    → Takes cs (i + 1) r
    → Takes (c ∷ cs) i (r.0, c ∷ r.1)
Takes-cons c cs i (none, cs') e (n, same) =
    (ap₂ (λ b x. (if b then 1 else 0) + x) e n ∙ omega arith, ap (λ l. c ∷ l) same)
Takes-cons c cs i (some j, cs') e (k, at, taken, count) =
    (suc k, omega (arith, at), taken, omega (arith, count))

allocate_connection-Takes : (cs : List Connection) (i : ℕ) → Takes cs i (allocate_connection cs i)
unfolding allocate_connection
allocate_connection-Takes [] i = (refl, refl)
allocate_connection-Takes (c ∷ cs) i =
    let rest : Option ℕ × List Connection = allocate_connection cs (i + 1) in
    elim (Bool-cases (is_closed c.state)) [
      | inl e ↦
          subst
            (λ b.
              Takes (c ∷ cs) i
                (if b then (some i, record c { state = listen } ∷ cs) else (rest.0, c ∷ rest.1)))
            (sym e) (0, omega arith, refl, ap (λ b. 0 + closed_count cs + 1) e ∙ ground (arith, e))
      | inr e ↦
          subst
            (λ b.
              Takes (c ∷ cs) i
                (if b then (some i, record c { state = listen } ∷ cs) else (rest.0, c ∷ rest.1)))
            (sym e) (Takes-cons c cs i rest e (allocate_connection-Takes cs (i + 1)))
    ]

update-closed_count :
    (f : Connection → Connection) (k : ℕ) (cs : List Connection)
    → ((c : Connection) → is_closed c.state ≡ false → is_closed (f c).state ≡ false)
    → OpenAt k cs
    → closed_count (update f k cs) ≡ closed_count cs
unfolding update
update-closed_count f k [] keeps o = absurd o
update-closed_count f zero (c ∷ cs) keeps o =
    ap (λ b. (if b then 1 else 0) + closed_count cs) (keeps c o ∙ sym o)
update-closed_count f (suc k) (c ∷ cs) keeps o =
    ap (λ x. (if is_closed c.state then 1 else 0) + x) (update-closed_count f k cs keeps o)

answer-open :
    (r : Request) (local remote local_port remote_port sequence : ℕ) (c : Connection)
    → is_closed c.state ≡ false
    → is_closed (answer r local remote local_port remote_port sequence c).state ≡ false
unfolding answer
answer-open opens local remote local_port remote_port sequence c o = refl
answer-open acknowledges local remote local_port remote_port sequence c o = refl
answer-open closes local remote local_port remote_port sequence c o = refl
answer-open other local remote local_port remote_port sequence c o = o

-- A segment of a connection in the table leaves the number of free entries; any other takes a
-- free entry, or is refused where there is none.
abbrev pub Tracked : ℕ → ℕ → ℕ → ℕ → Ip → Bool × Ip → Type 0
Tracked local remote local_port remote_port s r =
    (IsKnown local remote local_port remote_port s.connections
      × (r.0 ≡ true)
      × (closed_count r.1.connections ≡ closed_count s.connections))
    ⊎ ((¬ IsKnown local remote local_port remote_port s.connections)
        × (((r.0 ≡ true) × (closed_count r.1.connections + 1 ≡ closed_count s.connections))
            ⊎ ((r.0 ≡ false)
                × (closed_count s.connections ≡ 0)
                × (r.1.connections ≡ s.connections))))

module _ (r : Request) (local remote local_port remote_port : ℕ) (s : Ip) where
  -- `track`, its entry found.
  abbrev tracked : Option ℕ × List Connection → Bool × Ip
  tracked (found, cs) = elim found [
    | none ↦ (false, record s { connections = cs })
    | some i ↦ (
      true,
      record s {
        connections = update (answer r local remote local_port remote_port s.packet_sequence) i cs;
        packet_sequence = if is_opening r then u32 (s.packet_sequence + 1) else s.packet_sequence;
      },
    )
  ]

  taken :
      (o : Option ℕ × List Connection)
      → ¬ IsKnown local remote local_port remote_port s.connections
      → Takes s.connections 0 o
      → Tracked local remote local_port remote_port s (tracked o)
  taken (none, cs) strange (n, same) = inr (strange, inr (refl, n, same))
  taken (some j, cs) strange (k, at, open_at, count) = inr (
    strange,
    inl (
      refl,
      omega (
        arith,
        count,
        ap
            (λ x.
              closed_count
                (update (answer r local remote local_port remote_port s.packet_sequence) x cs))
            {x = j} {y = k} (omega (arith, at)),
        update-closed_count (answer r local remote local_port remote_port s.packet_sequence) k cs
            (answer-open r local remote local_port remote_port s.packet_sequence) open_at,
      ),
    ),
  )

  known :
      (o : Option ℕ)
      → Located local remote local_port remote_port s.connections 0 o
      → Tracked local remote local_port remote_port s (
          tracked (elim o [
            | some i ↦ (some i, s.connections)
            | none ↦ allocate_connection s.connections 0
          ]))
  known none l =
      taken (allocate_connection s.connections 0) l (allocate_connection-Takes s.connections 0)
  known (some j) (k, at, open_at, there) = inl (
    there,
    refl,
    ap
          (λ x. closed_count (
            update (answer r local remote local_port remote_port s.packet_sequence) x
              s.connections))
          {x = j} {y = k} (omega (arith, at))
        ∙ update-closed_count (answer r local remote local_port remote_port s.packet_sequence) k
            s.connections (answer-open r local remote local_port remote_port s.packet_sequence)
            open_at,
  )

  -- What a TCP segment does to the table of connections: if an entry in use has its two
  -- addresses and two ports, it is accepted and the number of free entries stays, whatever it
  -- asks for; if none has, it takes a free entry and gives none back, even if it opens no
  -- connection, and with no free entry left it is refused and the table is as before.
  pub track-Tracked :
      Tracked local remote local_port remote_port s (track r local remote local_port remote_port s)
  unfolding track connection_for
  track-Tracked =
      known (find_connection s.connections 0 local remote local_port remote_port)
        (find_connection-Located local remote local_port remote_port s.connections 0)
