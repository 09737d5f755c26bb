-- ===== src/Ports/Pool.antt =====
-- Each node port has one holder: the invariant of the pool, which every operation keeps.
use quetzal.Prelude.{
  ◌⊎◌, ℕ, String, Bool, false, none, some, List, [], ◌∷◌, ◌+◌, ◌-◌, ◌≡◌, ◌≢◌, ◌≤◌, ltb, first,
  update, delete, All, ok, arith, Bool-cases, Option-cases, inl, inr, refl,
}
use quetzal.Ports.{
  PortAllocation, used, on_port, held_by, scan, allocate_node_port, set_aside, release_node_port,
  release_server_ports, or_default, default_node_port_min, default_node_port_max, outside,
}
use quetzal.Ports.Range.{scan_sound}

abbrev pub NotOn : ℕ → List PortAllocation → Type 0
NotOn p rows = All (λ r. r.node_port ≢ p) rows

-- No two rows hold one port.
abbrev pub IsPool : List PortAllocation → Type 0
IsPool [] = Unit
IsPool (r ∷ rows) = NotOn r.node_port rows × IsPool rows

pub NotOn-unused : (p : ℕ) (rows : List PortAllocation) → used rows p ≡ false → NotOn p rows
NotOn-unused p [] h = tt
NotOn-unused p (r ∷ rows) h = (ground arith, NotOn-unused p rows (ground arith))

pub NotOn-update :
    (p : PortAllocation → Bool) (g : PortAllocation → PortAllocation)
    → ((r : PortAllocation) → (g r).node_port ≡ r.node_port)
    → (q : ℕ) (rows : List PortAllocation) → NotOn q rows
    → NotOn q (update p g rows)
NotOn-update p g keeps q [] h = tt
NotOn-update p g keeps q (r ∷ rows) (away, h) =
    (ground (arith, keeps r), NotOn-update p g keeps q rows h)

pub update-IsPool :
    (p : PortAllocation → Bool) (g : PortAllocation → PortAllocation)
    → ((r : PortAllocation) → (g r).node_port ≡ r.node_port)
    → (rows : List PortAllocation) → IsPool rows
    → IsPool (update p g rows)
update-IsPool p g keeps [] h = tt
update-IsPool p g keeps (r ∷ rows) (away, h) = elim (Bool-cases (p r)) [
  | inl hit ↦
      rw hit (
        rw (keeps r) (NotOn-update p g keeps r.node_port rows away),
        update-IsPool p g keeps rows h,
      )
  | inr miss ↦
      rw miss (NotOn-update p g keeps r.node_port rows away, update-IsPool p g keeps rows h)
]

NotOn-delete :
    (p : PortAllocation → Bool) (q : ℕ) (rows : List PortAllocation)
    → NotOn q rows
    → NotOn q (delete p rows)
NotOn-delete p q [] h = tt
NotOn-delete p q (r ∷ rows) (away, h) = elim (Bool-cases (p r)) [
  | inl gone ↦ rw gone (NotOn-delete p q rows h)
  | inr kept ↦ rw kept (away, NotOn-delete p q rows h)
]

delete-IsPool :
    (p : PortAllocation → Bool) (rows : List PortAllocation) → IsPool rows → IsPool (delete p rows)
delete-IsPool p [] h = tt
delete-IsPool p (r ∷ rows) (away, h) = elim (Bool-cases (p r)) [
  | inl gone ↦ rw gone (delete-IsPool p rows h)
  | inr kept ↦ rw kept (NotOn-delete p r.node_port rows away, delete-IsPool p rows h)
]

pub used_of_none :
    (p : ℕ) (rows : List PortAllocation) → first (on_port p) rows ≡ none → used rows p ≡ false
used_of_none p [] h = refl
used_of_none p (r ∷ rows) h = ground (arith, used_of_none p rows)

pub set_aside-IsPool :
    (server : ℕ) (key : String) (taken : ℕ) (rows : List PortAllocation)
    → IsPool rows
    → IsPool (set_aside server key taken rows)
unfolding set_aside
set_aside-IsPool server key taken rows h = elim (Option-cases (first (on_port taken) rows)) [
  | inl absent ↦
      rw (absent, set_aside) (NotOn-unused taken rows (used_of_none taken rows absent), h)
  | inr (held, known) ↦ elim (Bool-cases (held_by server key held)) [
    | inl own ↦
        rw (known, set_aside) (rw own (update-IsPool (on_port taken) outside (λ r. refl) rows h))
    | inr other ↦ rw (known, set_aside) (rw other h)
  ]
]

pub release_node_port-IsPool :
    (server : ℕ) (name : String) (rows : List PortAllocation)
    → IsPool rows
    → IsPool (release_node_port server name rows)
unfolding release_node_port
release_node_port-IsPool server name rows h = delete-IsPool _ rows h

pub release_server_ports-IsPool :
    (server : ℕ) (rows : List PortAllocation)
    → IsPool rows
    → IsPool (release_server_ports server rows)
unfolding release_server_ports
release_server_ports-IsPool server rows h = delete-IsPool _ rows h

-- What an allocation gives: the port that the key held, or a free port of the range, added.
pub allocate_node_port-eq :
    (server : ℕ) (name : String) (min max start : ℕ) (rows rows' : List PortAllocation) (p : ℕ)
    → allocate_node_port server name min max start rows ≡ ok (p, rows')
    → ((r : PortAllocation) × (first (held_by server name) rows ≡ some r)
        × (r.node_port ≡ p)
        × (rows' ≡ rows))
      ⊎ ((first (held_by server name) rows ≡ none)
          × (used rows p ≡ false)
          × (or_default min default_node_port_min ≤ p)
          × (p ≤ or_default max default_node_port_max)
          × (rows' ≡ record { node_port = p; server_id = server; port_name = name } ∷ rows))
unfolding allocate_node_port
allocate_node_port-eq server name min max start rows rows' p h =
    let lo : ℕ = or_default min default_node_port_min in
    let hi : ℕ = or_default max default_node_port_max in
    elim (Bool-cases (ltb hi lo)) [
      | inl empty ↦ absurd (ground (arith, empty))
      | inr wide ↦ elim (Option-cases (first (held_by server name) rows)) [
        | inl new ↦ elim (Option-cases (scan rows lo (hi - lo + 1) start (hi - lo + 1) 0)) [
          | inl full ↦ absurd (ground (arith, wide, new, full))
          | inr (q, free) ↦
              let (unused, low, high) =
                scan_sound rows lo (hi - lo + 1) start (hi - lo + 1) 0 (omega arith) free in
              let same : q ≡ p = ground (arith, wide, new, free) in
              inr (
                new,
                rw (← same) unused,
                omega (arith, same, low),
                ground (arith, wide, same, low, high),
                ground (arith, wide, new, free),
              )
        ]
        | inr (r, held) ↦ inl (r, held, ground (arith, wide, held), ground (arith, wide, held))
      ]
    ]
