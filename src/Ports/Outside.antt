-- ===== src/Ports/Outside.antt =====
-- A node port that the cluster refused: it leaves the server's key, and stays out of use.
use quetzal.Prelude.{
  All-Memᴰ, Memᴰ, Memᴰ-update, any-false, first-Memᴰ, ◌∙◌, ℕ, String, true, false, none, some, List,
  [], ◌∷◌, ==_self, ◌≡◌, ◌≢◌, first, update, ok, arith, Bool-cases, Option-cases, inl, inr, refl,
  eq_iff, sym,
}
use quetzal.Ports.{
  PortAllocation, used, on_port, held_by, set_aside, set_aside_node_port, outside, taken_node_port,
}
use quetzal.Ports.Pool.{IsPool, used_of_none, allocate_node_port-eq}

IsPool-unique :
    (rows : List PortAllocation) {r q : PortAllocation}
    → IsPool rows
    → Memᴰ r rows
    → Memᴰ q rows
    → r.node_port ≡ q.node_port
    → r ≡ q
IsPool-unique [] pool m n e = elim m [ ]
IsPool-unique (x ∷ rows) pool (Memᴰ.head a) (Memᴰ.head b) e = a ∙ sym b
IsPool-unique (x ∷ rows) pool (Memᴰ.head a) (Memᴰ.tail n) e =
    let away = All-Memᴰ _ rows pool.0 n in absurd (ground (arith, away, a))
IsPool-unique (x ∷ rows) pool (Memᴰ.tail m) (Memᴰ.head b) e =
    let away = All-Memᴰ _ rows pool.0 m in absurd (ground (arith, away, b))
IsPool-unique (x ∷ rows) pool (Memᴰ.tail m) (Memᴰ.tail n) e = IsPool-unique rows pool.1 m n e

used-update :
    (p : ℕ) (rows : List PortAllocation) → used (update (on_port p) outside rows) p ≡ used rows p
used-update p [] = refl
used-update p (r ∷ rows) = ground (arith, used-update p rows)

used_of_some :
    (p : ℕ) (rows : List PortAllocation) (r : PortAllocation)
    → first (on_port p) rows ≡ some r
    → used rows p ≡ true
used_of_some p [] r h = cc
used_of_some p (x ∷ rows) r h = ground (arith, used_of_some p rows r)

-- The port set aside is held, and not by the server's key.
module _ (server : ℕ) (key : String) (taken : ℕ) (rows : List PortAllocation) (pool : IsPool rows)
    (named : key ≢ taken_node_port) where
  outside_free : (r : PortAllocation) → r.port_name ≡ taken_node_port → held_by server key r ≡ false
  outside_free r e = ground (arith, eq_iff r.port_name key)

  set_aside_taken : used (set_aside server key taken rows) taken ≡ true
  unfolding set_aside
  set_aside_taken = elim (Option-cases (first (on_port taken) rows)) [
    | inl absent ↦ ground (arith, absent, ==_self taken)
    | inr (held, known) ↦
        ground (arith, known, used-update taken rows, used_of_some taken rows held known)
  ]

  set_aside_clear :
      (r : PortAllocation)
      → Memᴰ r (set_aside server key taken rows)
      → r.node_port ≡ taken
      → held_by server key r ≡ false
  unfolding set_aside
  set_aside_clear r = elim (Option-cases (first (on_port taken) rows)) [
    | inl absent ↦ λ m at. added (rw (absent, set_aside) at m) at absent
    | inr (held, known) ↦ elim (Bool-cases (held_by server key held)) [
      | inl own ↦ λ m at.
          let (y, old, e) =
            Memᴰ-update (on_port taken) outside rows (rw (known, own, set_aside) at m) in
          outside_free r (ground (arith, e))
      | inr other ↦ λ m at.
          let (first_row, on) = first-Memᴰ (on_port taken) rows known in
          let same : r ≡ held =
            IsPool-unique rows pool (rw (known, other, set_aside) at m) first_row (ground arith) in
          rw same other
    ]
  ]
    where
      added :
          Memᴰ r (record { node_port = taken; server_id = 0; port_name = taken_node_port } ∷ rows)
          → r.node_port ≡ taken
          → first (on_port taken) rows ≡ none
          → held_by server key r ≡ false
      added (Memᴰ.head e) at absent = outside_free r (ground arith)
      added (Memᴰ.tail m) at absent =
          let unused = any-false (on_port taken) rows (used_of_none taken rows absent) m in
          absurd (ground arith)

  -- A port set aside for a server stays in the pool, held, and the port that the server's key gets
  -- in its place is another.
  pub set_aside_node_port-ne :
      (min max start : ℕ) (rows' : List PortAllocation) (p : ℕ)
      → set_aside_node_port server key taken min max start rows ≡ ok (p, rows')
      → (p ≢ taken) × (used rows' taken ≡ true)
  unfolding set_aside_node_port
  set_aside_node_port-ne min max start rows' p h =
      elim (allocate_node_port-eq server key min max start (set_aside server key taken rows) rows' p
        h) [
          | inl (r, held, at, same) ↦
              let (m, own) =
                first-Memᴰ (held_by server key) (set_aside server key taken rows) held in
              ((λ e. let free = set_aside_clear r m (at ∙ e) in cc), rw same set_aside_taken)
          | inr (new, unused, low, high, added) ↦ (
            (λ e. let unused' = rw e at unused in cc set_aside_taken),
            rw added (ground (arith, set_aside_taken)),
          )
        ]
