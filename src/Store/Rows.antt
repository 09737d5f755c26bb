-- ===== src/Store/Rows.antt =====
-- How the statements of `Db` act on the rows that a transaction finds.
use quetzal.Prelude.{
  ℕ, Bool, some, List, [], ◌∷◌, ◌==◌, ◌≢◌, if◌then◌else◌, update, ◌≡◌, refl, arith, Bool-cases, inl,
  inr,
}
use quetzal.Models.Server.{Server}
use quetzal.Store.Db.{with_id, find_server}

-- The row found under an id has that id.
pub find_server-id :
    (i : ℕ) (rows : List Server) {s : Server} → find_server i rows ≡ some s → s.id ≡ i
find_server-id i [] h = cc
find_server-id i (r ∷ rows) h = elim (Bool-cases (r.id == i)) [
  | inl same ↦ ground (arith, same)
  | inr other ↦ find_server-id i rows (rw other at h)
]

-- After an update that keeps the ids, the row found is the old one, updated if it passed the test.
pub find_server-update :
    (p : Server → Bool) (g : Server → Server) (i : ℕ) (rows : List Server) {s : Server}
    → ((r : Server) → (g r).id ≡ r.id)
    → find_server i (update p g rows) ≡ some s
    → (r : Server) × (find_server i rows ≡ some r) × (s ≡ (if p r then g r else r))
find_server-update p g i [] keeps h = cc
find_server-update p g i (r ∷ rows) {s} keeps h = elim (Bool-cases (r.id == i)) [
  | inl same ↦ (r, ground (arith, same), ground (arith, same, keeps r))
  | inr other ↦
      let (old, found, e) = find_server-update p g i rows keeps (ground (arith, other, keeps r)) in
      (old, rw other found, e)
]

-- The row found under an id, after a write by that id.
pub find_server-update_self :
    (i : ℕ) (g : Server → Server) (rows : List Server) {s : Server}
    → ((r : Server) → (g r).id ≡ r.id)
    → find_server i rows ≡ some s
    → find_server i (update (with_id i) g rows) ≡ some (g s)
find_server-update_self i g [] keeps h = cc
find_server-update_self i g (r ∷ rows) keeps h = elim (Bool-cases (r.id == i)) [
  | inl same ↦ ground (arith, same, keeps r)
  | inr other ↦ rw other (rw other (find_server-update_self i g rows keeps (rw other at h)))
]

-- The row found under another id stays.
pub find_server-update_other :
    (i j : ℕ) (g : Server → Server) (rows : List Server)
    → i ≢ j
    → ((r : Server) → (g r).id ≡ r.id)
    → find_server j (update (with_id i) g rows) ≡ find_server j rows
find_server-update_other i j g [] differ keeps = refl
find_server-update_other i j g (r ∷ rows) differ keeps =
    ground (arith, keeps r, find_server-update_other i j g rows differ keeps)
