-- ===== src/Hibernate/Idle.antt =====
-- Only a server that was idle for its window is scaled to zero.
use quetzal.Prelude.{
  ℕ, String, Bool, true, false, not, ◌||◌, Option, some, List, [], ◌∷◌, ◌+◌, ◌*◌, ◌%◌, ◌^◌, ◌≡◌,
  ◌≤◌, ◌<◌, ◌⊎◌, ltb, arith, Bool-cases, Option-cases, inl, inr, refl, sym, ◌∙◌, ap, Memᴰ,
}
use quetzal.Models.Server.{Server, running, is_state}
use quetzal.Store.Db.{Db, find_server}
use quetzal.Store.Rows.{find_server-id, find_server-update}
use quetzal.Store.Power.{update_last_active, hibernate_if_unchanged, unchanged_since}
use quetzal.Hibernate.{
  eligible, idle_minutes_of, elapsed, idle_window, found_idle, probed, visit, visit_all, tick,
}

-- The row, as it stands at the write, is running and was last active when the check observed.
abbrev pub WasIdle : ℕ → Server → Server → Type 0
WasIdle now srv s =
    (t : ℕ) × (s.id ≡ srv.id)
    × (srv.last_active_at ≡ some t)
    × (s.last_active_at ≡ some t)
    × (elapsed now t (idle_window srv) ≡ true)
    × (s.desired_state ≡ running)

unchanged-WasIdle :
    (now t : ℕ) (srv s : Server)
    → unchanged_since srv s ≡ true
    → srv.last_active_at ≡ some t
    → elapsed now t (idle_window srv) ≡ true
    → WasIdle now srv s
unfolding unchanged_since
unchanged-WasIdle now t srv s same known late = elim (Option-cases s.last_active_at) [
  | inl never ↦ absurd (ground (arith, never, known, same))
  | inr (u, active) ↦
      let e : u ≡ t = ground (arith, active, known, same) in
      (t, ground (arith, same), known, active ∙ ap some e, late, ground (arith, same))
]

-- The row before a write, and what it says where the row sleeps after the write.
abbrev Before : ℕ → Db → (Server → Type 0) → Type 0
Before i db P = (s : Server) × (find_server i db.servers ≡ some s) × ((s.hibernated ≡ true) ⊎ P s)

module _ (i : ℕ) (db : Db) {s' : Server} where
  activity-Before :
      (P : Server → Type 0) (id when : ℕ)
      → find_server i (update_last_active id when db).servers ≡ some s'
      → s'.hibernated ≡ true
      → Before i db P
  unfolding update_last_active
  activity-Before P id when found asleep =
      let (s, old, e) = find_server-update _ _ i db.servers (λ r. refl) found in
      (s, old, inl (ground (arith, e, asleep)))

  sleeps-Before :
      (now t : ℕ) (srv : Server)
      → srv.last_active_at ≡ some t
      → elapsed now t (idle_window srv) ≡ true
      → find_server i (hibernate_if_unchanged srv db).0.servers ≡ some s'
      → s'.hibernated ≡ true
      → Before i db (WasIdle now srv)
  unfolding hibernate_if_unchanged
  sleeps-Before now t srv known late found asleep =
      elim (Bool-cases (
        not srv.hibernation.enabled
        || (not (is_state srv.desired_state running) || srv.hibernated))) [
          | inl skipped ↦ (s', rw (skipped, hibernate_if_unchanged) at found, inl asleep)
          | inr due ↦
              let (s, old, e) =
                find_server-update (unchanged_since srv)
                  (λ s. record s { hibernated = true; updated_at = db.now }) i db.servers
                  (λ r. refl) (rw (due, hibernate_if_unchanged) at found) in
              elim (Bool-cases (unchanged_since srv s)) [
                | inl same ↦ (s, old, inr (unchanged-WasIdle now t srv s same known late))
                | inr other ↦ (s, old, inl (ground (arith, e, other, asleep)))
              ]
        ]

  idle-Before :
      (now : ℕ) (srv : Server)
      → find_server i (found_idle now srv srv.last_active_at db).servers ≡ some s'
      → s'.hibernated ≡ true
      → Before i db (WasIdle now srv)
  unfolding found_idle
  idle-Before now srv found asleep = elim (Option-cases srv.last_active_at) [
    | inl never ↦
        activity-Before (WasIdle now srv) srv.id now (rw (never, found_idle) at found) asleep
    | inr (t, known) ↦ elim (Bool-cases (elapsed now t (idle_window srv))) [
      | inl late ↦ sleeps-Before now t srv known late (rw (known, found_idle, late) at found) asleep
      | inr early ↦ (s', rw (known, found_idle, early) at found, inl asleep)
    ]
  ]

-- The server, as the check observed it: eligible, without a connection where it is probed, and
-- idle for its window, as int64 has it.
abbrev Observed : (String → Bool) → (Server → Option ℕ) → ℕ → Server → Type 0
Observed is_udp probe now srv =
    (eligible is_udp probe srv ≡ true)
    × ((srv.hibernation.proxy ≡ true) ⊎ (probe srv ≡ some 0))
    × ((t : ℕ) × (srv.last_active_at ≡ some t) × (elapsed now t (idle_window srv) ≡ true))

-- The server, as the check observed it: eligible, without a connection where it is probed, and
-- idle for its minutes.
abbrev pub IsDue : (String → Bool) → (Server → Option ℕ) → ℕ → Server → Type 0
IsDue is_udp probe now srv =
    (eligible is_udp probe srv ≡ true)
    × ((srv.hibernation.proxy ≡ true) ⊎ (probe srv ≡ some 0))
    × ((t : ℕ) × (srv.last_active_at ≡ some t) × (t + idle_minutes_of srv * 60000000000 ≤ now))

whole_window : (n : ℕ) → n < 2 ^ 63 → n % 2 ^ 64 ≡ n
whole_window n fits = omega (arith, fits)

elapsed_below : (now t n : ℕ) → n < 2 ^ 63 → elapsed now t n ≡ true → t + n ≤ now
elapsed_below now t n fits late = ground (arith, fits, late)

elapsed_by :
    (now t : ℕ) (srv : Server)
    → idle_minutes_of srv * 60000000000 < 2 ^ 63
    → elapsed now t (idle_window srv) ≡ true
    → t + idle_minutes_of srv * 60000000000 ≤ now
unfolding idle_window
elapsed_by now t srv fits late =
    elapsed_below now t (idle_minutes_of srv * 60000000000) fits
      (ap (elapsed now t) (sym (whole_window (idle_minutes_of srv * 60000000000) fits)) ∙ late)

module _ (is_udp : String → Bool) (probe : Server → Option ℕ) (now : ℕ) where
  probed-Before :
      (i : ℕ) (srv : Server) (db : Db) {s' : Server}
      → find_server i (probed now srv (probe srv) db).servers ≡ some s'
      → s'.hibernated ≡ true
      → Before i db (λ s. WasIdle now srv s × (probe srv ≡ some 0))
  unfolding probed
  probed-Before i srv db {s'} found asleep = elim (Option-cases (probe srv)) [
    | inl unmeasured ↦ (s', rw (unmeasured, probed) at found, inl asleep)
    | inr (conns, measured) ↦ elim (Bool-cases (ltb 0 conns)) [
      | inl busy ↦ activity-Before i db _ srv.id now (rw (measured, probed, busy) at found) asleep
      | inr quiet ↦
          let (s, old, how) =
            idle-Before i db now srv (rw (measured, probed, quiet) at found) asleep in
          let none_open : conns ≡ 0 = ground (arith, quiet) in
          (
            s,
            old,
            elim how [
              | inl already ↦ inl already
              | inr idle ↦ inr (idle, measured ∙ ap some none_open)
            ],
          )
    ]
  ]

  visit-Before :
      (i : ℕ) (srv : Server) (db : Db) {s' : Server}
      → find_server i (visit is_udp probe now srv db).servers ≡ some s'
      → s'.hibernated ≡ true
      → Before i db (λ s.
        WasIdle now srv s
        × (eligible is_udp probe srv ≡ true)
        × ((srv.hibernation.proxy ≡ true) ⊎ (probe srv ≡ some 0)))
  unfolding visit
  visit-Before i srv db {s'} found asleep = elim (Bool-cases (eligible is_udp probe srv)) [
    | inr passed ↦ (s', rw (passed, visit) at found, inl asleep)
    | inl fits ↦ elim (Bool-cases srv.hibernation.proxy) [
      | inl proxied ↦
          let same : visit is_udp probe now srv db ≡ found_idle now srv srv.last_active_at db =
            ground (arith, fits, proxied) in
          let (s, old, how) =
            idle-Before i db now srv (sym (ap (λ d. find_server i d.servers) same) ∙ found)
              asleep in
          (
            s,
            old,
            elim how [ inl already ↦ inl already | inr idle ↦ inr (idle, fits, inl proxied) ],
          )
      | inr direct ↦
          let same : visit is_udp probe now srv db ≡ probed now srv (probe srv) db =
            ground (arith, fits, direct) in
          let (s, old, how) =
            probed-Before i srv db (sym (ap (λ d. find_server i d.servers) same) ∙ found) asleep in
          (
            s,
            old,
            elim how [
              | inl already ↦ inl already
              | inr (idle, alone) ↦ inr (idle, fits, inr alone)
            ],
          )
    ]
  ]

  -- A server that one round of the idle check puts to sleep is the one that it observed, eligible
  -- then and without a connection where it is probed; at the write it still runs, and has not been
  -- active since it was observed, for its idle window.
  pub visit-WasIdle :
      (i : ℕ) (srv : Server) (db : Db) (s s' : Server)
      → find_server i db.servers ≡ some s
      → s.hibernated ≡ false
      → find_server i (visit is_udp probe now srv db).servers ≡ some s'
      → s'.hibernated ≡ true
      → WasIdle now srv s
        × (eligible is_udp probe srv ≡ true)
        × ((srv.hibernation.proxy ≡ true) ⊎ (probe srv ≡ some 0))
  visit-WasIdle i srv db s s' known awake found asleep =
      let (r, old, how) = visit-Before i srv db found asleep in
      let same : s ≡ r = let k = sym known ∙ old in cc in
      elim how [ inl already ↦ absurd (ground (arith, same, already)) | inr idle ↦ rw same idle ]

  abbrev DueIn : ℕ → List Server → Type 0
  DueIn i snap = (srv : Server) × Memᴰ srv snap × (srv.id ≡ i) × Observed is_udp probe now srv

  found_due :
      (i : ℕ) (srv s : Server) (rest : List Server) (db : Db)
      → find_server i db.servers ≡ some s
      → WasIdle now srv s
      → eligible is_udp probe srv ≡ true
      → (srv.hibernation.proxy ≡ true) ⊎ (probe srv ≡ some 0)
      → DueIn i (srv ∷ rest)
  found_due i srv s rest db found (t, same, seen, active, late, on) fits alone =
      let e = find_server-id i db.servers found in
      (srv, Memᴰ.head refl, sym same ∙ e, (fits, alone, (t, seen, late)))

  visit_all-Before :
      (i : ℕ) (snap : List Server) (db : Db) {s' : Server}
      → find_server i (visit_all is_udp probe now snap db).servers ≡ some s'
      → s'.hibernated ≡ true
      → ((s : Server) × (find_server i db.servers ≡ some s) × (s.hibernated ≡ true)) ⊎ DueIn i snap
  unfolding visit_all
  visit_all-Before i [] db {s'} found asleep = inl (s', found, asleep)
  visit_all-Before i (srv ∷ rest) db found asleep =
      elim (visit_all-Before i rest (visit is_udp probe now srv db) found asleep) [
        | inr (due, m, id, rules) ↦ inr (due, Memᴰ.tail m, id, rules)
        | inl (r, mid, already) ↦
            let (s, old, how) = visit-Before i srv db mid already in
            elim how [
              | inl before ↦ inl (s, old, before)
              | inr (idle, fits, alone) ↦ inr (found_due i srv s rest db old idle fits alone)
            ]
      ]

  -- A round of the idle check over all servers puts a server to sleep only if the list that it read
  -- has it as eligible, without a connection where it is probed, and with its last activity its idle
  -- minutes (15 where it has none) or more ago. The minutes of each server on the list are to fit
  -- int64 in nanoseconds, which no request checks.
  pub tick-IsDue :
      (i : ℕ) (db : Db) (s s' : Server)
      → ((srv : Server) → Memᴰ srv db.servers → idle_minutes_of srv * 60000000000 < 2 ^ 63)
      → find_server i db.servers ≡ some s
      → s.hibernated ≡ false
      → find_server i (tick is_udp probe now db).servers ≡ some s'
      → s'.hibernated ≡ true
      → (srv : Server) × Memᴰ srv db.servers × (srv.id ≡ i) × IsDue is_udp probe now srv
  unfolding tick
  tick-IsDue i db s s' fits known awake found asleep =
      elim (visit_all-Before i db.servers db found asleep) [
        | inr (srv, m, same, (able, alone, (t, seen, late))) ↦
            (srv, m, same, (able, alone, (t, seen, elapsed_by now t srv (fits srv m) late)))
        | inl (r, old, already) ↦
            let same : s ≡ r = let k = sym known ∙ old in cc in
            absurd (ground (arith, same, already))
      ]
