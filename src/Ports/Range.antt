-- ===== src/Ports/Range.antt =====
-- The scan visits every port of the range.
use quetzal.Prelude.{
  ==_iff, ◌==◌, sym, ap, ◌∙◌, ℕ, zero, suc, true, false, none, some, List, ◌+◌, ◌-◌, ◌%◌, ◌≤◌, ◌<◌,
  ◌≡◌, arith, Bool-cases, inl, inr,
}
use quetzal.Ports.{PortAllocation, used, scan}
use native.Mathlib.Nat.{mod-lt, mod-eq_of_lt, mod-add-mod, add-mod-mod, add-mod_right}

-- A port that the scan takes is free and lies in the range.
pub scan_sound :
    (rows : List PortAllocation) (min span start rounds i : ℕ) {p : ℕ}
    → 0 < span
    → scan rows min span start rounds i ≡ some p
    → (used rows p ≡ false) × (min ≤ p) × (p < min + span)
unfolding scan
scan_sound rows min span start zero i wide h = cc
scan_sound rows min span start (suc rounds) i wide h =
    elim (Bool-cases (used rows (min + (start + i) % span))) [
      | inl busy ↦ scan_sound rows min span start rounds (i + 1) wide (rw busy at h)
      | inr free ↦ here (rw free at h) free
    ]
  where
    here :
        {p : ℕ}
        → some (min + (start + i) % span) ≡ some p
        → used rows (min + (start + i) % span) ≡ false
        → (used rows p ≡ false) × (min ≤ p) × (p < min + span)
    here {p} e free =
        let e' : p ≡ min + (start + i) % span = ground arith in
        rw e' (free, omega arith, omega (arith, mod-lt (start + i) {m = span} wide))

-- A scan that takes none has seen only used ports.
scan-none :
    (rows : List PortAllocation) (min span start rounds i j : ℕ)
    → scan rows min span start rounds i ≡ none
    → i ≤ j
    → j < i + rounds
    → used rows (min + (start + j) % span) ≡ true
unfolding scan
scan-none rows min span start zero i j h low high = absurd (omega arith)
scan-none rows min span start (suc rounds) i j h low high =
    elim (Bool-cases (used rows (min + (start + i) % span))) [
      | inr free ↦ absurd (ground (arith, free))
      | inl busy ↦ elim (Bool-cases (i == j)) [
        | inl same ↦ rw (← (==_iff i j).0 same) busy
        | inr other ↦
            scan-none rows min span start rounds (i + 1) j (rw busy at h) (ground arith)
              (omega arith)
      ]
    ]

-- Each offset is reached from any start.
reach_offset :
    (span start offset : ℕ) → offset < span → (i : ℕ) × (i < span) × ((start + i) % span ≡ offset)
reach_offset span start offset h =
    let back : ℕ = offset + (span - start % span) in
    let inside : start % span < span = mod-lt start {m = span} (omega arith) in
    (
      back % span,
      mod-lt back {m = span} (omega arith),
      add-mod-mod start back span
          ∙ sym (mod-add-mod start span back)
          ∙ ap (λ (k : ℕ). k % span)
              (let e : start % span + back ≡ offset + span = omega (arith, inside) in e)
          ∙ add-mod_right offset span
          ∙ mod-eq_of_lt h,
    )

-- If the scan of a whole span takes no port, every port of the range is used.
pub scan_complete :
    (rows : List PortAllocation) (min span start p : ℕ)
    → scan rows min span start span 0 ≡ none
    → min ≤ p
    → p < min + span
    → used rows p ≡ true
scan_complete rows min span start p h low high =
    let (i, below, reached) = reach_offset span start (p - min) (omega arith) in
    let seen = scan-none rows min span start span 0 i h (omega arith) (omega arith) in
    let at : min + (start + i) % span ≡ p = omega (arith, reached) in rw at at seen
