-- ===== src/Quota/Overflow.antt =====
-- The sums behind the quotas on memory and CPU (Quota): they are right while they stay within an
-- int64, and a quota lets everything through where they do not.
use quetzal.Prelude.{
  ℕ, Bool, true, false, Option, none, some, List, [], ◌∷◌, ◌+◌, ◌%◌, ◌^◌, ◌≡◌, ◌≤◌, ◌<◌, ◌↔◌,
  Result, Error, ok, refuse_if, ◌>>◌, arith, refl, ap, ◌∙◌,
}
use quetzal.Models.Server.{Server, Resources}
use quetzal.Models.User.{User}
use quetzal.Quota.{
  Quantities, memory_total, cpu_total, sum_from, exceeds, within_resource_quota, add64,
}

-- The sum of the servers' limits, without a bound.
abbrev pub sum : (Resources → ℕ) → List Server → ℕ
sum total [] = 0
sum total (s ∷ ss) = total s.resources + sum total ss

pub sum_from-sum :
    (total : Resources → ℕ) (acc : ℕ) (ss : List Server)
    → acc < 2 ^ 64
    → sum_from total acc ss ≡ (acc + sum total ss) % 2 ^ 64
unfolding sum_from
sum_from-sum total acc [] small = omega arith
sum_from-sum total acc (s ∷ ss) small =
    let ih = sum_from-sum total (add64 acc (total s.resources)) ss (omega arith) in
    omega (arith, ih)

-- A sum is within a quota that is set.
abbrev pub Fits : ℕ → Option ℕ → Type 0
Fits n none = Unit
Fits n (some quota) = n ≤ quota

abbrev pub IsBound : Option ℕ → Type 0
IsBound none = Unit
IsBound (some quota) = quota < 2 ^ 63

exceeds-Fits :
    (n : ℕ) (quota : Option ℕ)
    → n < 2 ^ 63
    → IsBound quota
    → (exceeds n quota ≡ false) ↔ Fits n quota
exceeds-Fits n none small h = ((λ e. tt), (λ e. refl))
exceeds-Fits n (some quota) small h = ground arith

total-sum :
    (total : Resources → ℕ) (ss : List Server) (n : ℕ)
    → sum total ss + n < 2 ^ 64
    → add64 (sum_from total 0 ss) n ≡ sum total ss + n
total-sum total ss n small = let e = sum_from-sum total 0 ss (omega arith) in omega (arith, e)

abbrev both_checks : Bool → Bool → Result (Unit {0})
both_checks a b =
    refuse_if a Error.memory_quota_exceeded >> (refuse_if b Error.cpu_quota_exceeded >> ok tt)

both_checks-ok : (a b : Bool) → (both_checks a b ≡ ok tt) ↔ ((a ≡ false) × (b ≡ false))
both_checks-ok true b = ((λ h. cc), (λ h. cc (h.0)))
both_checks-ok false true = ((λ h. cc), (λ h. cc (h.1)))
both_checks-ok false false = ((λ h. (refl, refl)), (λ h. refl))

-- While the sums of the limits stay below 2 ^ 63 and the quotas are int64, the check passes
-- exactly if the memory and the CPU that the servers have with those asked for are each within
-- the account's quota, where it has one.
pub within_resource_quota_iff :
    (q : Quantities) (u : User) (ss : List Server) (r : Resources)
    → sum (memory_total q) ss + memory_total q r < 2 ^ 63
    → sum (cpu_total q) ss + cpu_total q r < 2 ^ 63
    → IsBound u.max_memory_mb
    → IsBound u.max_cpu_milli
    → (within_resource_quota q u ss r ≡ ok tt) ↔ (
        Fits (sum (memory_total q) ss + memory_total q r) u.max_memory_mb
        × Fits (sum (cpu_total q) ss + cpu_total q r) u.max_cpu_milli)
unfolding within_resource_quota
within_resource_quota_iff q u ss r memory_small cpu_small memory_quota cpu_quota =
    let m = total-sum (memory_total q) ss (memory_total q r) (omega (arith, memory_small)) in
    let c = total-sum (cpu_total q) ss (cpu_total q r) (omega (arith, cpu_small)) in
    let (in_memory, of_memory) =
      exceeds-Fits (sum (memory_total q) ss + memory_total q r) u.max_memory_mb memory_small
        memory_quota in
    let (in_cpu, of_cpu) =
      exceeds-Fits (sum (cpu_total q) ss + cpu_total q r) u.max_cpu_milli cpu_small cpu_quota in
    let (split, join) =
      both_checks-ok (exceeds (sum (memory_total q) ss + memory_total q r) u.max_memory_mb)
        (exceeds (sum (cpu_total q) ss + cpu_total q r) u.max_cpu_milli) in
    rw (m, c)
      ((λ h. (in_memory (split h).0, in_cpu (split h).1)), (λ h. join (of_memory h.0, of_cpu h.1)))

-- An account without a bound on memory, whose servers are within its bound on CPU, is allowed any
-- limit of CPU whose sum with theirs reaches 2 ^ 63: the sum turns negative.
pub cpu_overflow-within :
    (q : Quantities) (u : User) (ss : List Server) (r : Resources) (quota : ℕ)
    → u.max_memory_mb ≡ none
    → u.max_cpu_milli ≡ some quota
    → quota < 2 ^ 63
    → sum (cpu_total q) ss ≤ quota
    → cpu_total q r < 2 ^ 63
    → 2 ^ 63 ≤ sum (cpu_total q) ss + cpu_total q r
    → within_resource_quota q u ss r ≡ ok tt
unfolding within_resource_quota
cpu_overflow-within q u ss r quota no_memory cpu_bound small within one_small over =
    let c = total-sum (cpu_total q) ss (cpu_total q r) (omega arith) in
    let memory = add64 (sum_from (memory_total q) 0 ss) (memory_total q r) in
    rw c (
      (both_checks-ok (exceeds memory u.max_memory_mb)
          (exceeds (sum (cpu_total q) ss + cpu_total q r) u.max_cpu_milli)).1
        (
          ap (exceeds memory) no_memory,
          ap (exceeds (sum (cpu_total q) ss + cpu_total q r)) cpu_bound ∙ ground arith,
        ))
