-- ===== src/Prelude/Results.antt =====
-- The errors that the code returns, and results with `do`.
use mathlib.Core.Path.{◌≡◌, refl, sym, subst}
use mathlib.Core.Logic.{◌⊎◌, inl, inr}
use mathlib.Core.Bool.{Bool, true, false}
use mathlib.Core.Option.{Option, none, some}

-- One constructor for each error value of the modelled packages.
pub data Error : Type 0 where
  not_found record_not_found duplicate no_free_node_port invalid_node_port_range : Error
  restore_active database_import_active server_running : Error
  transfer_active transfer_changed transfer_operation_active : Error
  schedule_active retention_waiting reassign_to_self : Error
  not_minecraft end_of_input : Error
  may_not_create memory_limit_required cpu_limit_required no_owner no_unique_slug : Error
  server_quota_exceeded memory_quota_exceeded cpu_quota_exceeded : Error
  invalid_memory memory_too_small invalid_cpu cpu_negative : Error
  credentials_changed confirmation_invalid : Error
  database_busy cluster_unreachable call_failed deletion_in_progress : Error

pub data Result {ℓ} (A : Type ℓ) : Type ℓ where
  ok : A → Result A
  err : Error → Result A

-- `if test { return error }`.
abbrev pub refuse_if : Bool → Error → Result (Unit {0})
refuse_if false e = ok tt
refuse_if true e = err e

abbrev pub or_error {ℓ} : {A : Type ℓ} → Option A → Error → Result A
or_error none e = err e
or_error (some a) e = ok a

infixl 5 ◌>>=◌ ◌>>◌
-- A check, and what follows where it passes.
abbrev pub ◌>>◌ {ℓ} : {B : Type ℓ} → Result (Unit {0}) → Result B → Result B
err e >> rest = err e
ok passed >> rest = rest

abbrev pub ◌>>=◌ {ℓ κ} : {A : Type ℓ} {B : Type κ} → Result A → (A → Result B) → Result B
err e >>= rest = err e
ok a >>= rest = rest a

-- A transaction that returns an error is rolled back.
abbrev pub commit {ℓ} : {A : Type ℓ} → A → Result A → A
commit before (ok after) = after
commit before (err e) = before

pub Result-cases {ℓ} :
    {A : Type ℓ} (r : Result A) → ((a : A) × (r ≡ ok a)) ⊎ ((e : Error) × (r ≡ err e))
Result-cases (ok a) = inl (a, refl)
Result-cases (err e) = inr (e, refl)

pub ok-injective {ℓ} : {A : Type ℓ} {a b : A} → ok a ≡ ok b → a ≡ b
ok-injective h = cc

-- What an accepted chain says of its first part.
pub bind-ok {ℓ κ} :
    {A : Type ℓ} {B : Type κ} (r : Result A) (rest : A → Result B) {b : B}
    → (r >>= rest) ≡ ok b
    → (a : A) × (r ≡ ok a) × (rest a ≡ ok b)
bind-ok (ok a) rest h = (a, refl, h)
bind-ok (err e) rest h = cc

pub refuse_if-ok {ℓ} :
    {B : Type ℓ} (refused : Bool) (e : Error) (rest : Result B) {b : B}
    → (refuse_if refused e >> rest) ≡ ok b
    → (refused ≡ false) × (rest ≡ ok b)
refuse_if-ok true e rest h = cc
refuse_if-ok false e rest h = (refl, h)

-- An accepted chain, from its first part and the rest.
pub ok-bind {ℓ κ} :
    {A : Type ℓ} {B : Type κ} (r : Result A) (rest : A → Result B) {a : A} {b : B}
    → r ≡ ok a
    → rest a ≡ ok b
    → (r >>= rest) ≡ ok b
ok-bind (ok x) rest {a} {b} e h = subst (λ y. rest y ≡ ok b) (sym (ok-injective e)) h
ok-bind (err x) rest e h = cc

pub ok-refuse_if {ℓ} :
    {B : Type ℓ} (refused : Bool) (e : Error) (rest : Result B) {b : B}
    → refused ≡ false
    → rest ≡ ok b
    → (refuse_if refused e >> rest) ≡ ok b
ok-refuse_if true e rest passes h = cc
ok-refuse_if false e rest passes h = h

-- A check that passed, and what follows it.
pub check-ok {ℓ} :
    {B : Type ℓ} (r : Result (Unit {0})) (rest : Result B) {b : B}
    → (r >> rest) ≡ ok b
    → (r ≡ ok tt) × (rest ≡ ok b)
check-ok (ok passed) rest h = (refl, h)
check-ok (err e) rest h = cc
