-- ===== src/Store/Retention.antt =====
-- Which backups the retention of a server deletes (`PruneBackups` of internal/store/store.go).
use quetzal.Prelude.{
  ℕ, String, Bool, true, false, not, ◌&&◌, List, [], ◌∷◌, map, ◌==◌, ◌≡◌, ◌≢◌, ◌∙◌, sym, ap, refl,
  subst, if◌then◌else◌, update-Memᴰ, select, count, any, leb, ltb, Memᴰ, ok, ok-injective, arith,
  str_eq, ◌⊎◌, Bool-cases, inl, inr,
}
use quetzal.Models.Backup.{Backup, is_phase, succeeded}
use quetzal.Store.Db.{Db}
use quetzal.Store.Operations.{
  sort_desc, old_ids, id_in, kept_in, queue_old, prune_backups, to_deleting,
}
use quetzal.Store.Newest.{sort_desc-Descending, count-sort_desc, any-sort_desc, any-drop}

-- The ids of the backups that pass a test.
ids_of : (Backup → Bool) → List Backup → List ℕ
ids_of p bs = map (λ b. b.id) (select p bs)

count-ids_of :
    (p : Backup → Bool) (r : ℕ → Bool) (bs : List Backup)
    → count r (ids_of p bs) ≡ count (λ b. p b && r b.id) bs
unfolding ids_of
count-ids_of p r [] = refl
count-ids_of p r (b ∷ bs) =
    let ih = count-ids_of p r bs in
    elim (Bool-cases (p b)) [ inl hit ↦ ground (arith, hit) | inr miss ↦ ground (arith, miss) ]

any-ids_of :
    (p : Backup → Bool) (bs : List Backup) (b : Backup)
    → Memᴰ b bs
    → p b ≡ true
    → any (λ i. b.id == i) (ids_of p bs) ≡ true
unfolding ids_of
any-ids_of p [] b m h = elim m [ ]
any-ids_of p (c ∷ cs) b (Memᴰ.head e) h =
    let passes : p c ≡ true = ap p (sym e) ∙ h in
    let same : b.id ≡ c.id = ap (λ r. r.id) e in ground (arith, passes, same)
any-ids_of p (c ∷ cs) b (Memᴰ.tail m) h =
    let ih = any-ids_of p cs b m h in
    elim (Bool-cases (p c)) [
      | inl hit ↦ ground (arith, hit, ih)
      | inr miss ↦ ground (arith, miss, ih)
    ]

-- How many of the backups that retention counts are at least as new as `b`.
abbrev pub as_new : ℕ → String → Backup → List Backup → ℕ
as_new server target b bs = count (λ c. kept_in server target c && leb b.id c.id) bs

old_ids-as_new :
    (server : ℕ) (target : String) (k : ℕ) (bs : List Backup) (b : Backup)
    → Memᴰ b bs
    → kept_in server target b ≡ true
    → id_in (old_ids server target k bs) b ≡ ltb k (as_new server target b bs)
unfolding old_ids ids_of
old_ids-as_new server target k bs b m counted =
    let ids = ids_of (kept_in server target) bs in
    let dropped = any-drop b.id k (sort_desc ids) (sort_desc-Descending ids) in
    let there = any-sort_desc (λ i. b.id == i) ids in
    let known = any-ids_of (kept_in server target) bs b m counted in
    let many = count-sort_desc (λ i. leb b.id i) ids in
    let rows = count-ids_of (kept_in server target) (λ i. leb b.id i) bs in
    dropped ∙ rw (there, known, many, rows) refl

queue_old-Memᴰ :
    (ids : List ℕ) (db db' : Db) (b : Backup)
    → queue_old ids db ≡ ok db'
    → Memᴰ b db.backups
    → Memᴰ (if id_in ids b && is_phase b.phase succeeded then to_deleting b else b) db'.backups
unfolding queue_old
queue_old-Memᴰ [] db db' b h m = subst (λ q. Memᴰ b q.backups) (ok-injective h) m
queue_old-Memᴰ (i ∷ is) db db' b h m =
    elim (Bool-cases
      (count (λ c. id_in (i ∷ is) c && not (str_eq c.job_name "")) db.backups == 0)) [
        | inl free ↦
            subst
              (λ q.
                Memᴰ (if id_in (i ∷ is) b && is_phase b.phase succeeded then to_deleting b else b)
                  q.backups)
              (ok-injective (rw free at h))
              (update-Memᴰ (λ c. id_in (i ∷ is) c && is_phase c.phase succeeded) to_deleting
                db.backups m)
        | inr waiting ↦ absurd (ground (arith, waiting, h))
      ]

any-ids_of_none :
    (p : Backup → Bool) (bs : List Backup) (b : Backup)
    → ((c : Backup) → Memᴰ c bs → p c ≡ true → b.id ≢ c.id)
    → any (λ i. b.id == i) (ids_of p bs) ≡ false
unfolding ids_of
any-ids_of_none p [] b h = refl
any-ids_of_none p (c ∷ cs) b h =
    let ih = any-ids_of_none p cs b (λ d m. h d (Memᴰ.tail m)) in
    elim (Bool-cases (p c)) [
      | inl hit ↦ let differ = h c (Memᴰ.head refl) hit in ground (arith, hit, ih)
      | inr miss ↦ ground (arith, miss, ih)
    ]

old_ids-others :
    (server : ℕ) (target : String) (k : ℕ) (bs : List Backup) (b : Backup)
    → ((c : Backup) → Memᴰ c bs → b.id ≡ c.id → b ≡ c)
    → kept_in server target b ≡ false
    → id_in (old_ids server target k bs) b ≡ false
unfolding old_ids ids_of
old_ids-others server target k bs b keyed apart =
    let ids = ids_of (kept_in server target) bs in
    let dropped = any-drop b.id k (sort_desc ids) (sort_desc-Descending ids) in
    let there = any-sort_desc (λ i. b.id == i) ids in
    let away = any-ids_of_none (kept_in server target) bs b (λ c m hit same.
      let e : kept_in server target b ≡ true = ap (kept_in server target) (keyed c m same) ∙ hit in
      cc) in
    dropped ∙ rw (there, away) refl

and_true : (b : Bool) → (b && true) ≡ b
and_true true = refl
and_true false = refl

-- An accepted retention that keeps the newest `k` backups of a server in a target, for a positive
-- `k` and a table whose ids are unique, queues exactly those succeeded backups of the server in the
-- target for deletion that have at least `k` newer ones, and leaves every other row as it is.
pub prune_backups-keeps :
    (server : ℕ) (target : String) (k : ℕ) (db db' : Db) (b : Backup)
    → k ≢ 0
    → prune_backups server target k db ≡ ok db'
    → Memᴰ b db.backups
    → ((c : Backup) → Memᴰ c db.backups → b.id ≡ c.id → b ≡ c)
    → Memᴰ
        (if kept_in server target b && ltb k (as_new server target b db.backups)
          then to_deleting b
          else b)
        db'.backups
unfolding prune_backups
prune_backups-keeps server target k db db' b positive h m keyed =
    let queued : queue_old (old_ids server target k db.backups) db ≡ ok db' = ground (arith, h) in
    let done = queue_old-Memᴰ (old_ids server target k db.backups) db db' b queued m in
    subst (λ t. Memᴰ (if t then to_deleting b else b) db'.backups) (same_test (Bool-cases _)) done
  where
    same_test :
        ((kept_in server target b ≡ true) ⊎ (kept_in server target b ≡ false))
        → (id_in (old_ids server target k db.backups) b && is_phase b.phase succeeded)
          ≡ (kept_in server target b && ltb k (as_new server target b db.backups))
    same_test (inl counted) =
        let old = old_ids-as_new server target k db.backups b m counted in
        let finished : is_phase b.phase succeeded ≡ true = ground (arith, counted) in
        let too_old : Bool = ltb k (as_new server target b db.backups) in
        ap (λ t. t && is_phase b.phase succeeded) old
        ∙ ap (λ t. too_old && t) finished
        ∙ and_true too_old
        ∙ sym (ap (λ t. t && too_old) counted)
    same_test (inr apart) =
        let old = old_ids-others server target k db.backups b keyed apart in rw (old, apart) refl
