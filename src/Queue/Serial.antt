-- ===== src/Queue/Serial.antt =====
-- One operation of a server at a time (Queue).
use quetzal.Prelude.{
  ℕ, String, Bool, true, false, ◌&&◌, Option, none, some, List, [], ◌∷◌, ◌≡◌, ◌==◌, ◌∙◌, refl, sym,
  ap, subst, if◌then◌else◌, All, first, Result, ok, err, arith, Bool-cases, inl, inr, ltb,
}
use quetzal.Models.Server.{Server}
use quetzal.Models.Backup.{Backup, pending, dir_backup, dir_restore, is_direction}
use quetzal.Store.Db.{Db, find_server}
use quetzal.Store.Operations.{barred_by, claim_backup}
use quetzal.Queue.{
  Prepared, ready, stop, later, Outside, Round, is_busy, busy_servers, list_backups_by_phase,
  process_pending, take_up, by_target, unless_busy, on_server, proceed, made_elsewhere, failed_with,
  by_direction, imports, once_gone, age, restore_wait, prepare, held, waits_for_stop,
  with_databases, with_exclusions, claim_encoded, after_claim, operation_cluster, recorded,
}

-- A step with an operation of server `s`: the busy servers stay, and at most it is taken up.
pub data Took (s : ℕ) (r r' : Round) : Type 0 where
  left : r'.busy ≡ r.busy → r'.taken ≡ r.taken → Took s r r'
  taken_up : r'.busy ≡ r.busy → r'.taken ≡ s ∷ r.taken → Took s r r'

if_Took :
    {s : ℕ} {r : Round} (t : Bool) {x y : Round}
    → Took s r x
    → Took s r y
    → Took s r (if t then x else y)
if_Took true here there = here
if_Took false here there = there

stays : (s : ℕ) (r : Round) → Took s r r
stays s r = left refl refl

module _ (out : Outside) (srv : Server) (b : Backup) where
  failed_with-Took : (message : String) (r : Round) → Took b.server_id r (failed_with b message r)
  failed_with-Took message r = left refl refl

  after_claim-Took :
      (r : Round) (claim : Result (Db × Bool)) → Took b.server_id r (after_claim out srv b r claim)
  after_claim-Took r (err e) = left refl refl
  after_claim-Took r (ok (db, false)) = left refl refl
  after_claim-Took r (ok (db, true)) = taken_up refl refl

  claim_encoded-Took :
      (dbs : List String) (ignored note : String) (spec : Option String) (r : Round)
      → Took b.server_id r (claim_encoded out srv b dbs ignored note spec r)
  claim_encoded-Took dbs ignored note none r = left refl refl
  claim_encoded-Took dbs ignored note (some spec) r = after_claim-Took r (
      claim_backup b.id (out.job_name b)
        (if is_direction b.direction dir_backup then out.target_id else "") (recorded out b dbs)
        ignored note spec (operation_cluster b srv) r.db)

  with_exclusions-Took :
      (dbs : List String) (answer : Prepared (String × String)) (r : Round)
      → Took b.server_id r (with_exclusions out srv b dbs answer r)
  with_exclusions-Took dbs (stop message) r = failed_with-Took message r
  with_exclusions-Took dbs later r = stays b.server_id r
  with_exclusions-Took dbs (ready (ignored, note)) r =
      if_Took (out.secret_in_place b) (claim_encoded-Took dbs ignored note (out.job_spec b) r)
        (stays b.server_id r)

  with_databases-Took :
      (answer : Prepared (List String)) (r : Round)
      → Took b.server_id r (with_databases out srv b answer r)
  with_databases-Took (stop message) r = failed_with-Took message r
  with_databases-Took later r = stays b.server_id r
  with_databases-Took (ready dbs) r = with_exclusions-Took dbs (out.exclusions srv b) r

  prepare-Took : (r : Round) → Took b.server_id r (prepare out srv b r)
  prepare-Took r =
      if_Took (waits_for_stop out srv b r && held out (out.game_has_pods srv)) (stays b.server_id r)
        (with_databases-Took (out.operation_databases srv b) r)

  once_gone-Took :
      (message : String) (pods : Option Bool) (r : Round)
      → Took b.server_id r (once_gone out srv b message pods r)
  once_gone-Took message none r = stays b.server_id r
  once_gone-Took message (some true) r =
      if_Took (ltb restore_wait (age b r)) (failed_with-Took message r) (stays b.server_id r)
  once_gone-Took message (some false) r = prepare-Took r

  by_direction-Took : (r : Round) → Took b.server_id r (by_direction out srv b r)
  by_direction-Took r =
      if_Took (is_direction b.direction dir_restore) (once_gone-Took _ (out.server_has_pods srv) r)
        (if_Took (imports b) (once_gone-Took _ (out.game_has_pods srv) r) (prepare-Took r))

  proceed-Took : (r : Round) → Took b.server_id r (proceed out srv b r)
  unfolding proceed
  proceed-Took r =
      if_Took
        (is_direction b.direction dir_restore
          && made_elsewhere out (first (λ c. c.id == b.source_id) r.db.backups))
        (failed_with-Took _ r)
        (if_Took (out.reachable (operation_cluster b srv)) (by_direction-Took r)
          (stays b.server_id r))

-- A round of the loop on an operation of server `s`: nothing is taken up, or the server was free
-- and is busy now, and at most it is taken up; or it is made busy and nothing is taken up.
pub data Turn (s : ℕ) (r r' : Round) : Type 0 where
  passed : r'.busy ≡ r.busy → r'.taken ≡ r.taken → Turn s r r'
  reserved : is_busy r.busy s ≡ false → Took s (record r { busy = s ∷ r.busy }) r' → Turn s r r'
  still_busy : r'.busy ≡ s ∷ r.busy → r'.taken ≡ r.taken → Turn s r r'

on_server-Turn :
    (out : Outside) (b : Backup) (known : Option Server) (r : Round)
    → is_busy r.busy b.server_id ≡ false
    → Turn b.server_id r (on_server out b known r)
on_server-Turn out b none r free = passed refl refl
on_server-Turn out b (some srv) r free = if_Turn (barred_by srv.transfer b.id)
  where
    if_Turn :
        (t : Bool)
        → Turn b.server_id r
            (if t then r else proceed out srv b (record r { busy = b.server_id ∷ r.busy }))
    if_Turn true = passed refl refl
    if_Turn false =
        reserved free (proceed-Took out srv b (record r { busy = b.server_id ∷ r.busy }))

unless_busy-Turn :
    (out : Outside) (b : Backup) (r : Round) → Turn b.server_id r (unless_busy out b r)
unless_busy-Turn out b r = elim (Bool-cases (is_busy r.busy b.server_id)) [
  | inl busy ↦ rw busy (passed refl refl)
  | inr free ↦
      subst
        (λ t.
          Turn b.server_id r
            (if t then r else on_server out b (find_server b.server_id r.db.servers) r))
        (sym free) (on_server-Turn out b (find_server b.server_id r.db.servers) r free)
]

by_target-Turn :
    (out : Outside) (why : Option String) (b : Backup) (r : Round)
    → Turn b.server_id r (by_target out why b r)
by_target-Turn out none b r = unless_busy-Turn out b r
by_target-Turn out (some why) b r = if_import (imports b)
  where
    if_import :
        (t : Bool) → Turn b.server_id r (if t then unless_busy out b r else failed_with b why r)
    if_import true = unless_busy-Turn out b r
    if_import false = passed refl refl

-- No server stands twice in the list.
abbrev pub Apart : List ℕ → Type 0
Apart [] = Unit
Apart (s ∷ ss) = (is_busy ss s ≡ false) × Apart ss

abbrev pub Free : List ℕ → List ℕ → Type 0
Free start ss = All (λ s. is_busy start s ≡ false) ss

-- What the loop keeps: the servers taken and those that were busy at its start are busy.
pub record Loop (start : List ℕ) (r : Round) : Type 0 where
  pub free : Free start r.taken
  pub apart : Apart r.taken
  pub covers_taken : (s : ℕ) → is_busy r.busy s ≡ false → is_busy r.taken s ≡ false
  pub covers_start : (s : ℕ) → is_busy r.busy s ≡ false → is_busy start s ≡ false

under : (s t : ℕ) (busy : List ℕ) → is_busy (s ∷ busy) t ≡ false → is_busy busy t ≡ false
under s t busy e = ground arith

over :
    (s t : ℕ) (busy taken : List ℕ)
    → is_busy (s ∷ busy) t ≡ false
    → is_busy taken t ≡ false
    → is_busy (s ∷ taken) t ≡ false
over s t busy taken e h = ground arith

busier-Loop :
    (start : List ℕ) (s : ℕ) (r r' : Round)
    → r'.busy ≡ s ∷ r.busy
    → r'.taken ≡ r.taken
    → Loop start r
    → Loop start r'
busier-Loop start s r r' busy taken h = record {
  free = subst (Free start) (sym taken) h.free;
  apart = subst Apart (sym taken) h.apart;
  covers_taken = λ t e.
      let e' : is_busy (s ∷ r.busy) t ≡ false = ap (λ l. is_busy l t) (sym busy) ∙ e in
      ap (λ l. is_busy l t) taken ∙ h.covers_taken t (under s t r.busy e');
  covers_start = λ t e.
      let e' : is_busy (s ∷ r.busy) t ≡ false = ap (λ l. is_busy l t) (sym busy) ∙ e in
      h.covers_start t (under s t r.busy e');
}

pub Turn-Loop : (start : List ℕ) (s : ℕ) (r r' : Round) → Turn s r r' → Loop start r → Loop start r'
Turn-Loop start s r r' (passed busy taken) h = record {
  free = subst (Free start) (sym taken) h.free;
  apart = subst Apart (sym taken) h.apart;
  covers_taken =
      λ t e. ap (λ l. is_busy l t) taken ∙ h.covers_taken t (ap (λ l. is_busy l t) (sym busy) ∙ e);
  covers_start = λ t e. h.covers_start t (ap (λ l. is_busy l t) (sym busy) ∙ e);
}
Turn-Loop start s r r' (still_busy busy taken) h = busier-Loop start s r r' busy taken h
Turn-Loop start s r r' (reserved unbusy (left busy taken)) h = busier-Loop start s r r' busy taken h
Turn-Loop start s r r' (reserved unbusy (taken_up busy taken)) h = record {
  free = subst (Free start) (sym taken) (h.covers_start s unbusy, h.free);
  apart = subst Apart (sym taken) (h.covers_taken s unbusy, h.apart);
  covers_taken = λ t e.
      let e' : is_busy (s ∷ r.busy) t ≡ false = ap (λ l. is_busy l t) (sym busy) ∙ e in
      let below = h.covers_taken t (under s t r.busy e') in
      ap (λ l. is_busy l t) taken ∙ over s t r.busy r.taken e' below;
  covers_start = λ t e.
      let e' : is_busy (s ∷ r.busy) t ≡ false = ap (λ l. is_busy l t) (sym busy) ∙ e in
      h.covers_start t (under s t r.busy e');
}

take_up-Loop :
    (out : Outside) (start : List ℕ) (bs : List Backup) (r : Round)
    → Loop start r
    → Loop start (take_up out bs r)
unfolding take_up
take_up-Loop out start [] r h = h
take_up-Loop out start (b ∷ bs) r h = take_up-Loop out start bs (by_target out out.unusable b r) (
    Turn-Loop start b.server_id r (by_target out out.unusable b r)
      (by_target-Turn out out.unusable b r) h)

-- A tick takes up at most one operation of each server, and none of a server that has an operation
-- running, or the deletion of a snapshot under way, when the tick begins; whatever the clusters,
-- the databases and the transactions answer.
pub process_pending-Serial :
    (out : Outside) (db : Db)
    → Free (busy_servers db) (process_pending out db).taken × Apart (process_pending out db).taken
unfolding process_pending
process_pending-Serial out db =
    let start : Round = record { db = db; busy = busy_servers db; taken = [] } in
    let end =
      take_up-Loop out (busy_servers db) (list_backups_by_phase pending db) start
        (record { free = tt; apart = tt; covers_taken = λ s e. refl; covers_start = λ s e. e }) in
    (end.free, end.apart)
