-- ===== src/Notify/Outcomes.antt =====
-- Which outcomes a pass over the outbox records, and where it leaves the cursor (Notify).
use quetzal.Prelude.{
  ℕ, suc, String, Bool, true, false, Option, none, some, List, [], ◌∷◌, ◌++◌, ◌==◌, ◌≡◌, ◌∙◌, refl,
  sym, ap, subst, if◌then◌else◌, first, select, map, str_append,
}
use quetzal.Notify.{
  Channel, Event, matches, Cause, Outside, World, Pass, deliver_with_retry, noted, note,
  after_delivery, deliver, unless_tripped, visit, dispatch,
}
use quetzal.Notify.Attempts.{deliver_with_retry-Spent}

abbrev pub Pairs : Type 0
Pairs = List (ℕ × ℕ)

-- The channels and events of the outcomes recorded.
abbrev pub outcomes : World → Pairs
outcomes w = map (λ n. (n.channel_id, n.event_id)) w.notes

-- The outcomes that an event is to have, one for each channel that it matches.
abbrev pub due : List Channel → Event → Pairs
due cs e = map (λ c. (c.id, e.id)) (select (λ c. matches c e) cs)

abbrev pub all_due : List Channel → List Event → Pairs
all_due cs [] = []
all_due cs (e ∷ es) = due cs e ++ all_due cs es

abbrev pub due_next : List Channel → List Event → Pairs
due_next cs [] = []
due_next cs (e ∷ es) = due cs e

abbrev pub last_id : ℕ → List Event → ℕ
last_id cursor [] = cursor
last_id cursor (e ∷ es) = last_id e.id es

pub append_nil {ℓ} : {A : Type ℓ} (xs : List A) → (xs ++ []) ≡ xs
append_nil [] = refl
append_nil (x ∷ xs) = ap (λ l. x ∷ l) (append_nil xs)

pub append_assoc {ℓ} : {A : Type ℓ} (xs ys zs : List A) → ((xs ++ ys) ++ zs) ≡ (xs ++ (ys ++ zs))
append_assoc [] ys zs = refl
append_assoc (x ∷ xs) ys zs = ap (λ l. x ∷ l) (append_assoc xs ys zs)

map-append {ℓ κ} :
    {A : Type ℓ} {B : Type κ} (f : A → B) (xs ys : List A)
    → map f (xs ++ ys) ≡ (map f xs ++ map f ys)
map-append f [] ys = refl
map-append f (x ∷ xs) ys = ap (λ l. f x ∷ l) (map-append f xs ys)

-- A visit of a channel is interrupted and records nothing, or records the outcome that is due.
data Visited (e : Event) (c : Channel) (p p' : Pass) : Type 0 where
  stopped :
      p'.halted ≡ true
      → outcomes p'.world ≡ outcomes p.world
      → p'.world.cursor ≡ p.world.cursor
      → p'.passed ≡ p.passed
      → Visited e c p p'
  visited :
      outcomes p'.world ≡ outcomes p.world ++ due (c ∷ []) e
      → p'.world.cursor ≡ p.world.cursor
      → p'.passed ≡ p.passed
      → Visited e c p p'

module _ (out : Outside) where
  noted-outcomes :
      (c : Channel) (e : Event) (message : String) (w : World)
      → outcomes (noted out c e message w) ≡ outcomes w ++ ((c.id, e.id) ∷ [])
  noted-outcomes c e message w = map-append (λ n. (n.channel_id, n.event_id)) w.notes _

  module _ (attempts backoff : ℕ) where
    -- An outcome is recorded after calls that left the outcomes, the cursor and the events.
    recorded :
        (c : Channel) (e : Event) (message : String) (p q : Pass)
        → matches c e ≡ true
        → q.world.notes ≡ p.world.notes
        → q.world.cursor ≡ p.world.cursor
        → q.passed ≡ p.passed
        → Visited e c p (note out c e message q)
    recorded c e message p q hit notes cursor passed =
        visited
          (noted-outcomes c e message q.world
            ∙ ap (λ ns. map (λ n. (n.channel_id, n.event_id)) ns ++ ((c.id, e.id) ∷ [])) notes
            ∙ sym (
                ap (λ b. outcomes p.world ++ map (λ d. (d.id, e.id)) (if b then c ∷ [] else []))
                  hit))
          cursor passed

    after_delivery-Visited :
        (c : Channel) (e : Event) (p : Pass) (r : World × Option (Cause × ℕ))
        → matches c e ≡ true
        → r.0.notes ≡ p.world.notes
        → r.0.cursor ≡ p.world.cursor
        → Visited e c p (after_delivery out c e p r)
    after_delivery-Visited c e p (w, none) hit notes cursor =
        recorded c e "" p (record p { world = w }) hit notes cursor refl
    after_delivery-Visited c e p (w, some (cause, i)) hit notes cursor =
        unless_done (out.is_done w.turn)
      where
        unless_done :
            (t : Bool)
            → Visited e c p (
                if t
                then record p { world = w; halted = true }
                else note out c e
                    (out.describe cause i)
                    (record p { world = w; tripped = (c.id, out.describe cause i) ∷ p.tripped }))
        unless_done true =
            stopped refl (ap (λ ns. map (λ n. (n.channel_id, n.event_id)) ns) notes) cursor refl
        unless_done false = recorded c e (out.describe cause i) p _ hit notes cursor refl

    if_Visited :
        {e : Event} {c : Channel} {p : Pass} (t : Bool) {x y : Pass}
        → (t ≡ true → Visited e c p x)
        → (t ≡ false → Visited e c p y)
        → Visited e c p (if t then x else y)
    if_Visited true here there = here refl
    if_Visited false here there = there refl

    deliver-Visited :
        (c : Channel) (e : Event) (p : Pass)
        → matches c e ≡ true
        → Visited e c p (deliver out attempts backoff c e p)
    deliver-Visited c e p hit =
        let w : World = record p.world { turn = suc p.world.turn } in
        let spent = deliver_with_retry-Spent out attempts backoff c e w in
        if_Visited (out.has_config p.world.turn c)
          (λ read.
            after_delivery-Visited c e p (deliver_with_retry out attempts backoff c e w) hit
              spent.keeps_notes spent.keeps_cursor)
          (λ unread. recorded c e "could not read the channel's settings" p p hit refl refl refl)

    unless_tripped-Visited :
        (c : Channel) (e : Event) (why : Option (ℕ × String)) (p : Pass)
        → matches c e ≡ true
        → Visited e c p (unless_tripped out attempts backoff c e why p)
    unless_tripped-Visited c e none p hit = deliver-Visited c e p hit
    unless_tripped-Visited c e (some (id, why)) p hit =
        recorded c e (str_append "not attempted, the channel was failing: " why) p p hit refl refl
          refl

    visit-Visited :
        (e : Event) (c : Channel) (p : Pass) → Visited e c p (visit out attempts backoff e c p)
    visit-Visited e c p =
        if_Visited p.halted (λ halted. stopped halted refl refl refl)
          (λ runs.
            if_Visited (matches c e)
              (λ hit. unless_tripped-Visited c e (first (λ t. t.0 == c.id) p.tripped) p hit)
              (λ miss.
                visited
                  (sym (append_nil (outcomes p.world))
                    ∙ sym (
                        ap
                          (λ b.
                            outcomes p.world ++ map (λ d. (d.id, e.id)) (if b then c ∷ [] else []))
                          miss))
                  refl refl))

    -- A visit of each channel in turn.
    pub record Dispatched (e : Event) (cs : List Channel) (p p' : Pass) : Type 0 where
      pub part : Pairs
      pub more : Pairs
      pub splits : (part ++ more) ≡ due cs e
      pub writes : outcomes p'.world ≡ outcomes p.world ++ part
      pub ends : p'.halted ≡ false → more ≡ []
      pub keeps_cursor : p'.world.cursor ≡ p.world.cursor
      pub keeps_passed : p'.passed ≡ p.passed

    due-cons :
        (c : Channel) (cs : List Channel) (e : Event)
        → due (c ∷ cs) e ≡ (due (c ∷ []) e ++ due cs e)
    due-cons c cs e = by_match (matches c e)
      where
        by_match :
            (t : Bool)
            → map
                (λ d. (d.id, e.id))
                (if t then c ∷ select (λ d. matches d e) cs else select (λ d. matches d e) cs)
              ≡ (map (λ d. (d.id, e.id)) (if t then c ∷ [] else []) ++ due cs e)
        by_match true = refl
        by_match false = refl

    dispatch-halted :
        (e : Event) (cs : List Channel) (p : Pass)
        → p.halted ≡ true
        → dispatch out attempts backoff e cs p ≡ p
    unfolding dispatch
    dispatch-halted e [] p h = refl
    dispatch-halted e (c ∷ cs) p h =
        let same : visit out attempts backoff e c p ≡ p =
          ap
            (λ b.
              if b
              then p
              else if matches c e
              then unless_tripped out attempts backoff c e (first (λ t. t.0 == c.id) p.tripped) p
              else p)
            h in
        ap (dispatch out attempts backoff e cs) same ∙ dispatch-halted e cs p h

    pub dispatch-Dispatched :
        (e : Event) (cs : List Channel) (p : Pass)
        → Dispatched e cs p (dispatch out attempts backoff e cs p)
    unfolding dispatch
    dispatch-Dispatched e [] p = record {
      part = [];
      more = [];
      splits = refl;
      writes = sym (append_nil (outcomes p.world));
      ends = λ runs. refl;
      keeps_cursor = refl;
      keeps_passed = refl;
    }
    dispatch-Dispatched e (c ∷ cs) p =
        after (visit out attempts backoff e c p) (visit-Visited e c p)
          (dispatch-Dispatched e cs (visit out attempts backoff e c p))
      where
        after :
            (q : Pass)
            → Visited e c p q
            → Dispatched e cs q (dispatch out attempts backoff e cs q)
            → Dispatched e (c ∷ cs) p (dispatch out attempts backoff e cs q)
        after q (stopped halted same cursor passed) rest =
            subst (Dispatched e (c ∷ cs) p) (sym (dispatch-halted e cs q halted)) (record {
              part = [];
              more = due (c ∷ cs) e;
              splits = refl;
              writes = same ∙ sym (append_nil (outcomes p.world));
              ends = λ runs. cc;
              keeps_cursor = cursor;
              keeps_passed = passed;
            })
        after q (visited wrote cursor passed) rest = record {
          part = due (c ∷ []) e ++ rest.part;
          more = rest.more;
          splits =
              append_assoc (due (c ∷ []) e) rest.part rest.more
              ∙ ap (λ l. due (c ∷ []) e ++ l) rest.splits
              ∙ sym (due-cons c cs e);
          writes =
              rest.writes
              ∙ ap (λ l. l ++ rest.part) wrote
              ∙ append_assoc (outcomes p.world) (due (c ∷ []) e) rest.part;
          ends = rest.ends;
          keeps_cursor = rest.keeps_cursor ∙ cursor;
          keeps_passed = rest.keeps_passed ∙ passed;
        }
