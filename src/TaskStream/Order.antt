-- ===== src/TaskStream/Order.antt =====
-- Lists of numbered events in order: what sorting and the test for new numbers do to a replay
-- that overlaps with the live events.
use claw_work.Prelude.{
  ℕ, List, [], ap, append-nil, arith, if◌then◌else◌, leb, refl, sym, ◌++◌, ◌<◌, ◌∙◌, ◌∷◌, ◌≡◌, ◌≤◌,
}
use claw_work.TaskStream.{PersistedTaskEvent, sort, insert_sorted}

-- A list in strictly ascending order of the numbers, all above `k`.
abbrev pub Ascending : ℕ → List PersistedTaskEvent → Type 0
Ascending k [] = Unit
Ascending k (p ∷ ps) = (k < p.id) × Ascending p.id ps

-- The events whose number is above all numbers before them, and above `k`.
unfoldable pub fresh : ℕ → List PersistedTaskEvent → List PersistedTaskEvent
fresh k [] = []
fresh k (p ∷ ps) = let later = fresh p.id ps in if leb p.id k then fresh k ps else p ∷ later

-- Each item twice.
pub doubled : List PersistedTaskEvent → List PersistedTaskEvent
doubled [] = []
doubled (p ∷ ps) = p ∷ p ∷ doubled ps

pub insert_all : List PersistedTaskEvent → List PersistedTaskEvent → List PersistedTaskEvent
insert_all [] qs = qs
insert_all (p ∷ ps) qs = insert_sorted p (insert_all ps qs)

sort-append : (ps qs : List PersistedTaskEvent) → sort (ps ++ qs) ≡ insert_all ps (sort qs)
unfolding sort insert_all
sort-append [] qs = refl
sort-append (p ∷ ps) qs = ap (insert_sorted p) (sort-append ps qs)

pub Ascending-weaken :
    (j k : ℕ) (ps : List PersistedTaskEvent) → j ≤ k → Ascending k ps → Ascending j ps
Ascending-weaken j k [] h a = tt
Ascending-weaken j k (p ∷ ps) h (b, a) = (omega arith, a)

pub Ascending-left :
    (k : ℕ) (ps qs : List PersistedTaskEvent) → Ascending k (ps ++ qs) → Ascending k ps
Ascending-left k [] qs h = tt
Ascending-left k (p ∷ ps) qs (h, a) = (h, Ascending-left p.id ps qs a)

-- `p` stays in front of what has greater numbers.
insert_all-front :
    (p : PersistedTaskEvent) (ps qs : List PersistedTaskEvent)
    → Ascending p.id ps
    → insert_all ps (p ∷ qs) ≡ p ∷ insert_all ps qs
unfolding insert_all insert_sorted
insert_all-front p [] qs h = refl
insert_all-front p (q ∷ ps) qs (h, k) =
    rw (insert_all-front p ps qs (Ascending-weaken p.id q.id ps (omega arith) k)) (ground arith)

insert_all_self :
    (k : ℕ) (ps qs : List PersistedTaskEvent)
    → Ascending k (ps ++ qs)
    → insert_all ps (ps ++ qs) ≡ doubled ps ++ qs
unfolding insert_all doubled insert_sorted
insert_all_self k [] qs h = refl
insert_all_self k (p ∷ ps) qs (h, a) =
    rw
      (insert_all-front p ps (ps ++ qs) (Ascending-left p.id ps qs a), insert_all_self p.id ps qs a)
      (ground arith)

-- The order without strictness.
abbrev Rising : ℕ → List PersistedTaskEvent → Type 0
Rising k [] = Unit
Rising k (p ∷ ps) = (k ≤ p.id) × Rising p.id ps

insert_all-below :
    (k : ℕ) (ps qs : List PersistedTaskEvent) → Rising k (ps ++ qs) → insert_all ps qs ≡ ps ++ qs
unfolding insert_all insert_sorted
insert_all-below k [] qs h = refl
insert_all-below k (p ∷ []) [] h = refl
insert_all-below k (p ∷ []) (q ∷ qs) (h, a) = ground arith
insert_all-below k (p ∷ q ∷ ps) qs (h, a) = rw (insert_all-below p.id (q ∷ ps) qs a) (ground arith)

Rising-Ascending : (k : ℕ) (ps : List PersistedTaskEvent) → Ascending k ps → Rising k ps
Rising-Ascending k [] h = tt
Rising-Ascending k (p ∷ ps) (h, a) = (omega arith, Rising-Ascending p.id ps a)

Rising-doubled :
    (k : ℕ) (ps qs : List PersistedTaskEvent) → Ascending k (ps ++ qs) → Rising k (doubled ps ++ qs)
unfolding doubled
Rising-doubled k [] qs h = Rising-Ascending k qs h
Rising-doubled k (p ∷ ps) qs (h, a) = (omega arith, (omega arith, Rising-doubled p.id ps qs a))

Rising-append_doubled :
    (k : ℕ) (xs bs cs : List PersistedTaskEvent)
    → Ascending k (xs ++ (bs ++ cs))
    → Rising k (xs ++ (doubled bs ++ cs))
Rising-append_doubled k [] bs cs h = Rising-doubled k bs cs h
Rising-append_doubled k (p ∷ xs) bs cs (h, a) = (omega arith, Rising-append_doubled p.id xs bs cs a)

insert_all-append :
    (ps qs rs : List PersistedTaskEvent)
    → insert_all (ps ++ qs) rs ≡ insert_all ps (insert_all qs rs)
unfolding insert_all
insert_all-append [] qs rs = refl
insert_all-append (p ∷ ps) qs rs = ap (insert_sorted p) (insert_all-append ps qs rs)

Ascending-right :
    (k : ℕ) (ps qs : List PersistedTaskEvent) → Ascending k (ps ++ qs) → (j : ℕ) × Ascending j qs
Ascending-right k [] qs h = (k, h)
Ascending-right k (p ∷ ps) qs (h, a) = Ascending-right p.id ps qs a

sort-Ascending : (k : ℕ) (ps : List PersistedTaskEvent) → Ascending k ps → sort ps ≡ ps
unfolding sort insert_all
sort-Ascending k ps h =
    ap sort (sym (append-nil ps))
    ∙ sort-append ps []
    ∙ insert_all-below k ps [] (rw append-nil (Rising-Ascending k ps h))
    ∙ append-nil ps

-- Where the replay ends with what the live events begin with, sorting doubles that part.
pub sort-overlap :
    (k : ℕ) (xs bs cs : List PersistedTaskEvent)
    → Ascending k (xs ++ (bs ++ cs))
    → sort ((xs ++ bs) ++ (bs ++ cs)) ≡ xs ++ (doubled bs ++ cs)
sort-overlap k xs bs cs h =
    let (j, g) = Ascending-right k xs (bs ++ cs) h in
    sort-append (xs ++ bs) (bs ++ cs)
    ∙ ap (insert_all (xs ++ bs)) (sort-Ascending j (bs ++ cs) g)
    ∙ insert_all-append xs bs (bs ++ cs)
    ∙ ap (insert_all xs) (insert_all_self j bs cs g)
    ∙ insert_all-below k xs (doubled bs ++ cs) (Rising-append_doubled k xs bs cs h)

pub fresh-Ascending : (k : ℕ) (ps : List PersistedTaskEvent) → Ascending k ps → fresh k ps ≡ ps
unfolding fresh
fresh-Ascending k [] h = refl
fresh-Ascending k (p ∷ ps) (h, a) = ground (arith, fresh-Ascending p.id ps a)

fresh-doubled :
    (k : ℕ) (bs cs : List PersistedTaskEvent)
    → Ascending k (bs ++ cs)
    → fresh k (doubled bs ++ cs) ≡ bs ++ cs
unfolding fresh doubled
fresh-doubled k [] cs h = fresh-Ascending k cs h
fresh-doubled k (p ∷ bs) cs (h, a) = ground (arith, fresh-doubled p.id bs cs a)

pub fresh-overlap :
    (k : ℕ) (xs bs cs : List PersistedTaskEvent)
    → Ascending k (xs ++ (bs ++ cs))
    → fresh k (xs ++ (doubled bs ++ cs)) ≡ xs ++ (bs ++ cs)
unfolding fresh
fresh-overlap k [] bs cs h = fresh-doubled k bs cs h
fresh-overlap k (p ∷ xs) bs cs (h, a) = ground (arith, fresh-overlap p.id xs bs cs a)
