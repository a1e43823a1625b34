-- ===== src/Feed/Order.antt =====
-- The containers of mergeMonitoringEvents (web/src/eventFeed.ts): the map by identifier, the sort
-- and the slice, each by what it answers for an identifier.
use relay_lifeline.Prelude.{
  ℕ, zero, suc, ◌<◌, ◌≡◌, refl, ◌≢◌, List, [], ◌∷◌, Option, none, some, arith, leb, nat_eq,
  nat_eq_iff, subst, if◌then◌else◌, Bool-cases, inl, inr, ◌⊎◌, find, All, drop,
}
use relay_lifeline.Feed.{MonitoringEvent, set, set_all, insert, sort}
use relay_lifeline.Feed.Dedup.{Distinct}

-- The event with the identifier, as `Map.prototype.get`.
abbrev pub get : ℕ → List MonitoringEvent → Option MonitoringEvent
get k = find (λ e. nat_eq e.id k)

abbrev pub or_else {ℓ} : {A : Type ℓ} → Option A → Option A → Option A
or_else (some a) o = some a
or_else none o = o

-- The last event with the identifier.
unfoldable pub latest : ℕ → List MonitoringEvent → Option MonitoringEvent
latest k [] = none
latest k (e ∷ es) = or_else (latest k es) (if nat_eq e.id k then some e else none)

abbrev pub Ascending : List MonitoringEvent → Type 0
Ascending [] = Unit
Ascending (e ∷ es) = All (λ y. e.id < y.id) es × Ascending es

set-ne :
    (k : ℕ) (e : MonitoringEvent) (l : List MonitoringEvent)
    → k ≢ e.id
    → All (λ y. k ≢ y.id) l
    → All (λ y. k ≢ y.id) (set e l)
unfolding set
set-ne k e [] h a = (h, tt)
set-ne k e (x ∷ l) h a = ground (arith, set-ne k e l h a.1)

pub set-Distinct :
    (e : MonitoringEvent) (l : List MonitoringEvent) → Distinct l → Distinct (set e l)
unfolding set
set-Distinct e [] d = (tt, tt)
set-Distinct e (x ∷ l) d = elim (Bool-cases (nat_eq x.id e.id)) [
  | inl same ↦ rw same (subst (λ i. All (λ y. i ≢ y.id) l) ((nat_eq_iff x.id e.id).0 same) d.0, d.1)
  | inr other ↦ rw other (set-ne x.id e l (ground arith) d.0, set-Distinct e l d.1)
]

pub set_all-Distinct : (es l : List MonitoringEvent) → Distinct l → Distinct (set_all es l)
unfolding set_all
set_all-Distinct [] l d = d
set_all-Distinct (e ∷ es) l d = set_all-Distinct es (set e l) (set-Distinct e l d)

pub get-set :
    (k : ℕ) (e : MonitoringEvent) (l : List MonitoringEvent)
    → get k (set e l) ≡ (if nat_eq e.id k then some e else get k l)
unfolding set
get-set k e [] = refl
get-set k e (x ∷ l) = ground (arith, get-set k e l)

pub get-set_all :
    (k : ℕ) (es l : List MonitoringEvent) → get k (set_all es l) ≡ or_else (latest k es) (get k l)
unfolding set_all latest
get-set_all k [] l = refl
get-set_all k (e ∷ es) l = ground (arith, get-set_all k es (set e l), get-set k e l)

insert-lt :
    (k : ℕ) (e : MonitoringEvent) (l : List MonitoringEvent)
    → k < e.id
    → All (λ y. k < y.id) l
    → All (λ y. k < y.id) (insert e l)
unfolding insert
insert-lt k e [] h a = (h, tt)
insert-lt k e (x ∷ l) h a = ground (arith, insert-lt k e l h a.1)

All-lt_mono :
    (j k : ℕ) (l : List MonitoringEvent) → j < k → All (λ y. k < y.id) l → All (λ y. j < y.id) l
All-lt_mono j k [] h a = tt
All-lt_mono j k (x ∷ l) h a = (omega arith, All-lt_mono j k l h a.1)

insert-Ascending :
    (e : MonitoringEvent) (l : List MonitoringEvent)
    → All (λ y. e.id ≢ y.id) l
    → Ascending l
    → Ascending (insert e l)
unfolding insert
insert-Ascending e [] n a = (tt, tt)
insert-Ascending e (x ∷ l) n a = elim (Bool-cases (leb e.id x.id)) [
  | inl le ↦ let lt : e.id < x.id = ground arith in rw le ((lt, All-lt_mono e.id x.id l lt a.0), a)
  | inr gt ↦ rw gt (insert-lt x.id e l (ground arith) a.0, insert-Ascending e l n.1 a.1)
]

insert-ne :
    (k : ℕ) (e : MonitoringEvent) (l : List MonitoringEvent)
    → k ≢ e.id
    → All (λ y. k ≢ y.id) l
    → All (λ y. k ≢ y.id) (insert e l)
unfolding insert
insert-ne k e [] h a = (h, tt)
insert-ne k e (x ∷ l) h a = ground (arith, insert-ne k e l h a.1)

sort-ne : (k : ℕ) (l : List MonitoringEvent) → All (λ y. k ≢ y.id) l → All (λ y. k ≢ y.id) (sort l)
unfolding sort
sort-ne k [] a = tt
sort-ne k (x ∷ l) a = insert-ne k x (sort l) a.0 (sort-ne k l a.1)

pub sort-Ascending : (l : List MonitoringEvent) → Distinct l → Ascending (sort l)
unfolding sort
sort-Ascending [] d = tt
sort-Ascending (x ∷ l) d = insert-Ascending x (sort l) (sort-ne x.id l d.0) (sort-Ascending l d.1)

get_absent : (k : ℕ) (l : List MonitoringEvent) → All (λ y. k ≢ y.id) l → get k l ≡ none
get_absent k [] a = refl
get_absent k (x ∷ l) a = ground (arith, get_absent k l a.1)

get-insert :
    (k : ℕ) (e : MonitoringEvent) (l : List MonitoringEvent)
    → All (λ y. e.id ≢ y.id) l
    → get k (insert e l) ≡ (if nat_eq e.id k then some e else get k l)
unfolding insert
get-insert k e [] n = refl
get-insert k e (x ∷ l) n = ground (arith, get-insert k e l n.1)

pub get-sort : (k : ℕ) (l : List MonitoringEvent) → Distinct l → get k (sort l) ≡ get k l
unfolding sort
get-sort k [] d = refl
get-sort k (x ∷ l) d =
    ground (arith, get-insert k x (sort l) (sort-ne x.id l d.0), get-sort k l d.1)

get-above : (k : ℕ) (l : List MonitoringEvent) → All (λ y. k < y.id) l → get k l ≡ none
get-above k [] a = refl
get-above k (x ∷ l) a = ground (arith, get-above k l a.1)

All-drop :
    (k n : ℕ) (l : List MonitoringEvent) → All (λ y. k < y.id) l → All (λ y. k < y.id) (drop n l)
All-drop k zero l a = a
All-drop k (suc n) [] a = tt
All-drop k (suc n) (x ∷ l) a = All-drop k n l a.1

-- What `drop` leaves of an ascending list: an identifier is found as before, or it is older than
-- all that is left.
pub get-drop :
    (k n : ℕ) (l : List MonitoringEvent)
    → Ascending l
    → (get k (drop n l) ≡ get k l) ⊎ ((get k (drop n l) ≡ none) × All (λ y. k < y.id) (drop n l))
get-drop k zero l a = inl refl
get-drop k (suc n) [] a = inl refl
get-drop k (suc n) (x ∷ l) a = elim (Bool-cases (nat_eq x.id k)) [
  | inl here ↦
      let newer : All (λ y. k < y.id) l =
        subst (λ i. All (λ y. i < y.id) l) ((nat_eq_iff x.id k).0 here) a.0 in
      inr (get-above k (drop n l) (All-drop k n l newer), All-drop k n l newer)
  | inr other ↦ rw other (get-drop k n l a.1)
]

pub drop-Ascending : (n : ℕ) (l : List MonitoringEvent) → Ascending l → Ascending (drop n l)
drop-Ascending zero l a = a
drop-Ascending (suc n) [] a = tt
drop-Ascending (suc n) (x ∷ l) a = drop-Ascending n l a.1
