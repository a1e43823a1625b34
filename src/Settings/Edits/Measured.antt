-- ===== src/Settings/Edits/Measured.antt =====
-- What the governance totals of web/src/views/SettingsView.tsx count.
use relay_lifeline.Prelude.{
  is_empty, ℕ, ◌+◌, ◌≡◌, refl, inl, inr, Bool, true, false, List, [], ◌∷◌, if◌then◌else◌, filter,
  any, not, subst, Bool-cases, arith,
}
use relay_lifeline.Settings.Edits.{
  GovernanceEntry, Totals, no_usage, add_entry, add_entries, is_measured, governance_totals,
}

-- The entries that count, one after another.
abbrev pub sum_by : (GovernanceEntry → ℕ) → List GovernanceEntry → ℕ
sum_by count [] = 0
sum_by count (entry ∷ rest) = count entry + sum_by count rest

-- The totals of these entries.
abbrev pub AreTotals : List GovernanceEntry → Totals → Type 0
AreTotals entries t =
    (t.active ≡ sum_by (λ e. e.active) entries)
    × (t.requests ≡ sum_by (λ e. e.requests) entries)
    × (t.tokens ≡ sum_by (λ e. e.tokens) entries)
    × (t.cost_micros ≡ sum_by (λ e. e.cost_micros) entries)
    × (t.unknown_usage ≡ sum_by (λ e. e.unknown_usage) entries)

-- The totals with what came before.
abbrev SumFrom : Totals → List GovernanceEntry → Totals → Type 0
SumFrom r entries t =
    (t.active ≡ r.active + sum_by (λ e. e.active) entries)
    × (t.requests ≡ r.requests + sum_by (λ e. e.requests) entries)
    × (t.tokens ≡ r.tokens + sum_by (λ e. e.tokens) entries)
    × (t.cost_micros ≡ r.cost_micros + sum_by (λ e. e.cost_micros) entries)
    × (t.unknown_usage ≡ r.unknown_usage + sum_by (λ e. e.unknown_usage) entries)

add_entries-SumFrom :
    (r : Totals) (entries : List GovernanceEntry) → SumFrom r entries (add_entries r entries)
unfolding add_entries add_entry
add_entries-SumFrom r [] = omega arith
add_entries-SumFrom r (e ∷ rest) = omega (arith, add_entries-SumFrom (add_entry r e) rest)

is_empty-filter :
    (entries : List GovernanceEntry)
    → is_empty (filter is_measured entries) ≡ not (any is_measured entries)
is_empty-filter [] = refl
is_empty-filter (e ∷ rest) = elim (Bool-cases (is_measured e)) [
  | inl measured ↦ rw measured (refl)
  | inr other ↦ rw other (is_empty-filter rest)
]

if-not : (b : Bool) (x y : List GovernanceEntry) → (if not b then x else y) ≡ (if b then y else x)
if-not true x y = refl
if-not false x y = refl

-- The entries that are added up.
counted :
    (entries : List GovernanceEntry)
    → (if is_empty (filter is_measured entries) then entries else filter is_measured entries)
      ≡ (if any is_measured entries then filter is_measured entries else entries)
counted entries =
    rw (is_empty-filter entries)
      (if-not (any is_measured entries) entries (filter is_measured entries))

from_zero :
    (entries : List GovernanceEntry) (t : Totals) → SumFrom no_usage entries t → AreTotals entries t
from_zero entries t h = omega (arith, h)

-- The totals of the governance entries are those of the entries without a scope or of a principal if
-- there is one, whatever entries of other scopes stand between them, and else those of all entries.
pub governance_totals-AreTotals :
    (entries : List GovernanceEntry)
    → AreTotals
        (if any is_measured entries then filter is_measured entries else entries)
        (governance_totals entries)
unfolding governance_totals
governance_totals-AreTotals entries =
    let totals : Totals = governance_totals entries in
    let chosen : List GovernanceEntry =
      if is_empty (filter is_measured entries) then entries else filter is_measured entries in
    subst (λ l. AreTotals l totals) (counted entries)
      (from_zero chosen totals (add_entries-SumFrom no_usage chosen))
