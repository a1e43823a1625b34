-- ===== src/Console/Tickets.antt =====
-- The one confirmation dialog of the console, web/src/App.tsx, and the promises that it gives.
use relay_lifeline.Prelude.{
  ℕ, ◌<◌, ◌≡◌, ◌⊎◌, inl, inr, refl, sym, ◌∙◌, Bool, true, false, List, [], ◌∷◌, Option, none, some,
  String, if◌then◌else◌, ℕ_keys, has, map, Bool-cases, arith, nat_eq,
}
use relay_lifeline.Console.{
  Console, AuthReason, Confirmation, Answer, Promised, resolve, reset_authentication,
  request_confirmation, finish_confirmation,
}

abbrev pub settled_tickets : List Answer → List ℕ
settled_tickets = map (λ answer. answer.ticket)

abbrev pub is_open : Option Confirmation → Bool
is_open none = false
is_open (some _) = true

-- No promise twice.
abbrev pub AreOnce : List ℕ → Type 0
AreOnce [] = Unit
AreOnce (t ∷ ts) = (has t ts ≡ false) × AreOnce ts

-- The promise is that of the question that is shown.
abbrev pub IsShown : Option Confirmation → ℕ → Type 0
IsShown none t = ⊥
IsShown (some question) t = question.ticket ≡ t

abbrev IsAwaited : Option Confirmation → ℕ → List ℕ → Type 0
IsAwaited none next settled = Unit
IsAwaited (some question) next settled =
    (question.ticket < next) × (has question.ticket settled ≡ false)

-- Of the promises given so far each is settled, once, or is that of the shown question and not settled;
-- there is a shown question exactly while another is refused.
pub record IsTidy (s : Console) : Type 0 where
  pub refuses : s.confirmation_pending ≡ is_open s.confirmation
  pub awaited : IsAwaited s.confirmation s.next_ticket (settled_tickets s.answers)
  pub once : AreOnce (settled_tickets s.answers)
  pub known : (t : ℕ) → has t (settled_tickets s.answers) ≡ true → t < s.next_ticket
  pub covered :
      (t : ℕ)
      → t < s.next_ticket
      → (has t (settled_tickets s.answers) ≡ true) ⊎ IsShown s.confirmation t

-- What happens to the dialog.
pub data Happening : Type 0 where
  ask : String → Happening
  finish : Bool → Happening
  reset : Option AuthReason → Happening

abbrev pub happen : Happening → Console → Console
happen (ask title) s = (request_confirmation title s).1
happen (finish result) s = finish_confirmation result s
happen (reset reason) s = reset_authentication reason s

abbrev pub all_happen : List Happening → Console → Console
all_happen [] s = s
all_happen (event ∷ rest) s = all_happen rest (happen event s)

resolve-once :
    (question : Option Confirmation) (result : Bool) (next : ℕ) (answers : List Answer)
    → IsAwaited question next (settled_tickets answers)
    → AreOnce (settled_tickets answers)
    → AreOnce (settled_tickets (resolve question result answers))
unfolding resolve
resolve-once none result next answers h k = k
resolve-once (some question) result next answers h k = (h.1, k)

resolve-known :
    (question : Option Confirmation) (result : Bool) (next t : ℕ) (answers : List Answer)
    → IsAwaited question next (settled_tickets answers)
    → (has t (settled_tickets answers) ≡ true → t < next)
    → has t (settled_tickets (resolve question result answers)) ≡ true
    → t < next
unfolding resolve
resolve-known none result next t answers h k e = k e
resolve-known (some question) result next t answers h k e = ground (arith, h.0, k, e)

resolve-covered :
    (question : Option Confirmation) (result : Bool) (t : ℕ) (answers : List Answer)
    → (has t (settled_tickets answers) ≡ true) ⊎ IsShown question t
    → has t (settled_tickets (resolve question result answers)) ≡ true
unfolding resolve
resolve-covered none result t answers (inl e) = e
resolve-covered none result t answers (inr shown) = absurd shown
resolve-covered (some question) result t answers (inl e) = ground (arith, e)
resolve-covered (some question) result t answers (inr shown) = ground (arith, shown)

finish-IsTidy : (result : Bool) (s : Console) → IsTidy s → IsTidy (finish_confirmation result s)
unfolding finish_confirmation
finish-IsTidy result s h = record {
  refuses = refl;
  awaited = tt;
  once = resolve-once s.confirmation result s.next_ticket s.answers h.awaited h.once;
  known = λ t. resolve-known s.confirmation result s.next_ticket t s.answers h.awaited (h.known t);
  covered = λ t e. inl (resolve-covered s.confirmation result t s.answers (h.covered t e));
}

reset-IsTidy :
    (reason : Option AuthReason) (s : Console) → IsTidy s → IsTidy (reset_authentication reason s)
unfolding reset_authentication
reset-IsTidy reason s h = record {
  refuses = refl;
  awaited = tt;
  once = resolve-once s.confirmation false s.next_ticket s.answers h.awaited h.once;
  known = λ t. resolve-known s.confirmation false s.next_ticket t s.answers h.awaited (h.known t);
  covered = λ t e. inl (resolve-covered s.confirmation false t s.answers (h.covered t e));
}

covered_closed :
    (question : Option Confirmation) (settled : List ℕ) (t : ℕ)
    → is_open question ≡ false
    → (has t settled ≡ true) ⊎ IsShown question t
    → has t settled ≡ true
covered_closed none settled t e (inl h) = h
covered_closed none settled t e (inr shown) = absurd shown
covered_closed (some question) settled t e h = cc

asked :
    (b : Bool) (P : Console → Type 0) (x y : Promised × Console)
    → (b ≡ true → P x.1)
    → (b ≡ false → P y.1)
    → P (if b then x else y).1
asked true P x y h k = h refl
asked false P x y h k = k refl

unsettled :
    (next : ℕ) (settled : List ℕ)
    → ((t : ℕ) → has t settled ≡ true → t < next)
    → has next settled ≡ false
unsettled next settled known = elim (Bool-cases (has next settled)) [
  | inl e ↦ absurd (let below = known next e in omega arith)
  | inr e ↦ e
]

ask-IsTidy : (title : String) (s : Console) → IsTidy s → IsTidy (request_confirmation title s).1
unfolding request_confirmation
ask-IsTidy title s h =
    asked s.confirmation_pending IsTidy _ _ (λ _. h)
      (λ free.
        let shut = sym h.refuses ∙ free in
        record {
          refuses = refl;
          awaited = (omega arith, unsettled s.next_ticket (settled_tickets s.answers) h.known);
          once = h.once;
          known = λ t e. omega (arith, h.known t e);
          covered = λ t e. elim (Bool-cases (nat_eq s.next_ticket t)) [
            | inl same ↦ inr (ground (arith, same))
            | inr other ↦ inl (
                covered_closed s.confirmation (settled_tickets s.answers) t shut
                  (h.covered t (ground (arith, e, other))))
          ];
        })

happen-IsTidy : (event : Happening) (s : Console) → IsTidy s → IsTidy (happen event s)
happen-IsTidy (ask title) s h = ask-IsTidy title s h
happen-IsTidy (finish result) s h = finish-IsTidy result s h
happen-IsTidy (reset reason) s h = reset-IsTidy reason s h

-- From a tidy console, whatever is asked, answered and reset in whatever order leaves it tidy: every
-- promise given is settled exactly once or is that of the question shown, which is not settled.
pub all_happen-IsTidy :
    (events : List Happening) (s : Console) → IsTidy s → IsTidy (all_happen events s)
all_happen-IsTidy [] s h = h
all_happen-IsTidy (event ∷ rest) s h =
    all_happen-IsTidy rest (happen event s) (happen-IsTidy event s h)
