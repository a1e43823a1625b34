-- ===== src/Console/Startup/Owned.antt =====
-- To whom a session and a run of the effect belong.
use relay_lifeline.Prelude.{
  ◌≡◌, refl, sym, ◌∙◌, ℕ, Bool, true, false, Option, none, some, ℕ_keys, arith,
}
use relay_lifeline.Json.{Value}
use relay_lifeline.Console.{SessionInfo, Console}
use relay_lifeline.Console.Control.{take_all}
use relay_lifeline.Console.Startup.{
  StartAnswer, overall_answer, config_answer, state_answer, history_answer, incidents_answer,
  runtime_answer, take_answer, is_run, left,
}

-- A session is there only while the user is signed in, and a run of the effect is not disposed just
-- while the user is.
abbrev pub IsOwned : Bool → Option SessionInfo → Option ℕ → Type 0
IsOwned authenticated (some session) none = ⊥
IsOwned authenticated session (some number) = authenticated ≡ true
IsOwned authenticated none none = authenticated ≡ false

pub owned :
    (authenticated : Bool) (session : Option SessionInfo) (number : ℕ)
    → authenticated ≡ true
    → IsOwned authenticated session (some number)
owned authenticated none number e = e
owned authenticated (some session) number e = e

pub owner :
    (authenticated : Bool) (session : Option SessionInfo) (number : ℕ)
    → IsOwned authenticated session (some number)
    → authenticated ≡ true
owner authenticated none number h = h
owner authenticated (some session) number h = h

pub signed_out :
    (authenticated : Bool) (session : Option SessionInfo) (effect : Option ℕ)
    → IsOwned authenticated session effect
    → authenticated ≡ false
    → session ≡ none
signed_out authenticated none effect h e = refl
signed_out authenticated (some session) none h e = absurd h
signed_out authenticated (some session) (some number) h e =
    absurd (let no : true ≡ false = sym h ∙ e in cc)

pub without_session :
    (authenticated : Bool) (session : Option SessionInfo)
    → authenticated ≡ false
    → session ≡ none
    → IsOwned authenticated session none
without_session authenticated none e f = e
without_session authenticated (some session) e f = absurd (let no : ⊥ = cc in no)

pub kept :
    (authenticated : Bool) (session : Option SessionInfo) (answered : SessionInfo) (number : ℕ)
    (effect : Option ℕ)
    → is_run number effect ≡ true
    → IsOwned authenticated session effect
    → IsOwned authenticated (some answered) effect
kept authenticated session answered number none e h = absurd (let no : ⊥ = cc in no)
kept authenticated session answered number (some current) e h =
    owner authenticated session current h

pub run_of : (number : ℕ) (effect : Option ℕ) → is_run number effect ≡ true → effect ≡ some number
run_of number none e = cc
run_of number (some current) e = ground (arith, e)

pub take_answer-IsOwned :
    (answer : StartAnswer) (c : Console) (effect : Option ℕ)
    → IsOwned c.authenticated c.session effect
    → IsOwned (take_answer answer c).authenticated (take_answer answer c).session effect
unfolding take_answer take_all
take_answer-IsOwned (overall_answer all page) c effect h = h
take_answer-IsOwned (config_answer value) c effect h = h
take_answer-IsOwned (state_answer value) c effect h = h
take_answer-IsOwned (history_answer page) c effect h = h
take_answer-IsOwned (incidents_answer page) c effect h = h
take_answer-IsOwned (runtime_answer value) c effect h = h

pub left-IsOwned :
    (saved : Option Value) (answer : Bool) (c : Console) (effect : Option ℕ)
    → IsOwned c.authenticated c.session effect
    → IsOwned (left saved answer c).authenticated (left saved answer c).session effect
unfolding left
left-IsOwned saved false c effect h = h
left-IsOwned none true c effect h = h
left-IsOwned (some value) true c effect h = h
