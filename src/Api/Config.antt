-- ===== src/Api/Config.antt =====
-- normalizeConfigCollections (web/src/api.ts) by what it leaves under each key of the
-- configuration.
use relay_lifeline.Prelude.{
  ◌≡◌, false, List, [], ◌∷◌, Option, none, some, String, arith, ok, bind-eq-ok, if◌then◌else◌, ◌==◌,
  String_keys, has, eq_iff, subst,
}
use relay_lifeline.Json.{
  Value, null, arr, obj, nil, Fields, lookup, put, get_prop, or_default, spread,
}
use relay_lifeline.Json.Laws.{lookup-put}
use relay_lifeline.Api.{
  assemble, default_lists, with_lists, normalize_security, normalize_config_collections, oidc_lists,
}

-- `value.key`, `undefined` where the access throws.
unfoldable pub prop_of : Option Value → String → Option Value
prop_of (some (obj fields)) key = lookup key fields
prop_of _ key = none

get_prop-ok :
    (v : Option Value) (k : String) {o : Option Value} → get_prop v k ≡ ok o → prop_of v k ≡ o
unfolding get_prop prop_of
get_prop-ok (some (obj fields)) k h = cc
get_prop-ok (some null) k h = cc
get_prop-ok none k h = cc
get_prop-ok _ k h = cc

-- The value is an object with an entry under each key, the given one or an empty list, and what
-- the section has under every other key.
abbrev pub HasLists : Option Value → List String → Option Value → Type 0
HasLists section keys value =
    (fields : Fields) × (value ≡ some (obj fields))
    × ((j : String)
        → lookup j fields ≡ (
            if has j keys
            then some (or_default (prop_of section j) (arr nil))
            else lookup j (spread section)))

default_lists-ok :
    (section : Option Value) (keys : List String) (result : Fields) {fields : Fields}
    → default_lists section keys result ≡ ok fields
    → (j : String)
    → lookup j fields
      ≡ (if has j keys then some (or_default (prop_of section j) (arr nil)) else lookup j result)
unfolding default_lists
default_lists-ok section [] result h j = cc
default_lists-ok section (k ∷ ks) result {fields} h j =
    let (o, got, rest) = bind-eq-ok (get_prop section k) _ h in
    let later = default_lists-ok section ks (put k (or_default o (arr nil)) result) rest j in
    ground (
      arith,
      later,
      lookup-put j k (or_default o (arr nil)) result,
      eq_iff k j,
      get_prop-ok section k got,
    )

with_lists-ok :
    (section : Option Value) (keys : List String) {value : Value}
    → with_lists section keys ≡ ok value
    → HasLists section keys (some value)
unfolding with_lists
with_lists-ok section keys h =
    let (fields, listed, same) = bind-eq-ok (default_lists section keys (spread section)) _ h in
    (fields, cc, default_lists-ok section keys (spread section) listed)

-- The object is the given one but for the entries under the keys.
abbrev pub SameElsewhere : List String → Fields → Fields → Type 0
SameElsewhere keys before after =
    (j : String) → has j keys ≡ false → lookup j after ≡ lookup j before

abbrev pub normalized_sections : List String
normalized_sections =
    "upstreams" ∷ "egress" ∷ "notifications" ∷ "governance" ∷ "managementSecurity" ∷ "trafficPolicy"
    ∷ []

-- `managementSecurity` after normalising: its `oidc` has the lists, and the rest is as it was.
abbrev pub HasOidcLists : Option Value → Option Value → Type 0
HasOidcLists before after =
    (fields : Fields) × (after ≡ some (obj fields))
    × HasLists (prop_of before "oidc") oidc_lists (lookup "oidc" fields)
    × ((j : String) → ("oidc" == j) ≡ false → lookup j fields ≡ lookup j (spread before))

normalize_security-ok :
    (before : Option Value) {after : Value}
    → normalize_security before ≡ ok after
    → HasOidcLists before (some after)
unfolding normalize_security
normalize_security-ok before h =
    let (oidc, got, rest) = bind-eq-ok (get_prop before "oidc") _ h in
    let (lists, listed, same) = bind-eq-ok (with_lists oidc oidc_lists) _ rest in
    let there = prop_of before "oidc" in
    (
      put "oidc" lists (spread before),
      cc same,
      rw (lookup-put "oidc" "oidc" lists (spread before), get_prop-ok before "oidc" got)
          (with_lists-ok oidc oidc_lists listed),
      λ j other. rw (lookup-put j "oidc" lists (spread before), other),
    )

-- What a configuration that the client hands on has been given.
pub record IsNormalized (config result : Fields) : Type 0 where
  pub upstreams : HasLists (lookup "upstreams" config) ("targets" ∷ []) (lookup "upstreams" result)
  pub egress : HasLists (lookup "egress" config) ("allowedHosts" ∷ []) (lookup "egress" result)
  pub notifications :
      HasLists (lookup "notifications" config) ("eventTypes" ∷ []) (lookup "notifications" result)
  pub governance :
      HasLists (lookup "governance" config) ("budgets" ∷ "prices" ∷ []) (lookup "governance" result)
  pub security :
      HasOidcLists (lookup "managementSecurity" config) (lookup "managementSecurity" result)
  pub traffic :
      HasLists (lookup "trafficPolicy" config) ("rules" ∷ []) (lookup "trafficPolicy" result)
  pub others : SameElsewhere normalized_sections config result

lookup-assemble :
    (config : Fields) (u e n g s t : Value) (j : String)
    → lookup j (assemble config u e n g s t) ≡ (
        if "trafficPolicy" == j
        then some t
        else if "managementSecurity" == j
        then some s
        else if "governance" == j
        then some g
        else if "notifications" == j
        then some n
        else if "egress" == j
        then some e
        else if "upstreams" == j
        then some u
        else lookup j config)
unfolding assemble
lookup-assemble config u e n g s t j = simp lookup-put

lookup-assemble_others :
    (config : Fields) (u e n g s t : Value)
    → SameElsewhere normalized_sections config (assemble config u e n g s t)
lookup-assemble_others config u e n g s t j other =
    rw (lookup-assemble config u e n g s t j) (ground arith)

-- A configuration that passes has, in each section that the views read lists from, an entry under
-- each of the list keys: the server's value unless that is absent or null, and then the empty list.
-- Every other property of a section and every other section is the server's.
pub normalize-IsNormalized :
    (config result : Fields)
    → normalize_config_collections config ≡ ok result
    → IsNormalized config result
unfolding normalize_config_collections
normalize-IsNormalized config result h =
    let (u, e1, h1) = bind-eq-ok (with_lists (lookup "upstreams" config) ("targets" ∷ [])) _ h in
    let (e, e2, h2) = bind-eq-ok (with_lists (lookup "egress" config) ("allowedHosts" ∷ [])) _ h1 in
    let (n, e3, h3) =
      bind-eq-ok (with_lists (lookup "notifications" config) ("eventTypes" ∷ [])) _ h2 in
    let (g, e4, h4) =
      bind-eq-ok (with_lists (lookup "governance" config) ("budgets" ∷ "prices" ∷ [])) _ h3 in
    let (s, e5, h5) = bind-eq-ok (normalize_security (lookup "managementSecurity" config)) _ h4 in
    let (t, e6, h6) = bind-eq-ok (with_lists (lookup "trafficPolicy" config) ("rules" ∷ [])) _ h5 in
    let same : assemble config u e n g s t ≡ result = cc h6 in
    subst (IsNormalized config) same (record {
      upstreams =
          rw (lookup-assemble config u e n g s t "upstreams")
            (with_lists-ok (lookup "upstreams" config) ("targets" ∷ []) e1);
      egress =
          rw (lookup-assemble config u e n g s t "egress")
            (with_lists-ok (lookup "egress" config) ("allowedHosts" ∷ []) e2);
      notifications =
          rw (lookup-assemble config u e n g s t "notifications")
            (with_lists-ok (lookup "notifications" config) ("eventTypes" ∷ []) e3);
      governance =
          rw (lookup-assemble config u e n g s t "governance")
            (with_lists-ok (lookup "governance" config) ("budgets" ∷ "prices" ∷ []) e4);
      security =
          rw (lookup-assemble config u e n g s t "managementSecurity")
            (normalize_security-ok (lookup "managementSecurity" config) e5);
      traffic =
          rw (lookup-assemble config u e n g s t "trafficPolicy")
            (with_lists-ok (lookup "trafficPolicy" config) ("rules" ∷ []) e6);
      others = lookup-assemble_others config u e n g s t;
    })
