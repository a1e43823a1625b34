-- ===== src/Feed/Reading.antt =====
-- readMonitoringEvents (web/src/eventFeed.ts): which batch it returns, when it throws, and that it
-- ends.
use relay_lifeline.Prelude.{
  ℕ, zero, suc, ◌+◌, ◌≤◌, ◌<◌, ◌≡◌, refl, ap, ◌≢◌, true, false, List, [], ◌∷◌, none, some, String,
  arith, Bool-cases, inl, inr, Outcome, ok, throw, length, ◌⊎◌, ◌∙◌, subst,
}
use relay_lifeline.Feed.{
  MonitoringEvents, MonitoringEventBatch, Reader, Fetch, ReadError, fetch_failed,
  cursor_did_not_advance, absorb, is_stuck, batch_of, read_loop, read_monitoring_events,
}
use relay_lifeline.Feed.Dedup.{first_occurrences}
use relay_lifeline.Feed.Trace.{
  Reads, last, next, batch_since, absorb_all, absorb_all-Holds, absorb_all_rest,
}

Outcome-cases :
    (o : Outcome String MonitoringEvents)
    → ((s : String) × (o ≡ throw s)) ⊎ ((p : MonitoringEvents) × (o ≡ ok p))
Outcome-cases (throw s) = inl (s, refl)
Outcome-cases (ok p) = inr (p, refl)

module _ (fetch : Fetch) (limit : ℕ) where
  read_loop-ok :
      (fuel n : ℕ) (r : Reader) (b : MonitoringEventBatch)
      → read_loop fetch limit fuel n r ≡ some (ok b)
      → (ps : List MonitoringEvents) × Reads fetch limit n r.cursor ps
        × (b ≡ batch_of (absorb_all ps r))
  unfolding read_loop is_stuck absorb_all
  read_loop-ok zero n r b h = cc
  read_loop-ok (suc fuel) n r b h = elim (Outcome-cases (fetch n r.cursor limit)) [
    | inl (s, e) ↦ absurd (ground arith)
    | inr (p, e) ↦ elim (Bool-cases p.has_more) [
      | inl more ↦
          let later : read_loop fetch limit fuel (suc n) (absorb p r) ≡ some (ok b) =
            ground arith in
          let (ps, reads, same) = read_loop-ok fuel (suc n) (absorb p r) b later in
          (p ∷ ps, next p e more (ground arith) reads, same)
      | inr done ↦ (p ∷ [], last p e done, ground arith)
    ]
  ]

  read_loop_of_Reads :
      {n c : ℕ} {ps : List MonitoringEvents}
      → Reads fetch limit n c ps
      → (fuel : ℕ) (r : Reader) → r.cursor ≡ c
      → length ps ≤ fuel
      → read_loop fetch limit fuel n r ≡ some (ok (batch_of (absorb_all ps r)))
  unfolding read_loop is_stuck absorb_all
  read_loop_of_Reads (last p e done) zero r same le = absurd (omega arith)
  read_loop_of_Reads (next p e more up later) zero r same le = absurd (omega arith)
  read_loop_of_Reads {n = n} (last p e done) (suc fuel) r same le =
      let e' : fetch n r.cursor limit ≡ ok p = rw same e in ground arith
  read_loop_of_Reads {n = n} (next p {pages = ps} e more up later) (suc fuel) r same le =
      let e' : fetch n r.cursor limit ≡ ok p = rw same e in
      ground (arith, read_loop_of_Reads later fuel (absorb p r) refl (omega arith))

  -- Where no answer moves the cursor beyond `bound`, the loop ends within this fuel.
  read_loop_total :
      (bound : ℕ)
      → ((n c : ℕ) (p : MonitoringEvents) → fetch n c limit ≡ ok p → p.next_after ≤ bound)
      → (fuel n : ℕ) (r : Reader) → bound + 1 < fuel + r.cursor
      → 0 < fuel
      → read_loop fetch limit fuel n r ≢ none
  unfolding read_loop is_stuck
  read_loop_total bound within zero n r enough pos = absurd (omega arith)
  read_loop_total bound within (suc fuel) n r enough pos =
      elim (Outcome-cases (fetch n r.cursor limit)) [
        | inl (s, e) ↦ ground arith
        | inr (p, e) ↦
            ground
              (arith, within n r.cursor p e, read_loop_total bound within fuel (suc n) (absorb p r))
      ]

  -- What a rejected run has met.
  abbrev pub Fails : ℕ → ReadError → Type 0
  Fails after (fetch_failed s) = (n : ℕ) × (c : ℕ) × (after ≤ c) × (fetch n c limit ≡ throw s)
  Fails after cursor_did_not_advance =
      (n : ℕ) × (c : ℕ) × (p : MonitoringEvents) × (after ≤ c)
      × (fetch n c limit ≡ ok p)
      × (p.has_more ≡ true)
      × (p.next_after ≤ c)

  Fails-le : {a b : ℕ} (e : ReadError) → a ≤ b → Fails b e → Fails a e
  Fails-le (fetch_failed s) h (n, c, le, x) = (n, c, omega arith, x)
  Fails-le cursor_did_not_advance h (n, c, p, le, x, y, z) = (n, c, p, omega arith, x, y, z)

  read_loop-throw :
      (fuel n : ℕ) (r : Reader) (why : ReadError)
      → read_loop fetch limit fuel n r ≡ some (throw why)
      → Fails r.cursor why
  unfolding read_loop is_stuck
  read_loop-throw zero n r why h = cc
  read_loop-throw (suc fuel) n r why h = elim (Outcome-cases (fetch n r.cursor limit)) [
    | inl (s, e) ↦
        let same : fetch_failed s ≡ why = ground arith in
        subst (Fails r.cursor) same (n, r.cursor, omega arith, e)
    | inr (p, e) ↦ elim (Bool-cases (is_stuck p r.cursor)) [
      | inl stuck ↦
          let same : cursor_did_not_advance ≡ why = ground arith in
          subst (Fails r.cursor) same (n, r.cursor, p, omega arith, e, ground arith, ground arith)
      | inr moved ↦
          let later : read_loop fetch limit fuel (suc n) (absorb p r) ≡ some (throw why) =
            ground arith in
          Fails-le why (ground arith) (read_loop-throw fuel (suc n) (absorb p r) why later)
    ]
  ]

batch_of-absorb_all :
    (after : ℕ) (ps : List MonitoringEvents)
    → batch_of (absorb_all ps (record { cursor = after; reset = false; events = []; seen = [] }))
      ≡ batch_since after ps
unfolding batch_since first_occurrences
batch_of-absorb_all after ps =
    let r : Reader = record { cursor = after; reset = false; events = []; seen = [] } in
    ground (
      arith,
      (absorb_all-Holds [] ps r (record { events = refl; seen = refl })).events,
      (absorb_all_rest ps r).0,
      (absorb_all_rest ps r).1,
    )

-- A read that succeeds has followed a chain of pages from the cursor it was given, and returns the
-- batch that they stand for: the first occurrences since the last gap, whether there was a gap, and
-- the cursor of the last page.
pub read-batch :
    (fetch : Fetch) (limit fuel after : ℕ) (b : MonitoringEventBatch)
    → read_monitoring_events fetch limit fuel after ≡ some (ok b)
    → (ps : List MonitoringEvents) × Reads fetch limit 0 after ps × (b ≡ batch_since after ps)
unfolding read_monitoring_events
read-batch fetch limit fuel after b h =
    let (ps, reads, same) = read_loop-ok fetch limit fuel 0 _ b h in
    (ps, reads, same ∙ batch_of-absorb_all after ps)

-- Whatever chain of pages the server answers with, a read with as much fuel as there are pages
-- returns the batch that they stand for.
pub read_of_Reads :
    (fetch : Fetch) (limit fuel after : ℕ) (ps : List MonitoringEvents)
    → Reads fetch limit 0 after ps
    → length ps ≤ fuel
    → read_monitoring_events fetch limit fuel after ≡ some (ok (batch_since after ps))
unfolding read_monitoring_events
read_of_Reads fetch limit fuel after ps reads le =
    read_loop_of_Reads fetch limit reads fuel _ refl le
    ∙ ap (λ b. some (ok b)) (batch_of-absorb_all after ps)

-- Where no answer of the server moves the cursor beyond `bound`, a read from `after` settles, to a
-- batch or to an error, within `bound + 2 - after` calls and at least one.
pub read_total :
    (fetch : Fetch) (limit bound fuel after : ℕ)
    → ((n c : ℕ) (p : MonitoringEvents) → fetch n c limit ≡ ok p → p.next_after ≤ bound)
    → bound + 1 < fuel + after
    → 0 < fuel
    → read_monitoring_events fetch limit fuel after ≢ none
unfolding read_monitoring_events
read_total fetch limit bound fuel after within enough pos =
    read_loop_total fetch limit bound within fuel 0 _ enough pos

-- A read rejects only with the rejection of one of its calls, made at or above the cursor it was
-- given, or because a page at such a cursor promised more and did not move the cursor up.
pub read-Fails :
    (fetch : Fetch) (limit fuel after : ℕ) (why : ReadError)
    → read_monitoring_events fetch limit fuel after ≡ some (throw why)
    → Fails fetch limit after why
unfolding read_monitoring_events
read-Fails fetch limit fuel after why h = read_loop-throw fetch limit fuel 0 _ why h
