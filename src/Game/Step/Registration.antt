-- ===== src/Game/Step/Registration.antt =====
-- server/game/src/main.cpp: `g_sessions` against the sessions that exist.
use game_x.Base.{
  ℕ, ◌≤◌, ◌<◌, ◌+◌, ◌≡◌, ◌≢◌, sym, ap, subst, ◌∙◌, inl, inr, Bool, true, false, List, [], ◌∷◌, ◌++◌,
  none, some, arith, ◌==◌, ==_iff, Bool-cases, Option-cases, In, In-append, In-append_left,
  In-append_right, In-filter, filter-In, filter, is_some, ℕ_discrete,
}
use game_x.Ecs.{occurrences}
use game_x.Game.{Platform, Session, put_session}
use game_x.Game.Broadcast.{Live}
use game_x.Game.Process.{is_waiting}
use game_x.Game.Step.{fresh_session}
use game_x.Game.Step.Posted.{occurrences-append, occurrences_absent}
use game_x.Game.Step.Ownership.{put_session-cases, SameSessions}

abbrev pub count : ℕ → List ℕ → ℕ
count i ids = occurrences ℕ_discrete i ids

count-filter : (keep : ℕ → Bool) (i : ℕ) (ids : List ℕ) → count i (filter keep ids) ≤ count i ids
unfolding occurrences filter
count-filter keep i [] = omega arith
count-filter keep i (k ∷ ids) = ground (arith, count-filter keep i ids)

count_other : (i k : ℕ) → k ≢ i → count i (k ∷ []) ≡ 0
unfolding occurrences
count_other i k h = ground arith

count_one : (i k : ℕ) → count i (k ∷ []) ≤ 1
unfolding occurrences
count_one i k = ground arith

number_lt : (n : ℕ) → ¬ (n < n)
number_lt n h = omega arith

module _ {p : Platform} where
  -- Every session that plays stands in `g_sessions` once, no session that waits does, and all are
  -- numbered below the next one.
  pub record Registers (live : Live p) (sessions : List ℕ) (next : ℕ) : Type 0 where
    pub registered :
        (i : ℕ) (s : Session p) → live i ≡ some s → is_waiting s.state ≡ false → In i sessions
    pub waiting_absent :
        (i : ℕ) (s : Session p) → live i ≡ some s → is_waiting s.state ≡ true → ¬ In i sessions
    pub once : (i : ℕ) → count i sessions ≤ 1
    pub live_numbered : (i : ℕ) (s : Session p) → live i ≡ some s → i < next
    pub listed_numbered : (i : ℕ) → In i sessions → i < next

module _ {p : Platform} {live : Live p} {sessions : List ℕ} {next : ℕ}
    (r : Registers live sessions next) where
  pub Registers-SameSessions :
      {live' : Live p} → SameSessions live live' → Registers live' sessions next
  Registers-SameSessions m = record {
    registered = λ i t h play.
        let (u, here, st, en) = m.back i t h in
        r.registered i u here (ap is_waiting (sym st) ∙ play);
    waiting_absent = λ i t h wait.
        let (u, here, st, en) = m.back i t h in
        r.waiting_absent i u here (ap is_waiting (sym st) ∙ wait);
    once = r.once;
    live_numbered = λ i t h. let (u, here, st, en) = m.back i t h in r.live_numbered i u here;
    listed_numbered = r.listed_numbered;
  }

  -- The broadcasts erase sessions whose object is gone.
  pub Registers-filter : Registers live (filter (λ id. is_some (live id)) sessions) next
  Registers-filter = record {
    registered = λ i s here play.
        filter-In (λ id. is_some (live id)) i sessions (r.registered i s here play)
          (ap is_some here);
    waiting_absent = λ i s here wait m.
        r.waiting_absent i s here wait (In-filter (λ id. is_some (live id)) i sessions m).0;
    once = λ i. omega (arith, count-filter (λ id. is_some (live id)) i sessions, r.once i);
    live_numbered = r.live_numbered;
    listed_numbered =
        λ i m. r.listed_numbered i (In-filter (λ id. is_some (live id)) i sessions m).0;
  }

  pub next_free : live next ≡ none
  next_free = elim (Option-cases (live next)) [
    | inl free ↦ free
    | inr (s, here) ↦ absurd (number_lt next (r.live_numbered next s here))
  ]

  pub Registers-accept : Registers (put_session live next (some fresh_session)) sessions (next + 1)
  Registers-accept = record {
    registered = λ i t h play. elim (put_session-cases live next i _ t h) [
      | inl (same, e) ↦ absurd (ground arith)
      | inr (other, here) ↦ r.registered i t here play
    ];
    waiting_absent = λ i t h wait m. elim (put_session-cases live next i _ t h) [
      | inl (same, e) ↦ number_lt next (subst (λ k. k < next) same (r.listed_numbered i m))
      | inr (other, here) ↦ r.waiting_absent i t here wait m
    ];
    once = r.once;
    live_numbered = λ i t h. elim (put_session-cases live next i _ t h) [
      | inl (same, e) ↦ omega arith
      | inr (other, here) ↦ omega (arith, r.live_numbered i t here)
    ];
    listed_numbered = λ i m. omega (arith, r.listed_numbered i m);
  }

  -- `g_sessions.push_back` of a session that waited.
  pub Registers-enter :
      (id : ℕ) (s s' : Session p)
      → live id ≡ some s
      → is_waiting s.state ≡ true
      → is_waiting s'.state ≡ false
      → Registers (put_session live id (some s')) (sessions ++ (id ∷ [])) next
  Registers-enter id s s' here wait play = record {
    registered = λ i t h pl. elim (put_session-cases live id i _ t h) [
      | inl (same, e) ↦ In-append_right i sessions (id ∷ []) (inl same)
      | inr (other, there) ↦ In-append_left i sessions (id ∷ []) (r.registered i t there pl)
    ];
    waiting_absent = λ i t h wt m. elim (put_session-cases live id i _ t h) [
      | inl (same, e) ↦ ground arith
      | inr (other, there) ↦ elim (In-append i sessions (id ∷ []) m) [
        | inl old ↦ r.waiting_absent i t there wt old
        | inr now ↦ elim now [ inl same ↦ other same | inr k ↦ elim k [ ] ]
      ]
    ];
    once = λ i. elim (Bool-cases (id == i)) [
      | inl same ↦
          let e = (==_iff id i).0 same in
          let none_before =
            occurrences_absent ℕ_discrete i sessions
              (subst (λ k. ¬ In k sessions) e (r.waiting_absent id s here wait)) in
          omega
            (arith, none_before, count_one i id, occurrences-append ℕ_discrete i sessions (id ∷ []))
      | inr other ↦ omega (
        arith,
        r.once i,
        count_other i id (λ e. cc (sym other ∙ (==_iff id i).1 e)),
        occurrences-append ℕ_discrete i sessions (id ∷ []),
      )
    ];
    live_numbered = λ i t h. elim (put_session-cases live id i _ t h) [
      | inl (same, e) ↦ subst (λ k. k < next) (sym same) (r.live_numbered id s here)
      | inr (other, there) ↦ r.live_numbered i t there
    ];
    listed_numbered = λ i m. elim (In-append i sessions (id ∷ []) m) [
      | inl old ↦ r.listed_numbered i old
      | inr now ↦ elim now [
        | inl same ↦ subst (λ k. k < next) (sym same) (r.live_numbered id s here)
        | inr k ↦ elim k [ ]
      ]
    ];
  }

  pub Registers-drop : (id : ℕ) → Registers (put_session live id none) sessions next
  Registers-drop id = record {
    registered = λ i t h play. r.registered i t (before i t h) play;
    waiting_absent = λ i t h wait. r.waiting_absent i t (before i t h) wait;
    once = r.once;
    live_numbered = λ i t h. r.live_numbered i t (before i t h);
    listed_numbered = r.listed_numbered;
  }
    where
      before : (i : ℕ) (t : Session p) → put_session live id none i ≡ some t → live i ≡ some t
      before i t h = elim (put_session-cases live id i none t h) [
        | inl (same, e) ↦ cc
        | inr (other, there) ↦ there
      ]
