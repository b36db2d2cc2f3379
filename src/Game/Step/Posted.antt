-- ===== src/Game/Step/Posted.antt =====
-- server/game/src/main.cpp: the list of clean-ups that destructors have posted to the strand.
use game_x.Base.{
  suc, ◌≤◌, ◌+◌, ◌≡◌, refl, sym, ap, ◌⊎◌, inl, inr, List, [], ◌∷◌, ◌++◌, Option, none, some, arith,
  In, In-append, In-append_left, In-append_right, if_pos, if_neg,
}
use game_x.Ecs.{occurrences}
use game_x.Game.Step.{post_cleanup}

module _ {E : Type 0} where
  pub In-post_cleanup :
      (e : E) (posted : List E) (entity : Option E)
      → In e (post_cleanup posted entity)
      → In e posted ⊎ (entity ≡ some e)
  In-post_cleanup e posted none m = inl m
  In-post_cleanup e posted (some d) m = elim (In-append e posted (d ∷ []) m) [
    | inl old ↦ inl old
    | inr now ↦ elim now [ inl same ↦ inr (ap some (sym same)) | inr k ↦ elim k [ ] ]
  ]

  pub post_cleanup-In :
      (e : E) (posted : List E) (entity : Option E)
      → In e posted ⊎ (entity ≡ some e)
      → In e (post_cleanup posted entity)
  post_cleanup-In e posted none (inl m) = m
  post_cleanup-In e posted none (inr h) = cc
  post_cleanup-In e posted (some d) (inl m) = In-append_left e posted (d ∷ []) m
  post_cleanup-In e posted (some d) (inr h) = In-append_right e posted (d ∷ []) (inl (ground arith))

  module _ (same : Discrete E) (e : E) where
    pub occurrences-append :
        (xs ys : List E)
        → occurrences same e (xs ++ ys) ≡ occurrences same e xs + occurrences same e ys
    unfolding occurrences
    occurrences-append [] ys = omega arith
    occurrences-append (d ∷ xs) ys = ground (arith, occurrences-append xs ys)

    pub occurrences_absent : (xs : List E) → ¬ In e xs → occurrences same e xs ≡ 0
    unfolding occurrences
    occurrences_absent [] h = refl
    occurrences_absent (d ∷ xs) h = elim (same d e) [
      | yes hit ↦ absurd (h (inl (sym hit)))
      | no miss ↦ rw (if_neg _ miss) (occurrences_absent xs (λ m. h (inr m)))
    ]

    occurrences_single : (d : E) → occurrences same e (d ∷ []) ≤ 1
    unfolding occurrences
    occurrences_single d = ground arith

    occurrences_other : (d : E) → ¬ (d ≡ e) → occurrences same e (d ∷ []) ≡ 0
    unfolding occurrences
    occurrences_other d miss = rw (if_neg _ miss)

    pub occurrences-post_cleanup :
        (posted : List E) (entity : Option E)
        → occurrences same e posted ≤ 1
        → (entity ≡ some e → ¬ In e posted)
        → occurrences same e (post_cleanup posted entity) ≤ 1
    unfolding occurrences
    occurrences-post_cleanup posted none once free = once
    occurrences-post_cleanup posted (some d) once free = elim (same d e) [
      | yes hit ↦ omega (
        arith,
        occurrences-append posted (d ∷ []),
        occurrences_absent posted (free (ap some hit)),
        occurrences_single d,
      )
      | no miss ↦ omega (arith, occurrences-append posted (d ∷ []), occurrences_other d miss)
    ]

    pub occurrences-In : (xs : List E) → In e xs → 1 ≤ occurrences same e xs
    unfolding occurrences
    occurrences-In [] m = elim m [ ]
    occurrences-In (d ∷ xs) (inl hit) = rw (if_pos _ (sym hit)) (omega arith)
    occurrences-In (d ∷ xs) (inr m) = elim (same d e) [
      | yes hit ↦ rw (if_pos _ hit) (omega arith)
      | no miss ↦ rw (if_neg _ miss) (occurrences-In xs m)
    ]

    occurrences_hit : (xs : List E) → occurrences same e (e ∷ xs) ≡ suc (occurrences same e xs)
    unfolding occurrences
    occurrences_hit xs = rw (if_pos _ refl)

    -- The head of a list without repetition does not stand in the tail.
    pub once_head : (xs : List E) → occurrences same e (e ∷ xs) ≤ 1 → ¬ In e xs
    once_head xs h m = omega (arith, occurrences-In xs m, occurrences_hit xs)

    pub once_tail :
        (d : E) (xs : List E) → occurrences same e (d ∷ xs) ≤ 1 → occurrences same e xs ≤ 1
    unfolding occurrences
    once_tail d xs h = ground arith
