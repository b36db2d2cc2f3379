-- ===== src/Render/State/Fill.antt =====
-- client/src/VulkanRenderer.cpp: what holds after a vector is resized and filled with new objects.
use game_x.Base.{
  ℕ, suc, ◌+◌, ◌≡◌, refl, List, [], ◌∷◌, ◌++◌, arith, length, length-append, All, map, subst, sym,
  ap, ◌∙◌, drop, append_assoc, append-nil,
}
use game_x.Render.Gpu.{Kind, Object, count}
use game_x.Render.Gpu.Count.{count-append}
use game_x.Render.Info.{Info}
use game_x.Render.State.{
  Renderer, State, ◌>>◌, assign, kind_of, create, resize, fill, resize_and_fill,
}
use game_x.Render.State.Rules.{
  Ensures, returns, object, held, all_held, >>=-Ensures, create-Ensures, assign-Ensures,
}

pub all_held-append :
    (o : Object) (k : Kind) (xs ys : List ℕ)
    → count o (all_held k (xs ++ ys)) ≡ count o (all_held k xs) + count o (all_held k ys)
unfolding all_held count
all_held-append o k [] ys = omega arith
all_held-append o k (x ∷ xs) ys = omega (
  arith,
  all_held-append o k xs ys,
  count-append o (held k x) (all_held k (xs ++ ys)),
  count-append o (held k x) (all_held k xs),
)

count_made :
    (o : Object) (j k : Kind) (h : ℕ) (xs : List Object)
    → j ≡ k
    → count o (object j (suc h) ∷ xs) ≡ count o (all_held k (suc h ∷ [])) + count o xs
unfolding all_held held count
count_made o j k h xs e = rw e (omega arith)

-- Two handles pushed to an empty vector.
pub all_held_two :
    (o : Object) (k : Kind) (xs : List ℕ) (a b : ℕ)
    → xs ≡ []
    → count o (all_held k ((xs ++ a ∷ []) ++ b ∷ [])) ≡ count o (held k a) + count o (held k b)
unfolding all_held count
all_held_two o k xs a b e =
    rw e (omega (arith, count-append o (held k a) (held k b ++ []), count-append o (held k b) []))

length-resize : {X : Type 0} (xs : List X) (hs : List ℕ) → length (resize xs hs) ≡ length xs
unfolding resize
length-resize [] hs = refl
length-resize (x ∷ xs) [] = omega (arith, length-resize xs [])
length-resize (x ∷ xs) (h ∷ hs) = omega (arith, length-resize xs hs)

length-drop_one : (hs : List ℕ) (n : ℕ) → length hs ≡ suc n → length (drop 1 hs) ≡ n
length-drop_one [] n e = absurd (omega (arith, e))
length-drop_one (h ∷ hs) n e = omega (arith, e)

empty_of_length : (hs : List ℕ) → length hs ≡ 0 → hs ≡ []
empty_of_length [] e = refl
empty_of_length (h ∷ hs) e = absurd (omega (arith, e))

-- A filled vector holds the handles that were made, and they are alive.
pub fill-Ensures :
    {P : Unit → State → Type 0} (k : Kind) (put : List ℕ → Renderer → Renderer)
    → ((xs ys : List ℕ) (r : Renderer) → put xs (put ys r) ≡ put xs r)
    → (made behind : List ℕ) (infos : List Info) (s : State) (r : Renderer)
    → s.renderer ≡ put (made ++ behind) r
    → length behind ≡ length infos
    → All (λ i. kind_of i ≡ k) infos
    → ((hs : List ℕ) (live : List Object) (rest : List ℕ)
        → length hs ≡ length made + length infos
        → ((o : Object)
            → count o live + count o (all_held k made) ≡ count o (all_held k hs) + count o s.live)
        → P tt (record s { renderer = put hs r; live = live; answers = rest }))
    → Ensures Unit P (fill put made behind infos s)
unfolding fill
fill-Ensures {P} k put law made behind [] s r e n all p = returns (
    subst (λ x. P tt (record s { renderer = x }))
      (sym
        (e ∙ ap (λ b. put b r) (ap (λ b. made ++ b) (empty_of_length behind n) ∙ append-nil made)))
      (p made s.live s.answers (omega arith) (λ o. omega arith)))
fill-Ensures {P} k put law made behind (i ∷ infos) s r e n all p =
    let left : List ℕ = drop 1 behind in
    >>=-Ensures (create i)
      (λ h. assign (put (made ++ h ∷ left)) >> fill put (made ++ h ∷ []) left infos) s
      (create-Ensures i s λ h rest.
        let made' : List ℕ = made ++ suc h ∷ [] in
        let t : State = record s { live = object (kind_of i) (suc h) ∷ s.live; answers = rest } in
        let whole : List ℕ = made ++ suc h ∷ left in
        >>=-Ensures (assign (put whole)) (λ _. fill put made' left infos) t
          (assign-Ensures (put whole) t (
            fill-Ensures k put law made' left infos (record t { renderer = put whole s.renderer }) r
              (ap (put whole) e
                ∙ law whole (made ++ behind) r
                ∙ ap (λ b. put b r) (sym (append_assoc made (suc h ∷ []) left)))
              (length-drop_one behind (length infos) (n ∙ omega arith)) all.1
              λ hs live left n c.
                p hs live left (omega (arith, n, length-append made (suc h ∷ []))) (λ o. omega (
                  arith,
                  c o,
                  all_held-append o k made (suc h ∷ []),
                  count_made o (kind_of i) k h s.live all.0,
                )))))

All-map_kind :
    {X : Type 0} (k : Kind) (f : X → Info) (xs : List X)
    → ((x : X) → kind_of (f x) ≡ k)
    → All (λ i. kind_of i ≡ k) (map f xs)
All-map_kind k f [] h = tt
All-map_kind k f (x ∷ xs) h = (h x, All-map_kind k f xs h)

length-map : {X : Type 0} {Y : Type 0} (f : X → Y) (xs : List X) → length (map f xs) ≡ length xs
length-map f [] = refl
length-map f (x ∷ xs) = omega (arith, length-map f xs)

-- A vector resized and filled, with one structure for each element of a list.
pub fill_new-Ensures :
    {X : Type 0} {P : Unit → State → Type 0} (k : Kind) (put : List ℕ → Renderer → Renderer)
    → ((xs ys : List ℕ) (r : Renderer) → put xs (put ys r) ≡ put xs r)
    → (f : X → Info) (xs : List X) (old : List ℕ) (s : State) → ((x : X) → kind_of (f x) ≡ k)
    → ((hs : List ℕ) (live : List Object) (rest : List ℕ)
        → length hs ≡ length xs
        → ((o : Object) → count o live ≡ count o (all_held k hs) + count o s.live)
        → P tt (record s { renderer = put hs s.renderer; live = live; answers = rest }))
    → Ensures Unit P (resize_and_fill put old (map f xs) s)
unfolding all_held count resize_and_fill
fill_new-Ensures k put law f xs old s kinds p =
    let infos = map f xs in
    let start : List ℕ = resize infos old in
    >>=-Ensures (assign (put start)) (λ _. fill put [] start infos) s
      (assign-Ensures (put start) s (
        fill-Ensures k put law [] start infos (record s { renderer = put start s.renderer })
          s.renderer refl (length-resize infos old) (All-map_kind k f xs kinds)
          λ hs live rest n c.
            p hs live rest (omega (arith, n, length-map f xs)) (λ o. omega (arith, c o))))
