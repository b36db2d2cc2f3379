-- ===== src/Render/Gpu/Count.antt =====
-- client/src/VulkanRenderer.cpp: the objects that are alive, counted.
use game_x.Base.{◌+◌, ◌<◌, ◌≡◌, refl, List, [], ◌∷◌, ◌++◌, none, some, ite, arith, if_pos}
use game_x.Render.Gpu.{Object, Object-discrete, remove, count}

pub count-append : (o : Object) (xs ys : List Object) → count o (xs ++ ys) ≡ count o xs + count o ys
unfolding count
count-append o [] ys = omega arith
count-append o (x ∷ xs) ys = omega (arith, count-append o xs ys)

-- What is alive can be taken out, and one less of it is alive then.
pub count-remove :
    (o : Object) (xs : List Object)
    → 0 < count o xs
    → (ys : List Object) × (remove o xs ≡ some ys)
      × ((p : Object) → count p xs ≡ ite (Object-discrete p o) 1 0 + count p ys)
unfolding count remove
count-remove o [] h = absurd (omega arith)
count-remove o (x ∷ xs) h =
    elim (Object-discrete o x)
        as (λ d.
          (0 < ite d 1 0 + count o xs)
          → (ys : List Object) × (elim d [
            | yes _ ↦ some xs
            | no _ ↦ elim (remove o xs) [ none ↦ none | some ys ↦ some (x ∷ ys) ]
          ]
              ≡ some ys)
            × ((p : Object) → count p (x ∷ xs) ≡ ite (Object-discrete p o) 1 0 + count p ys)) [
              | yes e ↦ λ _. (xs, refl, λ p. rw e refl)
              | no n ↦ λ k.
                  let (ys, r, c) = count-remove o xs (omega arith) in
                  (x ∷ ys, rw r refl, λ p. omega (arith, c p))
            ]
      h

pub count_self : (o : Object) (xs : List Object) → 0 < count o (o ∷ xs)
unfolding count
count_self o xs = rw (if_pos (Object-discrete o o) refl) (omega arith)
