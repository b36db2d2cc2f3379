-- ===== src/Render/State/Rules.antt =====
-- client/src/VulkanRenderer.cpp: what holds of the driver's side after a run of calls.
use game_x.Base.{
  ℕ, zero, suc, ◌+◌, ◌<◌, ◌≡◌, refl, List, [], ◌∷◌, ◌++◌, arith, Option, none, some, subst,
}
use game_x.Render.Gpu.{Kind, Object, count, mapping}
use game_x.Render.Gpu.Count.{count-append, count-remove, count_self}
use game_x.Render.Info.{Info}
use game_x.Render.State.{
  Renderer, State, Outcome, done, thrown, fault, waits, Action, ◌>>=◌, ◌>>◌, pure, raise, or_throw,
  read, assign, kind_of, created, create, destroy, destroy_held, destroy_all, or_fault, allocate,
  allocated, map_memory,
}

-- A call never destroys what is not alive, and if it returns then `P` holds of its result and of
-- the state. With `⊥` for `Q` it does return; with `Unit` it may throw, or wait for ever.
pub data Ensures {A : Type 0} (Q : Type 0) (P : A → State → Type 0) : Outcome A → Type 0 where
  returns : {a : A} {s : State} → P a s → Ensures Q P (done a s)
  throws : {s : State} → Q → Ensures Q P (thrown s)
  blocks : Q → Ensures Q P waits

unfoldable pub object : Kind → ℕ → Object
object k h = record { kind = k; handle = h }

-- The object of a handle, and the objects of a vector of handles.
unfoldable pub held : Kind → ℕ → List Object
unfolding object
held k zero = []
held k (suc h) = object k (suc h) ∷ []

unfoldable pub all_held : Kind → List ℕ → List Object
unfolding held
all_held k [] = []
all_held k (h ∷ hs) = held k h ++ all_held k hs

module _ {A B : Type 0} where
  pub >>=-Ensures :
      {Q : Type 0} {P : B → State → Type 0} (m : Action A) (f : A → Action B) (s : State)
      → Ensures Q (λ a t. Ensures Q P (f a t)) (m s)
      → Ensures Q P ((m >>= f) s)
  unfolding ◌>>=◌
  >>=-Ensures {Q} {P} m f s h = go h
    where
      go :
          {r : Outcome A}
          → Ensures Q (λ a t. Ensures Q P (f a t)) r
          → Ensures Q P
              (elim r [ done a t ↦ f a t | thrown t ↦ thrown t | fault ↦ fault | waits ↦ waits ])
      go (returns h) = h
      go (throws q) = throws q
      go (blocks q) = blocks q

pub Ensures-weaken :
    {A : Type 0} {Q : Type 0} {P R : A → State → Type 0} {r : Outcome A}
    → ((a : A) (s : State) → P a s → R a s)
    → Ensures Q P r
    → Ensures Q R r
Ensures-weaken f (returns p) = returns (f _ _ p)
Ensures-weaken f (throws q) = throws q
Ensures-weaken f (blocks q) = blocks q

-- What cannot throw or wait returns.
pub Ensures-done :
    {A : Type 0} {P : A → State → Type 0} {r : Outcome A}
    → Ensures ⊥ P r
    → (a : A) × (s : State) × (r ≡ done a s) × P a s
Ensures-done (returns p) = (_, _, refl, p)
Ensures-done (throws q) = absurd q
Ensures-done (blocks q) = absurd q

pub create-Ensures :
    {P : ℕ → State → Type 0} (i : Info) (s : State)
    → ((h : ℕ) (rest : List ℕ)
        → P (suc h) (record s { live = object (kind_of i) (suc h) ∷ s.live; answers = rest }))
    → Ensures Unit P (create i s)
unfolding create object
create-Ensures {P} i s p = go s.answers
  where
    go : (answers : List ℕ) → Ensures Unit P (created i s answers)
    go [] = throws tt
    go (zero ∷ rest) = throws tt
    go (suc h ∷ rest) = returns (p h rest)

pub destroy-Ensures :
    {Q : Type 0} {P : Unit → State → Type 0} (k : Kind) (h : ℕ) (s : State) (rest : Object → ℕ)
    → ((o : Object) → count o s.live ≡ count o (object k h ∷ []) + rest o)
    → ((live : List Object)
        → ((o : Object) → count o live ≡ rest o)
        → P tt (record s { live = live }))
    → Ensures Q P (destroy k h s)
unfolding destroy object count
destroy-Ensures {Q} {P} k h s rest all p =
    let there : 0 < count (object k h) s.live =
      omega (arith, all (object k h), count_self (object k h) []) in
    let (left, e, c) = count-remove (object k h) s.live there in
    rw (e, destroy) (returns (p left (λ o. omega (arith, all o, c o))))

-- The handles of a vector are destroyed in order, those that are null are passed over.
pub destroy_held-Ensures :
    {Q : Type 0} {P : Unit → State → Type 0} (k : Kind) (h : ℕ) (s : State) (rest : Object → ℕ)
    → ((o : Object) → count o s.live ≡ count o (held k h) + rest o)
    → ((live : List Object)
        → ((o : Object) → count o live ≡ rest o)
        → P tt (record s { live = live }))
    → Ensures Q P (destroy_held k h s)
unfolding destroy_held held count
destroy_held-Ensures k zero s rest all p = returns (p s.live (λ o. omega (arith, all o)))
destroy_held-Ensures k (suc h) s rest all p = destroy-Ensures k (suc h) s rest all p

pub destroy_all-Ensures :
    {Q : Type 0} {P : Unit → State → Type 0} (k : Kind) (hs : List ℕ) (s : State)
    (rest : Object → ℕ)
    → ((o : Object) → count o s.live ≡ count o (all_held k hs) + rest o)
    → ((live : List Object)
        → ((o : Object) → count o live ≡ rest o)
        → P tt (record s { live = live }))
    → Ensures Q P (destroy_all k hs s)
unfolding destroy_all all_held count
destroy_all-Ensures k [] s rest all p = returns (p s.live (λ o. omega (arith, all o)))
destroy_all-Ensures {Q} {P} k (h ∷ hs) s rest all p =
    >>=-Ensures (destroy_held k h) (λ _. destroy_all k hs) s
      (destroy_held-Ensures k h s (λ o. count o (all_held k hs) + rest o)
        (λ o. omega (arith, all o, count-append o (held k h) (all_held k hs)))
        (λ live c. destroy_all-Ensures k hs (record s { live = live }) rest c p))

pub pure-Ensures :
    {A : Type 0} {Q : Type 0} {P : A → State → Type 0} (a : A) (s : State)
    → P a s
    → Ensures Q P (pure a s)
unfolding pure
pure-Ensures a s p = returns p

pub raise-Ensures : {A : Type 0} {P : A → State → Type 0} (s : State) → Ensures Unit P (raise s)
unfolding raise
raise-Ensures s = throws tt

pub or_throw-Ensures :
    {A : Type 0} {P : A → State → Type 0} (x : Option A) (s : State)
    → ((a : A) → x ≡ some a → P a s)
    → Ensures Unit P (or_throw x s)
unfolding or_throw
or_throw-Ensures none s p = throws tt
or_throw-Ensures (some a) s p = returns (p a refl)

pub or_fault-Ensures :
    {A : Type 0} {Q : Type 0} {P : A → State → Type 0} (x : Option A) (s : State) (a : A)
    → x ≡ some a
    → P a s
    → Ensures Q P (or_fault x s)
unfolding or_fault
or_fault-Ensures x s a e p = rw (e, or_fault) (returns p)

pub allocate-Ensures :
    {P : Unit → State → Type 0} (s : State)
    → ((rest : List ℕ) → P tt (record s { answers = rest }))
    → Ensures Unit P (allocate s)
unfolding allocate
allocate-Ensures {P} s p = go s.answers
  where
    go : (answers : List ℕ) → Ensures Unit P (allocated s answers)
    go [] = throws tt
    go (zero ∷ rest) = throws tt
    go (suc h ∷ rest) = returns (p rest)

pub map_memory-Ensures :
    {Q : Type 0} {P : ℕ → State → Type 0} (m : ℕ) (s : State)
    → P (suc m) (record s { live = object mapping m ∷ s.live })
    → Ensures Q P (map_memory m s)
unfolding map_memory object
map_memory-Ensures m s p = returns p

pub read-Ensures :
    {A : Type 0} {Q : Type 0} {P : A → State → Type 0} (f : Renderer → A) (s : State)
    → P (f s.renderer) s
    → Ensures Q P (read f s)
unfolding read
read-Ensures f s p = returns p

pub assign-Ensures :
    {Q : Type 0} {P : Unit → State → Type 0} (f : Renderer → Renderer) (s : State)
    → P tt (record s { renderer = f s.renderer })
    → Ensures Q P (assign f s)
unfolding assign
assign-Ensures f s p = returns p

-- The rules of a step and what follows it, as a do block has them.
module _ {A : Type 0} {Q : Type 0} {P : A → State → Type 0} where
  pub held_then :
      {rest : Object → ℕ} (k : Kind) (h : ℕ) (next : Action A) (s : State)
      → ((o : Object) → count o s.live ≡ count o (held k h) + rest o)
      → ((live : List Object)
          → ((o : Object) → count o live ≡ rest o)
          → Ensures Q P (next (record s { live = live })))
      → Ensures Q P ((destroy_held k h >> next) s)
  held_then {rest} k h next s all p =
      >>=-Ensures (destroy_held k h) (λ _. next) s (destroy_held-Ensures k h s rest all p)

  pub all_then :
      {rest : Object → ℕ} (k : Kind) (hs : List ℕ) (next : Action A) (s : State)
      → ((o : Object) → count o s.live ≡ count o (all_held k hs) + rest o)
      → ((live : List Object)
          → ((o : Object) → count o live ≡ rest o)
          → Ensures Q P (next (record s { live = live })))
      → Ensures Q P ((destroy_all k hs >> next) s)
  all_then {rest} k hs next s all p =
      >>=-Ensures (destroy_all k hs) (λ _. next) s (destroy_all-Ensures k hs s rest all p)

module _ {B : Type 0} {P : B → State → Type 0} where
  pub create_then :
      (i : Info) (next : ℕ → Action B) (s : State)
      → ((h : ℕ) (rest : List ℕ)
          → Ensures Unit P (
              next
                (suc h)
                (record s { live = object (kind_of i) (suc h) ∷ s.live; answers = rest })))
      → Ensures Unit P ((create i >>= next) s)
  create_then i next s p = >>=-Ensures (create i) next s (create-Ensures i s p)

module _ {A B : Type 0} {P : B → State → Type 0} where
  pub read_then :
      {Q : Type 0} (f : Renderer → A) (next : A → Action B) (s : State)
      → Ensures Q P (next (f s.renderer) s)
      → Ensures Q P ((read f >>= next) s)
  read_then f next s p = >>=-Ensures (read f) next s (read-Ensures f s p)

  pub or_throw_then :
      (x : Option A) (next : A → Action B) (s : State)
      → ((a : A) → x ≡ some a → Ensures Unit P (next a s))
      → Ensures Unit P ((or_throw x >>= next) s)
  or_throw_then x next s p = >>=-Ensures (or_throw x) next s (or_throw-Ensures x s p)

  pub or_fault_then :
      {Q : Type 0} (x : Option A) (next : A → Action B) (s : State) (a : A)
      → x ≡ some a
      → Ensures Q P (next a s)
      → Ensures Q P ((or_fault x >>= next) s)
  or_fault_then x next s a e p = >>=-Ensures (or_fault x) next s (or_fault-Ensures x s a e p)

module _ {B : Type 0} {P : B → State → Type 0} where
  pub assign_then :
      {Q : Type 0} (f : Renderer → Renderer) (next : Action B) (s : State)
      → Ensures Q P (next (record s { renderer = f s.renderer }))
      → Ensures Q P ((assign f >> next) s)
  assign_then f next s p = >>=-Ensures (assign f) (λ _. next) s (assign-Ensures f s p)

-- What is promised of a call that returned.
pub Ensures-returned :
    {A : Type 0} {Q : Type 0} {P : A → State → Type 0} {r : Outcome A}
    → Ensures Q P r
    → (a : A) (s : State) → r ≡ done a s
    → P a s
Ensures-returned {P} (returns {a = a'} {s = s'} p) a s e =
    let same_result : a' ≡ a = cc in
    let same_state : s' ≡ s = cc in
    subst (λ x. P x s) same_result (subst (λ x. P a' x) same_state p)
Ensures-returned (throws q) a s e = absurd (cc)
Ensures-returned (blocks q) a s e = absurd (cc)
