-- ===== src/Client/Mailbox.antt =====
-- common/include/ThreadUtility.hpp: `ThreadSafeQueue`. Its mutex makes every call one step, so that
-- the calls of all threads come in some order; each is a function of the queue here.
use game_x.Base.{
  ◌≡◌, ap, sym, ◌∙◌, Bool, true, false, List, [], ◌∷◌, ◌++◌, Option, none, some, append_assoc,
  append-nil,
}

-- A call of `push` by one thread, or of `try_pop` by another.
pub data Call (A : Type 0) : Type 0 where
  pushes : A → Call A
  pops : Call A

module _ {A : Type 0} where
  unfoldable pub push : List A → A → List A
  push queue item = queue ++ (item ∷ [])

  unfoldable pub try_pop : List A → Option A × List A
  try_pop [] = (none, [])
  try_pop (item ∷ queue) = (some item, queue)

  unfoldable pub empty : List A → Bool
  empty [] = true
  empty (item ∷ queue) = false

  -- The queue after a sequence of calls, and the items popped in their order.
  unfoldable pub calls : List A → List (Call A) → List A × List A
  calls queue [] = (queue, [])
  calls queue (Call.pushes item ∷ rest) = calls (push queue item) rest
  calls queue (Call.pops ∷ rest) = elim (try_pop queue).0 [
    | none ↦ calls (try_pop queue).1 rest
    | some item ↦ ((calls (try_pop queue).1 rest).0, item ∷ (calls (try_pop queue).1 rest).1)
  ]

  unfoldable pub pushed : List (Call A) → List A
  pushed [] = []
  pushed (Call.pushes item ∷ rest) = item ∷ pushed rest
  pushed (Call.pops ∷ rest) = pushed rest

  -- However the pushes and pops of a mailbox are interleaved, the items popped and then those still
  -- queued are those that were queued and then those pushed, in order.
  pub calls_fifo :
      (queue : List A) (rest : List (Call A))
      → (calls queue rest).1 ++ (calls queue rest).0 ≡ queue ++ pushed rest
  unfolding calls pushed push try_pop
  calls_fifo queue [] = sym (append-nil queue)
  calls_fifo queue (Call.pushes item ∷ rest) =
      calls_fifo (queue ++ (item ∷ [])) rest ∙ append_assoc queue (item ∷ []) (pushed rest)
  calls_fifo [] (Call.pops ∷ rest) = calls_fifo [] rest
  calls_fifo (item ∷ queue) (Call.pops ∷ rest) = ap (◌∷◌ item) (calls_fifo queue rest)
