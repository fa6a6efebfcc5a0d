-- ===== src/Consensus/Engine/Pool.antt =====
-- The pool of old conditions of `Run` in consensus/engine.go, which starts checkpoints.
use pnyxdb.Base.{
  ℕ, zero, suc, ◌≤◌, ◌<◌, ◌≡◌, refl, ap, ◌∙◌, String, Bool, List, [], ◌∷◌, ◌++◌, length,
  length-append, take, drop, ltb, ◌==◌, contains, ◌||◌, str_eq, if◌then◌else◌, Bool-cases, inl, inr,
  ◌⊎◌, arith,
}
use pnyxdb.Consensus.QueryStore.State.{add_to_set}
use pnyxdb.Consensus.Engine.Node.{Node, Engine, start_checkpoint, broadcast}
use pnyxdb.Consensus.Engine.Handlers.{sort_strings, sort_into}

abbrev pub checkpoint_routine_batch : ℕ
checkpoint_routine_batch = 100

abbrev pub checkpoint_routine_select : ℕ
checkpoint_routine_select = 30

-- `n` of `start`
abbrev pub selected : ℕ → ℕ
selected l = if ltb l checkpoint_routine_select then l else checkpoint_routine_select

module _ (node : Node) {Store : Type 0} where
  -- `start`, on the variable `pending`, which the timer calls too.
  unfoldable pub start : List String → Engine Store → List String × Engine Store
  unfolding sort_strings broadcast
  start [] eng = ([], eng)
  start (c ∷ cs) eng =
      let sorted = sort_strings (c ∷ cs) in
      let n = selected (length sorted) in
      (drop n sorted, broadcast node (start_checkpoint (take n sorted)) eng)

  -- The case of a condition that `pendingCheckpoints` delivers.
  unfoldable pub pool_receives : List String → String → Engine Store → List String × Engine Store
  unfolding add_to_set start
  pool_receives pending c eng =
      let pending' = add_to_set pending c in
      if length pending' == checkpoint_routine_batch then start pending' eng else (pending', eng)

length-sort_into : (x : String) (xs : List String) → length (sort_into x xs) ≡ suc (length xs)
unfolding sort_into
length-sort_into x [] = refl
length-sort_into x (y ∷ ys) = ground (arith, length-sort_into x ys)

pub length-sort_strings : (xs : List String) → length (sort_strings xs) ≡ length xs
unfolding sort_strings
length-sort_strings [] = refl
length-sort_strings (x ∷ xs) =
    length-sort_into x (sort_strings xs) ∙ ap suc (length-sort_strings xs)

length-take : (n : ℕ) (xs : List String) → n ≤ length xs → length (take n xs) ≡ n
length-take zero xs h = refl
length-take (suc n) [] h = elim h [ ]
length-take (suc n) (x ∷ xs) h = omega (arith, length-take n xs (omega arith))

take-drop : (n : ℕ) (xs : List String) → take n xs ++ drop n xs ≡ xs
take-drop zero xs = refl
take-drop (suc n) [] = refl
take-drop (suc n) (x ∷ xs) = ap (λ (t : List String). x ∷ t) (take-drop n xs)

contains-sort_into :
    (u x : String) (xs : List String) → contains u (sort_into x xs) ≡ contains u (x ∷ xs)
unfolding contains sort_into
contains-sort_into u x [] = refl
contains-sort_into u x (y ∷ ys) = ground (arith, contains-sort_into u x ys)

-- Sorting keeps the elements.
pub contains-sort_strings :
    (u : String) (xs : List String) → contains u (sort_strings xs) ≡ contains u xs
unfolding contains sort_strings
contains-sort_strings u [] = refl
contains-sort_strings u (x ∷ xs) =
    contains-sort_into u x (sort_strings xs)
    ∙ ap (λ (b : Bool). str_eq x u || b) (contains-sort_strings u xs)

module _ (node : Node) {Store : Type 0} where
  -- What one step of the pool does, if `whole` are the conditions before it sends some.
  pub record Sends (whole : List String) (eng : Engine Store) (r : List String × Engine Store)
      : Type 0 where
    pub queries : List String
    pub message : r.1.sent ≡ eng.sent ++ (start_checkpoint queries ∷ [])
    pub some_sent : 0 < length queries
    pub not_too_many : length queries ≤ checkpoint_routine_select
    pub split : queries ++ r.0 ≡ sort_strings whole

  pub start-Sends :
      (pending : List String) (eng : Engine Store)
      → 0 < length pending
      → Sends pending eng (start node pending eng)
  unfolding start broadcast
  start-Sends [] eng h = absurd (omega arith)
  start-Sends (c ∷ cs) eng h =
      let sorted = sort_strings (c ∷ cs) in
      let size = length-sort_strings (c ∷ cs) in
      let n = selected (length sorted) in
      let front : length (take n sorted) ≡ n = length-take n sorted (ground arith) in
      record {
        queries = take n sorted;
        message = refl;
        some_sent = ground (arith, front, size);
        not_too_many = ground (arith, front);
        split = take-drop n sorted;
      }

  -- With fewer than 100 conditions in the pool: a condition that arrives leaves fewer than 100, and
  -- either joins them if it is new, with nothing sent, or makes the pool send a checkpoint of its
  -- first conditions in order, at least one and at most 30, and keep the others.
  pub pool_receives-bounds :
      (pending : List String) (c : String) (eng : Engine Store)
      → length pending < checkpoint_routine_batch
      → let r = pool_receives node pending c eng in
        (length r.0 < checkpoint_routine_batch)
        × ((r ≡ (add_to_set pending c, eng)) ⊎ Sends (add_to_set pending c) eng r)
  unfolding pool_receives add_to_set
  pool_receives-bounds pending c eng h =
      let whole = add_to_set pending c in
      let grown : length whole ≤ suc (length pending) =
        ground (arith, length-append pending (c ∷ [])) in
      elim (Bool-cases (length whole == checkpoint_routine_batch)) [
        | inr t ↦ rw t (ground (arith, grown), inl refl)
        | inl t ↦
            let full : length whole ≡ checkpoint_routine_batch = ground arith in
            let sends = start-Sends whole eng (omega (arith, full)) in
            rw t (
              ground (
                arith,
                ap length sends.split,
                length-append sends.queries (start node whole eng).0,
                length-sort_strings whole,
                full,
                sends.some_sent,
              ),
              inr sends,
            )
      ]
