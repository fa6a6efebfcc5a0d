-- ===== src/Network/Gossipsub/Stuck.antt =====
-- A channel that is full and that nobody reads any more stops `run`, and with it the delivery to all.
use pnyxdb.Base.{
  ℕ, zero, suc, ◌≡◌, refl, sym, ap, ◌∙◌, Bool, true, false, Option, none, some, List, [], ◌∷◌,
  length, ltb, get_elem?, ◌&&◌, arith, if-cases, >>=-eq-some, subst_some, some-injective,
  List-cases, inl, inr,
}
use pnyxdb.Network.Protocol.{Protobuf}
use pnyxdb.Network.Gossipsub.{
  Subscriber, visiting, Network, at, push, release, stop_release, relay, stop_relay, lose, cancel,
  accept, leave, visit, keep, on, receive,
}
use pnyxdb.Network.Gossipsub.Steps.{
  IsLocal, releases, release_stops, relays, relay_stops, loses, is_cancelled, Step, receives,
  visits, keeps, accepts, leaves, works, extend, Reach, begin, after,
}

-- A channel is full, and the loop that reads it is over.
pub record Abandoned {M : Type 0} (buffer : ℕ) (m : M) (s : Subscriber M) : Type 0 where
  pub takes : s.acceptor m ≡ true
  pub full : ltb (length s.input) buffer ≡ false
  pub over : s.listening ≡ false

-- `run` is to send its message to such a channel.
pub record Blocked {M : Type 0} (m : M) (i : ℕ) (d : Bool) (n : Network M) : Type 0 where
  pub reader : Subscriber M
  pub running : n.runner ≡ visiting m i d
  pub here : get_elem? n.subscribers i ≡ some reader
  pub abandoned : Abandoned n.buffer m reader

local-Abandoned :
    {M : Type 0} (buffer : ℕ) (m : M) {f : Subscriber M → Option (Subscriber M)}
    (s s' : Subscriber M)
    → IsLocal buffer f
    → f s ≡ some s'
    → Abandoned buffer m s
    → Abandoned buffer m s'
unfolding release stop_release relay stop_relay lose cancel push
local-Abandoned buffer m s s' releases h a = elim (List-cases s.to_send) [
  | inl p ↦ cc (rw (p, release) at h)
  | inr (x, xs, p) ↦ cc (rw a.full at (rw (p, release) at h))
]
local-Abandoned buffer m s s' release_stops h a = elim (if-cases s.cancelled h) [
  | inl (t, p) ↦
      subst_some (Abandoned buffer m) p (record { takes = a.takes; full = a.full; over = a.over })
  | inr (t, p) ↦ cc
]
local-Abandoned buffer m s s' relays h a = cc (rw a.over at h)
local-Abandoned buffer m s s' relay_stops h a = elim (if-cases s.cancelled h) [
  | inl (t, p) ↦
      subst_some (Abandoned buffer m) p (record { takes = a.takes; full = a.full; over = refl })
  | inr (t, p) ↦ cc
]
local-Abandoned buffer m s s' loses h a = elim (if-cases (s.listening && s.cancelled) h) [
  | inl (t, p) ↦ let runs : s.listening ≡ true = ground (arith, t) in cc (a.over, runs)
  | inr (t, p) ↦ cc
]
local-Abandoned buffer m s s' is_cancelled h a =
    subst_some (Abandoned buffer m) h (record { takes = a.takes; full = a.full; over = a.over })

-- A change of one entry, seen at any index.
at-get :
    {A : Type 0} (P : A → Type 0) (f : A → Option A) (j i : ℕ) (xs ys : List A) (x : A)
    → ((y : A) → f x ≡ some y → P x → P y)
    → at j f xs ≡ some ys
    → get_elem? xs i ≡ some x
    → P x
    → (y : A) × (get_elem? ys i ≡ some y) × P y
unfolding at
at-get P f j i [] ys x step h here p = cc
at-get P f zero zero (z ∷ xs) ys x step h here p =
    let (y, e, k) = >>=-eq-some (f z) _ h in
    let same = some-injective z x here in
    subst_some (λ ys. (y : _) × (get_elem? ys 0 ≡ some y) × P y) k
      (y, refl, step y (sym (ap f same) ∙ e) p)
at-get P f zero (suc i) (z ∷ xs) ys x step h here p =
    let (y, e, k) = >>=-eq-some (f z) _ h in
    subst_some (λ ys. (y : _) × (get_elem? ys (suc i) ≡ some y) × P y) k (x, here, p)
at-get P f (suc j) zero (z ∷ xs) ys x step h here p =
    let (zs, e, k) = >>=-eq-some (at j f xs) _ h in
    subst_some (λ ys. (y : _) × (get_elem? ys 0 ≡ some y) × P y) k (x, here, p)
at-get P f (suc j) (suc i) (z ∷ xs) ys x step h here p =
    let (zs, e, k) = >>=-eq-some (at j f xs) _ h in
    subst_some (λ ys. (y : _) × (get_elem? ys (suc i) ≡ some y) × P y) k
      (at-get P f j i xs zs x step e here p)

at-none :
    {A : Type 0} (f : A → Option A) (i : ℕ) (xs : List A) (x : A)
    → get_elem? xs i ≡ some x
    → f x ≡ none
    → at i f xs ≡ none
unfolding at
at-none f i [] x here h = cc
at-none f zero (z ∷ xs) x here h = rw (ap f (some-injective z x here) ∙ h)
at-none f (suc i) (z ∷ xs) x here h = rw (at-none f i xs x here h)

-- What does not change while `run` waits.
pub record Frozen {M : Type 0} (m : M) (i : ℕ) (d : Bool) (n n' : Network M) : Type 0 where
  pub blocked : Blocked m i d n'
  pub pending : n'.pending ≡ n.pending
  pub gone : n'.gone ≡ n.gone

Frozen-trans :
    {M : Type 0} {m : M} {i : ℕ} {d : Bool} {a b c : Network M}
    → Frozen m i d a b
    → Frozen m i d b c
    → Frozen m i d a c
Frozen-trans f g = record {
  blocked = g.blocked;
  pending = g.pending ∙ f.pending;
  gone = g.gone ∙ f.gone;
}

on-Frozen :
    {M : Type 0} (m : M) (i : ℕ) (d : Bool) (j : ℕ) {f : Subscriber M → Option (Subscriber M)}
    (n n' : Network M)
    → IsLocal n.buffer f
    → on j f n ≡ some n'
    → Blocked m i d n
    → Frozen m i d n n'
unfolding on
on-Frozen m i d j {f} n n' l h b =
    let (subs, e, k) = >>=-eq-some (at j f n.subscribers) _ h in
    let (y, there, still) =
      at-get (Abandoned n.buffer m) f j i n.subscribers subs b.reader
        (λ y. local-Abandoned n.buffer m b.reader y l) e b.here b.abandoned in
    subst_some (Frozen m i d n) k (record {
      blocked = record { reader = y; running = b.running; here = there; abandoned = still };
      pending = refl;
      gone = refl;
    })

visit-Blocked :
    {M : Type 0} (m : M) (i : ℕ) (d : Bool) (n : Network M) → Blocked m i d n → visit n ≡ none
unfolding visit push
visit-Blocked m i d n b =
    let wait : push n.buffer m b.reader ≡ none = rw b.abandoned.full in
    let stays = at-none (push n.buffer m) i n.subscribers b.reader b.here wait in
    rw (b.running, visit) (rw (b.here, b.abandoned.takes, stays))

module _ (P : Protobuf) where
  open P use {Message}

  Step-Frozen :
      (m : Message) (i : ℕ) (d : Bool) (o : Option Message) (n n' : Network Message)
      → Step P n o n'
      → Blocked m i d n
      → (o ≡ none) × Frozen m i d n n'
  unfolding receive keep accept leave
  Step-Frozen m i d o n n' (receives _ next h) b = cc (rw (b.running, receive) at h)
  Step-Frozen m i d o n n' (visits h) b = cc (visit-Blocked m i d n b, h)
  Step-Frozen m i d o n n' (keeps h) b = cc (rw (b.running, keep) at h)
  Step-Frozen m i d o n n' (accepts acceptor h) b = cc (rw b.running at h)
  Step-Frozen m i d o n n' (leaves j h) b = cc (rw b.running at h)
  Step-Frozen m i d o n n' (works j l h) b = (refl, on-Frozen m i d j n n' l h b)

  -- Once `run` is to send a message to a channel that is full and whose reader has stopped, then in
  -- every run of the goroutines it still is: no message is unpacked again, none becomes pending or
  -- leaves the pending ones, and no call of `Accept` leaves the network's slices.
  pub Blocked-forever :
      (m : Message) (i : ℕ) (d : Bool) (n n' : Network Message) (ms : List Message)
      → Blocked m i d n
      → Reach P n ms n'
      → (ms ≡ []) × Frozen m i d n n'
  Blocked-forever m i d n n' ms b begin =
      (refl, record { blocked = b; pending = refl; gone = refl })
  Blocked-forever m i d n n' ms b (after o ms' {n' = k} r s) =
      let (empty, f) = Blocked-forever m i d n k ms' b r in
      let (quiet, g) = Step-Frozen m i d o k n' s f.blocked in
      (ap (λ o. extend P o ms') quiet ∙ empty, Frozen-trans f g)
