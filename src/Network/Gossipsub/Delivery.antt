-- ===== src/Network/Gossipsub/Delivery.antt =====
-- No message that the network unpacks is lost: it stays pending until an acceptor takes it.
use pnyxdb.Base.{◌≡◌, refl, subst, false, Option, none, some, List, Bytes, subst_some, All, All-map}
use pnyxdb.Network.Protocol.{Protobuf, ok, err, fault, unpack}
use pnyxdb.Network.Gossipsub.{
  Runner, waiting, stopped, panicked, visiting, keeping, Network, unpacked, receive,
}
use pnyxdb.Network.Gossipsub.Steps.{
  Step, receives, visits, keeps, accepts, leaves, works, Reach, begin, after,
}
use pnyxdb.Network.Gossipsub.Places.{
  Holding, unseen, Placed, in_run, in_pending, taken, taken_before, local-Has,
}
use pnyxdb.Network.Gossipsub.Keeping.{
  on-Placed, accept-Placed, leave-Placed, visit-Placed, keep-Placed,
}
use pnyxdb.Network.Protocol.{Result}

module _ (P : Protobuf) where
  open P use {Message}

  -- What was placed stays so, and a message that is unpacked is placed.
  abbrev Keeps : Message → Network Message → Option Message × Network Message → Type 0
  Keeps m n r = (Placed m n → Placed m r.1) × (r.0 ≡ some m → Placed m r.1)

  moved :
      (m : Message) (n : Network Message) (r : Runner Message)
      → n.runner ≡ waiting
      → Placed m n
      → Placed m (record n { runner = r })
  moved m n r p (in_run q) = elim (subst (Holding m) p q) [ ]
  moved m n r p (in_pending a) = in_pending a
  moved m n r p (taken a) = taken a
  moved m n r p (taken_before a) = taken_before a

  unpacked-Keeps :
      (m : Message) (u : Result (Message × Bytes)) (n : Network Message)
      → n.runner ≡ waiting
      → Keeps m n (unpacked P u n)
  unfolding unpacked
  unpacked-Keeps m (ok (x, rest)) n p = (
    moved m n (visiting x 0 false) p,
    λ e. in_run (subst_some (λ y. Holding y (visiting x 0 false)) e (unseen 0)),
  )
  unpacked-Keeps m (err e) n p = (λ a. a, λ h. cc)
  unpacked-Keeps m fault n p = (moved m n panicked p, λ h. cc)

  receive-Keeps :
      (m : Message) (next : Option Bytes) (o : Option Message) (n n' : Network Message)
      (r : Runner Message)
      → n.runner ≡ r
      → receive P next n ≡ some (o, n')
      → Keeps m n (o, n')
  unfolding receive
  receive-Keeps m next o n n' stopped p h = cc (rw (p, receive) at h)
  receive-Keeps m next o n n' panicked p h = cc (rw (p, receive) at h)
  receive-Keeps m next o n n' (visiting x i d) p h = cc (rw (p, receive) at h)
  receive-Keeps m next o n n' (keeping x) p h = cc (rw (p, receive) at h)
  receive-Keeps m none o n n' waiting p h =
      subst_some (Keeps m n) (rw (p, receive) at h) (moved m n stopped p, λ e. cc)
  receive-Keeps m (some raw) o n n' waiting p h =
      subst_some (Keeps m n) (rw (p, receive) at h) (unpacked-Keeps m (unpack P raw) n p)

  Step-Keeps :
      (m : Message) (o : Option Message) (n n' : Network Message)
      → Step P n o n'
      → Keeps m n (o, n')
  Step-Keeps m o n n' (receives _ next h) = receive-Keeps m next o n n' n.runner refl h
  Step-Keeps m o n n' (visits h) = (visit-Placed m n n' n.runner refl h, λ e. cc)
  Step-Keeps m o n n' (keeps h) = (keep-Placed m n n' n.runner refl h, λ e. cc)
  Step-Keeps m o n n' (accepts acceptor h) = (accept-Placed m acceptor n n' h, λ e. cc)
  Step-Keeps m o n n' (leaves i h) = (leave-Placed m i n n' h, λ e. cc)
  Step-Keeps m o n n' (works i {f} l h) =
      (on-Placed m i f n n' (λ s s'. local-Has n.buffer m s s' l) h, λ e. cc)

  -- In every run of the goroutines, each message that was unpacked is still with `run`, or pending,
  -- or there is a call of `Accept` that takes it and has it in a channel or had its context done;
  -- and a message of which this held before is not lost either.
  pub Reach-Placed :
      (n n' : Network Message) (ms : List Message)
      → Reach P n ms n'
      → All (λ m. Placed m n') ms × ((m : Message) → Placed m n → Placed m n')
  Reach-Placed n n' ms begin = (tt, λ m p. p)
  Reach-Placed n n' ms (after none ms' {n' = k} r s) =
      let (all, old) = Reach-Placed n k ms' r in
      (
        All-map ms' (λ m p. (Step-Keeps m none k n' s).0 p) all,
        λ m p. (Step-Keeps m none k n' s).0 (old m p),
      )
  Reach-Placed n n' ms (after (some x) ms' {n' = k} r s) =
      let (all, old) = Reach-Placed n k ms' r in
      (
        (
          (Step-Keeps x (some x) k n' s).1 refl,
          All-map ms' (λ m p. (Step-Keeps m (some x) k n' s).0 p) all,
        ),
        λ m p. (Step-Keeps m (some x) k n' s).0 (old m p),
      )
