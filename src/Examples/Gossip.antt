-- ===== src/Examples/Gossip.antt =====
-- The network's goroutines at concrete messages.
use pnyxdb.Base.{◌≡◌, refl, true, false, none, some, List, [], ◌∷◌, Bytes, All, lookup}
use pnyxdb.Network.Protocol.{unpack, get_type_from_name}
use pnyxdb.Network.Gossipsub.{
  Subscriber, Network, waiting, visiting, receive, visit, keep, accept, on, release, relay,
}
use pnyxdb.Network.Gossipsub.Steps.{
  Reach, begin, after, receives, visits, keeps, accepts, works, releases, relays,
}
use pnyxdb.Network.Gossipsub.Places.{Placed}
use pnyxdb.Network.Gossipsub.Delivery.{Reach-Placed}
use pnyxdb.Network.Gossipsub.Stuck.{Frozen, Blocked-forever}
use pnyxdb.Network.Redis.{Entry, Reader, entries, start, read_round}
use pnyxdb.Network.Redis.Reading.{Rounds, Answers, after_id, Delivered, Rounds-Delivered}
use pnyxdb.Network.Redis.Reading
use pnyxdb.Examples.Messages.{plain}
use pnyxdb.Examples.Store.{or_start}

abbrev quiet : Network Bytes
quiet = record { buffer = 1; pending = []; subscribers = []; gone = []; runner = waiting }

-- A message arrives, is kept, and is taken by a later call of `Accept`.
abbrev read : Network Bytes
read = record quiet { runner = visiting (5 ∷ []) 0 false }

abbrev unclaimed : Network Bytes
unclaimed = or_start (visit read) quiet

abbrev kept : Network Bytes
kept = or_start (keep unclaimed) quiet

abbrev claimed : Network Bytes
claimed = or_start (accept (λ m. true) kept) quiet

abbrev released : Network Bytes
released = or_start (on 0 (release 1) claimed) quiet

claimed-Reach : Reach plain quiet ((5 ∷ []) ∷ []) released
unfolding receive unpack get_type_from_name visit keep accept on release
claimed-Reach =
    after none ((5 ∷ []) ∷ [])
      (after none ((5 ∷ []) ∷ [])
        (after none ((5 ∷ []) ∷ [])
          (after none ((5 ∷ []) ∷ [])
            (after (some (5 ∷ [])) [] begin (receives (some (5 ∷ [])) (some (1 ∷ 1 ∷ 5 ∷ [])) refl))
            (visits refl))
          (keeps refl))
        (accepts (λ m. true) refl))
      (works 0 releases refl)

Reach-Placed_example :
    All (λ m. Placed m released) ((5 ∷ []) ∷ [])
    × ((m : Bytes) → Placed m quiet → Placed m released)
Reach-Placed_example = Reach-Placed plain quiet released ((5 ∷ []) ∷ []) claimed-Reach

-- A full channel whose reader has stopped, and another one.
abbrev full : Subscriber Bytes
full = record {
  acceptor = λ m. true;
  input = (1 ∷ []) ∷ [];
  to_send = [];
  output = [];
  cancelled = true;
  listening = false;
}

abbrev other : Subscriber Bytes
other = record full { cancelled = false; listening = true }

abbrev blocked : Network Bytes
blocked = record quiet { subscribers = full ∷ other ∷ []; runner = visiting (2 ∷ []) 0 false }

abbrev served : Network Bytes
served = or_start (on 1 relay blocked) quiet

abbrev nothing : List Bytes
nothing = []

Blocked-forever_example : (nothing ≡ []) × Frozen (2 ∷ []) 0 false blocked served
unfolding on relay
Blocked-forever_example =
    Blocked-forever plain (2 ∷ []) 0 false blocked served nothing
      (record {
        reader = full;
        running = refl;
        here = refl;
        abandoned = record { takes = refl; full = refl; over = refl };
      })
      (after none [] begin (works 1 relays refl))

-- A stream of three entries, of which the second is no packet; it is read in two replies.
abbrev stream : List Entry
stream = ("1-0", 1 ∷ 1 ∷ 5 ∷ []) ∷ ("2-0", []) ∷ ("3-0", 1 ∷ 1 ∷ 6 ∷ []) ∷ []

abbrev halfway : Reader Bytes
halfway =
    read_round plain (λ m. true) (entries (("1-0", 1 ∷ 1 ∷ 5 ∷ []) ∷ ("2-0", []) ∷ [])) (start 9)

abbrev read_all : Reader Bytes
read_all = read_round plain (λ m. true) (entries (("3-0", 1 ∷ 1 ∷ 6 ∷ []) ∷ [])) halfway

stream_read : Rounds plain (λ m. true) stream (start 9) read_all
unfolding read_round unpack get_type_from_name Answers after_id
stream_read =
    Reading.after (entries (("3-0", 1 ∷ 1 ∷ 6 ∷ []) ∷ []))
      (Reading.after (entries (("1-0", 1 ∷ 1 ∷ 5 ∷ []) ∷ ("2-0", []) ∷ [])) Reading.begin refl
        (("3-0", 1 ∷ 1 ∷ 6 ∷ []) ∷ [], refl))
      refl ([], refl)

all_delivered : read_all.output ≡ (5 ∷ []) ∷ (6 ∷ []) ∷ []
unfolding read_round unpack get_type_from_name
all_delivered = refl

Rounds-Delivered_example : Delivered plain (λ m. true) stream read_all
unfolding lookup
Rounds-Delivered_example =
    Rounds-Delivered plain (λ m. true) stream 9 read_all (refl, (refl, (refl, (refl, tt))))
      stream_read
