-- ===== src/Consensus/Driver.antt =====
-- consensus/interfaces.go: what the engine asks of a storage driver, and what it relies on.
use pnyxdb.Base.{◌≡◌, String, Option, none, some, List, Bytes, Dict, lookup, map, Distinct, keys}
use pnyxdb.Consensus.Query.{Version}
use pnyxdb.Consensus.Version.{new_version}

pub data StoreError : Type 0 where
  not_found refused : StoreError

-- The results of `Get`.
pub record Got : Type 0 where
  pub value : Bytes
  pub version : Option Version
  pub err : Option StoreError

-- How a call of `SetBatch` ends; `fault` is an index or a slice out of range.
pub data Wrote : Type 0 where
  wrote fault : Wrote
  failed : StoreError → Wrote

-- The interface `Store`, less `List`, `Close` and the lock.
pub record Driver : Type 1 where
  pub Store : Type 0
  pub get : Store → String → Got
  pub set : Store → String → Bytes → Option Version → Store × Wrote
  pub set_batch : Store → List String → List Bytes → List (Option Version) → Store × Wrote

-- The results of `Get` for a value that was stored with the version that the hash function gives.
abbrev pub stamped : (Bytes → Bytes) → Bytes → Got
stamped sha512 raw = record { value = raw; version = some (new_version sha512 raw); err = none }

-- `Get` on a key for which a value may have been written.
abbrev pub settled : (Bytes → Bytes) → Option Bytes → Got → Got
settled sha512 none before = before
settled sha512 (some raw) before = stamped sha512 raw

-- The code of `apply`: parallel lists of keys, values and versions.
abbrev pub write :
    (D : Driver) → (Bytes → Bytes) → Driver.Store D → Dict Bytes → Driver.Store D × Wrote
write D sha512 s entries =
    Driver.set_batch D s (keys entries) (map (λ (e : String × Bytes). e.1) entries)
      (map (λ (e : String × Bytes). some (new_version sha512 e.1)) entries)

-- A batch that is written is what `Get` returns then, and nothing else changes; one that is not
-- written changes nothing.
pub record IsLawful (D : Driver) (sha512 : Bytes → Bytes) : Type 0 where
  pub written :
      (s : Driver.Store D) (entries : Dict Bytes)
      → Distinct entries
      → (write D sha512 s entries).1 ≡ wrote
      → (k : String)
      → Driver.get D (write D sha512 s entries).0 k
        ≡ settled sha512 (lookup k entries) (Driver.get D s k)
  pub not_written :
      (s : Driver.Store D) (ks : List String) (vs : List Bytes) (ws : List (Option Version))
      (e : StoreError)
      → (Driver.set_batch D s ks vs ws).1 ≡ failed e
      → (Driver.set_batch D s ks vs ws).0 ≡ s
