-- ===== src/Mempool.antt =====
-- The pool of unconfirmed transactions: the loop that reads `mempoolCh` in btc/handlers.go and
-- eth/handlers.go. The `sync.Map` from a hash to a category (the fee) is a list of entries.
pub mod Replay
mod Tests
use multy_back.Prelude.{ℕ, Bool, List, [], ◌∷◌, Option, none, some, Str, str_eq, if◌then◌else◌, map}

abbrev pub Pool : Type 0
Pool = List (Str × ℕ)

-- What the streams put on the channel: the hash of a transaction that left the pool, or a record.
pub data Message : Type 0 where
  deleted : Str → Message
  added : Str → ℕ → Message

-- What the map holds for a hash. The program itself reads the map by `Range` only.
unfoldable pub load : Str → Pool → Option ℕ
load k [] = none
load k ((j, v) ∷ pool) = if str_eq j k then some v else load k pool

-- `sync.Map.Delete`
unfoldable pub delete : Str → Pool → Pool
delete k [] = []
delete k ((j, v) ∷ pool) = if str_eq j k then pool else (j, v) ∷ delete k pool

-- `sync.Map.Store`
unfoldable pub store : Str → ℕ → Pool → Pool
store k v [] = (k, v) ∷ []
store k v ((j, w) ∷ pool) = if str_eq j k then (k, v) ∷ pool else (j, w) ∷ store k v pool

-- One round of the loop.
unfoldable pub receive_message : Message → Pool → Pool
receive_message (deleted hash) pool = delete hash pool
receive_message (added hash category) pool = store hash category pool

unfoldable pub run : List Message → Pool → Pool
run [] pool = pool
run (m ∷ ms) pool = run ms (receive_message m pool)

-- The fees that `fetchMempool` collects by `Range`.
abbrev pub fees : Pool → List ℕ
fees = map (λ e. e.1)
