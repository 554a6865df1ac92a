-- ===== src/Mempool/Tests.antt =====
-- The pool's theorems on a short exchange of messages.
use multy_back.Prelude.{◌≡◌, List, [], ◌∷◌, codes}
use multy_back.Mempool.{Message, deleted, added, load, run}
use multy_back.Mempool.Replay.{last_word, load-run}

abbrev messages : List Message
messages = added (codes "a") 7 ∷ added (codes "b") 3 ∷ deleted (codes "a") ∷ []

load-run_example :
    load (codes "b") (run messages []) ≡ last_word (codes "b") messages (load (codes "b") [])
load-run_example = load-run (codes "b") messages [] tt
