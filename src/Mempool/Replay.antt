-- ===== src/Mempool/Replay.antt =====
-- What the pool holds after any interleaving of the streams' messages.
use multy_back.Prelude.{
  ℕ, ◌≡◌, ◌≢◌, refl, true, List, [], ◌∷◌, Option, none, some, Str, str_eq, str_eq_iff,
  if◌then◌else◌, arith,
}
use multy_back.Mempool.{Pool, Message, deleted, added, load, delete, store, receive_message, run}

-- No hash is listed twice, so `Range` visits each transaction once.
abbrev pub IsMap : Pool → Type 0
IsMap [] = Unit
IsMap ((k, v) ∷ pool) = (load k pool ≡ none) × IsMap pool

load-store :
    (j k : Str) (v : ℕ) (p : Pool)
    → load j (store k v p) ≡ (if str_eq k j then some v else load j p)
unfolding load store
load-store j k v [] = refl
load-store j k v ((i, w) ∷ p) =
    ground (arith, str_eq_iff k j, str_eq_iff i k, str_eq_iff i j, load-store j k v p)

load-delete_ne : (j k : Str) (p : Pool) → str_eq k j ≢ true → load j (delete k p) ≡ load j p
unfolding load delete
load-delete_ne j k [] h = refl
load-delete_ne j k ((i, w) ∷ p) h =
    ground (arith, str_eq_iff k j, str_eq_iff i k, str_eq_iff i j, load-delete_ne j k p h)

load-delete_self : (k : Str) (p : Pool) → IsMap p → load k (delete k p) ≡ none
unfolding load delete
load-delete_self k [] h = refl
load-delete_self k ((i, w) ∷ p) (fresh, h) = ground (arith, str_eq_iff i k, load-delete_self k p h)

load-delete :
    (j k : Str) (p : Pool) → IsMap p → load j (delete k p) ≡ (if str_eq k j then none else load j p)
load-delete j k p h = ground (arith, str_eq_iff k j, load-delete_ne j k p, load-delete_self k p h)

store-IsMap : (k : Str) (v : ℕ) (p : Pool) → IsMap p → IsMap (store k v p)
unfolding store load
store-IsMap k v [] h = (refl, tt)
store-IsMap k v ((i, w) ∷ p) (fresh, h) =
    ground (arith, str_eq_iff i k, str_eq_iff k i, store-IsMap k v p h, load-store i k v p)

delete-IsMap : (k : Str) (p : Pool) → IsMap p → IsMap (delete k p)
unfolding delete load
delete-IsMap k [] h = tt
delete-IsMap k ((i, w) ∷ p) (fresh, h) =
    ground (arith, str_eq_iff i k, str_eq_iff k i, delete-IsMap k p h, load-delete i k p h)

receive_message-IsMap : (m : Message) (p : Pool) → IsMap p → IsMap (receive_message m p)
unfolding receive_message
receive_message-IsMap (deleted k) p h = delete-IsMap k p h
receive_message-IsMap (added k v) p h = store-IsMap k v p h

-- Every sequence of messages keeps one entry for each hash.
pub run-IsMap : (ms : List Message) (p : Pool) → IsMap p → IsMap (run ms p)
unfolding run
run-IsMap [] p h = h
run-IsMap (m ∷ ms) p h = run-IsMap ms (receive_message m p) (receive_message-IsMap m p h)

-- The last word of the messages on a hash, where `before` is what held before them.
abbrev pub last_word : Str → List Message → Option ℕ → Option ℕ
last_word k [] before = before
last_word k (deleted j ∷ ms) before = last_word k ms (if str_eq j k then none else before)
last_word k (added j v ∷ ms) before = last_word k ms (if str_eq j k then some v else before)

-- After any interleaving of additions and deletions the pool holds for a hash what the last
-- message about it said, and what it held before if none was about it.
pub load-run :
    (k : Str) (ms : List Message) (p : Pool)
    → IsMap p
    → load k (run ms p) ≡ last_word k ms (load k p)
unfolding run
load-run k [] p h = refl
load-run k (deleted j ∷ ms) p h =
    rw (load-run k ms (receive_message (deleted j) p) (receive_message-IsMap (deleted j) p h))
      (unfold receive_message in rw (load-delete k j p h))
load-run k (added j v ∷ ms) p h =
    rw (load-run k ms (receive_message (added j v) p) (receive_message-IsMap (added j v) p h))
      (unfold receive_message in rw (load-store k j v p))
