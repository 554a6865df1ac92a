-- ===== src/Pool/Tests.antt =====
-- The pool's theorems, on a user who reconnects while their goroutine is about to return.
use multy_back.Prelude.{◌≡◌, refl, none, some, List, [], ◌∷◌, Str, codes, str_eq}
use multy_back.Pool.{
  Pool, new_pool, Event, connected, disconnected, received, left, Phase, running, gone, lookup,
  remove_entry, change_at, drop_conn, add_conn, has_conn, take_conn, connect_known, connect_new,
  connect, remove_user_conn, phase_at, take_sent, user_at, end_session, step_free, step_locked,
  step_by, step, run,
}
use multy_back.Pool.Live.{IsLive, run-IsLive}
use multy_back.Pool.Stuck.{IsAlone, comes_back, stopped, run_stops}

-- The connection a ends, the goroutine takes it and waits for the lock; the user comes back by b
-- before it has the lock; it returns, and b ends.
abbrev reconnect : List Event
reconnect =
    connected (codes "u") (codes "a")
    ∷ disconnected (codes "a")
    ∷ received
    ∷ connected (codes "u") (codes "b")
    ∷ left 0
    ∷ disconnected (codes "b")
    ∷ []

abbrev one_session : Phase → List Str → Pool
one_session ph conns = record new_pool {
  sessions = record { user_id = codes "u"; conns = conns; phase = ph } ∷ [];
  users = (codes "u", 0) ∷ [];
  closers = (codes "a", 0) ∷ [];
}

abbrev stuck_pool : Pool
stuck_pool = record {
  sessions = record { user_id = codes "u"; conns = codes "b" ∷ []; phase = gone } ∷ [];
  users = [];
  closers = [];
  sending = some (codes "b", 0);
}

reconnect-run : run reconnect new_pool ≡ some stuck_pool
unfolding run step step_by step_free connect lookup connect_new remove_user_conn str_eq step_locked
    take_sent phase_at connect_known end_session change_at add_conn take_conn has_conn drop_conn
    remove_entry user_at
reconnect-run = refl

abbrev alone : Pool
alone = one_session running (codes "a" ∷ [])

alone-IsAlone : IsAlone alone (codes "u") (codes "a") 0
unfolding lookup str_eq
alone-IsAlone = record { free = refl; alone = refl; known = refl; closes = refl }

run_stops_example :
    (run (comes_back (codes "u") (codes "a") (codes "b")) alone
      ≡ some (stopped (codes "u") (codes "a") (codes "b") 0 alone))
    × ((ev : Event) → step ev (stopped (codes "u") (codes "a") (codes "b") 0 alone) ≡ none)
run_stops_example = run_stops (codes "u") (codes "a") (codes "b") 0 alone alone-IsAlone

connect_run :
    run (connected (codes "u") (codes "a") ∷ []) new_pool
    ≡ some (one_session running (codes "a" ∷ []))
unfolding run step step_by step_free connect lookup connect_new remove_entry
connect_run = refl

run-IsLive_example : IsLive (one_session running (codes "a" ∷ []))
run-IsLive_example =
    run-IsLive (connected (codes "u") (codes "a") ∷ []) new_pool
      (one_session running (codes "a" ∷ [])) tt connect_run
