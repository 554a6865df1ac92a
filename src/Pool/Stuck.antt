-- ===== src/Pool/Stuck.antt =====
-- How the pool comes to a stop: a user who comes back before the goroutine of the last connection has
-- got the lock.
use multy_back.Prelude.{
  ℕ, zero, suc, ◌≡◌, ◌≢◌, refl, ap, ◌∙◌, Option, none, some, List, [], ◌∷◌, Str, str_eq_refl,
}
use multy_back.Pool.{
  Pool, Table, Session, Event, connected, disconnected, received, left, notified, Phase, running,
  leaving, gone, lookup, remove_entry, change_at, drop_conn, add_conn, has_conn, take_conn,
  connect_known, connect, remove_user_conn, phase_at, take_sent, step_free, step_locked, step_by,
  step, run,
}

receive_not_running :
    (ph : Phase) (conn : Str) (k : ℕ) (p : Pool) → ph ≢ running → take_sent ph conn k p ≡ none
unfolding take_sent
receive_not_running running conn k p h = absurd (h refl)
receive_not_running leaving conn k p h = refl
receive_not_running gone conn k p h = refl

locked_out :
    (ev : Event) (conn : Str) (k : ℕ) (p : Pool)
    → phase_at k p.sessions ≢ running
    → step_locked ev conn k p ≡ none
unfolding step_locked
locked_out (connected user conn') conn k p h = refl
locked_out (disconnected conn') conn k p h = refl
locked_out received conn k p h = receive_not_running (phase_at k p.sessions) conn k p h
locked_out (left j) conn k p h = refl
locked_out (notified user) conn k p h = refl

-- A pool that sends a connection to a goroutine that no longer takes any.
pub step_stuck :
    (ev : Event) (conn : Str) (k : ℕ) (p : Pool)
    → p.sending ≡ some (conn, k)
    → phase_at k p.sessions ≢ running
    → step ev p ≡ none
unfolding step step_by
step_stuck ev conn k p e h = ap (λ o. step_by ev o p) e ∙ locked_out ev conn k p h

-- The session at a place.
abbrev pub session_at : ℕ → List Session → Option Session
session_at k [] = none
session_at zero (s ∷ ss) = some s
session_at (suc k) (s ∷ ss) = session_at k ss

session_at-change_at :
    (k : ℕ) (f : Session → Session) (ss : List Session) (s : Session)
    → session_at k ss ≡ some s
    → session_at k (change_at k f ss) ≡ some (f s)
unfolding change_at
session_at-change_at k f [] s e = absurd (cc)
session_at-change_at zero f (x ∷ ss) s e = cc
session_at-change_at (suc k) f (x ∷ ss) s e = session_at-change_at k f ss s e

phase_at-session_at :
    (k : ℕ) (ss : List Session) (s : Session) → session_at k ss ≡ some s → phase_at k ss ≡ s.phase
unfolding phase_at
phase_at-session_at k [] s e = absurd (cc)
phase_at-session_at zero (x ∷ ss) s e = cc
phase_at-session_at (suc k) (x ∷ ss) s e = phase_at-session_at k ss s e

-- The user has one connection, the goroutine runs, and the lock is free.
pub record IsAlone (p : Pool) (user conn : Str) (k : ℕ) : Type 0 where
  pub free : p.sending ≡ none
  pub alone :
      session_at k p.sessions ≡ some (record { user_id = user; conns = conn ∷ []; phase = running })
  pub known : lookup user p.users ≡ some k
  pub closes : lookup conn p.closers ≡ some k

-- The connection ends, the goroutine takes it, and the user comes back by another connection, which
-- ends in turn, all before the goroutine has the lock.
abbrev pub comes_back : Str → Str → Str → List Event
comes_back user conn conn' =
    disconnected conn ∷ received ∷ connected user conn' ∷ disconnected conn' ∷ []

module _ (user conn conn' : Str) (k : ℕ) where
  ending : Pool → Pool
  ending p = record p { closers = remove_entry conn p.closers; sending = some (conn, k) }

  taken : Pool → Pool
  taken p = record p { sessions = change_at k (take_conn conn) p.sessions; sending = none }

  -- Where the pool stops.
  unfoldable pub stopped : Pool → Pool
  unfolding ending taken connect_known
  stopped p =
      let back = connect_known conn' k (taken (ending p)) in
      record back { closers = remove_entry conn' back.closers; sending = some (conn', k) }

  lookup_first : (v : ℕ) (table : Table) → lookup conn' ((conn', v) ∷ table) ≡ some v
  unfolding lookup
  lookup_first v table = rw (str_eq_refl conn') refl

  -- The session of the user is about to end when the new connection is added to it.
  stopped-session :
      (p : Pool)
      → IsAlone p user conn k
      → session_at k (stopped p).sessions
        ≡ some (record { user_id = user; conns = conn' ∷ []; phase = leaving })
  unfolding stopped ending taken connect_known take_conn add_conn has_conn drop_conn
  stopped-session p h =
      let s : Session = record { user_id = user; conns = conn ∷ []; phase = running } in
      let after = session_at-change_at k (take_conn conn) p.sessions s h.alone in
      session_at-change_at k (add_conn conn') (change_at k (take_conn conn) p.sessions)
        (take_conn conn s) after
      ∙ rw (str_eq_refl conn) refl

  stopped-run :
      (p : Pool) → IsAlone p user conn k → run (comes_back user conn conn') p ≡ some (stopped p)
  unfolding run step step_by step_free step_locked remove_user_conn connect take_sent stopped ending
      taken connect_known
  stopped-run p h =
      rw
        (
          h.free,
          h.closes,
          phase_at-session_at k p.sessions _ h.alone,
          h.known,
          lookup_first k (remove_entry conn' (remove_entry conn p.closers)),
        )
        refl

  -- A user with one connection who comes back while it ends, before the goroutine has the lock, and
  -- goes again stops the pool for good: all four events can happen, and after them no connection, no
  -- disconnection, no notification of a transaction and no departure of anybody can.
  pub run_stops :
      (p : Pool)
      → IsAlone p user conn k
      → (run (comes_back user conn conn') p ≡ some (stopped p))
        × ((ev : Event) → step ev (stopped p) ≡ none)
  run_stops p h = (
    stopped-run p h,
    λ ev.
        step_stuck ev conn' k (stopped p) (unfold stopped in refl)
          (λ e. cc (e, phase_at-session_at k (stopped p).sessions _ (stopped-session p h))),
  )
