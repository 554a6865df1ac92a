-- ===== src/Pool.antt =====
-- The pool of socket connections: client/socketio-client.go and the handlers of connection and
-- disconnection in client/socket-io.go. A handler runs under the lock `m`, and `removeUserConn` holds
-- it while it sends on the unbuffered channel of the user's goroutine.
pub mod Live
pub mod Stuck
mod Tests
use multy_back.Prelude.{
  ℕ, zero, suc, Bool, true, false, not, Option, none, some, List, [], ◌∷◌, ◌++◌, ◌==◌, get_elem?,
  keep_if, length, if◌then◌else◌, Str, str_eq, ◌>>=◌,
}

-- `runUpdateExchange` of a user: it waits for its channel, it has lost its last connection and waits
-- for the lock in `removeUserFromPool`, or it has returned.
pub data Phase : Type 0 where
  running leaving gone : Phase

-- `SocketIOUser`
pub record Session : Type 0 where
  pub user_id : Str
  pub conns : List Str
  pub phase : Phase

-- Maps from texts to the sessions, which are known by their place in the heap.
abbrev pub Table : Type 0
Table = List (Str × ℕ)

unfoldable pub lookup : Str → Table → Option ℕ
lookup key [] = none
lookup key ((k, v) ∷ table) = if str_eq k key then some v else lookup key table

unfoldable pub remove_entry : Str → Table → Table
remove_entry key [] = []
remove_entry key ((k, v) ∷ table) =
    let rest = remove_entry key table in if str_eq k key then rest else (k, v) ∷ rest

-- `SocketIOConnectedPool`: `users`, `closeChByConnID`, and the connection that `removeUserConn` is
-- sending to a session, if it is, which then has the lock.
pub record Pool : Type 0 where
  pub sessions : List Session
  pub users : Table
  pub closers : Table
  pub sending : Option (Str × ℕ)

abbrev pub new_pool : Pool
new_pool = record { sessions = []; users = []; closers = []; sending = none }

unfoldable pub change_at : ℕ → (Session → Session) → List Session → List Session
change_at k f [] = []
change_at zero f (s ∷ ss) = f s ∷ ss
change_at (suc k) f (s ∷ ss) = s ∷ change_at k f ss

-- What happens to the pool. The ticks of the goroutines change nothing, and need no lock.
pub data Event : Type 0 where
  connected : Str → Str → Event
  disconnected : Str → Event
  received : Event
  left : ℕ → Event
  notified : Str → Event

unfoldable pub drop_conn : Str → List Str → List Str
drop_conn conn = keep_if (λ c. not (str_eq c conn))

unfoldable pub add_conn : Str → Session → Session
unfolding drop_conn
add_conn conn s = record s { conns = conn ∷ drop_conn conn s.conns }

unfoldable pub has_conn : Str → List Str → Bool
has_conn conn [] = false
has_conn conn (c ∷ cs) = if str_eq c conn then true else has_conn conn cs

abbrev pub phase_of : List Str → Phase
phase_of [] = leaving
phase_of (c ∷ cs) = running

-- The goroutine takes a connection from its channel.
unfoldable pub take_conn : Str → Session → Session
take_conn conn s =
    if has_conn conn s.conns
    then record s { conns = drop_conn conn s.conns; phase = phase_of (drop_conn conn s.conns) }
    else s

-- `OnConnection`: the user's session, or a new one.
unfoldable pub connect_known : Str → ℕ → Pool → Pool
connect_known conn k p = record p {
  sessions = change_at k (add_conn conn) p.sessions;
  closers = (conn, k) ∷ remove_entry conn p.closers;
}

unfoldable pub connect_new : Str → Str → Pool → Pool
connect_new user conn p = record p {
  sessions = p.sessions ++ record { user_id = user; conns = conn ∷ []; phase = running } ∷ [];
  users = (user, length p.sessions) ∷ p.users;
  closers = (conn, length p.sessions) ∷ remove_entry conn p.closers;
}

unfoldable pub connect : Str → Str → Option ℕ → Pool → Pool
connect user conn (some k) p = connect_known conn k p
connect user conn none p = connect_new user conn p

-- `removeUserConn` up to the send.
unfoldable pub remove_user_conn : Str → Option ℕ → Pool → Pool
remove_user_conn conn none p = p
remove_user_conn conn (some k) p = record p {
  closers = remove_entry conn p.closers;
  sending = some (conn, k);
}

unfoldable pub phase_at : ℕ → List Session → Phase
phase_at k [] = gone
phase_at zero (s ∷ ss) = s.phase
phase_at (suc k) (s ∷ ss) = phase_at k ss

-- The send, which only a goroutine that runs takes.
unfoldable pub take_sent : Phase → Str → ℕ → Pool → Option Pool
take_sent running conn k p =
    some (record p { sessions = change_at k (take_conn conn) p.sessions; sending = none })
take_sent leaving conn k p = none
take_sent gone conn k p = none

abbrev pub end : Session → Session
end s = record s { phase = gone }

unfoldable pub user_at : ℕ → List Session → Str
user_at k [] = []
user_at zero (s ∷ ss) = s.user_id
user_at (suc k) (s ∷ ss) = user_at k ss

-- `removeUserFromPool`, and the end of the goroutine.
unfoldable pub end_session : Phase → ℕ → Pool → Option Pool
end_session running k p = none
end_session leaving k p = some (record p {
  sessions = change_at k end p.sessions;
  users = remove_entry (user_at k p.sessions) p.users;
})
end_session gone k p = none

-- An event while the lock is free, and while `removeUserConn` has it.
unfoldable pub step_free : Event → Pool → Option Pool
step_free (connected user conn) p = some (connect user conn (lookup user p.users) p)
step_free (disconnected conn) p = some (remove_user_conn conn (lookup conn p.closers) p)
step_free received p = none
step_free (left k) p = end_session (phase_at k p.sessions) k p
step_free (notified user) p = some p

unfoldable pub step_locked : Event → Str → ℕ → Pool → Option Pool
step_locked (connected user conn') conn k p = none
step_locked (disconnected conn') conn k p = none
step_locked received conn k p = take_sent (phase_at k p.sessions) conn k p
step_locked (left j) conn k p = none
step_locked (notified user) conn k p = none

unfoldable pub step_by : Event → Option (Str × ℕ) → Pool → Option Pool
step_by ev none p = step_free ev p
step_by ev (some (conn, k)) p = step_locked ev conn k p

-- `none`: the event cannot happen in this state.
unfoldable pub step : Event → Pool → Option Pool
step ev p = step_by ev p.sending p

unfoldable pub run : List Event → Pool → Option Pool
run [] p = some p
run (ev ∷ evs) p = do p' ← step ev p; run evs p'
