-- ===== src/Pool/Live.antt =====
-- The table of users names live sessions.
use multy_back.Prelude.{
  ℕ, zero, suc, ◌<◌, ◌≡◌, ◌≢◌, refl, sym, subst, ◌∙◌, Option, none, some, List, [], ◌∷◌, ◌++◌,
  arith, length, All, All-imp, Str, str_eq, str_eq_iff, Bool-cases, inl, inr, Option-cases, ◌>>=◌,
}
use multy_back.Pool.{
  Pool, Table, Session, Event, connected, disconnected, received, left, notified, Phase, running,
  leaving, gone, lookup, remove_entry, change_at, add_conn, take_conn, phase_of, drop_conn,
  connect_known, connect_new, connect, remove_user_conn, phase_at, user_at, take_sent, end,
  end_session, step_free, step_locked, step_by, step, run,
}

-- The place holds a session of the user whose goroutine has not returned.
abbrev pub IsEntry : List Session → Str × ℕ → Type 0
IsEntry ss e = (e.1 < length ss) × (user_at e.1 ss ≡ e.0) × (phase_at e.1 ss ≢ gone)

abbrev pub IsLive : Pool → Type 0
IsLive p = All (IsEntry p.sessions) p.users

-- A change of a session that keeps its user, and lets its goroutine live.
pub record IsHarmless (f : Session → Session) : Type 0 where
  pub same_user : (s : Session) → (f s).user_id ≡ s.user_id
  pub alive : (s : Session) → s.phase ≢ gone → (f s).phase ≢ gone

change-IsEntry :
    (k : ℕ) (f : Session → Session) (ss : List Session) (e : Str × ℕ)
    → IsHarmless f
    → IsEntry ss e
    → IsEntry (change_at k f ss) e
unfolding change_at user_at phase_at
change-IsEntry k f [] e h q = q
change-IsEntry zero f (s ∷ ss) (u, zero) h (lt, at, alive) =
    (omega arith, h.same_user s ∙ at, h.alive s alive)
change-IsEntry zero f (s ∷ ss) (u, suc j) h q = q
change-IsEntry (suc k) f (s ∷ ss) (u, zero) h (lt, at, alive) = (omega arith, at, alive)
change-IsEntry (suc k) f (s ∷ ss) (u, suc j) h (lt, at, alive) =
    let (lt', at', alive') = change-IsEntry k f ss (u, j) h (omega arith, at, alive) in
    (omega arith, at', alive')

append-IsEntry :
    (ss : List Session) (new : Session) (e : Str × ℕ) → IsEntry ss e → IsEntry (ss ++ new ∷ []) e
unfolding user_at phase_at
append-IsEntry [] new (u, j) (lt, at, alive) = absurd (omega arith)
append-IsEntry (s ∷ ss) new (u, zero) (lt, at, alive) = (omega arith, at, alive)
append-IsEntry (s ∷ ss) new (u, suc j) (lt, at, alive) =
    let (lt', at', alive') = append-IsEntry ss new (u, j) (omega arith, at, alive) in
    (omega arith, at', alive')

last-IsEntry :
    (ss : List Session) (new : Session)
    → new.phase ≢ gone
    → IsEntry (ss ++ new ∷ []) (new.user_id, length ss)
unfolding user_at phase_at
last-IsEntry [] new alive = (omega arith, refl, alive)
last-IsEntry (s ∷ ss) new alive =
    let (lt, at, alive') = last-IsEntry ss new alive in (omega arith, at, alive')

-- Another session's end.
end-IsEntry :
    (k : ℕ) (ss : List Session) (e : Str × ℕ)
    → e.0 ≢ user_at k ss
    → IsEntry ss e
    → IsEntry (change_at k end ss) e
unfolding change_at user_at phase_at
end-IsEntry k [] e ne q = q
end-IsEntry zero (s ∷ ss) (u, zero) ne (lt, at, alive) = absurd (ne (sym at))
end-IsEntry zero (s ∷ ss) (u, suc j) ne q = q
end-IsEntry (suc k) (s ∷ ss) (u, zero) ne (lt, at, alive) = (omega arith, at, alive)
end-IsEntry (suc k) (s ∷ ss) (u, suc j) ne (lt, at, alive) =
    let (lt', at', alive') = end-IsEntry k ss (u, j) ne (omega arith, at, alive) in
    (omega arith, at', alive')

add_conn-IsHarmless : (conn : Str) → IsHarmless (add_conn conn)
unfolding add_conn
add_conn-IsHarmless conn = record { same_user = λ s. refl; alive = λ s h. h }

phase_of_alive : (conns : List Str) → phase_of conns ≢ gone
phase_of_alive [] e = cc e
phase_of_alive (c ∷ cs) e = cc e

take_conn-IsHarmless : (conn : Str) → IsHarmless (take_conn conn)
unfolding take_conn
take_conn-IsHarmless conn = record {
  same_user = λ s. ground arith;
  alive = λ s h. ground (arith, phase_of_alive (drop_conn conn s.conns));
}

remove_entry-IsEntry :
    (k : ℕ) (ss : List Session) (table : Table)
    → All (IsEntry ss) table
    → All (IsEntry (change_at k end ss)) (remove_entry (user_at k ss) table)
unfolding remove_entry
remove_entry-IsEntry k ss [] h = tt
remove_entry-IsEntry k ss ((u, j) ∷ table) (q, h) = elim (Bool-cases (str_eq u (user_at k ss))) [
  | inl same ↦ rw same (remove_entry-IsEntry k ss table h)
  | inr other ↦ rw other (
    end-IsEntry k ss (u, j) (λ e. ground (arith, str_eq_iff u (user_at k ss))) q,
    remove_entry-IsEntry k ss table h,
  )
]

abbrev Alive : Option Pool → Type 0
Alive none = Unit
Alive (some p) = IsLive p

end_session-IsLive : (ph : Phase) (k : ℕ) (p : Pool) → IsLive p → Alive (end_session ph k p)
unfolding end_session
end_session-IsLive running k p h = tt
end_session-IsLive leaving k p h = remove_entry-IsEntry k p.sessions p.users h
end_session-IsLive gone k p h = tt

take_sent-IsLive :
    (ph : Phase) (conn : Str) (k : ℕ) (p : Pool) → IsLive p → Alive (take_sent ph conn k p)
unfolding take_sent
take_sent-IsLive running conn k p h =
    All-imp (λ e q. change-IsEntry k (take_conn conn) p.sessions e (take_conn-IsHarmless conn) q)
      p.users h
take_sent-IsLive leaving conn k p h = tt
take_sent-IsLive gone conn k p h = tt

connect-IsLive :
    (user conn : Str) (o : Option ℕ) (p : Pool) → IsLive p → IsLive (connect user conn o p)
unfolding connect connect_known connect_new
connect-IsLive user conn (some k) p h =
    All-imp (λ e q. change-IsEntry k (add_conn conn) p.sessions e (add_conn-IsHarmless conn) q)
      p.users h
connect-IsLive user conn none p h =
    let new : Session = record { user_id = user; conns = conn ∷ []; phase = running } in
    (
      last-IsEntry p.sessions new (λ e. cc e),
      All-imp (λ e q. append-IsEntry p.sessions new e q) p.users h,
    )

remove_user_conn-IsLive :
    (conn : Str) (o : Option ℕ) (p : Pool) → IsLive p → IsLive (remove_user_conn conn o p)
unfolding remove_user_conn
remove_user_conn-IsLive conn none p h = h
remove_user_conn-IsLive conn (some k) p h = h

step_free-IsLive : (ev : Event) (p : Pool) → IsLive p → Alive (step_free ev p)
unfolding step_free
step_free-IsLive (connected user conn) p h = connect-IsLive user conn (lookup user p.users) p h
step_free-IsLive (disconnected conn) p h = remove_user_conn-IsLive conn (lookup conn p.closers) p h
step_free-IsLive received p h = tt
step_free-IsLive (left k) p h = end_session-IsLive (phase_at k p.sessions) k p h
step_free-IsLive (notified user) p h = h

step_by-IsLive : (ev : Event) (o : Option (Str × ℕ)) (p : Pool) → IsLive p → Alive (step_by ev o p)
unfolding step_by step_locked
step_by-IsLive ev none p h = step_free-IsLive ev p h
step_by-IsLive (connected user conn') (some (conn, k)) p h = tt
step_by-IsLive (disconnected conn') (some (conn, k)) p h = tt
step_by-IsLive received (some (conn, k)) p h = take_sent-IsLive (phase_at k p.sessions) conn k p h
step_by-IsLive (left j) (some (conn, k)) p h = tt
step_by-IsLive (notified user) (some (conn, k)) p h = tt

-- After every sequence of events each user in the table of those online has a session there, of that
-- user, whose goroutine has not returned.
pub run-IsLive : (evs : List Event) (p p' : Pool) → IsLive p → run evs p ≡ some p' → IsLive p'
unfolding run step
run-IsLive [] p p' h e = subst Alive e h
run-IsLive (ev ∷ evs) p p' h e = elim (Option-cases (step_by ev p.sending p)) [
  | inl stopped ↦ absurd (cc (subst (λ o. (o >>= run evs) ≡ some p') stopped e))
  | inr (q, moved) ↦
      run-IsLive evs q p' (subst Alive moved (step_by-IsLive ev p.sending p h))
        (subst (λ o. (o >>= run evs) ≡ some p') moved e)
]
