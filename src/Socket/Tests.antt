-- ===== src/Socket/Tests.antt =====
-- The theorems on the socket's handlers, on the small database.
use multy_back.Prelude.{
  find, map, ℕ, ◌+◌, ◌≡◌, refl, subst, true, false, none, some, inl, inr, length, any, any, arith,
  codes, str_eq, i64_gt, ◌==◌, if◌then◌else◌, Str,
}
use multy_back.Store.Schemas.{User, Multisig, msg_join, waiting_for_join, all_joined}
use multy_back.Store.Collection.{ok, modify}
use multy_back.Store.Memory.{memory_update, found}
use multy_back.Store.Multisigs.{
  is_user, is_invite, has_invite, has_address, first_multisig, last_info, invite_code_info,
  check_invite_code, find_multisig_users, is_related_address, check_multisig_currency,
  find_multisig, join_multisig,
}
use multy_back.Socket.Messages.{entity, done, at_address, is_creator_at}
use multy_back.Socket.Join.{join, joined}
use multy_back.Socket.Kick.{kick}
use multy_back.Socket.Delete.{delete}
use multy_back.Socket.Handler.{World, on_message, dispatch, on_users}
use multy_back.Socket.Capped.{AllCapped}
use multy_back.Socket.Reachable.{Step, receive, stay, next, Reach-AllCapped}
use multy_back.Socket.Refusals.{IsIdle, join_refused, only_creator}
use multy_back.Socket.Acceptance.{to_online, gains, join_accepted}
use multy_back.Socket.Joined.{bare_user}
use multy_back.Socket.Fixture.{
  users_memory, txs_memory, scene, scene-IsScene, for_two, people, from_bob, world,
}

abbrev two : Str → ℕ
two code = 2

-- The world after Bob's join.
abbrev joined_world : World users_memory txs_memory
joined_world = record world { users = (join users_memory scene from_bob people).state }

bob_joins : Step users_memory txs_memory world joined_world
unfolding on_message dispatch
bob_joins =
    receive scene msg_join from_bob none world joined_world
      (on_users users_memory txs_memory world (join users_memory scene from_bob people))
      scene-IsScene refl refl

Reach-AllCapped_example : AllCapped two users_memory joined_world.users
Reach-AllCapped_example =
    Reach-AllCapped two users_memory txs_memory world joined_world
      (next world world joined_world (stay world) bob_joins) (omega arith)

known : check_invite_code users_memory from_bob.invite_code people ≡ false
unfolding check_invite_code has_invite is_invite str_eq found
known = refl

new :
    any (is_user from_bob.user_id) (find_multisig_users users_memory from_bob.invite_code people)
    ≡ false
unfolding is_user find_multisig_users has_invite is_invite str_eq
new = refl

related : is_related_address users_memory from_bob.user_id from_bob.address people ≡ true
unfolding is_related_address is_user has_address str_eq found
related = refl

currency : check_multisig_currency users_memory from_bob.invite_code 60 4 people ≡ true
unfolding check_multisig_currency invite_code_info last_info has_invite is_invite str_eq found
currency = refl

found_it : find_multisig users_memory from_bob.invite_code people ≡ some for_two
unfolding find_multisig first_multisig has_invite is_invite str_eq
found_it = refl

room : i64_gt for_two.owners_count (length for_two.owners) ≡ true
unfolding i64_gt
room = refl

written : (join_multisig users_memory from_bob.user_id (joined from_bob for_two) people).0 ≡ ok tt
unfolding join_multisig memory_update is_user str_eq
written = refl

join_accepted_example :
    ((join users_memory scene from_bob people).reply ≡ done scene msg_join from_bob.user_id)
    × ((join users_memory scene from_bob people).sent
        ≡ to_online users_memory scene msg_join
            (entity (joined from_bob for_two))
            (find_multisig_users users_memory from_bob.invite_code people))
    × ((u : User) × (find (is_user from_bob.user_id) people ≡ some u)
        × (find (is_user from_bob.user_id) (join users_memory scene from_bob people).state
            ≡ some (gains users_memory scene (joined from_bob for_two) u)))
    × (map bare_user (join users_memory scene from_bob people).state
        ≡ map bare_user (
            modify
              (is_user from_bob.user_id)
              (gains users_memory scene (joined from_bob for_two))
              people))
    × (length (joined from_bob for_two).owners ≡ 2)
    × ((joined from_bob for_two).deploy_status ≡ (
        if length for_two.owners + 1 == for_two.owners_count then all_joined else waiting_for_join))
join_accepted_example =
    join_accepted users_memory scene from_bob for_two people known new related currency found_it
      room written refl

unrelated : is_related_address users_memory (codes "bob") (codes "0xdead") people ≡ false
unfolding is_related_address found is_user str_eq has_address
unrelated = refl

join_refused_example :
    IsIdle people (join users_memory scene (record from_bob { address = codes "0xdead" }) people)
join_refused_example =
    join_refused users_memory scene (record from_bob { address = codes "0xdead" }) people
      (inr (inr (inl unrelated)))

bob_is_no_creator : any (is_creator_at from_bob.address) for_two.owners ≡ false
unfolding is_creator_at at_address str_eq
bob_is_no_creator = refl

bob_is_no_owner : any (at_address from_bob.address) for_two.owners ≡ false
unfolding at_address str_eq
bob_is_no_owner = refl

found_one :
    (m : Multisig) → find_multisig users_memory from_bob.invite_code people ≡ some m → for_two ≡ m
found_one m e = cc (found_it, e)

only_creator_example :
    IsIdle people (kick users_memory scene from_bob people)
    × IsIdle people (delete users_memory scene from_bob people)
only_creator_example = only_creator users_memory scene from_bob people (λ m e.
    subst (λ t. any (is_creator_at from_bob.address) t.owners ≡ false) (found_one m e)
      bob_is_no_creator)
