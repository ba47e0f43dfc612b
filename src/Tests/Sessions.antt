-- ===== src/Tests/Sessions.antt =====
-- Examples for src/server/Session.cpp.
use cybermp.Base.{
  ℕ, ◌^◌, ◌≤◌, ◌<◌, ◌≡◌, ◌≢◌, refl, List, [], ◌∷◌, ◌++◌, Bool, true, false, Option, none, some, ◌⊎◌,
  inl, inr, arith, codes, length, ◌+◌,
}
use cybermp.Proto.Header.{version}
use cybermp.Session.{
  accepted, already_joined, name_taken, full, join, find_endpoint, find_player, count, new_manager,
  new_session, invalid_player, eq_endpoint,
}
use cybermp.Session.Histories.{Call, joins, touches, expires, applies, removes, calls}
use cybermp.Session.Contract.{view, Steps}
use cybermp.Session.Refines.{answers, history_refines}
use cybermp.Session.Joining.{join_accepted, join_wraps}
use cybermp.Session.Timeouts.{overdue}
use cybermp.Tests.{
  alice, bob, carol, place, alice_session, two_players, two_players-IsValid, nearly_wrapped,
}

-- Runs on small inputs.
full_server :
    (join carol (codes "carol") version 5 (record two_players { max_players = 2 })).0 ≡ full
unfolding join find_endpoint cybermp.Base.find_if eq_endpoint cybermp.Base.any_of
    cybermp.Base.eq_bytes
full_server = refl

overdue_one : overdue 7000 two_players ≡ alice_session ∷ []
unfolding cybermp.Base.filter_by
overdue_one = refl

abbrev history : List Call
history =
    joins alice (codes "alice") version 0
    ∷ joins bob (codes "bob") version 10
    ∷ applies alice 1 place 0
    ∷ touches bob 20
    ∷ expires 6000
    ∷ removes 2
    ∷ []

history_refines_example :
    let m = new_manager 4 5000 in
    Steps 4 5000 (view m) history (answers history m) (view (calls history m))
history_refines_example = history_refines 4 5000 history (omega arith)

carol_accepted : (join carol (codes "carol") version 5 two_players).0 ≡ accepted
unfolding join find_endpoint cybermp.Base.find_if eq_endpoint cybermp.Base.any_of
    cybermp.Base.eq_bytes
carol_accepted = refl

join_accepted_example :
    let r = join carol (codes "carol") version 5 two_players in
    (find_endpoint carol two_players ≡ none)
    × (find_player r.1 two_players ≡ none)
    × (find_endpoint carol r.2 ≡ some (new_session r.1 (codes "carol") carol 5))
    × (find_player r.1 r.2 ≡ some (new_session r.1 (codes "carol") carol 5))
    × (count r.2 ≡ count two_players + 1)
join_accepted_example =
    join_accepted two_players carol (codes "carol") version 5 two_players-IsValid carol_accepted

bob_taken : (join carol (codes "bob") version 5 two_players).0 ≡ name_taken
unfolding join find_endpoint cybermp.Base.find_if eq_endpoint cybermp.Base.any_of
    cybermp.Base.eq_bytes
bob_taken = refl

not_accepted : name_taken ≢ accepted
not_accepted e = ground (arith, e)

not_joined : name_taken ≢ already_joined
not_joined e = ground (arith, e)

first_in : (join alice (codes "alice") version 5 nearly_wrapped).0 ≡ accepted
unfolding join find_endpoint cybermp.Base.find_if eq_endpoint cybermp.Base.any_of
    cybermp.Base.eq_bytes
first_in = refl

second_in :
    (join bob (codes "bob") version 9 (join alice (codes "alice") version 5 nearly_wrapped).2).0
    ≡ accepted
unfolding join find_endpoint cybermp.Base.find_if eq_endpoint cybermp.Base.any_of
    cybermp.Base.eq_bytes
second_in = refl

join_wraps_example :
    let r =
      join bob (codes "bob") version 9 (join alice (codes "alice") version 5 nearly_wrapped).2 in
    (r.1 ≡ invalid_player) × (find_player r.1 r.2 ≡ none)
join_wraps_example =
    join_wraps nearly_wrapped alice bob (codes "alice") (codes "bob") 5 9 refl first_in second_in

alice_found : find_endpoint alice two_players ≡ some alice_session
unfolding find_endpoint cybermp.Base.find_if eq_endpoint
alice_found = refl
