-- ===== src/Tests/Sockets.antt =====
-- Runs of the sockets of src/net/source/socket.cc.
use m_server.Prelude.{ℕ, refl, List, [], ◌∷◌, some, arith}
use m_server.Socket.{move}
use m_server.Socket.Counts.{count}
use m_server.Socket.Ownership.{
  World, Event, created, moved, destroyed, owned, move_object, step, run, Allowed, IsOwned,
  run-IsOwned,
}

-- An address is a number.
abbrev empty : World ℕ
empty = record { opened = []; objects = [] }

empty-IsOwned : IsOwned empty
unfolding owned count
empty-IsOwned n = (refl, omega arith)

-- A socket on 3 is moved from, a second one made on 4, and the first one's destructor runs.
abbrev events : List Event
events = created (some 3) ∷ moved 0 ∷ created (some 4) ∷ destroyed 2 ∷ []

events-Allowed : Allowed events empty
unfolding step move_object move count
events-Allowed = ground arith

run-IsOwned_example : IsOwned (run events empty)
run-IsOwned_example = run-IsOwned events empty events-Allowed empty-IsOwned
