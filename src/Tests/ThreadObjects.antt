-- ===== src/Tests/ThreadObjects.antt =====
-- Runs of the thread objects of src/base/source/thread.cc.
use m_server.Prelude.{List, [], ◌∷◌, some, true}
use m_server.Thread.{Thread, Op, starred, joined_by_owner, ran, returned, joinable}

-- A thread that is started, runs and is joined, and started again.
abbrev calls : List Op
calls = starred true ∷ ran returned ∷ joined_by_owner ∷ starred true ∷ []

abbrev restarted : Thread
restarted = record {
  number = some 4;
  start = true;
  handle = some joinable;
  made = 2;
  joins = 1;
  detached = 0;
  lost = 0;
}
