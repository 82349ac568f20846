-- ===== src/Polling/Handle/Dispatch.antt =====
-- poll_handle.cc: which callbacks `handle_event` calls.
use m_server.Prelude.{ℕ, ◌<◌, ◌≡◌, ◌≢◌, List, [], ◌∷◌, true, arith, map}
use m_server.Polling.Mask.{any}
use m_server.Polling.Handle.{Handle, Callback, read, write, err, close, bind_handler, handle_event}

abbrev pub rank : Callback → ℕ
rank err = 0
rank close = 1
rank read = 2
rank write = 3

-- The list rises, so each rank stands in it at most once.
abbrev pub Rises : List ℕ → Type 0
Rises [] = Unit {0}
Rises (n ∷ []) = Unit {0}
Rises (n ∷ m ∷ ns) = (n < m) × Rises (m ∷ ns)

-- `handle_event` calls each callback at most once, in the order error, close, read, write.
pub handle_event-Rises : (h : Handle) → Rises (map rank (handle_event h).0)
unfolding handle_event
handle_event-Rises h = ground arith

-- With a handler bound, any event that poll(2) reports leads to a call.
pub handle_event-ne-nil :
    (h : Handle) → any h.revents ≡ true → (handle_event (bind_handler h)).0 ≢ []
unfolding handle_event bind_handler any
handle_event-ne-nil h e = ground arith
