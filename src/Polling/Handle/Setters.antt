-- ===== src/Polling/Handle/Setters.antt =====
-- src/net/include/poll_handle.hh: the setters. A callback is known by whether it is set.
use m_server.Prelude.{ℕ, ◌≡◌, refl, Option, Bool, true}
use m_server.Polling.Mask.{Mask}
use m_server.Polling.Handle.{Handle, bind_handler}

pub set_revents : Mask → Handle → Handle
set_revents revents h = record h { revents = revents }

-- `none` stands for -1.
pub set_index : Option ℕ → Handle → Handle
set_index idx h = record h { index = idx }

pub set_read_callback : Bool → Handle → Handle
set_read_callback cb h = record h { read_callback = cb }

pub set_write_callback : Bool → Handle → Handle
set_write_callback cb h = record h { write_callback = cb }

pub set_err_callback : Bool → Handle → Handle
set_err_callback cb h = record h { err_callback = cb }

pub set_close_callback : Bool → Handle → Handle
set_close_callback cb h = record h { close_callback = cb }

-- `bind_handler` sets what the four setters of callbacks set.
pub bind_handler-set :
    (h : Handle)
    → bind_handler h
      ≡ set_close_callback true
          (set_err_callback true (set_write_callback true (set_read_callback true h)))
unfolding bind_handler set_read_callback set_write_callback set_err_callback set_close_callback
bind_handler-set h = refl
