-- ===== src/Polling.antt =====
-- src/net/include/poll_handle.hh, src/net/source/poll_handle.cc, src/net/include/poll/spoller.hh
-- and src/net/source/poll/spoller.cc: descriptors, their handles and the table that poll(2) reads;
-- and src/net/source/poll/epoller.cc.
pub mod Mask
pub mod Handle
pub mod Spoller
pub mod Epoller
