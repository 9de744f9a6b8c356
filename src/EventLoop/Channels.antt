-- ===== src/EventLoop/Channels.antt =====
-- `addChannel`, `updateChannel` and `removeChannel` of src/reactor/EventLoop.cpp, with the part of
-- src/reactor/Channel.cpp that says what a channel watches. The state is what
-- epoll watches; what `epoll_ctl` answers is an argument.
use lmonitor.Base.{ℕ, Option, none, some, Result, ok, err}
use lmonitor.Base.Text.{nat_key}
use lmonitor.Base.Number.{ℤ, pos, negsuc}
use lmonitor.Base.Map.{Map, insert, erase}

-- A channel with the events that it asks for.
pub record Watched : Type 0 where
  pub fd : ℕ
  pub events : ℕ

-- std::invalid_argument and std::runtime_error
pub data ChannelError : Type 0 where
  bad_fd null_channel not_added not_updated not_removed : ChannelError

-- The constructor of Channel, and `setEvents`.
unfoldable pub create_channel : ℤ → Result ChannelError Watched
create_channel (pos n) = ok (record { fd = n; events = 0 })
create_channel (negsuc n) = err bad_fd

unfoldable pub set_events : ℕ → Watched → Watched
set_events wanted c = record c { events = wanted }

-- An answer of `epoll_ctl`.
pub data Control : Type 0 where
  done no_entry failed : Control

-- What epoll watches: the events of each descriptor.
abbrev pub Interest : Type 0
Interest = Map ℕ ℕ

unfoldable pub add_channel : Control → Option Watched → Interest → Result ChannelError Interest
add_channel answer none s = err null_channel
add_channel done (some c) s = ok (insert c.fd c.events s)
add_channel no_entry (some c) s = err not_added
add_channel failed (some c) s = err not_added

unfoldable pub update_channel : Control → Option Watched → Interest → Result ChannelError Interest
update_channel answer none s = err null_channel
update_channel done (some c) s = ok (insert c.fd c.events s)
update_channel no_entry (some c) s = err not_updated
update_channel failed (some c) s = err not_updated

unfoldable pub remove_channel : Control → Option Watched → Interest → Result ChannelError Interest
remove_channel answer none s = ok s
remove_channel done (some c) s = ok (erase c.fd s)
remove_channel no_entry (some c) s = ok s
remove_channel failed (some c) s = err not_removed
