-- ===== src/Poller.antt =====
-- HPGateway/src/net/Poller.h and Poller.cpp (the Linux half): the table of channels, and the set of
-- descriptors that epoll watches. A channel object is known by a reference; the kernel's part is
-- `epoll_ctl` as documented: ADD needs a descriptor that is not watched, MOD and DEL one that is.
pub mod Tracking
pub mod Removal
mod Tests
use chater.Common.{
  ℕ, ◌+◌, ◌*◌, ◌≡◌, Bool, true, false, not, Option, none, some, List, [], ◌∷◌, ◌++◌, if◌then◌else◌,
  leb, ◌==◌, length, ◌>>=◌, ◌>>◌, assert,
}
use chater.Common.Maps.{Map, lookup, insert, erase, member}
use chater.Channel.{Channel, Events, is_none_event}

-- `index_`: -1, 1 and 2.
pub data Index : Type 0 where
  unknown added deleted : Index

-- What the poller sees of a channel.
pub record Polled : Type 0 where
  pub fd : ℕ
  pub channel : Channel
  pub index : Index

pub record Poller : Type 0 where
  pub channels : Map ℕ
  pub watched : Map Events

pub data Operation : Type 0 where
  ctl_add ctl_mod ctl_del : Operation

-- `Update`: a failed DEL is logged, any other failure ends the process.
unfoldable pub epoll_update : Operation → Polled → Poller → Option Poller
epoll_update ctl_add c p =
    if member c.fd p.watched
    then none
    else some (record p { watched = insert c.fd c.channel.events p.watched })
epoll_update ctl_mod c p =
    if member c.fd p.watched
    then some (record p { watched = insert c.fd c.channel.events p.watched })
    else none
epoll_update ctl_del c p = some (record p { watched = erase c.fd p.watched })

-- The table maps the descriptor to this object.
unfoldable pub is_channel_at : ℕ → ℕ → Map ℕ → Bool
is_channel_at ref fd channels = elim (lookup fd channels) [ none ↦ false | some r ↦ r == ref ]

-- `UpdateChannel`, by the index of the channel.
unfoldable pub update_at : Index → ℕ → Polled → Poller → Option (Polled × Poller)
unfolding epoll_update
update_at unknown ref c p = do
  assert (not (member c.fd p.channels))
  p' ← epoll_update ctl_add c (record p { channels = insert c.fd ref p.channels })
  some (record c { index = added }, p')
update_at deleted ref c p = do
  assert (is_channel_at ref c.fd p.channels)
  p' ← epoll_update ctl_add c p
  some (record c { index = added }, p')
update_at added ref c p = do
  assert (is_channel_at ref c.fd p.channels)
  if is_none_event c.channel
      then (do p' ← epoll_update ctl_del c p; some (record c { index = deleted }, p'))
      else (do p' ← epoll_update ctl_mod c p; some (c, p'))

unfoldable pub update_channel : ℕ → Polled → Poller → Option (Polled × Poller)
unfolding update_at
update_channel ref c p = update_at c.index ref c p

-- `RemoveChannel`, by the index of the channel.
unfoldable pub remove_at : Index → Polled → Poller → Option (Polled × Poller)
unfolding epoll_update
remove_at unknown c p = none
remove_at added c p = do p' ← epoll_update ctl_del c p; some (record c { index = unknown }, p')
remove_at deleted c p = some (record c { index = unknown }, p)

unfoldable pub remove_channel : ℕ → Polled → Poller → Option (Polled × Poller)
unfolding remove_at
remove_channel ref c p = do
  assert (is_channel_at ref c.fd p.channels)
  assert (is_none_event c.channel)
  remove_at c.index c (record p { channels = erase c.fd p.channels })

unfoldable pub has_channel : ℕ → Polled → Poller → Bool
has_channel ref c p = is_channel_at ref c.fd p.channels

-- What `epoll_wait` gives for an array of this size: events with the channels they are of, or an error.
pub data PollResult : Type 0 where
  happened : List (ℕ × Events) → PollResult
  poll_failed : PollResult

-- `Poll`, with `FillActiveChannels`: the active channels with the events that they see, and the
-- size of the array of events for the next call.
unfoldable pub poll : ℕ → PollResult → Option (List (ℕ × Events) × ℕ)
poll size (happened []) = some ([], size)
poll size (happened (e ∷ es)) = do
  assert (leb (length (e ∷ es)) size)
  some (e ∷ es, if length (e ∷ es) == size then size * 2 else size)
poll size poll_failed = some ([], size)
