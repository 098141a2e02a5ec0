-- ===== src/Poller/Removal.antt =====
-- `Poller::RemoveChannel` against the table and against what epoll watches.
use chater.Common.{ℕ, ◌≡◌, ◌≢◌, refl, true, false, none, some, arith, inl, inr}
use chater.Common.Maps.{Map, lookup, erase, member, lookup-erase, option-cases}
use chater.Channel.{Events, is_none_event}
use chater.Poller.{
  Index, unknown, added, deleted, Polled, Poller, epoll_update, is_channel_at, remove_at,
  remove_channel,
}
use chater.Poller.Tracking.{expected_channel, is_watched, IsTracked, OthersKept}

-- After a removal: the channel is nowhere, and the others are as they were.
pub record IsRemoved (ref : ℕ) (c c' : Polled) (p p' : Poller) : Type 0 where
  pub tracked : IsTracked ref c' p'
  pub others : OthersKept c.fd p p'
  pub not_listed : lookup c.fd p'.channels ≡ none
  pub not_watched : lookup c.fd p'.watched ≡ none

not_member : (k : ℕ) (m : Map Events) → member k m ≡ false → lookup k m ≡ none
not_member k m h = elim (option-cases (lookup k m)) [
  | inl e ↦ e
  | inr (v, e) ↦ absurd (ground (arith, h, e))
]

remove_at_lem :
    (i : Index) (ref : ℕ) (c : Polled) (p : Poller)
    → c.index ≡ i
    → i ≢ unknown
    → IsTracked ref c p
    → (c' : Polled) × (p' : Poller) × (remove_at i c (record p { channels = erase c.fd p.channels })
        ≡ some (c', p'))
      × IsRemoved ref c c' p p'
unfolding remove_at epoll_update is_watched expected_channel
remove_at_lem unknown ref c p e u t = absurd (u refl)
remove_at_lem added ref c p e u t = (
  record c { index = unknown },
  record p { channels = erase c.fd p.channels; watched = erase c.fd p.watched },
  refl,
  record {
    tracked = record {
      listed = ground (arith, lookup-erase c.fd c.fd p.channels);
      watching = ground (arith, lookup-erase c.fd c.fd p.watched);
    };
    others = record {
      same_channels = λ k d. ground (arith, lookup-erase c.fd k p.channels, d);
      same_watched = λ k d. ground (arith, lookup-erase c.fd k p.watched, d);
    };
    not_listed = ground (arith, lookup-erase c.fd c.fd p.channels);
    not_watched = ground (arith, lookup-erase c.fd c.fd p.watched);
  },
)
remove_at_lem deleted ref c p e u t = (
  record c { index = unknown },
  record p { channels = erase c.fd p.channels },
  refl,
  record {
    tracked = record {
      listed = ground (arith, lookup-erase c.fd c.fd p.channels);
      watching = ground (arith, t.watching, e);
    };
    others = record {
      same_channels = λ k d. ground (arith, lookup-erase c.fd k p.channels, d);
      same_watched = λ k d. refl;
    };
    not_listed = ground (arith, lookup-erase c.fd c.fd p.channels);
    not_watched = not_member c.fd p.watched (ground (arith, t.watching, e));
  },
)

expected-known : (i : Index) (ref : ℕ) → i ≢ unknown → expected_channel i ref ≡ some ref
unfolding expected_channel
expected-known unknown ref k = absurd (k refl)
expected-known added ref k = refl
expected-known deleted ref k = refl

-- `RemoveChannel` of a channel that waits for no event, and whose index agrees with the table and with
-- what epoll watches and is not -1, succeeds: the channel is neither in the table nor watched, its
-- index says so, and other descriptors are as they were.
pub remove_channel_lem :
    (ref : ℕ) (c : Polled) (p : Poller)
    → IsTracked ref c p
    → c.index ≢ unknown
    → is_none_event c.channel ≡ true
    → (c' : Polled) × (p' : Poller) × (remove_channel ref c p ≡ some (c', p'))
      × IsRemoved ref c c' p p'
unfolding remove_channel is_channel_at
remove_channel_lem ref c p t known silent =
    let (c', p', done, removed) = remove_at_lem c.index ref c p refl known t in
    (c', p', ground (arith, silent, done, expected-known c.index ref known, t.listed), removed)
