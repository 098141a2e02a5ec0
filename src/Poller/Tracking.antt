-- ===== src/Poller/Tracking.antt =====
-- The index of a channel against the table and against what epoll watches.
use chater.Common.{
  ℕ, ◌≡◌, refl, Bool, true, false, ◌&&◌, Option, none, some, if◌then◌else◌, ◌==◌, arith, Bool-cases,
  inl, inr,
}
use chater.Common.Maps.{lookup, insert, erase, member, lookup-insert, lookup-erase}
use chater.Channel.{is_none_event}
use chater.Poller.{
  Index, unknown, added, deleted, Polled, Poller, epoll_update, is_channel_at, update_at,
  update_channel,
}

-- What the index says of the table and of the watched set, at the channel's descriptor.
unfoldable pub expected_channel : Index → ℕ → Option ℕ
expected_channel unknown ref = none
expected_channel added ref = some ref
expected_channel deleted ref = some ref

unfoldable pub is_watched : Index → Bool
is_watched unknown = false
is_watched added = true
is_watched deleted = false

pub record IsTracked (ref : ℕ) (c : Polled) (p : Poller) : Type 0 where
  pub listed : lookup c.fd p.channels ≡ expected_channel c.index ref
  pub watching : member c.fd p.watched ≡ is_watched c.index

-- The other descriptors are as they were.
pub record OthersKept (fd : ℕ) (p p' : Poller) : Type 0 where
  pub same_channels : (k : ℕ) → (fd == k) ≡ false → lookup k p'.channels ≡ lookup k p.channels
  pub same_watched : (k : ℕ) → (fd == k) ≡ false → lookup k p'.watched ≡ lookup k p.watched

-- After an update: the channel is in the table under its descriptor, and watched for its events,
-- unless it waits for none and was watched before.
pub record IsUpdated (ref : ℕ) (c c' : Polled) (p p' : Poller) : Type 0 where
  pub tracked : IsTracked ref c' p'
  pub others : OthersKept c.fd p p'
  pub in_table : lookup c.fd p'.channels ≡ some ref
  pub watched_for :
      lookup c.fd p'.watched
      ≡ (if is_none_event c.channel && is_watched c.index then none else some c.channel.events)

update_at_lem :
    (i : Index) (ref : ℕ) (c : Polled) (p : Poller)
    → c.index ≡ i
    → IsTracked ref c p
    → (c' : Polled) × (p' : Poller) × (update_at i ref c p ≡ some (c', p'))
      × IsUpdated ref c c' p p'
unfolding update_at epoll_update is_channel_at is_watched expected_channel
update_at_lem unknown ref c p e t = (
  record c { index = added },
  record p {
    channels = insert c.fd ref p.channels;
    watched = insert c.fd c.channel.events p.watched;
  },
  ground (arith, t.listed, t.watching, e),
  record {
    tracked = record {
      listed = ground (arith, lookup-insert c.fd c.fd ref p.channels);
      watching = ground (arith, lookup-insert c.fd c.fd c.channel.events p.watched);
    };
    others = record {
      same_channels = λ k d. ground (arith, lookup-insert c.fd k ref p.channels, d);
      same_watched = λ k d. ground (arith, lookup-insert c.fd k c.channel.events p.watched, d);
    };
    in_table = ground (arith, lookup-insert c.fd c.fd ref p.channels);
    watched_for = ground (arith, lookup-insert c.fd c.fd c.channel.events p.watched, e);
  },
)
update_at_lem deleted ref c p e t = (
  record c { index = added },
  record p { watched = insert c.fd c.channel.events p.watched },
  ground (arith, t.listed, t.watching, e),
  record {
    tracked = record {
      listed = ground (arith, t.listed, e);
      watching = ground (arith, lookup-insert c.fd c.fd c.channel.events p.watched);
    };
    others = record {
      same_channels = λ k d. refl;
      same_watched = λ k d. ground (arith, lookup-insert c.fd k c.channel.events p.watched, d);
    };
    in_table = ground (arith, t.listed, e);
    watched_for = ground (arith, lookup-insert c.fd c.fd c.channel.events p.watched, e);
  },
)
update_at_lem added ref c p e t = elim (Bool-cases (is_none_event c.channel)) [
  | inl silent ↦ (
    record c { index = deleted },
    record p { watched = erase c.fd p.watched },
    ground (arith, t.listed, t.watching, e, silent),
    record {
      tracked = record {
        listed = ground (arith, t.listed, e);
        watching = ground (arith, lookup-erase c.fd c.fd p.watched);
      };
      others = record {
        same_channels = λ k d. refl;
        same_watched = λ k d. ground (arith, lookup-erase c.fd k p.watched, d);
      };
      in_table = ground (arith, t.listed, e);
      watched_for = ground (arith, lookup-erase c.fd c.fd p.watched, e, silent);
    },
  )
  | inr waiting ↦ (
    c,
    record p { watched = insert c.fd c.channel.events p.watched },
    ground (arith, t.listed, t.watching, e, waiting),
    record {
      tracked = record {
        listed = t.listed;
        watching = ground (arith, lookup-insert c.fd c.fd c.channel.events p.watched, e);
      };
      others = record {
        same_channels = λ k d. refl;
        same_watched = λ k d. ground (arith, lookup-insert c.fd k c.channel.events p.watched, d);
      };
      in_table = ground (arith, t.listed, e);
      watched_for = ground (arith, lookup-insert c.fd c.fd c.channel.events p.watched, e, waiting);
    },
  )
]

-- `UpdateChannel` of a channel whose index agrees with the table and with what epoll watches succeeds,
-- and the new index agrees again. The table then has the channel under its descriptor, which is watched
-- for its events, unless it waits for none and was watched before; other descriptors are as they were.
pub update_channel_lem :
    (ref : ℕ) (c : Polled) (p : Poller)
    → IsTracked ref c p
    → (c' : Polled) × (p' : Poller) × (update_channel ref c p ≡ some (c', p'))
      × IsUpdated ref c c' p p'
unfolding update_channel
update_channel_lem ref c p t = update_at_lem c.index ref c p refl t
