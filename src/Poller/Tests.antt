-- ===== src/Poller/Tests.antt =====
-- The poller's theorems at a table with one channel.
use chater.Common.{◌≡◌, ◌≢◌, refl, true, some, [], ◌∷◌, subst}
use chater.Common.Maps.{lookup}
use chater.Channel.{none_event, is_none_event}
use chater.Poller.{Index, unknown, added, deleted, Polled, Poller, update_channel}
use chater.Poller.Tracking.{IsTracked, IsUpdated, expected_channel, is_watched, update_channel_lem}

-- The channel object 3 on descriptor 9 has been switched off and is still watched.
abbrev switched_off : Polled
switched_off = record {
  fd = 9;
  channel = record { events = none_event; added_to_loop = true };
  index = added;
}

abbrev table : Poller
table = record { channels = (9, 3) ∷ []; watched = (9, record none_event { in_bit = true }) ∷ [] }

switched_off-IsTracked : IsTracked 3 switched_off table
unfolding expected_channel is_watched lookup
switched_off-IsTracked = record { listed = refl; watching = refl }

update_channel_lem_example :
    (c' : Polled) × (p' : Poller) × (update_channel 3 switched_off table ≡ some (c', p'))
    × IsUpdated 3 switched_off c' table p'
update_channel_lem_example = update_channel_lem 3 switched_off table switched_off-IsTracked

added-known : added ≢ unknown
added-known e = subst known_type e tt
  where
    known_type : Index → Type 0
    known_type unknown = ⊥
    known_type added = Unit {0}
    known_type deleted = Unit {0}

silent : is_none_event switched_off.channel ≡ true
unfolding is_none_event
silent = refl
