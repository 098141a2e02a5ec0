-- ===== src/EventLoop/Channels.antt =====
-- HPGateway/src/net/EventLoop.cpp: what the loop asserts before it hands a channel to its poller. The first
-- argument tells whether the caller is in the loop's thread; elsewhere the process ends.
use chater.Common.{
  ℕ, ◌≡◌, refl, Bool, true, false, not, ◌||◌, Option, none, some, List, [], ◌∷◌, ◌==◌, ◌>>=◌, ◌>>◌,
  assert,
}
use chater.Channel.{Channel, disable_all, remove, update, is_none_event}
use chater.Poller
use chater.Poller.{Polled, Poller}

-- `currentActiveChannel_` and `activeChannels_` while the events of a poll are handled.
record Handling : Type 0 where
  current_active_channel : Option ℕ
  active_channels : List ℕ

unfoldable is_among : ℕ → List ℕ → Bool
is_among ref [] = false
is_among ref (r ∷ rs) = r == ref || is_among ref rs

unfoldable is_current : ℕ → Option ℕ → Bool
is_current ref none = false
is_current ref (some r) = r == ref

-- `none` when no events are handled.
unfoldable may_go : ℕ → Option Handling → Bool
unfolding is_among is_current
may_go ref none = true
may_go ref (some h) =
    is_current ref h.current_active_channel || not (is_among ref h.active_channels)

unfoldable loop_update_channel : Bool → ℕ → Polled → Poller → Option (Polled × Poller)
loop_update_channel in_loop_thread ref c p = do assert in_loop_thread; Poller.update_channel ref c p

unfoldable loop_remove_channel :
    Bool → Option Handling → ℕ → Polled → Poller → Option (Polled × Poller)
unfolding may_go
loop_remove_channel in_loop_thread handling ref c p = do
  assert in_loop_thread
  assert (may_go ref handling)
  Poller.remove_channel ref c p

unfoldable loop_has_channel : Bool → ℕ → Polled → Poller → Option Bool
loop_has_channel in_loop_thread ref c p = do
  assert in_loop_thread
  some (Poller.has_channel ref c p)

-- The destructor takes the wakeup channel off and closes its descriptor.
unfoldable destroy_loop : ℕ → Channel → Option (Channel × List ℕ)
destroy_loop wakeup_fd wakeup_channel = do
  channel ← remove (disable_all wakeup_channel)
  some (channel, wakeup_fd ∷ [])

-- The destructor never fails, and leaves its channel off the loop.
destroy_loop_lem :
    (fd : ℕ) (c : Channel)
    → (c' : Channel) × (destroy_loop fd c ≡ some (c', fd ∷ [])) × (c'.added_to_loop ≡ false)
unfolding destroy_loop disable_all remove update is_none_event
destroy_loop_lem fd c = (_, refl, refl)

-- While events are handled, another active channel than the current one cannot be removed.
active-loop_remove_channel :
    (h : Handling) (ref : ℕ) (c : Polled) (p : Poller)
    → is_current ref h.current_active_channel ≡ false
    → is_among ref h.active_channels ≡ true
    → loop_remove_channel true (some h) ref c p ≡ none
unfolding loop_remove_channel may_go
active-loop_remove_channel h ref c p other active = simp (loop_remove_channel, other, active) refl
