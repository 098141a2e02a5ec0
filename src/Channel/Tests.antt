-- ===== src/Channel/Tests.antt =====
-- Runs of the channel's operations, and its theorems on short sequences of calls.
use chater.Common.{ℕ, ◌≡◌, refl, true, some, List, [], ◌∷◌}
use chater.Channel.{Events, none_event, Callbacks, handle_event, invoke, invoke_if}
use chater.Channel.Interest.{Switch, reading_on, writing_on, writing_off}

-- Callbacks that note their calls, the last one first.
abbrev noting : Callbacks (List ℕ)
noting = record {
  read_callback = some (λ s. 1 ∷ s);
  write_callback = some (λ s. 2 ∷ s);
  close_callback = some (λ s. 3 ∷ s);
  error_callback = some (λ s. 4 ∷ s);
}

abbrev hung_up : Events
hung_up = record none_event { hup_bit = true; err_bit = true; rdhup_bit = true }

-- A hang-up without input runs the close callback and, after it, the read callback.
close_then_read : handle_event noting hung_up [] ≡ 1 ∷ 4 ∷ 3 ∷ []
unfolding handle_event invoke_if invoke
close_then_read = refl

abbrev calls : List Switch
calls = reading_on ∷ writing_on ∷ writing_off ∷ []
