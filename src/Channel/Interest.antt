-- ===== src/Channel/Interest.antt =====
-- The interest of a channel: what the operations do to the two kinds of events.
use chater.Common.{◌≡◌, refl, ◌∙◌, Bool, true, false, some, arith, List, [], ◌∷◌}
use chater.Channel.{
  Channel, is_reading, is_writing, enable_reading, disable_reading, enable_writing, disable_writing,
  disable_all, remove, new_channel,
}

pub data Switch : Type 0 where
  reading_on reading_off writing_on writing_off all_off : Switch

unfoldable pub switch : Switch → Channel → Channel
unfolding enable_reading disable_reading enable_writing disable_writing disable_all
switch reading_on c = enable_reading c
switch reading_off c = disable_reading c
switch writing_on c = enable_writing c
switch writing_off c = disable_writing c
switch all_off c = disable_all c

unfoldable pub run_switches : List Switch → Channel → Channel
run_switches [] c = c
run_switches (s ∷ ss) c = run_switches ss (switch s c)

-- Only reading and writing are ever waited for, and IN and PRI together.
pub record IsPlain (c : Channel) : Type 0 where
  pub paired : c.events.in_bit ≡ c.events.pri_bit
  pub no_err : c.events.err_bit ≡ false
  pub no_hup : c.events.hup_bit ≡ false
  pub no_rdhup : c.events.rdhup_bit ≡ false

pub switch-IsPlain : (s : Switch) (c : Channel) → IsPlain c → IsPlain (switch s c)
unfolding switch
switch-IsPlain reading_on c p = ground arith
switch-IsPlain _ c p = ground arith

pub run_switches-IsPlain :
    (ss : List Switch) (c : Channel) → IsPlain c → IsPlain (run_switches ss c)
unfolding run_switches
run_switches-IsPlain [] c p = p
run_switches-IsPlain (s ∷ ss) c p = run_switches-IsPlain ss (switch s c) (switch-IsPlain s c p)

-- What the switches thrown leave on: the last word on each kind decides.
unfoldable pub last_reading : List Switch → Bool → Bool
last_reading [] b = b
last_reading (reading_on ∷ ss) b = last_reading ss true
last_reading (reading_off ∷ ss) b = last_reading ss false
last_reading (all_off ∷ ss) b = last_reading ss false
last_reading (writing_on ∷ ss) b = last_reading ss b
last_reading (writing_off ∷ ss) b = last_reading ss b

unfoldable pub last_writing : List Switch → Bool → Bool
last_writing [] b = b
last_writing (writing_on ∷ ss) b = last_writing ss true
last_writing (writing_off ∷ ss) b = last_writing ss false
last_writing (all_off ∷ ss) b = last_writing ss false
last_writing (reading_on ∷ ss) b = last_writing ss b
last_writing (reading_off ∷ ss) b = last_writing ss b

reading_lem :
    (ss : List Switch) (c : Channel)
    → is_reading (run_switches ss c) ≡ last_reading ss (is_reading c)
unfolding run_switches switch last_reading is_reading
reading_lem [] c = refl
reading_lem (reading_on ∷ ss) c = reading_lem ss (enable_reading c)
reading_lem (reading_off ∷ ss) c = reading_lem ss (disable_reading c)
reading_lem (writing_on ∷ ss) c = reading_lem ss (enable_writing c)
reading_lem (writing_off ∷ ss) c = reading_lem ss (disable_writing c)
reading_lem (all_off ∷ ss) c = reading_lem ss (disable_all c)

writing_lem :
    (ss : List Switch) (c : Channel)
    → is_writing (run_switches ss c) ≡ last_writing ss (is_writing c)
unfolding run_switches switch last_writing is_writing
writing_lem [] c = refl
writing_lem (reading_on ∷ ss) c = writing_lem ss (enable_reading c)
writing_lem (reading_off ∷ ss) c = writing_lem ss (disable_reading c)
writing_lem (writing_on ∷ ss) c = writing_lem ss (enable_writing c)
writing_lem (writing_off ∷ ss) c = writing_lem ss (disable_writing c)
writing_lem (all_off ∷ ss) c = writing_lem ss (disable_all c)

remove_lem :
    (c : Channel)
    → IsPlain c
    → is_reading c ≡ false
    → is_writing c ≡ false
    → remove c ≡ some (record c { added_to_loop = false })
unfolding remove is_reading is_writing
remove_lem c p r w = ground arith

-- After any of the enabling and disabling calls on a new channel, it waits for reading, and for
-- writing, exactly as the last call about it says.
pub switches_lem :
    (ss : List Switch)
    → (is_reading (run_switches ss new_channel) ≡ last_reading ss false)
      × (is_writing (run_switches ss new_channel) ≡ last_writing ss false)
unfolding is_reading is_writing
switches_lem ss = (reading_lem ss new_channel, writing_lem ss new_channel)

-- After any of the enabling and disabling calls on a new channel, `Remove` succeeds when reading and writing were both
-- switched off last.
pub remove-switches :
    (ss : List Switch)
    → (last_reading ss false ≡ false)
    → (last_writing ss false ≡ false)
    → (c : Channel) × (remove (run_switches ss new_channel) ≡ some c) × (c.added_to_loop ≡ false)
remove-switches ss r w =
    let (read, written) = switches_lem ss in
    (
      _,
      remove_lem (run_switches ss new_channel)
          (run_switches-IsPlain ss new_channel
            (record { paired = refl; no_err = refl; no_hup = refl; no_rdhup = refl }))
          (read ∙ r) (written ∙ w),
      refl,
    )
