-- ===== src/ButtonModule.antt =====
-- CustomizedModule/ButtonModule/ButtonModule.c: the states of one button over the simple engine of
-- StateMachine.c. The user part of the engine's parameter is the record of the button together with
-- the module's flags; the module's settings (`p_sBME`, set by the monitor) are parameters.
mod Tests
pub mod Actions
pub mod Counters
pub mod Monitor
pub mod Turns
pub mod Pushed
pub mod Siblings
pub mod Held
pub mod Told
pub mod Rounds
pub mod Delivered
use eclipse_code.Prelude.{
  ℕ, ◌+◌, ◌*◌, Bool, true, false, Option, some, none, List, set, ltb, leb, ◌==◌, if◌then◌else◌, not,
}
use eclipse_code.BitOperation.{twobyte_setbit}

-- `TIMER_COUNTER_MAX`, `MAX_BUTTON_NUMBER`
abbrev pub timer_counter_max : ℕ
timer_counter_max = 65535

abbrev pub max_button_number : ℕ
max_button_number = 16

-- `sParamAboutTime`
pub record ParamAboutTime : Type 0 where
  pub click_time_threshold : ℕ
  pub release_time_threshold : ℕ
  pub long_push_time_threshold : ℕ
  pub release_all_time_threshold : ℕ

-- `sPAT_Default`
abbrev pub pat_default : ParamAboutTime
pat_default = record {
  click_time_threshold = 100;
  release_time_threshold = 40;
  long_push_time_threshold = 1000;
  release_all_time_threshold = 80;
}

-- `sParamSingleButton`
pub record ParamSingleButton : Type 0 where
  pub push_time_counter : ℕ
  pub release_time_counter : ℕ
  pub latest_push_time_counter_backup : ℕ
  pub p_spat : ParamAboutTime

-- `sButtonStateFlag`
pub record ButtonStateFlag : Type 0 where
  pub is_click : ℕ
  pub is_double_click : ℕ
  pub is_longpush : ℕ
  pub is_longpush_release : ℕ
  pub long_push_last_cycle : List ℕ

-- `eButtonAction`
pub data ButtonAction : Type 0 where
  ba_click : ButtonAction
  ba_doubleclick : ButtonAction
  ba_longpush : ButtonAction
  ba_longpushrelease : ButtonAction

-- what the actions work on: `CurrentButtonNumber`, `s_psb`, and the flags `sBSF`
pub record Button : Type 0 where
  pub current_button_number : ℕ
  pub s_psb : ParamSingleButton
  pub s_bsf : ButtonStateFlag

-- `DoesValidPush` and its three fellows, with `ModuleLoopTimeInMS`
abbrev pub does_valid_push : ℕ → ParamSingleButton → Bool
does_valid_push loop_time b = leb b.p_spat.click_time_threshold (b.push_time_counter * loop_time)

abbrev pub does_valid_release : ℕ → ParamSingleButton → Bool
does_valid_release loop_time b =
    leb b.p_spat.release_time_threshold (b.release_time_counter * loop_time)

abbrev pub does_valid_long_push : ℕ → ParamSingleButton → Bool
does_valid_long_push loop_time b =
    leb b.p_spat.long_push_time_threshold (b.push_time_counter * loop_time)

abbrev pub does_valid_long_release : ℕ → ParamSingleButton → Bool
does_valid_long_release loop_time b =
    leb b.p_spat.release_all_time_threshold (b.release_time_counter * loop_time)

-- `ClearPushCounter`
abbrev pub clear_push_counter : ParamSingleButton → ParamSingleButton
clear_push_counter b = record b {
  latest_push_time_counter_backup = b.push_time_counter;
  push_time_counter = 0;
}

-- `ClearReleaseCounter`
abbrev pub clear_release_counter : ParamSingleButton → ParamSingleButton
clear_release_counter b = record b { release_time_counter = 0 }

-- `TimeManager`
unfoldable pub time_manager : Bool → ParamSingleButton → ParamSingleButton
time_manager true b =
    if leb timer_counter_max b.push_time_counter
    then record b { release_time_counter = 0 }
    else record b { release_time_counter = 0; push_time_counter = b.push_time_counter + 1 }
time_manager false b =
    let backup =
      if not (b.push_time_counter == 0)
      then b.push_time_counter
      else b.latest_push_time_counter_backup in
    let c = record b { latest_push_time_counter_backup = backup; push_time_counter = 0 } in
    if leb timer_counter_max b.release_time_counter
    then c
    else record c { release_time_counter = b.release_time_counter + 1 }

-- `ButtonFlagInit`; the cycles stay.
abbrev pub button_flag_init : ButtonStateFlag → ButtonStateFlag
button_flag_init f = record f {
  is_click = 0;
  is_double_click = 0;
  is_longpush = 0;
  is_longpush_release = 0;
}

-- `ButtonFlagSet`
unfoldable pub button_flag_set : ButtonAction → ℕ → ℕ → ButtonStateFlag → ButtonStateFlag
button_flag_set ba_click n last f = record f { is_click = twobyte_setbit f.is_click n }
button_flag_set ba_doubleclick n last f = record f {
  is_double_click = twobyte_setbit f.is_double_click n;
}
button_flag_set ba_longpush n last f = record f { is_longpush = twobyte_setbit f.is_longpush n }
button_flag_set ba_longpushrelease n last f =
    let g = record f { is_longpush_release = twobyte_setbit f.is_longpush_release n } in
    if leb max_button_number n
    then g
    else record g { long_push_last_cycle = set f.long_push_last_cycle n last }
