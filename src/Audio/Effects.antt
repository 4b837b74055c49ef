-- ===== src/Audio/Effects.antt =====
-- audio/audio_hw.c: the pre-processing effects of an input stream and its auxiliary channels.
-- The array in->preprocessors is the list of its first num_preprocessors elements. An errno is a
-- positive number, 0 is success. The masks of channels are those of the platform's audio.h.
pub mod Stream
pub mod Compatible
pub mod Kept
pub mod Removed
pub mod Rerouted
use Prim.Native.Nat.{bit_or}
use android_device_samsung_t.Base.{
  ℕ, zero, suc, Bool, true, false, not, ◌&&◌, ◌||◌, List, [], ◌∷◌, ◌++◌, Option, none, some,
  is_some, is_zero, ltb, leb, ◌==◌, if◌then◌else◌, length, ◌▹◌,
}
use android_device_samsung_t.Audio.Device.{
  Hal, Env, StreamIn, InDevices, no_in_device, in_eq, Source, mic, camcorder, voice_recognition,
  voice_communication, other_source, put_in,
}
use android_device_samsung_t.Audio.Standby.{do_input_standby}

-- The main and the auxiliary channels of channel_config_t.
abbrev pub ChannelConfig : Type 0
ChannelConfig = ℕ × ℕ

-- struct effect_info_s.
pub record EffectInfo : Type 0 where
  pub effect_itfe : ℕ
  pub channel_configs : List ChannelConfig

-- A stream's HAL, its effects, and the state of what the effects are.
pub record Session (D : Type 0) : Type 0 where
  pub hal : Hal
  pub preprocessors : List EffectInfo
  pub world : D

-- The commands of an effect: what the function returns, what it stores as the command's status, and,
-- for the supported configurations, the reply.
pub record Effects (D : Type 0) : Type 0 where
  -- get_descriptor, and whether the type is FX_IID_AEC.
  pub descriptor : ℕ → D → ℕ × Bool × D
  pub supported_configs : ℕ → D → ℕ × ℕ × List ChannelConfig × D
  pub get_config : ℕ → D → ℕ × D
  pub set_config : ℕ → ℕ → D → ℕ × ℕ × D
  pub set_feature_config : ℕ → ChannelConfig → D → ℕ × ℕ × D
  pub enable : ℕ → D → ℕ × ℕ × D
  -- EFFECT_CMD_SET_CONFIG_REVERSE with channels and a rate, for an effect that has process_reverse.
  pub set_config_reverse : ℕ → Option (ℕ → ℕ → D → ℕ × ℕ × D)

abbrev pub max_preprocessors : ℕ
max_preprocessors = 3

abbrev pub enosys : ℕ
enosys = 38

abbrev pub einval : ℕ
einval = 22

-- Front with back, stereo with right.
abbrev pub in_aux_cnl_configs : List ChannelConfig
in_aux_cnl_configs = (0x10, 0x20) ∷ (0xc, 0x8) ∷ []

-- GET_COMMAND_STATUS.
abbrev pub command_status : ℕ → ℕ → ℕ → ℕ
command_status status zero zero = status
command_status status zero (suc c) = suc c
command_status status (suc f) c = suc f

-- memcmp of two configurations.
abbrev pub same_config : ChannelConfig → ChannelConfig → Bool
same_config a b = a.0 == b.0 && a.1 == b.1

abbrev pub has_config : ChannelConfig → List ChannelConfig → Bool
has_config c [] = false
has_config c (d ∷ ds) = if same_config d c then true else has_config c ds

-- match_cnt: the effects that support a configuration, up to the first that does not.
unfoldable pub match_cnt : ChannelConfig → List EffectInfo → ℕ
match_cnt c [] = 0
match_cnt c (x ∷ xs) =
    let rest = match_cnt c xs in if has_config c x.channel_configs then suc rest else 0

-- The loop of in_remove_audio_effect: the first effect with the handle goes, those behind it move.
unfoldable pub remove_first : ℕ → List EffectInfo → Option (List EffectInfo)
remove_first x [] = none
remove_first x (y ∷ ys) =
    let rest = remove_first x ys in
    if y.effect_itfe == x then some ys else (elim rest [ none ↦ none | some zs ↦ some (y ∷ zs) ])

module _ {D : Type 0} (e : Env) (v : Effects D) where
  -- A row of the table against the most complex configuration so far.
  abbrev pub better_config : ℕ → List EffectInfo → ChannelConfig → ChannelConfig → ChannelConfig
  better_config main xs c new =
      if c.0 == main && (match_cnt c xs == length xs && ltb (e.popcount new.1) (e.popcount c.1))
      then c
      else new

  unfoldable pub best_config :
      ℕ → List EffectInfo → List ChannelConfig → ChannelConfig → ChannelConfig
  best_config main xs [] new = new
  best_config main xs (c ∷ cs) new = best_config main xs cs (better_config main xs c new)

  abbrev pub is_none_added : List EffectInfo → Bool
  is_none_added [] = true
  is_none_added (x ∷ xs) = false

  unfoldable pub in_get_aux_channels : StreamIn → List EffectInfo → ℕ
  unfolding match_cnt best_config
  in_get_aux_channels s xs =
      if is_none_added xs
      then 0
      else (if not ((s.device).builtin_mic || (s.device).back_mic)
          then 0
          else (best_config s.main_channels xs in_aux_cnl_configs (0, 0)).1)

  -- One command after the other, with the last error.
  abbrev pub and_command : ℕ → ℕ × ℕ × D → ℕ × D
  and_command status (f, c, d) = (command_status status f c, d)

  abbrev pub configure : ℕ → ChannelConfig → D → ℕ × D
  configure x c d =
      let (s1, d1) = and_command 0 (v.set_config x (bit_or c.0 c.1) d) in
      let (s2, d2) = and_command s1 (v.set_feature_config x c d1) in and_command s2 (v.enable x d2)

  unfoldable pub in_configure_effect_channels : ℕ → ChannelConfig → D → ℕ × D
  in_configure_effect_channels x c d =
      let (f, d1) = v.get_config x d in if is_zero f then configure x c d1 else (f, d1)

  -- The status of the last effect that could not be configured.
  abbrev pub last_error : ℕ → ℕ → ℕ
  last_error status zero = status
  last_error status (suc n) = suc n

  unfoldable pub configure_all : List EffectInfo → ChannelConfig → ℕ → D → ℕ × D
  unfolding in_configure_effect_channels
  configure_all [] c status d = (status, d)
  configure_all (x ∷ xs) c status d =
      let (s, d1) = in_configure_effect_channels x.effect_itfe c d in
      configure_all xs c (last_error status s) d1

  -- The effect that is being added, where there is one.
  abbrev pub configure_added : Option ℕ → ChannelConfig → D → ℕ × D
  configure_added none c d = (0, d)
  configure_added (some x) c d = if is_zero c.1 then (0, d) else in_configure_effect_channels x c d

  unfoldable pub in_reconfigure_channels :
      List EffectInfo → Option ℕ → ChannelConfig → Bool → D → ℕ × D
  unfolding configure_all
  in_reconfigure_channels xs effect c config_changed d =
      if config_changed then configure_all xs c 0 d else configure_added effect c d

  -- The auxiliary channels that the effects take: those wanted, or none after an error.
  unfoldable pub agree_channels : StreamIn → List EffectInfo → Option ℕ → D → ℕ × D
  unfolding in_get_aux_channels in_reconfigure_channels
  agree_channels s xs effect d =
      let aux = in_get_aux_channels s xs in
      let (status, d1) =
        in_reconfigure_channels xs effect (s.main_channels, aux) (not (aux == s.aux_channels)) d in
      if is_zero status
      then (aux, d1)
      else (let (ignored, d2) = in_reconfigure_channels xs effect (s.main_channels, 0) true d1 in
          (0, d2))

  -- in->aux_channels, with the stream in standby where it changes.
  unfoldable pub set_aux_channels : ℕ → StreamIn → ℕ → Hal → Hal
  set_aux_channels i s aux h =
      if s.aux_channels == aux
      then h
      else do_input_standby e i
          (put_in i (record s { aux_channels_changed = true; aux_channels = aux }) h)

  abbrev pub update_stream : ℕ → Option ℕ → Option StreamIn → Session D → Session D
  update_stream i effect none z = z
  update_stream i effect (some s) z =
      let (aux, d) = agree_channels s z.preprocessors effect z.world in
      record z { hal = set_aux_channels i s aux z.hal; world = d }

  unfoldable pub in_update_aux_channels : ℕ → Option ℕ → Session D → Session D
  unfolding agree_channels set_aux_channels
  in_update_aux_channels i effect z = update_stream i effect (z.hal.ins i) z

  -- in_read_audio_effect_channel_configs: no configurations after an error.
  abbrev pub read_configs : ℕ × ℕ × List ChannelConfig × D → List ChannelConfig × D
  read_configs (zero, zero, cs, d) = (cs, d)
  read_configs (zero, suc r, cs, d) = ([], d)
  read_configs (suc f, r, cs, d) = ([], d)

  unfoldable pub in_read_audio_effect_channel_configs : ℕ → D → List ChannelConfig × D
  in_read_audio_effect_channel_configs x d = read_configs (v.supported_configs x d)

  abbrev pub reverse_one : Option (ℕ → ℕ → D → ℕ × ℕ × D) → StreamIn → ℕ × D → ℕ × D
  reverse_one none s (status, d) = (status, d)
  reverse_one (some f) s (status, d) = and_command status (f s.main_channels s.requested_rate d)

  unfoldable pub in_configure_reverse : StreamIn → List EffectInfo → ℕ × D → ℕ × D
  in_configure_reverse s [] r = r
  in_configure_reverse s (x ∷ xs) r =
      in_configure_reverse s xs (reverse_one (v.set_config_reverse x.effect_itfe) s r)

  abbrev pub put_need : ℕ → Bool → Option StreamIn → Hal → Hal
  put_need i b none h = h
  put_need i b (some s) h = put_in i (record s { need_echo_reference = b }) h

  -- in->need_echo_reference, and the stream in standby.
  unfoldable pub need_echo : ℕ → Bool → Hal → Hal
  need_echo i b h = do_input_standby e i (put_need i b (h.ins i) h)

  abbrev pub reversed : Option StreamIn → Session D → Session D
  reversed none z = z
  reversed (some s) z = record z { world = (in_configure_reverse s z.preprocessors (0, z.world)).1 }

  -- What an echo canceller needs besides.
  unfoldable pub add_echo_canceller : ℕ → Session D → Session D
  unfolding need_echo in_configure_reverse
  add_echo_canceller i z =
      let h = need_echo i true z.hal in reversed (h.ins i) (record z { hal = h })

  abbrev pub added : ℕ → ℕ → Session D → Session D
  added i x z =
      let (cs, d) = in_read_audio_effect_channel_configs x z.world in
      in_update_aux_channels i (some x) (record z {
        preprocessors = z.preprocessors ++ record { effect_itfe = x; channel_configs = cs } ∷ [];
        world = d;
      })

  abbrev pub add_described : ℕ → ℕ → Session D → ℕ × Bool × D → ℕ × Session D
  add_described i x z (suc n, aec, d) = (suc n, record z { world = d })
  add_described i x z (zero, aec, d) =
      let w = added i x (record z { world = d }) in (0, if aec then add_echo_canceller i w else w)

  unfoldable pub in_add_audio_effect : ℕ → ℕ → Session D → ℕ × Session D
  unfolding in_update_aux_channels in_read_audio_effect_channel_configs add_echo_canceller
  in_add_audio_effect i x z =
      if leb max_preprocessors (length z.preprocessors)
      then (enosys, z)
      else add_described i x z (v.descriptor x z.world)

  abbrev pub remove_described : ℕ → ℕ × Bool × D → Session D → ℕ × Session D
  remove_described i (suc n, aec, d) z = (suc n, record z { world = d })
  remove_described i (zero, aec, d) z =
      (0, record z { hal = if aec then need_echo i false z.hal else z.hal; world = d })

  abbrev pub removed : ℕ → ℕ → Session D → Option (List EffectInfo) → ℕ × Session D
  removed i x z none = (einval, z)
  removed i x z (some xs) =
      let w = in_update_aux_channels i none (record z { preprocessors = xs }) in
      remove_described i (v.descriptor x w.world) w

  unfoldable pub in_remove_audio_effect : ℕ → ℕ → Session D → ℕ × Session D
  unfolding in_update_aux_channels remove_first need_echo
  in_remove_audio_effect i x z =
      if is_none_added z.preprocessors
      then (enosys, z)
      else removed i x z (remove_first x z.preprocessors)

  -- AUDIO_SOURCE_*, of which DEFAULT is 0.
  abbrev pub source_id : Source → ℕ
  source_id mic = 1
  source_id camcorder = 5
  source_id voice_recognition = 6
  source_id voice_communication = 7
  source_id (other_source n) = n

  -- The two keys of in_set_parameters, each with whether the stream goes to standby.
  abbrev pub change_source : ℕ → Option Source → Option StreamIn → Hal → Bool × Hal
  change_source i none s h = (false, h)
  change_source i (some val) none h = (false, h)
  change_source i (some val) (some s) h =
      if not (source_id s.source == source_id val) && not (is_zero (source_id val))
      then (true, put_in i (record s { source = val }) h)
      else (false, h)

  abbrev pub change_input : ℕ → Option InDevices → Option StreamIn → Session D → Bool × Session D
  change_input i none s z = (false, z)
  change_input i (some val) none z = (false, z)
  change_input i (some val) (some s) z =
      if not (in_eq s.device val) && not (in_eq val no_in_device)
      then (
        true,
        in_update_aux_channels i none
            (record z { hal = put_in i (record s { device = val }) z.hal }),
      )
      else (false, z)

  -- The results of str_parms_get_str are the arguments.
  unfoldable pub in_set_parameters : ℕ → Option Source → Option InDevices → Session D → Session D
  unfolding in_update_aux_channels
  in_set_parameters i source routing z =
      let (a, h) = change_source i source (z.hal.ins i) z.hal in
      let (b, w) = change_input i routing (h.ins i) (record z { hal = h }) in
      if a || b then record w { hal = do_input_standby e i w.hal } else w
