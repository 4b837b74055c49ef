-- ===== src/Audio/Tests/Effects.antt =====
-- The theorems about the effects of audio/, on effects that support both tables' configurations.
use android_device_samsung_t.Base.{
  ℕ, ◌≡◌, ◌≢◌, refl, ◌⊎◌, inl, ◌==◌, ◌+◌, true, [], ◌∷◌, ◌++◌, Option, some, All, arith,
}
use android_device_samsung_t.Audio.Device.{
  StreamIn, InDevices, no_in_device, put_in, voice_communication,
}
use android_device_samsung_t.Audio.Effects.{
  EffectInfo, Session, Effects, in_add_audio_effect, in_remove_audio_effect, in_set_parameters,
}
use android_device_samsung_t.Audio.Effects.Kept.{IsTuned, in_add_audio_effect-IsTuned}
use android_device_samsung_t.Audio.Effects.Removed.{Drops, in_remove_audio_effect-IsTuned}
use android_device_samsung_t.Audio.Effects.Rerouted.{in_set_parameters-IsTuned}
use android_device_samsung_t.Audio.Tests.{env, idle}
use android_device_samsung_t.Audio.Tests.Captures.{microphone}

-- The state counts the commands; effect 9 cancels echoes.
abbrev voice : Effects ℕ
voice = record {
  descriptor = λ x d. (0, x == 9, d + 1);
  supported_configs = λ x d. (0, 0, (0x10, 0x20) ∷ (0xc, 0x8) ∷ [], d + 1);
  get_config = λ x d. (0, d + 1);
  set_config = λ x channels d. (0, 0, d + 1);
  set_feature_config = λ x c d. (0, 0, d + 1);
  enable = λ x d. (0, 0, d + 1);
  set_config_reverse = λ x. some (λ channels rate d. (0, 0, d + 1));
}

abbrev front : StreamIn
front = record microphone {
  main_channels = 0x10;
  device = record no_in_device { builtin_mic = true };
}

abbrev fresh : Session ℕ
fresh = record { hal = put_in 0 front idle; preprocessors = []; world = 0 }

fresh-IsTuned : IsTuned env voice 0 fresh
fresh-IsTuned = (omega arith, ((front.device, 0x10, 0), (front, refl, refl), inl refl))

in_add_audio_effect-IsTuned_example :
    IsTuned env voice 0 (in_add_audio_effect env voice 0 9 fresh).1
    × ((((in_add_audio_effect env voice 0 9 fresh).0 ≢ 0)
          × ((in_add_audio_effect env voice 0 9 fresh).1.preprocessors ≡ [])
          × ((in_add_audio_effect env voice 0 9 fresh).1.hal ≡ fresh.hal))
        ⊎ (((in_add_audio_effect env voice 0 9 fresh).0 ≡ 0)
            × ((y : EffectInfo) × (y.effect_itfe ≡ 9)
                × ((in_add_audio_effect env voice 0 9 fresh).1.preprocessors ≡ [] ++ y ∷ []))))
in_add_audio_effect-IsTuned_example = in_add_audio_effect-IsTuned env voice 0 9 fresh fresh-IsTuned

-- A stream with an effect.
abbrev one_effect : Session ℕ
one_effect = record fresh {
  preprocessors = record { effect_itfe = 9; channel_configs = (0x10, 0x20) ∷ [] } ∷ [];
}

one_effect-IsTuned : IsTuned env voice 0 one_effect
one_effect-IsTuned = (omega arith, ((front.device, 0x10, 0), (front, refl, refl), inl refl))

in_remove_audio_effect-IsTuned_example :
    IsTuned env voice 0 (in_remove_audio_effect env voice 0 9 one_effect).1
    × ((((in_remove_audio_effect env voice 0 9 one_effect).0 ≢ 0)
          × ((in_remove_audio_effect env voice 0 9 one_effect).1.preprocessors
              ≡ one_effect.preprocessors)
          × ((in_remove_audio_effect env voice 0 9 one_effect).1.hal ≡ one_effect.hal)
          × All (λ (y : EffectInfo). y.effect_itfe ≢ 9) one_effect.preprocessors)
        ⊎ Drops 9 one_effect.preprocessors
            (in_remove_audio_effect env voice 0 9 one_effect).1.preprocessors)
in_remove_audio_effect-IsTuned_example =
    in_remove_audio_effect-IsTuned env voice 0 9 one_effect one_effect-IsTuned

-- The stream moves to the microphone of a headset.
abbrev to_headset : Option InDevices
to_headset = some (record no_in_device { wired_headset = true })

in_set_parameters-IsTuned_example :
    ((in_set_parameters env voice 0 (some voice_communication) to_headset one_effect).preprocessors
      ≡ one_effect.preprocessors)
    × IsTuned env voice 0
        (in_set_parameters env voice 0 (some voice_communication) to_headset one_effect)
in_set_parameters-IsTuned_example =
    in_set_parameters-IsTuned env voice 0 (some voice_communication) to_headset one_effect
      one_effect-IsTuned
