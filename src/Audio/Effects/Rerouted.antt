-- ===== src/Audio/Effects/Rerouted.antt =====
-- A new source or device of an input stream of audio/audio_hw.c.
use android_device_samsung_t.Base.{
  ℕ, ◌≡◌, refl, sym, ap, ◌∙◌, subst, Bool, true, false, not, ◌&&◌, ◌||◌, List, Option, none, some,
  ◌==◌, is_zero, if_both, length, ◌≤◌,
}
use android_device_samsung_t.Audio.Device.{
  Hal, Env, StreamIn, InDevices, no_in_device, in_eq, Source, put_in,
}
use android_device_samsung_t.Audio.Standby.{do_input_standby}
use android_device_samsung_t.Audio.Effects.{
  max_preprocessors, EffectInfo, Session, Effects, in_update_aux_channels, source_id, change_source,
  change_input, in_set_parameters,
}
use android_device_samsung_t.Audio.Effects.Stream.{channels_of, put_same}
use android_device_samsung_t.Audio.Effects.Compatible.{Agrees, in_update_aux_channels-Agrees}
use android_device_samsung_t.Audio.Effects.Kept.{IsTuned, update_list, standby-Agrees}

module _ {D : Type 0} (e : Env) (v : Effects D) where
  source-Agrees :
      (i : ℕ) (xs : List EffectInfo) (val : Option Source) (t : Option StreamIn) (h : Hal)
      → h.ins i ≡ t
      → Agrees e v i xs h
      → Agrees e v i xs (change_source e v i val t h).1
  source-Agrees i xs none t h q a = a
  source-Agrees i xs (some val) none h q a = a
  source-Agrees i xs (some val) (some s) h q (c, (s', q', k), a) =
      if_both (λ (r : Bool × Hal). Agrees e v i xs r.1)
        (not (source_id e v s.source == source_id e v val) && not (is_zero (source_id e v val)))
        {x = (true, put_in i (record s { source = val }) h)} {y = (false, h)}
        (c, (_, put_same i (record s { source = val }) h, same k), a) (c, (s', q', k), a)
    where
      unwrap : some s ≡ some s' → channels_of s ≡ channels_of s'
      unwrap p =
          ap (λ (t : Option StreamIn). elim t [ none ↦ channels_of s | some u ↦ channels_of u ]) p

      same : channels_of s' ≡ c → channels_of s ≡ c
      same k = unwrap (sym q ∙ q') ∙ k

  input-Agrees :
      (i : ℕ) (val : Option InDevices) (t : Option StreamIn) (z : Session D)
      → z.hal.ins i ≡ t
      → Agrees e v i z.preprocessors z.hal
      → ((change_input e v i val t z).1.preprocessors ≡ z.preprocessors)
        × Agrees e v i z.preprocessors (change_input e v i val t z).1.hal
  input-Agrees i none t z q a = (refl, a)
  input-Agrees i (some val) none z q a = (refl, a)
  input-Agrees i (some val) (some s) z q a =
      if_both
        (λ (r : Bool × Session D).
          (r.1.preprocessors ≡ z.preprocessors) × Agrees e v i z.preprocessors r.1.hal)
        (not (in_eq s.device val) && not (in_eq val no_in_device))
        {x = (true, in_update_aux_channels e v i none w)} {y = (false, z)}
        (
          update_list e v i none w,
          in_update_aux_channels-Agrees e v i none (record s { device = val }) w
              (put_same i (record s { device = val }) z.hal),
        )
        (refl, a)
    where
      w : Session D
      w = record z { hal = put_in i (record s { device = val }) z.hal }

  -- in_set_parameters keeps the effects of a stream, and its auxiliary channels among those that all
  -- of them support on a built-in microphone, also when the stream moves to another microphone.
  pub in_set_parameters-IsTuned :
      (i : ℕ) (source : Option Source) (routing : Option InDevices) (z : Session D)
      → IsTuned e v i z
      → ((in_set_parameters e v i source routing z).preprocessors ≡ z.preprocessors)
        × IsTuned e v i (in_set_parameters e v i source routing z)
  unfolding in_set_parameters
  in_set_parameters-IsTuned i source routing z (n, a) =
      if_both Keeps (one.0 || two.0)
        (let k =
            kept two.1.preprocessors (do_input_standby e i two.1.hal) moved.0
              (standby-Agrees e v i z.preprocessors two.1.hal moved.1) in
          (k.0, (k.1, k.2)))
        (let k = kept two.1.preprocessors two.1.hal moved.0 moved.1 in (k.0, (k.1, k.2)))
    where
      Keeps : Session D → Type 0
      Keeps w = (w.preprocessors ≡ z.preprocessors) × IsTuned e v i w

      one : Bool × Hal
      one = change_source e v i source (z.hal.ins i) z.hal

      w : Session D
      w = record z { hal = one.1 }

      two : Bool × Session D
      two = change_input e v i routing (one.1.ins i) w

      moved : (two.1.preprocessors ≡ z.preprocessors) × Agrees e v i z.preprocessors two.1.hal
      moved =
          input-Agrees i routing (one.1.ins i) w refl
            (source-Agrees i z.preprocessors source (z.hal.ins i) z.hal refl a)

      kept :
          (xs : List EffectInfo) (h : Hal)
          → xs ≡ z.preprocessors
          → Agrees e v i z.preprocessors h
          → (xs ≡ z.preprocessors) × (length xs ≤ max_preprocessors) × Agrees e v i xs h
      kept xs h p b = (
        p,
        subst (λ xs. length xs ≤ max_preprocessors) (sym p) n,
        subst (λ xs. Agrees e v i xs h) (sym p) b,
      )
