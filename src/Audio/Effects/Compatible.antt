-- ===== src/Audio/Effects/Compatible.antt =====
-- The effects and the auxiliary channels of an input stream of audio/audio_hw.c agree.
use android_device_samsung_t.Base.{
  ℕ, suc, ◌≤◌, ◌≡◌, refl, sym, ap, subst, ◌⊎◌, inl, inr, Bool, true, false, not, ◌&&◌, ◌||◌, List,
  [], ◌∷◌, Option, some, ltb, ◌==◌, if◌then◌else◌, if_both, if_split, length, All, arith,
}
use android_device_samsung_t.Audio.Device.{Hal, Env, StreamIn, InDevices}
use android_device_samsung_t.Audio.Effects.{
  ChannelConfig, EffectInfo, Session, Effects, in_aux_cnl_configs, has_config, match_cnt,
  better_config, best_config, is_none_added, in_get_aux_channels, agree_channels, set_aux_channels,
  update_stream, in_update_aux_channels,
}
use android_device_samsung_t.Audio.Effects.Stream.{Has, put_same, do_input_standby-Has}

-- Every effect supports the configuration.
abbrev pub SupportedBy : List EffectInfo → ChannelConfig → Type 0
SupportedBy xs c = All (λ (x : EffectInfo). has_config c x.channel_configs ≡ true) xs

-- No auxiliary channels, or those of a configuration that every effect supports, on a built-in
-- microphone.
abbrev pub AreCompatible : List EffectInfo → InDevices × ℕ × ℕ → Type 0
AreCompatible xs (device, main, aux) =
    (aux ≡ 0) ⊎ (((device.builtin_mic || device.back_mic) ≡ true) × SupportedBy xs (main, aux))

match_cnt_le : (c : ChannelConfig) (xs : List EffectInfo) → match_cnt c xs ≤ length xs
unfolding match_cnt
match_cnt_le c [] = omega arith
match_cnt_le c (x ∷ xs) =
    if_both (λ n. n ≤ suc (length xs)) (has_config c x.channel_configs)
      (omega (arith, match_cnt_le c xs)) (omega arith)

match_cnt-SupportedBy :
    (c : ChannelConfig) (xs : List EffectInfo) → match_cnt c xs ≡ length xs → SupportedBy xs c
unfolding match_cnt
match_cnt-SupportedBy c [] h = tt
match_cnt-SupportedBy c (x ∷ xs) h =
    at (has_config c x.channel_configs) refl h (match_cnt-SupportedBy c xs)
  where
    at :
        (b : Bool)
        → has_config c x.channel_configs ≡ b
        → (if b then suc (match_cnt c xs) else 0) ≡ suc (length xs)
        → (match_cnt c xs ≡ length xs → SupportedBy xs c)
        → SupportedBy (x ∷ xs) c
    at true q h ih = (q, ih (omega (arith, h)))
    at false q h ih = absurd (omega (arith, h))

module _ {D : Type 0} (e : Env) (v : Effects D) where
  abbrev IsGood : ℕ → List EffectInfo → ChannelConfig → Type 0
  IsGood main xs c = (c.1 ≡ 0) ⊎ SupportedBy xs (main, c.1)

  row-IsGood :
      (main : ℕ) (xs : List EffectInfo) (c : ChannelConfig) (rest : Bool)
      → c.0 == main && (match_cnt c xs == length xs && rest) ≡ true
      → IsGood main xs c
  row-IsGood main xs c rest b = inr (
      subst (λ m. SupportedBy xs (m, c.1)) (ground (arith, b))
        (match_cnt-SupportedBy c xs (ground (arith, b))))

  better-IsGood :
      (main : ℕ) (xs : List EffectInfo) (c new : ChannelConfig)
      → IsGood main xs new
      → IsGood main xs (better_config e v main xs c new)
  better-IsGood main xs c new g =
      if_split (IsGood main xs)
        (c.0 == main && (match_cnt c xs == length xs && ltb (e.popcount new.1) (e.popcount c.1)))
        (row-IsGood main xs c (ltb (e.popcount new.1) (e.popcount c.1))) (λ b. g)

  best-IsGood :
      (main : ℕ) (xs : List EffectInfo) (cs : List ChannelConfig) (new : ChannelConfig)
      → IsGood main xs new
      → IsGood main xs (best_config e v main xs cs new)
  unfolding best_config
  best-IsGood main xs [] new g = g
  best-IsGood main xs (c ∷ cs) new g =
      best-IsGood main xs cs (better_config e v main xs c new) (better-IsGood main xs c new g)

  in_get_aux_channels-AreCompatible :
      (s : StreamIn) (xs : List EffectInfo)
      → AreCompatible xs (s.device, s.main_channels, in_get_aux_channels e v s xs)
  unfolding in_get_aux_channels
  in_get_aux_channels-AreCompatible s xs = if_both P (is_none_added e v xs) (inl refl) (
      if_split P (not ((s.device).builtin_mic || (s.device).back_mic)) (λ b. inl refl)
        (λ b. chosen b (best-IsGood s.main_channels xs in_aux_cnl_configs (0, 0) (inl refl))))
    where
      P : ℕ → Type 0
      P aux = AreCompatible xs (s.device, s.main_channels, aux)

      chosen :
          not ((s.device).builtin_mic || (s.device).back_mic) ≡ false
          → IsGood s.main_channels xs (best_config e v s.main_channels xs in_aux_cnl_configs (0, 0))
          → P (best_config e v s.main_channels xs in_aux_cnl_configs (0, 0)).1
      chosen b (inl z) = inl z
      chosen b (inr g) = inr (ground (arith, b), g)

  agree_channels-AreCompatible :
      (s : StreamIn) (xs : List EffectInfo) (effect : Option ℕ) (d : D)
      → AreCompatible xs (s.device, s.main_channels, (agree_channels e v s xs effect d).0)
  unfolding agree_channels
  agree_channels-AreCompatible s xs effect d =
      if_both (λ (r : ℕ × D). AreCompatible xs (s.device, s.main_channels, r.0)) _
        (in_get_aux_channels-AreCompatible s xs) (inl refl)

  -- The stream i has channels that go with the effects.
  abbrev pub Agrees : ℕ → List EffectInfo → Hal → Type 0
  Agrees i xs h = (c : InDevices × ℕ × ℕ) × Has i c h × AreCompatible xs c

  set_aux_channels-Agrees :
      (i : ℕ) (s : StreamIn) (aux : ℕ) (xs : List EffectInfo) (h : Hal)
      → h.ins i ≡ some s
      → AreCompatible xs (s.device, s.main_channels, aux)
      → Agrees i xs (set_aux_channels e v i s aux h)
  unfolding set_aux_channels
  set_aux_channels-Agrees i s aux xs h q a =
      if_split (Agrees i xs) (s.aux_channels == aux)
        (λ b. (
          (s.device, s.main_channels, aux),
          (s, q, ap (λ n. (s.device, s.main_channels, n)) (ground (arith, b))),
          a,
        ))
        (λ b. (
          (s.device, s.main_channels, aux),
          do_input_standby-Has e i _ _ (_, put_same i _ h, refl),
          a,
        ))

  pub in_update_aux_channels-Agrees :
      (i : ℕ) (effect : Option ℕ) (s : StreamIn) (z : Session D)
      → z.hal.ins i ≡ some s
      → Agrees i z.preprocessors (in_update_aux_channels e v i effect z).hal
  unfolding in_update_aux_channels
  in_update_aux_channels-Agrees i effect s z q =
      subst (λ t. Agrees i z.preprocessors (update_stream e v i effect t z).hal) (sym q)
        (set_aux_channels-Agrees i s (agree_channels e v s z.preprocessors effect z.world).0
          z.preprocessors z.hal q (agree_channels-AreCompatible s z.preprocessors effect z.world))
