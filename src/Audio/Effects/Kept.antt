-- ===== src/Audio/Effects/Kept.antt =====
-- Adding and removing effects, and new parameters, of an input stream of audio/audio_hw.c.
use android_device_samsung_t.Base.{
  ℕ, zero, suc, ◌≤◌, ◌<◌, ◌≡◌, ◌≢◌, refl, sym, ◌∙◌, subst, ◌⊎◌, inl, inr, Bool, true, false, List,
  [], ◌∷◌, ◌++◌, Option, none, some, leb, if_both, length, length-append, Bool-cases, arith,
}
use android_device_samsung_t.Audio.Device.{Hal, Env, StreamIn}
use android_device_samsung_t.Audio.Standby.{do_input_standby}
use android_device_samsung_t.Audio.Effects.{
  EffectInfo, Session, Effects, max_preprocessors, in_update_aux_channels, need_echo, put_need,
  add_echo_canceller, reversed, in_read_audio_effect_channel_configs, added, add_described,
  in_add_audio_effect, update_stream,
}
use android_device_samsung_t.Audio.Effects.Stream.{put_same, do_input_standby-Has}
use android_device_samsung_t.Audio.Effects.Compatible.{Agrees, in_update_aux_channels-Agrees}

module _ {D : Type 0} (e : Env) (v : Effects D) where
  -- At most MAX_PREPROCESSORS effects, and auxiliary channels that all of them support.
  abbrev pub IsTuned : ℕ → Session D → Type 0
  IsTuned i z = (length z.preprocessors ≤ max_preprocessors) × Agrees e v i z.preprocessors z.hal

  pub standby-Agrees :
      (i : ℕ) (xs : List EffectInfo) (h : Hal)
      → Agrees e v i xs h
      → Agrees e v i xs (do_input_standby e i h)
  standby-Agrees i xs h (c, k, a) = (c, do_input_standby-Has e i c h k, a)

  pub need_echo-Agrees :
      (i : ℕ) (b : Bool) (xs : List EffectInfo) (h : Hal)
      → Agrees e v i xs h
      → Agrees e v i xs (need_echo e v i b h)
  unfolding need_echo
  need_echo-Agrees i b xs h (c, (s, q, k), a) = standby-Agrees i xs (put_need e v i b (h.ins i) h) (
      subst (λ t. Agrees e v i xs (put_need e v i b t h)) (sym q)
        (c, (record s { need_echo_reference = b }, put_same i _ h, k), a))

  -- Adding does not leave the effects or the channels without each other.
  pub update-Agrees :
      (i : ℕ) (effect : Option ℕ) (z : Session D) (xs : List EffectInfo)
      → Agrees e v i xs z.hal
      → Agrees e v i z.preprocessors (in_update_aux_channels e v i effect z).hal
  update-Agrees i effect z xs (c, (s, q, k), a) = in_update_aux_channels-Agrees e v i effect s z q

  pub update_list :
      (i : ℕ) (effect : Option ℕ) (z : Session D)
      → (in_update_aux_channels e v i effect z).preprocessors ≡ z.preprocessors
  unfolding in_update_aux_channels
  update_list i effect z = at (z.hal.ins i)
    where
      at : (t : Option StreamIn) → (update_stream e v i effect t z).preprocessors ≡ z.preprocessors
      at none = refl
      at (some s) = refl

  reversed_same :
      (s : Option StreamIn) (z : Session D)
      → ((reversed e v s z).preprocessors ≡ z.preprocessors) × ((reversed e v s z).hal ≡ z.hal)
  reversed_same none z = (refl, refl)
  reversed_same (some s) z = (refl, refl)

  -- An effect that is added comes last.
  abbrev Adds : ℕ → ℕ → Session D → ℕ × Session D → Type 0
  Adds i x z (status, w) =
      ((status ≢ 0) × (w.preprocessors ≡ z.preprocessors) × (w.hal ≡ z.hal))
      ⊎ ((status ≡ 0)
          × ((y : EffectInfo) × (y.effect_itfe ≡ x) × (w.preprocessors ≡ z.preprocessors ++ y ∷ []))
          × Agrees e v i w.preprocessors w.hal)

  canceller_lem :
      (i : ℕ) (z : Session D)
      → Agrees e v i z.preprocessors z.hal
      → ((add_echo_canceller e v i z).preprocessors ≡ z.preprocessors)
        × Agrees e v i (add_echo_canceller e v i z).preprocessors (add_echo_canceller e v i z).hal
  unfolding add_echo_canceller
  canceller_lem i z a = (
    same.0,
    subst (λ xs. Agrees e v i xs (reversed e v (h.ins i) w).hal) (sym same.0)
        (subst (Agrees e v i z.preprocessors) (sym same.1)
          (need_echo-Agrees i true z.preprocessors z.hal a)),
  )
    where
      h : Hal
      h = need_echo e v i true z.hal

      w : Session D
      w = record z { hal = h }

      same :
          ((reversed e v (h.ins i) w).preprocessors ≡ z.preprocessors)
          × ((reversed e v (h.ins i) w).hal ≡ h)
      same = reversed_same (h.ins i) w

  abbrev Extends : ℕ → ℕ → Session D → Session D → Type 0
  Extends i x z w =
      ((y : EffectInfo) × (y.effect_itfe ≡ x) × (w.preprocessors ≡ z.preprocessors ++ y ∷ []))
      × Agrees e v i w.preprocessors w.hal

  added-Extends :
      (i x : ℕ) (z : Session D)
      → Agrees e v i z.preprocessors z.hal
      → Extends i x z (added e v i x z)
  added-Extends i x z a = (
    (y, refl, update_list i (some x) w),
    subst (λ xs. Agrees e v i xs (in_update_aux_channels e v i (some x) w).hal)
        (sym (update_list i (some x) w)) (update-Agrees i (some x) w z.preprocessors a),
  )
    where
      y : EffectInfo
      y = record {
        effect_itfe = x;
        channel_configs = (in_read_audio_effect_channel_configs e v x z.world).0;
      }

      w : Session D
      w = record z {
        preprocessors = z.preprocessors ++ y ∷ [];
        world = (in_read_audio_effect_channel_configs e v x z.world).1;
      }

  canceller-Extends :
      (i x : ℕ) (z w : Session D) → Extends i x z w → Extends i x z (add_echo_canceller e v i w)
  canceller-Extends i x z w ((y, q, p), a) = let l = canceller_lem i w a in ((y, q, l.0 ∙ p), l.1)

  described-Adds :
      (i x : ℕ) (z : Session D) (r : ℕ × Bool × D)
      → Agrees e v i z.preprocessors z.hal
      → Adds i x z (add_described e v i x z r)
  described-Adds i x z (suc n, aec, d) a = inl (λ q. absurd (omega (arith, q)), refl, refl)
  described-Adds i x z (zero, aec, d) a =
      let l = added-Extends i x (record z { world = d }) a in
      let w = added e v i x (record z { world = d }) in
      let both = if_both (Extends i x z) aec (canceller-Extends i x z w l) l in
      inr (refl, both.0, both.1)

  add_lem : (i x : ℕ) (z : Session D) → IsTuned i z → Adds i x z (in_add_audio_effect e v i x z)
  unfolding in_add_audio_effect
  add_lem i x z t =
      if_both (Adds i x z) (leb max_preprocessors (length z.preprocessors))
        (inl (λ q. absurd (omega (arith, q)), refl, refl))
        (described-Adds i x z (v.descriptor x z.world) t.1)

  -- No room: in_add_audio_effect with MAX_PREPROCESSORS effects.
  add_full :
      (i x : ℕ) (z : Session D)
      → leb max_preprocessors (length z.preprocessors) ≡ true
      → (in_add_audio_effect e v i x z).1.preprocessors ≡ z.preprocessors
  unfolding in_add_audio_effect
  add_full i x z b = rw b refl

  add_bound :
      (i x : ℕ) (z : Session D) (r : ℕ × Session D)
      → IsTuned i z
      → Adds i x z r
      → (leb max_preprocessors (length z.preprocessors) ≡ true
          → r.1.preprocessors ≡ z.preprocessors)
      → length r.1.preprocessors ≤ max_preprocessors
  add_bound i x z r t (inl (n, p, h)) full = subst (λ xs. length xs ≤ max_preprocessors) (sym p) t.0
  add_bound i x z r t (inr (n, (y, q, p), a)) full =
      elim (Bool-cases (leb max_preprocessors (length z.preprocessors))) [
        | inl b ↦ subst (λ xs. length xs ≤ max_preprocessors) (sym (full b)) t.0
        | inr b ↦
            subst (λ xs. length xs ≤ max_preprocessors) (sym p)
              (omega (arith, length-append z.preprocessors (y ∷ []), room b))
      ]
    where
      room :
          leb max_preprocessors (length z.preprocessors) ≡ false
          → length z.preprocessors < max_preprocessors
      room b = ground (arith, b)

  -- in_add_audio_effect keeps the effects of a stream at MAX_PREPROCESSORS and its auxiliary channels among
  -- those that every effect supports, whatever the commands of the effects return. With status 0
  -- the effect comes last behind those there were, and with an error the effects and the HAL are as before.
  pub in_add_audio_effect-IsTuned :
      (i x : ℕ) (z : Session D)
      → IsTuned i z
      → IsTuned i (in_add_audio_effect e v i x z).1
        × ((((in_add_audio_effect e v i x z).0 ≢ 0)
              × ((in_add_audio_effect e v i x z).1.preprocessors ≡ z.preprocessors)
              × ((in_add_audio_effect e v i x z).1.hal ≡ z.hal))
            ⊎ (((in_add_audio_effect e v i x z).0 ≡ 0)
                × ((y : EffectInfo) × (y.effect_itfe ≡ x)
                    × ((in_add_audio_effect e v i x z).1.preprocessors
                        ≡ z.preprocessors ++ y ∷ []))))
  in_add_audio_effect-IsTuned i x z t =
      let r = in_add_audio_effect e v i x z in
      let l = add_lem i x z t in let n = add_bound i x z r t l (add_full i x z) in tuned r n l
    where
      tuned :
          (r : ℕ × Session D)
          → length r.1.preprocessors ≤ max_preprocessors
          → Adds i x z r
          → IsTuned i r.1
            × (((r.0 ≢ 0) × (r.1.preprocessors ≡ z.preprocessors) × (r.1.hal ≡ z.hal))
                ⊎ ((r.0 ≡ 0)
                    × ((y : EffectInfo) × (y.effect_itfe ≡ x)
                        × (r.1.preprocessors ≡ z.preprocessors ++ y ∷ []))))
      tuned r n (inl (s, p, h)) = (
        (
          n,
          subst (λ xs. Agrees e v i xs r.1.hal) (sym p)
              (subst (Agrees e v i z.preprocessors) (sym h) t.1),
        ),
        inl (s, p, h),
      )
      tuned r n (inr (s, y, a)) = ((n, a), inr (s, y))
