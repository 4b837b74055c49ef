-- ===== src/Audio/Effects/Removed.antt =====
-- Removing effects from an input stream of audio/audio_hw.c.
use android_device_samsung_t.Base.{
  ℕ, zero, suc, ◌≤◌, ◌≡◌, ◌≢◌, refl, sym, ap, subst, ◌⊎◌, inl, inr, Bool, true, false, List, [],
  ◌∷◌, ◌++◌, Option, none, some, ◌==◌, if_both, if_split, length, length-append, All, arith,
}
use android_device_samsung_t.Audio.Device.{Env}
use android_device_samsung_t.Audio.Effects.{
  EffectInfo, Session, Effects, max_preprocessors, in_update_aux_channels, is_none_added,
  remove_first, remove_described, removed, in_remove_audio_effect,
}
use android_device_samsung_t.Audio.Effects.Compatible.{Agrees}
use android_device_samsung_t.Audio.Effects.Kept.{
  IsTuned, update-Agrees, update_list, need_echo-Agrees,
}

-- The list of effects without its first with the handle x.
abbrev pub Drops : ℕ → List EffectInfo → List EffectInfo → Type 0
Drops x xs ys =
    (before : List EffectInfo) × (y : EffectInfo) × (after : List EffectInfo) × (xs
      ≡ before ++ y ∷ after)
    × (ys ≡ before ++ after)
    × (y.effect_itfe ≡ x)
    × All (λ (z : EffectInfo). z.effect_itfe ≢ x) before

abbrev Removes : ℕ → List EffectInfo → Option (List EffectInfo) → Type 0
Removes x xs none = All (λ (z : EffectInfo). z.effect_itfe ≢ x) xs
Removes x xs (some ys) = Drops x xs ys

behind-Removes :
    (x : ℕ) (y : EffectInfo) (ys : List EffectInfo) (r : Option (List EffectInfo))
    → y.effect_itfe ≢ x
    → Removes x ys r
    → Removes x (y ∷ ys) (elim r [ none ↦ none | some zs ↦ some (y ∷ zs) ])
behind-Removes x y ys none n h = (n, h)
behind-Removes x y ys (some zs) n (before, w, after, a, b, c, d) =
    (y ∷ before, w, after, ap (λ l. y ∷ l) a, ap (λ l. y ∷ l) b, c, (n, d))

remove_first-Removes : (x : ℕ) (xs : List EffectInfo) → Removes x xs (remove_first x xs)
unfolding remove_first
remove_first-Removes x [] = tt
remove_first-Removes x (y ∷ ys) =
    if_split (Removes x (y ∷ ys)) (y.effect_itfe == x)
      (λ b. ([], y, ys, refl, refl, ground (arith, b), tt))
      (λ b.
        behind-Removes x y ys (remove_first x ys) (ground (arith, b)) (remove_first-Removes x ys))

length-Drops : (x : ℕ) (xs ys : List EffectInfo) → Drops x xs ys → length ys ≤ length xs
length-Drops x xs ys (before, y, after, a, b, c, d) =
    omega (
      arith,
      length-append before after,
      length-append before (y ∷ after),
      ap length a,
      ap length b,
    )

module _ {D : Type 0} (e : Env) (v : Effects D) where
  abbrev Leaves : ℕ → ℕ → Session D → ℕ × Session D → Type 0
  Leaves i x z (status, w) =
      ((status ≢ 0)
        × (w.preprocessors ≡ z.preprocessors)
        × (w.hal ≡ z.hal)
        × All (λ (y : EffectInfo). y.effect_itfe ≢ x) z.preprocessors)
      ⊎ (Drops x z.preprocessors w.preprocessors × Agrees e v i w.preprocessors w.hal)

  described-Leaves :
      (i x : ℕ) (z w : Session D) (r : ℕ × Bool × D)
      → Drops x z.preprocessors w.preprocessors
      → Agrees e v i w.preprocessors w.hal
      → Leaves i x z (remove_described e v i r w)
  described-Leaves i x z w (suc n, aec, d) p a = inr (p, a)
  described-Leaves i x z w (zero, aec, d) p a = inr (
    p,
    if_both (Agrees e v i w.preprocessors) aec
        (need_echo-Agrees e v i false w.preprocessors w.hal a) a,
  )

  removed-Leaves :
      (i x : ℕ) (z : Session D) (r : Option (List EffectInfo))
      → IsTuned e v i z
      → Removes x z.preprocessors r
      → Leaves i x z (removed e v i x z r)
  removed-Leaves i x z none t h = inl (λ q. absurd (omega (arith, q)), refl, refl, h)
  removed-Leaves i x z (some xs) t h =
      let y = record z { preprocessors = xs } in
      let w = in_update_aux_channels e v i none y in
      described-Leaves i x z w (v.descriptor x w.world)
        (subst (Drops x z.preprocessors) (sym (update_list e v i none y)) h)
        (subst (λ l. Agrees e v i l w.hal) (sym (update_list e v i none y))
          (update-Agrees e v i none y z.preprocessors t.1))

  none_added :
      (xs : List EffectInfo) (x : ℕ)
      → is_none_added e v xs ≡ true
      → All (λ (y : EffectInfo). y.effect_itfe ≢ x) xs
  none_added [] x b = tt
  none_added (y ∷ ys) x b = cc

  remove-Leaves :
      (i x : ℕ) (z : Session D) → IsTuned e v i z → Leaves i x z (in_remove_audio_effect e v i x z)
  unfolding in_remove_audio_effect
  remove-Leaves i x z t =
      if_split (Leaves i x z) (is_none_added e v z.preprocessors)
        (λ b. inl (λ q. absurd (omega (arith, q)), refl, refl, none_added z.preprocessors x b))
        (λ b.
          removed-Leaves i x z (remove_first x z.preprocessors) t
            (remove_first-Removes x z.preprocessors))

  -- in_remove_audio_effect keeps the effects of a stream at MAX_PREPROCESSORS and its auxiliary channels
  -- among those that the effects left all support. Where no effect has the handle it returns an
  -- error and the effects and the HAL are as before. Otherwise the first with the handle goes, and the
  -- others stay in their order, whatever status is returned.
  pub in_remove_audio_effect-IsTuned :
      (i x : ℕ) (z : Session D)
      → IsTuned e v i z
      → IsTuned e v i (in_remove_audio_effect e v i x z).1
        × ((((in_remove_audio_effect e v i x z).0 ≢ 0)
              × ((in_remove_audio_effect e v i x z).1.preprocessors ≡ z.preprocessors)
              × ((in_remove_audio_effect e v i x z).1.hal ≡ z.hal)
              × All (λ (y : EffectInfo). y.effect_itfe ≢ x) z.preprocessors)
            ⊎ Drops x z.preprocessors (in_remove_audio_effect e v i x z).1.preprocessors)
  in_remove_audio_effect-IsTuned i x z t =
      tuned (in_remove_audio_effect e v i x z) (remove-Leaves i x z t)
    where
      tuned :
          (r : ℕ × Session D)
          → Leaves i x z r
          → IsTuned e v i r.1
            × (((r.0 ≢ 0)
                  × (r.1.preprocessors ≡ z.preprocessors)
                  × (r.1.hal ≡ z.hal)
                  × All (λ (y : EffectInfo). y.effect_itfe ≢ x) z.preprocessors)
                ⊎ Drops x z.preprocessors r.1.preprocessors)
      tuned r (inl (s, p, h, n)) = (
        (
          subst (λ xs. length xs ≤ max_preprocessors) (sym p) t.0,
          subst (λ xs. Agrees e v i xs r.1.hal) (sym p)
              (subst (Agrees e v i z.preprocessors) (sym h) t.1),
        ),
        inl (s, p, h, n),
      )
      tuned r (inr (p, a)) =
          ((omega (arith, length-Drops x z.preprocessors r.1.preprocessors p, t.0), a), inr p)
