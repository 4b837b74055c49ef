-- ===== src/Audio/Start/Single.antt =====
-- The start of the outputs with one PCM, deep buffer and HDMI, of audio/audio_hw.c.
use android_device_samsung_t.Base.{
  ℕ, ◌≡◌, refl, ap, ◌∙◌, Bool, true, false, Option, none, some, arith, Bool-cases, inl, inr, [],
  ◌∷◌, ◌⊎◌,
}
use android_device_samsung_t.Audio.Mixer.{Status, ok, enomem}
use android_device_samsung_t.Audio.Device.{
  Hal, Env, StreamOut, low_latency, hdmi, put_output, emit, is_running, pcm_normal, pcm_hdmi,
  pcm_out, pcm_out_mmap_noirq, pcm_closed,
}
use android_device_samsung_t.Audio.Balance.{IsBalanced, IsBalanced-step, held}
use android_device_samsung_t.Audio.Output.NoPcm.{NoPcm}
use android_device_samsung_t.Audio.Standby.Slots.{stopped, do_output_standby_lem}
use android_device_samsung_t.Audio.Start.{
  open_pcm, free_hdmi_port, rate_of, pcm_config_mm, start_output_stream_hdmi,
}

-- The stream and the HAL after pcm_open.
abbrev pub opened_mm : StreamOut → Hal → StreamOut × Hal
opened_mm o h =
    open_pcm pcm_normal 0 0 pcm_out_mmap_noirq
      (record pcm_config_mm { rate = rate_of o.sample_rate }) (o, h)

-- What a start with one PCM does: a PCM that is ready is the stream's, one that is not is closed and
-- forgotten, and the start fails.
abbrev pub Starts : Bool → ℕ → Status → Option ℕ → Type 0
Starts ready handle st p =
    ((ready ≡ true) × (st ≡ ok) × (p ≡ some handle))
    ⊎ ((ready ≡ false) × (st ≡ enomem) × (p ≡ none))

opened_hdmi-Balanced :
    (n : ℕ) (o : StreamOut) (h : Hal)
    → h.hdmi ≡ some o
    → o.hdmi ≡ none
    → IsBalanced n h
    → IsBalanced n (
        put_output hdmi
          (some (open_pcm pcm_hdmi 1 0 pcm_out o.config_hdmi (o, h)).0)
          (open_pcm pcm_hdmi 1 0 pcm_out o.config_hdmi (o, h)).1)
unfolding held open_pcm
opened_hdmi-Balanced n o h g p b =
    IsBalanced-step n h
      (put_output hdmi (some (open_pcm pcm_hdmi 1 0 pcm_out o.config_hdmi (o, h)).0)
        (open_pcm pcm_hdmi 1 0 pcm_out o.config_hdmi (o, h)).1)
      _ refl (ground arith) b

drop_hdmi-Balanced :
    (n : ℕ) (o : StreamOut) (h : Hal)
    → IsBalanced n (put_output hdmi (some o) h)
    → IsBalanced n
        (put_output hdmi (some (record o { hdmi = none })) (emit (pcm_closed o.hdmi ∷ []) h))
unfolding held
drop_hdmi-Balanced n o h b =
    IsBalanced-step n (put_output hdmi (some o) h)
      (put_output hdmi (some (record o { hdmi = none })) (emit (pcm_closed o.hdmi ∷ []) h))
      (pcm_closed o.hdmi ∷ []) refl (ground arith) b

stopped-idle : (s : Option StreamOut) → is_running (stopped s) ≡ false
stopped-idle none = refl
stopped-idle (some o) = ground arith

free_hdmi_port_lem :
    (e : Env) (n : ℕ) (h : Hal)
    → IsBalanced n h
    → IsBalanced n (free_hdmi_port e h)
      × ((free_hdmi_port e h).hdmi ≡ h.hdmi)
      × (is_running (free_hdmi_port e h).low_latency ≡ false)
unfolding free_hdmi_port
free_hdmi_port_lem e n h b = elim (Bool-cases (is_running h.low_latency)) [
  | inl r ↦
      let (s, c, d) = do_output_standby_lem e n low_latency h b in
      simp r (d, ap (λ x. x.2) s, ap (λ x. is_running x.1) s ∙ stopped-idle h.low_latency)
  | inr r ↦ simp r (b, refl, refl)
]

-- The HDMI output starts with no PCM. Whether its new PCM is ready or not, the low latency output, which
-- may drive the HDMI port, no longer runs; and if the PCMs opened were as many as those closed, those that
-- the modem and the outputs hold, and n others, they still are. If the PCM is ready, the start returns 0
-- and the stream has it; otherwise it returns -ENOMEM and the stream has no PCM, as before it.
pub start_output_stream_hdmi-Balanced :
    (e : Env) (n : ℕ) (o : StreamOut) (h : Hal)
    → h.hdmi ≡ some o
    → o.hdmi ≡ none
    → IsBalanced n h
    → let (st, k) = start_output_stream_hdmi e o h in
      IsBalanced n k
      × (is_running k.low_latency ≡ false)
      × ((p : StreamOut) × (k.hdmi ≡ some p)
          × Starts
              (e.pcm_is_ready (free_hdmi_port e h).next_handle)
              (free_hdmi_port e h).next_handle
              st
              p.hdmi
          × (p.standby ≡ o.standby))
unfolding start_output_stream_hdmi open_pcm
start_output_stream_hdmi-Balanced e n o h g p b = elim (Bool-cases (e.pcm_is_ready k.next_handle)) [
  | inl r ↦ simp r (s-Balanced, idle, (s.0, refl, inl (refl, refl, refl), refl))
  | inr r ↦ simp r (
    drop_hdmi-Balanced n s.0 s.1 s-Balanced,
    idle,
    (record (s.0) { hdmi = none }, refl, inr (refl, refl, refl), refl),
  )
]
  where
    k : Hal
    k = free_hdmi_port e h

    s : StreamOut × Hal
    s = open_pcm pcm_hdmi 1 0 pcm_out o.config_hdmi (o, k)

    s-Balanced : IsBalanced n (put_output hdmi (some s.0) s.1)
    s-Balanced =
        opened_hdmi-Balanced n o k ((free_hdmi_port_lem e n h b).1 ∙ g) p
          (free_hdmi_port_lem e n h b).0

    idle : is_running s.1.low_latency ≡ false
    idle = unfold open_pcm in (free_hdmi_port_lem e n h b).2
