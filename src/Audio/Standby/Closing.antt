-- ===== src/Audio/Standby/Closing.antt =====
-- The PCMs closed by do_output_standby of audio/audio_hw.c.
use android_device_samsung_t.Base.{
  ℕ, ◌+◌, ◌≡◌, refl, ap, ◌∙◌, true, false, not, ◌&&◌, Option, none, some, arith, Bool-cases,
  if◌then◌else◌, inl, inr, ap₂, List, ◌++◌, [], ◌∷◌,
}
use android_device_samsung_t.Audio.Device.{
  Hal, Env, OutputType, deep_buf, low_latency, hdmi, StreamOut, get_output, put_output, emit,
  is_in_call, Call, mixed,
}
use android_device_samsung_t.Audio.Routes
use android_device_samsung_t.Audio.Output.{route}
use android_device_samsung_t.Audio.Mixer.{MixerCall}
use android_device_samsung_t.Audio.Balance.{
  holds, IsBalanced, IsBalanced-step, held, opens, closes, held_output, opens-append, closes-append,
}
use android_device_samsung_t.Audio.Standby.{
  close_output, stage_off_if_idle, stage_off, stop_echo, stop_output, do_output_standby,
  output_standby, all_outputs_in_standby, close_pcms, stop_writing, close_pcm,
}

-- The calls that stage_off makes are on the mixer.
mixed-opens : (cs : List MixerCall) → (opens (mixed cs) ≡ 0) × (closes (mixed cs) ≡ 0)
mixed-opens [] = (refl, refl)
mixed-opens (c ∷ cs) = mixed-opens cs

stage_off-opens : (e : Env) → (opens (stage_off e) ≡ 0) × (closes (stage_off e) ≡ 0)
unfolding stage_off
stage_off-opens e = mixed-opens (route e Routes.hs_output false ++ route e Routes.hf_output false)

stage_off_if_idle-Balanced :
    (e : Env) (n : ℕ) (h : Hal) → IsBalanced n h → IsBalanced n (stage_off_if_idle e h)
unfolding stage_off_if_idle held
stage_off_if_idle-Balanced e n h b =
    elim (Bool-cases (all_outputs_in_standby h && not (is_in_call h.mode))) [
      | inl s ↦ simp s (
          IsBalanced-step n h (emit (stage_off e) h) (stage_off e) refl
            (ground (arith, stage_off-opens e)) b)
      | inr s ↦ simp s b
    ]

close_pcm-closes : (p : Option ℕ) → (opens (close_pcm p) ≡ 0) × (closes (close_pcm p) ≡ holds p)
close_pcm-closes none = (refl, refl)
close_pcm-closes (some p) = (refl, refl)

close_pcms-closes :
    (o : StreamOut) → (opens (close_pcms o) ≡ 0) × (closes (close_pcms o) ≡ held_output (some o))
unfolding close_pcms
close_pcms-closes o = (
  sums opens opens-append (λ p. (close_pcm-closes p).0),
  sums closes closes-append (λ p. (close_pcm-closes p).1),
)
  where
    sums :
        (f : List Call → ℕ) {g : Option ℕ → ℕ}
        → ((xs ys : List Call) → f (xs ++ ys) ≡ f xs + f ys)
        → ((p : Option ℕ) → f (close_pcm p) ≡ g p)
        → f (close_pcm o.normal ++ (close_pcm o.spdif ++ close_pcm o.hdmi))
          ≡ g o.normal + (g o.spdif + g o.hdmi)
    sums f a c =
        a (close_pcm o.normal) (close_pcm o.spdif ++ close_pcm o.hdmi)
        ∙ ap₂ ◌+◌ (c o.normal)
            (a (close_pcm o.spdif) (close_pcm o.hdmi) ∙ ap₂ ◌+◌ (c o.spdif) (c o.hdmi))

held-put :
    (t : OutputType) (o : Option StreamOut) (h : Hal)
    → held (put_output t o h) + held_output (get_output t h) ≡ held h + held_output o
unfolding held
held-put deep_buf o h = omega arith
held-put low_latency o h = omega arith
held-put hdmi o h = omega arith

held-emit : (cs : List Call) (h : Hal) → held (emit cs h) ≡ held h
unfolding held
held-emit cs h = refl

put_output-log : (t : OutputType) (o : Option StreamOut) (h : Hal) → (put_output t o h).log ≡ h.log
put_output-log deep_buf o h = refl
put_output-log low_latency o h = refl
put_output-log hdmi o h = refl

-- An output is replaced, with calls that close as many PCMs as it held more.
put-Balanced :
    (n : ℕ) (t : OutputType) (o : Option StreamOut) (cs : List Call) (h : Hal)
    → opens cs ≡ 0
    → closes cs + held_output o ≡ held_output (get_output t h)
    → IsBalanced n h
    → IsBalanced n (emit cs (put_output t o h))
put-Balanced n t o cs h z c b =
    IsBalanced-step n h (emit cs (put_output t o h)) cs (ap (λ l. l ++ cs) (put_output-log t o h))
      (omega (arith, held-put t o h, held-emit cs (put_output t o h))) b

stop_writing-opens : (r : Option ℕ) → (opens (stop_writing r) ≡ 0) × (closes (stop_writing r) ≡ 0)
stop_writing-opens none = (refl, refl)
stop_writing-opens (some r) = (refl, refl)

stop_echo-Balanced :
    (n : ℕ) (t : OutputType) (h : Hal) → IsBalanced n h → IsBalanced n (stop_echo t h)
unfolding stop_echo
stop_echo-Balanced n t h b = at (get_output t h) refl
  where
    at :
        (s : Option StreamOut)
        → get_output t h ≡ s
        → IsBalanced n (elim s [
          | none ↦ h
          | some o ↦
              emit
                (stop_writing o.echo_reference)
                (put_output t (some (record o { echo_reference = none })) h)
        ])
    at none g = b
    at (some o) g =
        put-Balanced n t (some (record o { echo_reference = none })) (stop_writing o.echo_reference)
          h (stop_writing-opens o.echo_reference).0
          (rw g (ground (arith, stop_writing-opens o.echo_reference))) b

close_output-Balanced :
    (n : ℕ) (t : OutputType) (o : StreamOut) (h : Hal)
    → get_output t h ≡ some o
    → IsBalanced n h
    → IsBalanced n (close_output t o h)
unfolding close_output
close_output-Balanced n t o h g b =
    put-Balanced n t (some (record o { standby = true; normal = none; spdif = none; hdmi = none }))
      (close_pcms o) h (close_pcms-closes o).0 (rw g (omega (arith, close_pcms-closes o))) b

stop_output-Balanced :
    (e : Env) (n : ℕ) (inner : Hal → Hal) (t : OutputType) (o : StreamOut) (h : Hal)
    → ((k : Hal) → IsBalanced n k → IsBalanced n (inner k))
    → get_output t h ≡ some o
    → IsBalanced n h
    → IsBalanced n (stop_output e inner t o h)
unfolding stop_output
stop_output-Balanced e n inner t o h f g b =
    stop_echo-Balanced n t (inner (stage_off_if_idle e (close_output t o h))) (
      f (stage_off_if_idle e (close_output t o h))
        (stage_off_if_idle-Balanced e n (close_output t o h) (close_output-Balanced n t o h g b)))

output_standby-Balanced :
    (e : Env) (n : ℕ) (inner : Hal → Hal) (t : OutputType) (h : Hal)
    → ((k : Hal) → IsBalanced n k → IsBalanced n (inner k))
    → IsBalanced n h
    → IsBalanced n (output_standby e inner t h)
output_standby-Balanced e n inner t h f b = at (get_output t h) refl
  where
    at :
        (s : Option StreamOut)
        → get_output t h ≡ s
        → IsBalanced n
            (elim s [ none ↦ h | some o ↦ if o.standby then h else stop_output e inner t o h ])
    at none g = b
    at (some o) g = elim (Bool-cases o.standby) [
      | inl s ↦ simp s b
      | inr s ↦ simp s (stop_output-Balanced e n inner t o h f g b)
    ]

pub do_output_standby-Balanced :
    (e : Env) (n : ℕ) (t : OutputType) (h : Hal)
    → IsBalanced n h
    → IsBalanced n (do_output_standby e t h)
unfolding do_output_standby
do_output_standby-Balanced e n deep_buf h b =
    output_standby-Balanced e n (λ k. k) deep_buf h (λ k c. c) b
do_output_standby-Balanced e n low_latency h b =
    output_standby-Balanced e n (λ k. k) low_latency h (λ k c. c) b
do_output_standby-Balanced e n hdmi h b =
    output_standby-Balanced e n (output_standby e (λ k. k) low_latency) hdmi h
      (λ k c. output_standby-Balanced e n (λ j. j) low_latency k (λ j d. d) c) b
