-- ===== src/Player/Runs.antt =====
-- What a run of the player does.
use aip_pkussm.Prelude.{
  ℕ, zero, suc, ◌+◌, ◌≡◌, ◌≢◌, refl, ap, append-nil, ◌∙◌, Bool, true, false, ◌⊎◌, inl, inr, some,
  List, [], ◌∷◌, ◌++◌, replicate, length, pos, arith,
}
use aip_pkussm.Player.{
  CodecContext, Packet, Call, write, ffmpeg_fmt_to_alsa_fmt, display_codec_ctx, set_up, first_audio,
  audio, other_type, MediaType, has_frame, play, is_negative, End, finished, divided_by_zero, Media,
  main, SampleFormat, fmt_u8, fmt_s16, fmt_other, register_all, open_input, find_stream_info,
  free_frame, close_input, mixer_close, pcm_close,
}
use aip_pkussm.Player.Played.{
  writes, frame_writes, freed, writes-append, freed-append, play-IsPlayed, HaveNoFrame,
  play-crashes,
}

first_audio-found :
    (n i : ℕ) (rest : List MediaType)
    → first_audio i (replicate n other_type ++ (audio ∷ rest)) ≡ some (i + n)
unfolding first_audio
first_audio-found zero i rest = ap some (omega arith)
first_audio-found (suc n) i rest = first_audio-found n (i + 1) rest ∙ ap some (omega arith)

-- A file that can be opened, whose first audio stream is stream `n`.
pub record IsAudioFile (m : Media) (n : ℕ) (rest : List MediaType) : Type 0 where
  pub opened : m.open_ret ≡ pos 0
  pub has_info : is_negative m.info_ret ≡ false
  pub first : m.streams ≡ replicate n other_type ++ (audio ∷ rest)

-- The calls up to the loop.
abbrev start_of : Media → ℕ → List Call
start_of m n = register_all ∷ open_input ∷ find_stream_info ∷ set_up (m.codec n) m.has_elem

found :
    (m : Media) (n : ℕ) (rest : List MediaType)
    → IsAudioFile m n rest
    → first_audio 0 m.streams ≡ some n
found m n rest v = rw v.first (first_audio-found n 0 rest ∙ ap some (omega arith))

main-ends :
    (m : Media) (n : ℕ) (rest : List MediaType)
    → IsAudioFile m n rest
    → (play (m.codec n) n m.packets).1 ≡ true
    → main m ≡ (
      start_of m n
          ++ ((play (m.codec n) n m.packets).0
              ++ (free_frame ∷ close_input ∷ mixer_close ∷ pcm_close ∷ [])),
      finished,
    )
unfolding main
main-ends m n rest v ends = rw (v.opened, v.has_info, found m n rest v, ends) refl

main-stops :
    (m : Media) (n : ℕ) (rest : List MediaType)
    → IsAudioFile m n rest
    → (play (m.codec n) n m.packets).1 ≡ false
    → main m ≡ (start_of m n ++ (play (m.codec n) n m.packets).0, divided_by_zero)
unfolding main
main-stops m n rest v ends = rw (v.opened, v.has_info, found m n rest v, ends) refl

formats : (f : SampleFormat) → (f ≡ fmt_u8) ⊎ (f ≡ fmt_s16) ⊎ (f ≡ fmt_other)
formats fmt_u8 = inl refl
formats fmt_s16 = inr (inl refl)
formats fmt_other = inr (inr refl)

set_up-quiet :
    (ctx : CodecContext) (b : Bool) → (writes (set_up ctx b) ≡ []) × (freed (set_up ctx b) ≡ 0)
unfolding set_up display_codec_ctx ffmpeg_fmt_to_alsa_fmt writes freed
set_up-quiet ctx true = elim (formats ctx.sample_fmt) [
  | inl e ↦ rw e (refl, refl)
  | inr (inl e) ↦ rw e (refl, refl)
  | inr (inr e) ↦ rw e (refl, refl)
]
set_up-quiet ctx false = elim (formats ctx.sample_fmt) [
  | inl e ↦ rw e (refl, refl)
  | inr (inl e) ↦ rw e (refl, refl)
  | inr (inr e) ↦ rw e (refl, refl)
]

module _ (m : Media) (n : ℕ) (rest : List MediaType) (file : IsAudioFile m n rest) where
  -- A run on a file whose first audio stream is stream `n`, with a codec that has a frame size, ends
  -- with `return 0`. Its calls of `snd_pcm_writei` are, in order: for each frame that the decoder got
  -- from that stream's packets one with the first plane and the codec's frame size, and where that
  -- does not fail one with the second plane and the quotient of the frame's bytes by the frame size.
  -- It frees each packet that was read.
  pub main-plays :
      (m.codec n).frame_size ≢ 0
      → (writes (main m).0 ≡ frame_writes (m.codec n) n m.packets)
        × (freed (main m).0 ≡ length m.packets)
        × ((main m).1 ≡ finished)
  unfolding writes freed
  main-plays sized =
      let ctx = m.codec n in
      let calls = (play ctx n m.packets).0 in
      let ending = free_frame ∷ close_input ∷ mixer_close ∷ pcm_close ∷ [] in
      let (planes, frees, ends) = play-IsPlayed ctx n m.packets (ground arith) in
      let (quiet, none_freed) = set_up-quiet ctx m.has_elem in
      let e = main-ends m n rest file ends in
      (
        ap (λ (x : List Call × End). writes x.0) e
            ∙ writes-append (start_of m n) (calls ++ ending)
            ∙ rw quiet (writes-append calls ending ∙ append-nil (writes calls) ∙ planes),
        ap (λ (x : List Call × End). freed x.0) e
            ∙ freed-append (start_of m n) (calls ++ ending)
            ∙ omega (arith, none_freed, freed-append calls ending, frees),
        ap (λ (x : List Call × End). x.1) e,
      )

  -- With a codec whose frame size is 0, and a first frame of that stream whose first plane can be
  -- written, the run ends at that frame by a division by zero, with the packets before it freed; its
  -- one call of `snd_pcm_writei` is that of this plane, with the size 0.
  pub main-crashes :
      (before later : List Packet) (p : Packet)
      → (m.codec n).frame_size ≡ 0
      → m.packets ≡ before ++ (p ∷ later)
      → HaveNoFrame n before
      → has_frame n p ≡ true
      → is_negative p.ret0 ≡ false
      → (writes (main m).0 ≡ write 0 p.data0 (pos 0) ∷ [])
        × (freed (main m).0 ≡ length before)
        × ((main m).1 ≡ divided_by_zero)
  unfolding writes freed
  main-crashes before later p zero_size split silent frame written =
      let ctx = m.codec n in
      let calls = (play ctx n m.packets).0 in
      let (planes, frees, ends) =
        play-crashes ctx n before later p zero_size silent frame written in
      let (quiet, none_freed) = set_up-quiet ctx m.has_elem in
      let e = main-stops m n rest file (rw split ends) in
      (
        ap (λ (x : List Call × End). writes x.0) e
            ∙ writes-append (start_of m n) calls
            ∙ rw (quiet, split) planes,
        ap (λ (x : List Call × End). freed x.0) e
            ∙ freed-append (start_of m n) calls
            ∙ rw (none_freed, split) (omega (arith, frees)),
        ap (λ (x : List Call × End). x.1) e,
      )
