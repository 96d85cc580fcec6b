-- ===== src/Player/Played.antt =====
-- What the player plays.
use aip_pkussm.Prelude.{
  ℕ, ◌+◌, ◌≡◌, refl, ap, sym, append_assoc, ◌∙◌, ◌==◌, Bool, true, false, Bool-cases, inl, inr,
  List, [], ◌∷◌, ◌++◌, length, div_int, ℤ, pos, negsuc, if◌then◌else◌, arith,
}
use aip_pkussm.Player.{
  cal_wav_frame_byte, ffmpeg_fmt_to_alsa_fmt, CodecContext, Packet, Call, write, samples_size,
  free_packet, raise, lower, thr_hdlr, has_frame, reads, play_frame, play, is_negative,
}

lower-raise : (vol : ℤ) → lower (raise vol) ≡ vol
lower-raise (pos n) = ground arith
lower-raise (negsuc n) = ground arith

-- Whatever is typed, the volume thread leaves the volume as it was.
thr_hdlr-keeps : (input : List ℕ) (vol : ℤ) → (thr_hdlr input vol).1 ≡ vol
unfolding thr_hdlr
thr_hdlr-keeps [] vol = refl
thr_hdlr-keeps (c ∷ input) vol =
    ground
      (arith, lower-raise vol, thr_hdlr-keeps input vol, thr_hdlr-keeps input (lower (raise vol)))

-- The calls that write.
abbrev pub write_of : Call → List Call
write_of (write plane block n) = write plane block n ∷ []
write_of c = []

unfoldable pub writes : List Call → List Call
writes [] = []
writes (c ∷ calls) = write_of c ++ writes calls

-- The writes for a frame: its first plane with the codec's frame size, and its second plane, with the
-- quotient of its size by that, where the first write does not fail.
abbrev pub writes_for : CodecContext → Packet → List Call
writes_for ctx p =
    write 0 p.data0 (pos ctx.frame_size)
    ∷ (if is_negative p.ret0 then [] else write 1 p.data1 (div_int p.data_size ctx.frame_size) ∷ [])

-- The writes for the frames that a stream has in the packets.
unfoldable pub frame_writes : CodecContext → ℕ → List Packet → List Call
frame_writes ctx stream [] = []
frame_writes ctx stream (p ∷ packets) =
    let rest = frame_writes ctx stream packets in
    if has_frame stream p then writes_for ctx p ++ rest else rest

pub writes-append : (xs ys : List Call) → writes (xs ++ ys) ≡ writes xs ++ writes ys
unfolding writes
writes-append [] ys = refl
writes-append (c ∷ xs) ys =
    ap (λ l. write_of c ++ l) (writes-append xs ys)
    ∙ sym (append_assoc (write_of c) (writes xs) (writes ys))

-- How many packets calls free.
abbrev pub free_of : Call → ℕ
free_of free_packet = 1
free_of c = 0

unfoldable pub freed : List Call → ℕ
freed [] = 0
freed (c ∷ calls) = free_of c + freed calls

pub freed-append : (xs ys : List Call) → freed (xs ++ ys) ≡ freed xs + freed ys
unfolding freed
freed-append [] ys = omega arith
freed-append (c ∷ xs) ys = omega (arith, freed-append xs ys)

-- The calls make these writes, free as many packets, and the program goes on.
abbrev pub IsPlayed : List Call × Bool → List Call → ℕ → Type 0
IsPlayed (calls, goes_on) planes n = (writes calls ≡ planes) × (freed calls ≡ n) × (goes_on ≡ true)

play_frame-IsPlayed :
    (ctx : CodecContext) (p : Packet)
    → (ctx.frame_size == 0) ≡ false
    → IsPlayed (play_frame ctx p) (writes_for ctx p) 0
unfolding play_frame writes freed
play_frame-IsPlayed ctx p h = elim (Bool-cases (is_negative p.ret0)) [
  | inl e ↦ rw (play_frame, e) (refl, refl, refl)
  | inr e ↦ elim (Bool-cases (is_negative p.ret1)) [
    | inl f ↦ rw (play_frame, e, h, f) (refl, refl, refl)
    | inr f ↦ rw (play_frame, e, h, f) (refl, refl, refl)
  ]
]

-- Reading and decoding a packet writes nothing and frees nothing.
module _ (stream : ℕ) (p : Packet) (calls : List Call) where
  writes-reads : writes (reads stream p ++ calls) ≡ writes calls
  unfolding writes
  writes-reads = elim (Bool-cases (p.stream_index == stream)) [
    | inl e ↦ rw e refl
    | inr e ↦ rw e refl
  ]

  freed-reads : freed (reads stream p ++ calls) ≡ freed calls
  unfolding freed
  freed-reads = elim (Bool-cases (p.stream_index == stream)) [
    | inl e ↦ rw e (omega arith)
    | inr e ↦ rw e (omega arith)
  ]

pub play-IsPlayed :
    (ctx : CodecContext) (stream : ℕ) (packets : List Packet)
    → (ctx.frame_size == 0) ≡ false
    → IsPlayed (play ctx stream packets) (frame_writes ctx stream packets) (length packets)
unfolding play frame_writes writes freed
play-IsPlayed ctx stream [] h = (refl, refl, refl)
play-IsPlayed ctx stream (p ∷ packets) h =
    let (planes, frees, goes_on) = play_frame-IsPlayed ctx p h in
    let (later, more, ends) = play-IsPlayed ctx stream packets h in
    let rest = free_packet ∷ (play ctx stream packets).0 in
    elim (Bool-cases (has_frame stream p)) [
      | inl e ↦
          rw (e, goes_on)
            (
              writes-reads stream p ((play_frame ctx p).0 ++ rest)
                  ∙ writes-append (play_frame ctx p).0 rest
                  ∙ rw (planes, later) refl,
              freed-reads stream p ((play_frame ctx p).0 ++ rest)
                  ∙ freed-append (play_frame ctx p).0 rest
                  ∙ rw (frees, more) (omega arith),
              ends,
            )
      | inr e ↦ rw e (
        writes-reads stream p rest ∙ later,
        freed-reads stream p rest ∙ omega (arith, more),
        ends,
      )
    ]

-- The packets hold no frame of a stream.
abbrev pub HaveNoFrame : ℕ → List Packet → Type 0
HaveNoFrame stream [] = Unit
HaveNoFrame stream (p ∷ packets) = (has_frame stream p ≡ false) × HaveNoFrame stream packets

pub play-crashes :
    (ctx : CodecContext) (stream : ℕ) (before later : List Packet) (p : Packet)
    → ctx.frame_size ≡ 0
    → HaveNoFrame stream before
    → has_frame stream p ≡ true
    → is_negative p.ret0 ≡ false
    → (writes (play ctx stream (before ++ (p ∷ later))).0 ≡ write 0 p.data0 (pos 0) ∷ [])
      × (freed (play ctx stream (before ++ (p ∷ later))).0 ≡ length before)
      × ((play ctx stream (before ++ (p ∷ later))).1 ≡ false)
unfolding play play_frame writes freed
play-crashes ctx stream [] later p zero_size silent frame written =
    let calls = write 0 p.data0 (pos 0) ∷ samples_size ∷ [] in
    rw (play, frame, play_frame, written, zero_size)
      (writes-reads stream p calls, freed-reads stream p calls, refl)
play-crashes ctx stream (q ∷ before) later p zero_size (quiet, silent) frame written =
    let (planes, frees, ends) =
      play-crashes ctx stream before later p zero_size silent frame written in
    let calls = free_packet ∷ (play ctx stream (before ++ (p ∷ later))).0 in
    rw (play, quiet)
      (
        writes-reads stream q calls ∙ planes,
        freed-reads stream q calls ∙ omega (arith, frees),
        ends,
      )

-- The formats of which the player knows the size of a frame are those that it sets for ALSA.
cal_wav_frame_byte-known :
    (ctx : CodecContext)
    → is_negative (cal_wav_frame_byte ctx) ≡ true
    → ffmpeg_fmt_to_alsa_fmt ctx ≡ []
unfolding cal_wav_frame_byte ffmpeg_fmt_to_alsa_fmt
cal_wav_frame_byte-known ctx h = ground arith
