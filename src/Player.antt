-- ===== src/Player.antt =====
-- A4/mp3player.c. What the calls of libav and ALSA answer is an argument (`Media`, `Packet`); what
-- the program does is the list of its calls of them. A codec's `frame_size` is never negative.
pub mod Played
pub mod Runs
mod Tests
use aip_pkussm.Prelude.{
  ℕ, zero, suc, ◌+◌, ◌-◌, ◌*◌, ◌==◌, ltb, not, Bool, true, false, Option, none, some, List, [], ◌∷◌,
  ◌++◌, ◌||◌, CString, codes, str_eq, ℤ, pos, negsuc, is_le_zero, div_int, if◌then◌else◌,
}

pub data SampleFormat : Type 0 where
  fmt_u8 fmt_s16 fmt_other : SampleFormat

pub data PcmFormat : Type 0 where
  pcm_s8 pcm_s16 : PcmFormat

pub data MediaType : Type 0 where
  audio other_type : MediaType

pub record CodecContext : Type 0 where
  pub sample_fmt : SampleFormat
  pub channels : ℕ
  pub sample_rate : ℕ
  pub frame_size : ℕ

-- A packet of `av_read_frame`, what the decoder makes of it, the size that
-- `av_samples_get_buffer_size` has for it, and what the writes of its frame return.
pub record Packet : Type 0 where
  pub stream_index : ℕ
  pub len : ℤ
  pub got_frames : Bool
  pub data0 : List ℕ
  pub data1 : List ℕ
  pub data_size : ℤ
  pub ret0 : ℤ
  pub ret1 : ℤ

-- The two objects of ALSA that `main` takes for one another.
pub data Object : Type 0 where
  pcm params : Object

-- The calls that a run makes, the prints among them.
pub data Call : Type 0 where
  register_all perror : Call
  print_codec : SampleFormat → ℕ → Call
  open_input find_stream_info find_decoder codec_open alloc_frame : Call
  pcm_open hw_params_malloc hw_params_any set_access : Call
  set_format : PcmFormat → Call
  set_channels set_rate_near : ℕ → Call
  hw_params hw_params_free : Call
  prepare get_buffer_size : Object → Call
  sw_params_alloca sw_params_current set_start_threshold sw_params : Call
  selem_id_alloca set_index set_name : Call
  mixer_open mixer_attach selem_register mixer_load find_selem : Call
  get_volume get_volume_range create_thread : Call
  set_volume : ℤ → Call
  read_frame decode_audio samples_size : Call
  write : (plane : ℕ) → List ℕ → ℤ → Call
  recover : ℤ → Call
  free_packet free_frame close_input mixer_close pcm_close : Call

-- How `main` ends: `return 0`, `exit (0)`, or the signal of a division by zero.
pub data End : Type 0 where
  finished exited divided_by_zero : End

unfoldable pub ffmpeg_fmt_to_alsa_fmt : CodecContext → List Call
ffmpeg_fmt_to_alsa_fmt ctx = elim ctx.sample_fmt [
  | fmt_u8 ↦ set_format pcm_s8 ∷ []
  | fmt_s16 ↦ set_format pcm_s16 ∷ []
  | fmt_other ↦ []
]

-- The bytes of a frame, or -1.
unfoldable pub cal_wav_frame_byte : CodecContext → ℤ
cal_wav_frame_byte ctx = elim ctx.sample_fmt [
  | fmt_u8 ↦ pos ctx.channels
  | fmt_s16 ↦ pos (2 * ctx.channels)
  | fmt_other ↦ negsuc 0
]

-- What `main` keeps in `frameByte`, which nothing reads.
unfoldable pub frame_byte : CString → CodecContext → ℤ
unfolding cal_wav_frame_byte
frame_byte name ctx =
    if str_eq name (codes "mp3") || str_eq name (codes "ape") then pos 0 else cal_wav_frame_byte ctx

unfoldable pub display_codec_ctx : CodecContext → List Call
display_codec_ctx ctx = print_codec ctx.sample_fmt ctx.sample_rate ∷ []

-- `vol += 2000` and `vol -= 2000`, where a `long` can hold the result.
abbrev pub raise : ℤ → ℤ
raise (pos n) = pos (n + 2000)
raise (negsuc n) = if ltb n 2000 then pos (1999 - n) else negsuc (n - 2000)

abbrev pub lower : ℤ → ℤ
lower (pos n) = if ltb n 2000 then negsuc (1999 - n) else pos (n - 2000)
lower (negsuc n) = negsuc (n + 2000)

-- The volume thread over the characters that it reads (119 is `w`): its calls, and `vol` behind them.
unfoldable pub thr_hdlr : List ℕ → ℤ → List Call × ℤ
thr_hdlr [] vol = ([], vol)
thr_hdlr (c ∷ input) vol = elim (c == 119) [
  | true ↦
      let louder = raise vol in
      let quieter = lower louder in
      let (calls, last) = thr_hdlr input quieter in
      (set_volume louder ∷ set_volume quieter ∷ calls, last)
  | false ↦ thr_hdlr input vol
]

-- The search for the first audio stream, from index `i` on; `none` is the -1 of `audioStream`.
unfoldable pub first_audio : ℕ → List MediaType → Option ℕ
first_audio i [] = none
first_audio i (audio ∷ streams) = some i
first_audio i (other_type ∷ streams) = first_audio (i + 1) streams

abbrev pub is_negative : ℤ → Bool
is_negative (pos n) = false
is_negative (negsuc n) = true

abbrev pub is_zero : ℤ → Bool
is_zero (pos zero) = true
is_zero (pos (suc n)) = false
is_zero (negsuc n) = false

-- What is done with a frame: the calls, and whether the program goes on.
unfoldable pub play_frame : CodecContext → Packet → List Call × Bool
play_frame ctx p =
    let first = write 0 p.data0 (pos ctx.frame_size) in
    if is_negative p.ret0
    then (first ∷ recover p.ret0 ∷ [], true)
    else if ctx.frame_size == 0
    then (first ∷ samples_size ∷ [], false)
    else (
      first
          ∷ samples_size
          ∷ write 1 p.data1 (div_int p.data_size ctx.frame_size)
          ∷ (if is_negative p.ret1 then recover p.ret1 ∷ [] else []),
      true,
    )

-- A packet that has a frame to play.
abbrev pub has_frame : ℕ → Packet → Bool
has_frame stream p =
    if p.stream_index == stream then (if is_le_zero p.len then false else p.got_frames) else false

-- The calls that read a packet and decode it, where it is one of the stream.
abbrev pub reads : ℕ → Packet → List Call
reads stream p = read_frame ∷ (if p.stream_index == stream then decode_audio ∷ [] else [])

-- The loop of `main` over the packets, up to a failure of `av_read_frame`.
unfoldable pub play : CodecContext → ℕ → List Packet → List Call × Bool
unfolding play_frame
play ctx stream [] = (read_frame ∷ [], true)
play ctx stream (p ∷ packets) =
    let (calls, goes_on) = if has_frame stream p then play_frame ctx p else ([], true) in
    let (more, ends) = play ctx stream packets in
    if goes_on
    then (reads stream p ++ (calls ++ (free_packet ∷ more)), ends)
    else (reads stream p ++ calls, false)

-- What the library says of a file: what `avformat_open_input` and `avformat_find_stream_info`
-- return, the streams, the context of the stream that is chosen, whether the mixer has the element
-- `Headphone`, and the packets.
pub record Media : Type 0 where
  pub open_ret : ℤ
  pub info_ret : ℤ
  pub streams : List MediaType
  pub codec : ℕ → CodecContext
  pub has_elem : Bool
  pub packets : List Packet

-- The calls between the choice of the stream and the loop.
unfoldable pub set_up : CodecContext → Bool → List Call
unfolding ffmpeg_fmt_to_alsa_fmt display_codec_ctx
set_up ctx has_elem =
    (find_decoder ∷ codec_open ∷ alloc_frame ∷ [])
    ++ (display_codec_ctx ctx
        ++ ((pcm_open ∷ hw_params_malloc ∷ hw_params_any ∷ set_access ∷ [])
            ++ (ffmpeg_fmt_to_alsa_fmt ctx
                ++ ((set_channels ctx.channels
                      ∷ set_rate_near ctx.sample_rate
                      ∷ hw_params
                      ∷ hw_params_free
                      ∷ prepare params
                      ∷ sw_params_alloca
                      ∷ sw_params_current
                      ∷ get_buffer_size params
                      ∷ set_start_threshold
                      ∷ sw_params
                      ∷ selem_id_alloca
                      ∷ set_index
                      ∷ set_name
                      ∷ mixer_open
                      ∷ mixer_attach
                      ∷ selem_register
                      ∷ mixer_load
                      ∷ find_selem
                      ∷ [])
                    ++ (if has_elem
                        then get_volume ∷ get_volume_range ∷ create_thread ∷ []
                        else [])))))

unfoldable pub main : Media → List Call × End
unfolding first_audio play set_up
main m =
    if not (is_zero m.open_ret)
    then (register_all ∷ open_input ∷ perror ∷ [], exited)
    else if is_negative m.info_ret
    then (register_all ∷ open_input ∷ find_stream_info ∷ perror ∷ [], exited)
    else elim (first_audio 0 m.streams) [
      | none ↦ (register_all ∷ open_input ∷ find_stream_info ∷ perror ∷ [], exited)
      | some stream ↦
          let ctx = m.codec stream in
          let start = register_all ∷ open_input ∷ find_stream_info ∷ set_up ctx m.has_elem in
          let (calls, ends) = play ctx stream m.packets in
          if ends
          then (
            start ++ (calls ++ (free_frame ∷ close_input ∷ mixer_close ∷ pcm_close ∷ [])),
            finished,
          )
          else (start ++ calls, divided_by_zero)
    ]
