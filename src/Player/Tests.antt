-- ===== src/Player/Tests.antt =====
-- The theorems about the player at concrete inputs.
use aip_pkussm.Prelude.{ℕ, ◌≡◌, refl, true, List, [], ◌∷◌, pos, negsuc, arith}
use aip_pkussm.Player.{
  write, Packet, Media, audio, other_type, fmt_s16, finished, divided_by_zero, main,
}
use aip_pkussm.Player.Played.{writes, frame_writes, freed}
use aip_pkussm.Player.Runs.{IsAudioFile, main-plays, main-crashes}

abbrev packet_of : ℕ → List ℕ → Packet
packet_of stream block = record {
  stream_index = stream;
  len = pos 2;
  got_frames = true;
  data0 = block;
  data1 = [];
  data_size = pos 4;
  ret0 = pos 2;
  ret1 = negsuc 13;
}

abbrev film : ℕ → Media
film frame_size = record {
  open_ret = pos 0;
  info_ret = pos 0;
  streams = other_type ∷ audio ∷ audio ∷ [];
  codec = λ n. record {
    sample_fmt = fmt_s16;
    channels = 2;
    sample_rate = 44100;
    frame_size = frame_size;
  };
  has_elem = true;
  packets = packet_of 0 (9 ∷ []) ∷ packet_of 1 (5 ∷ 6 ∷ []) ∷ packet_of 1 (7 ∷ 8 ∷ []) ∷ [];
}

film-IsAudioFile : (frame_size : ℕ) → IsAudioFile (film frame_size) 1 (audio ∷ [])
film-IsAudioFile frame_size = record { opened = refl; has_info = refl; first = refl }

main-plays_example :
    (writes (main (film 2)).0
      ≡ write 0 (5 ∷ 6 ∷ []) (pos 2)
        ∷ write 1 [] (pos 2)
        ∷ write 0 (7 ∷ 8 ∷ []) (pos 2)
        ∷ write 1 [] (pos 2)
        ∷ [])
    × (freed (main (film 2)).0 ≡ 3)
    × ((main (film 2)).1 ≡ finished)
unfolding frame_writes
main-plays_example = main-plays (film 2) 1 (audio ∷ []) (film-IsAudioFile 2) (omega arith)

main-crashes_example :
    (writes (main (film 0)).0 ≡ write 0 (5 ∷ 6 ∷ []) (pos 0) ∷ [])
    × (freed (main (film 0)).0 ≡ 1)
    × ((main (film 0)).1 ≡ divided_by_zero)
main-crashes_example =
    main-crashes (film 0) 1 (audio ∷ []) (film-IsAudioFile 0) (packet_of 0 (9 ∷ []) ∷ [])
      (packet_of 1 (7 ∷ 8 ∷ []) ∷ []) (packet_of 1 (5 ∷ 6 ∷ [])) refl refl (refl, tt) refl refl
