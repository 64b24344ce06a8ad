-- ===== src/Examples/Disorder.antt =====
-- A block of which all originals come, the first two of them swapped.
use lightvideo.Prelude.{ℕ, ◌≡◌, ◌⊎◌, true, refl, List, [], ◌∷◌, ok, false, arith, ◌<◌, slice}
use lightvideo.Prelude.Runs.{final}
use lightvideo.Net.Packet.{from_bytes}
use lightvideo.Net.Packet.RoundTrip.{from_bytes-layout}
use lightvideo.Net.FeedbackPacket.{default_ack, empty_pkt}
use lightvideo.Client.Video.{
  Arrival, L, start, decode_loop, decode_round, enter_block, is_incomplete,
}
use lightvideo.Client.Video.Disorder.{disorder_drops}
use lightvideo.Examples.ToyCode.{toy}
use lightvideo.Examples.Models.{rtp}
use lightvideo.Examples.Client.{h264, collecting}
use lightvideo.Examples.Recovery.{sent, original_header, original_header-IsHeader, packet}

abbrev at_start : L toy rtp h264
at_start = start toy rtp h264 collecting default_ack empty_pkt

abbrev swapped : List Arrival
swapped = sent 0 8 0 ∷ sent 0 8 2 ∷ sent 0 8 3 ∷ []

read : (j : ℕ) → j < 4 → from_bytes (sent 0 8 j).datagram ≡ ok (original_header 0 8 j)
read j h =
    from_bytes-layout (original_header 0 8 j) (packet 0 8 j)
      (original_header-IsHeader 0 8 (omega arith) (omega arith) j h)

complete :
    is_incomplete toy rtp h264 (final (decode_loop toy rtp h264 (sent 0 8 1 ∷ swapped) at_start))
    ≡ false
unfolding start decode_loop decode_round from_bytes slice
complete = refl

disorder_drops_example :
    ((final (decode_loop toy rtp h264 (sent 0 8 1 ∷ swapped) at_start)).video_dec ≡ collecting)
    × ((is_incomplete toy rtp h264
            (final (decode_loop toy rtp h264 (sent 0 8 1 ∷ swapped) at_start))
          ≡ true)
        ⊎ ((final (
              enter_block toy rtp h264 1
                (final (decode_loop toy rtp h264 (sent 0 8 1 ∷ swapped) at_start)))).video_dec
            ≡ collecting))
unfolding start
disorder_drops_example =
    disorder_drops toy rtp h264 (sent 0 8 1) (original_header 0 8 1) swapped at_start 1
      (read 1 (omega arith)) refl refl (λ e. absurd (omega (arith, e))) refl
      (
        (_, read 0 (omega arith), refl),
        ((_, read 2 (omega arith), refl), ((_, read 3 (omega arith), refl), tt)),
      )
      (omega arith)
