-- ===== src/Server/Encoder/Default.antt =====
-- server/src/encoder/mod.rs: `default_encoder`, for a build with the feature `nvidia-hwenc` or without.
use lightvideo.Prelude.{ℕ, List, Bool, if◌then◌else◌, ◌⊎◌, inl, inr}
use lightvideo.Prelude.Runs.{M, ◌>>=◌, return}
use lightvideo.Statistics.Collector.{LvStatisticsMessage}
use lightvideo.Server.Encoder.{ColorPrimitives}
use lightvideo.Server.Encoder.Openh264Enc.{Openh264, LvOpenh264Encoder}
use lightvideo.Server.Encoder.Nvidia.{Nvenc, LvNvidiaEncoder}
use lightvideo.Server.Encoder.Openh264Enc
use lightvideo.Server.Encoder.Nvidia

module _ (lib : Openh264) (nvenc : Nvenc) (colors : ColorPrimitives) where
  -- The software encoder is made in both builds, and dropped in one of them.
  unfoldable pub default_encoder :
      Bool
      → ℕ
      → ℕ
      → ℕ
      → ℕ
      → M (List LvStatisticsMessage) (LvOpenh264Encoder lib ⊎ LvNvidiaEncoder nvenc)
  default_encoder nvidia_hwenc width height bitrate fps = do
    enc ← Openh264Enc.new lib colors width height bitrate fps
    (if nvidia_hwenc
        then (do card ← Nvidia.new nvenc colors width height bitrate fps; return (inr card))
        else return (inl enc))
