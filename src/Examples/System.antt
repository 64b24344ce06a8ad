-- ===== src/Examples/System.antt =====
-- The theorems on the input channel and the statistics at concrete values.
use mathlib.Core.List.{foldl}
use lightvideo.Prelude.{
  ℕ, ◌≡◌, ◌≢◌, refl, ◌⊎◌, List, [], ◌∷◌, map, replicate, some, none, true, ok, ◌>>=◌, arith, Option,
}
use lightvideo.Net.Input.{LvInputEvent, mouse_move_event, keyboard_event}
use lightvideo.Net.Pod.{EventFits}
use lightvideo.Client.Input.{fill_buffer, send_loop, new_buffer, input_thread}
use lightvideo.Server.X11.{write_event}
use lightvideo.Server.X11.Requests.{write_event_sends}
use lightvideo.Server.InputServer.{Receiver, receive_loop, start_receive_loop, ping}
use lightvideo.System.InputPath.{decode_buffer-fill_buffer, Carries}
use lightvideo.System.InputNetwork.{pick}
use lightvideo.System.InputSession.{receive_loop-input_thread}
use lightvideo.System.InputRelay.{send_loop_repeats, emulate, view}
use lightvideo.Statistics.{
  LvStatistics, LvStoredData, lookup, store_point, stored_series, time_elapsed, float_value,
  time_series,
}
use lightvideo.Statistics.Collector.{LvStatisticsMessage, update, register, collect, receiving}
use lightvideo.Statistics.Laws.{collect_lem, points}
use lightvideo.Examples.Models.{keys, xlib, pods, idle_input}

abbrev moved : LvInputEvent
moved = mouse_move_event (record { x = 4607182418800017408; y = 7 })

abbrev pressed_key : LvInputEvent
pressed_key = keyboard_event (record { key_code = 30; state = 1 })

moved-EventFits : EventFits moved
moved-EventFits = (omega arith, omega arith)

pressed_key-EventFits : EventFits pressed_key
pressed_key-EventFits = (omega arith, omega arith)

decode_buffer-fill_buffer_example :
    (out : List ℕ) × (fill_buffer pods moved new_buffer ≡ ok out) × Carries pods moved out
decode_buffer-fill_buffer_example =
    decode_buffer-fill_buffer pods moved new_buffer moved-EventFits refl

abbrev arriving : List (Option ℕ)
arriving = some 1 ∷ some 1 ∷ none ∷ some 0 ∷ []

receive_loop-input_thread_example :
    (r : Receiver) × (ds : List (List ℕ)) × (start_receive_loop true idle_input
      ≡ ok (replicate 5 ping, r))
    × (input_thread pods (some ping) (map some (moved ∷ pressed_key ∷ [])) ≡ ok ds)
    × ((receive_loop keys xlib pods (map (pick ds) arriving) r >>= λ u. ok (view u))
        ≡ emulate keys xlib (pressed_key ∷ pressed_key ∷ moved ∷ []) (idle_input, []))
receive_loop-input_thread_example =
    receive_loop-input_thread keys xlib pods idle_input (some 3) (moved ∷ pressed_key ∷ []) arriving
      (moved-EventFits, (pressed_key-EventFits, tt))

send_loop_repeats_example :
    (out : List ℕ) × (send_loop pods (some moved ∷ none ∷ none ∷ []) new_buffer
      ≡ ok (out ∷ out ∷ out ∷ []))
    × Carries pods moved out
send_loop_repeats_example = send_loop_repeats pods moved 2 new_buffer moved-EventFits refl

write_event_sends_example :
    let w = write_event keys xlib pressed_key idle_input in
    ((w.result ≡ ok tt) × (w.sent ≡ w.fake_input ∷ []) × (w.fake_input.time ≡ 0))
    ⊎ ((w.result ≢ ok tt) × (w.sent ≡ []))
write_event_sends_example = write_event_sends keys xlib pressed_key idle_input

abbrev started : LvStatistics
started = ("encode", stored_series []) ∷ []

abbrev reports : List LvStatisticsMessage
reports =
    register "decode" time_series
    ∷ update "encode" (time_elapsed 5)
    ∷ update "decode" (time_elapsed 9)
    ∷ update "encode" (time_elapsed 6)
    ∷ []

collect_lem_example :
    (stat : LvStatistics) × (collect reports started ≡ ok (receiving stat))
    × (lookup "encode" stat ≡ some (foldl store_point (stored_series []) (points "encode" reports)))
unfolding lookup
collect_lem_example =
    collect_lem "encode" reports (stored_series []) started refl (refl, (tt, (tt, (tt, tt))))

abbrev mixed_series : LvStoredData
mixed_series = stored_series (time_elapsed 5 ∷ float_value 6 ∷ [])
