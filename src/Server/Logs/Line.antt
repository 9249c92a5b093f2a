-- ===== src/Server/Logs/Line.antt =====
-- What the worker writes to a stream is what the browser gets.
use kle_ng_api.Prelude.{◌^◌, ◌<◌, ◌≤◌, ◌≡◌, refl, ap, true, false, String, ℤ, pos_part, neg_part}
use kle_ng_api.Go.Decimal.Print.{parse_int-show_int}
use kle_ng_api.Logstream.Publisher.{line_values, end_values}
use kle_ng_api.Server.Logs.{log_frame, end_frame, encode_frame}

-- A line that the publisher writes at a time of the int64 range becomes the frame with that time,
-- source and text, whatever they are, and is no end marker; the end entry becomes the end frame
-- with its status, and is one.
pub encode_published :
    (now : ℤ) (source line status : String)
    → pos_part now < 2 ^ 63
    → neg_part now ≤ 2 ^ 63
    → (encode_frame (line_values now source line) ≡ (log_frame now source line, false))
      × (encode_frame (end_values status) ≡ (end_frame status, true))
unfolding encode_frame line_values end_values
encode_published now source line status hp hn =
    (ap (λ p. (log_frame p.0 source line, false)) (parse_int-show_int now hp hn), refl)
