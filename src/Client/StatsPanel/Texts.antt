-- ===== src/Client/StatsPanel/Texts.antt =====
-- What the texts of the figures show.
use socket_tester.Base.{ℕ, ◌+◌, ◌*◌, ◌/◌, ◌≤◌, ◌<◌, ◌≡◌, refl, some, lit, decimal, arith}
use socket_tester.Client.StatsPanel.{rounded, clock_of, format_bytes, format_duration}

-- The hours, minutes and seconds of a duration make up its whole seconds, with less than 60 minutes
-- and less than 60 seconds.
pub clock_of_lem :
    (ms : ℕ)
    → let c = clock_of ms in
      (3600 * c.hours + (60 * c.minutes + c.seconds) ≡ ms / 1000)
      × (c.minutes < 60)
      × (c.seconds < 60)
unfolding clock_of
clock_of_lem ms = (omega arith, omega arith, omega arith)

-- A size below one megabyte is shown in kilobytes with a tenth at most half a tenth away.
pub rounded_kilobytes :
    (bytes : ℕ)
    → let t = rounded 10 bytes 1024 in
      (2 * t * 1024 ≤ 20 * bytes + 1024) × (20 * bytes ≤ 2 * t * 1024 + 1024)
unfolding rounded
rounded_kilobytes bytes = (omega arith, omega arith)

minute_text : format_duration (some 65432) ≡ lit "00:01:05"
unfolding format_duration decimal lit
minute_text = refl

kilobyte_text : format_bytes 1536 ≡ lit "1.5 KB"
unfolding format_bytes decimal lit
kilobyte_text = refl

megabyte_text : format_bytes 2202010 ≡ lit "2.10 MB"
unfolding format_bytes decimal lit
megabyte_text = refl
