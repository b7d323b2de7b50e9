-- ===== src/Ping/Result.antt =====
-- The metrics of a ping: tasks/ping/result.go. A duration is an int64 of nanoseconds; float64 and
-- its operations are a parameter.
pub mod Bounds
use monitorbeat.Base.{
  ℕ, zero, suc, ◌+◌, Bool, true, false, ◌||◌, ◌==◌, Option, none, some, List, [], ◌∷◌, length,
  if◌then◌else◌,
}
use monitorbeat.Base.Int.{ℤ, pos, negsuc, lt_int, is_negative, add64, quot}

-- The variables of the loop.
pub record Summary : Type 0 where
  pub received : ℕ
  pub min_rtt : ℤ
  pub max_rtt : ℤ
  pub total_rtt : ℤ

abbrev pub initial : Summary
initial = record { received = 0; min_rtt = negsuc 0; max_rtt = pos 0; total_rtt = pos 0 }

-- The body of the loop.
unfoldable pub sample : ℤ → Summary → Summary
sample rtt s = if is_negative rtt then s else record {
  received = s.received + 1;
  min_rtt = if is_negative s.min_rtt || lt_int rtt s.min_rtt then rtt else s.min_rtt;
  max_rtt = if lt_int s.max_rtt rtt then rtt else s.max_rtt;
  total_rtt = add64 s.total_rtt rtt;
}

unfoldable pub summarize : List ℤ → Summary → Summary
unfolding sample
summarize [] s = s
summarize (rtt ∷ l) s = summarize l (sample rtt s)

-- `totalRTT/time.Duration(received)`.
abbrev pub avg_rtt : Summary → ℤ
avg_rtt s = quot s.total_rtt s.received

-- float64 as far as the metrics need it.
pub record Floats : Type 1 where
  pub Float : Type 0
  pub of_int : ℤ → Float
  pub minus : Float → Float → Float
  pub over : Float → Float → Float

-- The map that is returned, by its keys.
pub record Metrics (F : Floats) : Type 0 where
  pub packets_sent : F.Float
  pub packets_received : F.Float
  pub packet_loss_percent : F.Float
  pub available : F.Float
  pub min_rtt_ms : F.Float
  pub avg_rtt_ms : F.Float
  pub max_rtt_ms : F.Float

module _ (F : Floats) where
  open F use {Float, of_int, minus, over}

  -- A duration in milliseconds.
  abbrev pub to_ms : ℤ → Float
  to_ms rtt = over (of_int rtt) (of_int (pos 1000000))

  -- The metrics of a summary of some samples.
  unfoldable pub metrics_of : ℕ → Summary → Metrics F
  metrics_of count s =
      let sent = of_int (pos count) in
      let received = of_int (pos s.received) in
      let none_received = s.received == 0 in
      record {
        packets_sent = sent;
        packets_received = received;
        packet_loss_percent = over (minus sent received) sent;
        available = over received sent;
        min_rtt_ms = if none_received then of_int (pos 0) else to_ms s.min_rtt;
        avg_rtt_ms = if none_received then of_int (pos 0) else to_ms (avg_rtt s);
        max_rtt_ms = if none_received then of_int (pos 0) else to_ms s.max_rtt;
      }

  -- `aggregateResults`; `none` is the nil map.
  unfoldable pub aggregate_results : List ℤ → Option (Metrics F)
  unfolding summarize metrics_of
  aggregate_results [] = none
  aggregate_results (rtt ∷ l) = some (metrics_of (length (rtt ∷ l)) (summarize (rtt ∷ l) initial))
