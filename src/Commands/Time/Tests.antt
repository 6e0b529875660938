-- ===== src/Commands/Time/Tests.antt =====
-- pkg/socket/cmd/util/util.go: a time of one hour and ninety minutes.
use streaming_server.Base.{List, [], ◌∷◌, ◌≡◌, refl, arith, ok}
use streaming_server.Base.Text.{codes}
use streaming_server.Base.Int.{pos}
use streaming_server.Base.Decimal.{value}
use streaming_server.Commands.Time.{human_time_to_seconds}
use streaming_server.Commands.Time.Sum.{
  Part, hours, minutes, time_text, total, human_time_to_seconds_lem,
}

abbrev hour : Part
hour = (codes "1", hours)

abbrev rest : List Part
rest = (codes "90", minutes) ∷ []

human_time_to_seconds_lem_example :
    human_time_to_seconds (time_text (hour ∷ rest)) ≡ ok (pos (total (hour ∷ rest)))
unfolding value
human_time_to_seconds_lem_example =
    human_time_to_seconds_lem hour rest (((λ e. cc (e)), refl), (((λ e. cc (e)), refl), tt))
      (omega arith)
