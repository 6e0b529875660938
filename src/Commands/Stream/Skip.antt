-- ===== src/Commands/Stream/Skip.antt =====
-- pkg/socket/cmd/stream.go: `/stream skip` plays what the round-robin queue serves next.
use streaming_server.Base.{
  ℕ, Bool, true, false, List, [], ◌≡◌, refl, ap, ◌∙◌, Option, none, some, ok, err, if◌then◌else◌,
  Bool-cases, inl, inr, subst, sym,
}
use streaming_server.Base.Text.{Str}
use streaming_server.Queue.Item.{QueueItem, single, aggregate, no_items, Result}
use streaming_server.Queue.RoundRobin.{RoundRobinQueue, next}
use streaming_server.Queue.RoundRobin.Rotation.{View, rotation, IsWellFormed}
use streaming_server.Queue.RoundRobin.Turn.{serve, ServesTo}
use streaming_server.Queue.RoundRobin.Next.{next-Serves}
use streaming_server.Playback.Timer
use streaming_server.Playback.Timer.{
  Timer, TimerState, timer_play, timer_pause, timer_stop, is_playing,
}
use streaming_server.Playback.Room.{Room, set_stream, reset, play, set_time, with_queue}
use streaming_server.Commands.Stream.{
  Run, skip, load_item, load_next, loading_next, no_next, next_not_a_stream,
}

-- What a skip comes to, from what the turn order serves.
abbrev pub Skips : Bool → Room → Option (QueueItem × List View) → Run → Type 0
Skips should_play r none (r', events, o) =
    (o ≡ err (no_next no_items))
    × (events ≡ [])
    × (r'.playback.stream ≡ r.playback.stream)
    × (rotation r'.playback.queue ≡ [])
    × IsWellFormed r'.playback.queue
Skips should_play r (some (single _ p, turns)) (r', events, o) =
    (o ≡ ok (loading_next p))
    × (r'.playback.stream ≡ some p)
    × (r'.playback.timer.time ≡ 0)
    × (r'.playback.timer.state ≡ (if should_play then timer_play else r.playback.timer.state))
    × (rotation r'.playback.queue ≡ turns)
    × IsWellFormed r'.playback.queue
Skips should_play r (some (aggregate _, turns)) (r', events, o) =
    (o ≡ err next_not_a_stream)
    × (events ≡ [])
    × (r'.playback.stream ≡ r.playback.stream)
    × (rotation r'.playback.queue ≡ turns)
    × IsWellFormed r'.playback.queue

is_playing-timer_play : (s : TimerState) → is_playing s ≡ true → s ≡ timer_play
is_playing-timer_play timer_play e = refl
is_playing-timer_play timer_pause e = cc
is_playing-timer_play timer_stop e = cc

play_lem : (t : Timer) → ((Timer.play t).time ≡ t.time) × ((Timer.play t).state ≡ timer_play)
unfolding Timer.play
play_lem t = elim (Bool-cases (is_playing t.state)) [
  | inl playing ↦ rw (playing, Timer.play) (refl, is_playing-timer_play t.state playing)
  | inr still ↦ rw (still, Timer.play) (refl, refl)
]

module _ (names : Str → Str) (sources : Option Str → Str) where
  load_next_lem :
      (should_play : Bool) (r : Room) (p now : ℕ)
      → ((load_next names sources should_play r p now).2 ≡ ok (loading_next p))
        × ((load_next names sources should_play r p now).0.playback.stream ≡ some p)
        × ((load_next names sources should_play r p now).0.playback.timer.time ≡ 0)
        × ((load_next names sources should_play r p now).0.playback.timer.state
            ≡ (if should_play then timer_play else r.playback.timer.state))
        × ((load_next names sources should_play r p now).0.playback.queue ≡ r.playback.queue)
  unfolding load_next set_stream reset set_time Timer.set play Timer.play
  load_next_lem false r p now = (refl, refl, refl, refl, refl)
  load_next_lem true r p now =
      let (at_time, at_state) = play_lem (record r.playback.timer { time = 0 }) in
      (refl, refl, at_time, at_state, refl)

  load_item-Skips :
      (should_play : Bool) (r : Room) (now : ℕ) (o : Option (QueueItem × List View))
      (q : RoundRobinQueue) (x : Result QueueItem)
      → ServesTo o (q, x)
      → Skips should_play r o (load_item names sources should_play r now (q, x))
  unfolding load_item
  load_item-Skips should_play r now none q x (w, e, turns) =
      rw (e, load_item) (refl, refl, refl, turns, w)
  load_item-Skips should_play r now (some (single k p, vs)) q x (w, e, turns) =
      let (fine, stream, time, state, queue) = load_next_lem should_play (with_queue r q) p now in
      rw (e, load_item)
        (fine, stream, time, state, ap rotation queue ∙ turns, subst IsWellFormed (sym queue) w)
  load_item-Skips should_play r now (some (aggregate a, vs)) q x (w, e, turns) =
      rw (e, load_item) (refl, refl, refl, turns, w)

  -- A skip loads the stream that the order of turns serves next, from its start, and plays it if
  -- it is asked to; the order is then the one that is left. It fails, and the stream stays, if no
  -- queue has an item. The room's queue stays well formed.
  pub skip-Skips :
      (should_play : Bool) (r : Room) (now : ℕ)
      → IsWellFormed r.playback.queue
      → Skips should_play r
          (serve (rotation r.playback.queue))
          (skip names sources should_play r now)
  unfolding skip
  skip-Skips should_play r now w =
      let (q, x) = next r.playback.queue in
      load_item-Skips should_play r now (serve (rotation r.playback.queue)) q x
        (next-Serves r.playback.queue w)
