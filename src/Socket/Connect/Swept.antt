-- ===== src/Socket/Connect/Swept.antt =====
-- pkg/playback/reaper.go: a pass of the reaper, on the server as a whole.
use streaming_server.Base.{
  ℕ, ◌-◌, Bool, true, false, ◌&&◌, [], ◌∷◌, ◌≡◌, inl, inr, refl, sym, ap, ◌∙◌, arith, Option, none,
  some, Bool-cases, subst, ltb, length, ◌==◌,
}
use streaming_server.Base.Text.{Str}
use streaming_server.Base.Dict.{Dict, lookup, values}
use streaming_server.Connections.{Namespace, ns}
use streaming_server.Connections.Members.{is_some, is_member, in_namespace}
use streaming_server.Playback.Room.{Playback}
use streaming_server.Playback.Handler.{is_deserted}
use streaming_server.Playback.Handler.Reaper.{max_stale_playback_duration, reap}
use streaming_server.Playback.Handler.Reaped.{is_reaped, lookup-reap}
use streaming_server.Playback.Handler.Kept.{reap_each-Keeps}
use streaming_server.Socket.{Server, playbacks_of, with_playbacks}
use streaming_server.Socket.Connect.Sound.{IsPresent, IsSound}
use streaming_server.Socket.Connect.Admitted.{room_name}

-- A room with a member is not deserted.
not_empty :
    (c : Str) (m : Dict Str) → is_some (lookup c m) ≡ true → (length (values m) == 0) ≡ false
unfolding lookup
not_empty c [] there = absurd (ground (arith, there))
not_empty c ((k, v) ∷ m) there = ground arith

not_deserted : (c : Str) (o : Option Namespace) → in_namespace c o ≡ true → is_deserted o ≡ false
not_deserted c none there = absurd (ground (arith, there))
not_deserted c (some n) there = not_empty c n.connections there

module _ (now : ℕ) (s : Server) (w : IsSound s) where
  abbrev pub swept : Server
  swept = with_playbacks s (reap now (playbacks_of s)).0

  swept-joined : (c : Str) → ns swept.connections c ≡ ns s.connections c
  unfolding reap
  swept-joined c =
      ap (λ m. room_name (lookup c m))
        (reap_each-Keeps now (values s.playbacks) (playbacks_of s) w.playbacks).1

  not_reaped :
      (o : Option Playback) (b : Bool)
      → b ≡ false
      → elim o as (λ _. Bool) [
        | none ↦ false
        | some p ↦ b && ltb max_stale_playback_duration (now - p.last_updated)
      ]
        ≡ false
  not_reaped none b e = refl
  not_reaped (some p) b e = rw e refl

  -- The room of a client is not reaped.
  kept :
      (c : Str)
      → IsPresent s.connections s.playbacks c
      → is_reaped now (playbacks_of s) (ns s.connections c) ≡ false
  kept c (member, there) =
      let k = ns s.connections c in
      not_reaped (lookup k s.playbacks) (is_deserted (lookup k s.connections.ns_by_name))
        (not_deserted c (lookup k s.connections.ns_by_name) member)

  pub swept-IsSound : IsSound swept
  unfolding reap
  swept-IsSound =
      let (_, at, at_ns) = lookup-reap now (playbacks_of s) w.playbacks in
      record {
        rooms = λ k n found. elim (Bool-cases (is_reaped now (playbacks_of s) k)) [
          | inl gone ↦ absurd (ground (arith, found, at_ns k, gone))
          | inr left ↦ w.rooms k n (sym (at_ns k ∙ rw left refl) ∙ found)
        ];
        playbacks = (reap_each-Keeps now (values s.playbacks) (playbacks_of s) w.playbacks).0;
        nameless = at [] ∙ rw w.nameless (ground arith);
        present = λ c known ne.
            let here = w.present c known (λ e. ne (swept-joined c ∙ e)) in
            let k = ns s.connections c in
            let left = kept c here in
            let same : lookup k swept.playbacks ≡ lookup k s.playbacks = at k ∙ rw left refl in
            let same_ns : lookup k swept.connections.ns_by_name
                ≡ lookup k s.connections.ns_by_name =
              at_ns k ∙ rw left refl in
            subst
              (λ j.
                (is_member swept.connections j c ≡ true)
                × (is_some (lookup j swept.playbacks) ≡ true))
              (sym (swept-joined c))
              (ap (in_namespace c) same_ns ∙ here.0, ap is_some same ∙ here.1);
      }
