-- ===== src/Socket/Connect/Closed.antt =====
-- pkg/socket/handler.go: the end of a connection, on the server as a whole.
use streaming_server.Base.{
  ℕ, true, false, [], ◌∷◌, ◌≡◌, ◌≢◌, inl, inr, refl, sym, ap, ◌∙◌, arith, Option, none, some,
  Bool-cases, Option-cases, ok, subst,
}
use streaming_server.Base.Text.{Str, str_eq}
use streaming_server.Base.Dict.{lookup, insert, delete, lookup-delete}
use streaming_server.Queue.Item.{uuid}
use streaming_server.Queue.RoundRobin.Singles.{HoldsStreams, delete_item-Keeps}
use streaming_server.Rbac.Authorizer.{Authorizer}
use streaming_server.Connections.{
  Namespace, ns, namespace, remove_from_namespace, delete_connection,
}
use streaming_server.Connections.Members.{is_some, is_member, is_member-remove_from_namespace}
use streaming_server.Clients.{Client, destroy_client, unset_namespace, get_username_or_id}
use streaming_server.Playback.Room.{Playback}
use streaming_server.Playback.Room.Departure.{
  handle_disconnection, without_user, find_item, is_admin,
}
use streaming_server.Socket.{Server, from, info_clientleft}
use streaming_server.Socket.Connect.{
  disconnect, left_room, close, closed, deregister_client, without_subject,
}
use streaming_server.Socket.Connect.Sound.{
  IsPresent, IsSound, insert-Named, remove_from_namespace-AllNamed,
}
use streaming_server.Socket.Connect.Admitted.{Named-at, nameless-insert, kept-insert, room_name}

without_user-Keeps :
    (p : Playback) (conn : Str)
    → HoldsStreams p.queue.heap
    → ((without_user p conn).name ≡ p.name) × HoldsStreams (without_user p conn).queue.heap
unfolding without_user
without_user-Keeps p conn hs =
    elim (Option-cases (find_item (uuid p.queue.heap) conn p.queue.items)) [
      | inl missing ↦ rw (missing, without_user) (refl, hs)
      | inr (x, found) ↦ rw (found, without_user) (refl, (delete_item-Keeps p.queue x hs).0)
    ]

handle_disconnection-Keeps :
    (p : Playback) (conn : Str) (authorizer : Option Authorizer) (now : ℕ)
    → HoldsStreams p.queue.heap
    → ((handle_disconnection p conn authorizer now).name ≡ p.name)
      × HoldsStreams (handle_disconnection p conn authorizer now).queue.heap
unfolding handle_disconnection
handle_disconnection-Keeps p conn authorizer now hs =
    let kept = without_user-Keeps p conn hs in
    elim (Bool-cases (is_admin authorizer conn)) [
      | inl admin ↦ rw (admin, handle_disconnection) kept
      | inr other ↦ rw (other, handle_disconnection) kept
    ]

deregistered :
    (s : Server) (conn : Str) (c : Client) (n : Namespace)
    → lookup conn s.clients_by_id ≡ some c
    → namespace s.connections conn ≡ some n
    → deregister_client s conn ≡ record s {
      clients_by_id = delete conn s.clients_by_id;
      connections = remove_from_namespace s.connections n.name conn;
    }
unfolding destroy_client unset_namespace
deregistered s conn c n known inside =
    rw (known, destroy_client) (rw (inside, unset_namespace) refl)

-- A client that is known leaves a room that has a playback.
module _ (s : Server) (conn : Str) (c : Client) (n : Namespace) (p : Playback) (now : ℕ)
    (known : lookup conn s.clients_by_id ≡ some c) (inside : namespace s.connections conn ≡ some n)
    (playing : lookup n.name s.playbacks ≡ some p) where
  abbrev left_playback : Playback
  left_playback = handle_disconnection (record p { last_updated = now }) conn s.authorizer now

  -- The server afterwards.
  abbrev pub after_close : Server
  after_close = record {
    clients_by_id = delete conn s.clients_by_id;
    connections = delete_connection (remove_from_namespace s.connections n.name conn) conn;
    authorizer = without_subject s.authorizer conn;
    playbacks = insert n.name left_playback s.playbacks;
    streams = s.streams;
  }

  abbrev left_server : Server
  left_server = record s {
    authorizer = without_subject s.authorizer conn;
    playbacks = insert n.name left_playback s.playbacks;
  }

  disconnect-left : disconnect s conn now ≡ (
    deregister_client left_server conn,
    from conn (info_clientleft conn (get_username_or_id c)) ∷ [],
    ok tt,
  )
  unfolding disconnect left_room
  disconnect-left = rw (known, disconnect) (rw inside (rw (playing, left_room) refl))

  pub close-after_close : ((close s conn now).0 ≡ after_close) × ((close s conn now).2 ≡ ok tt)
  unfolding close closed
  close-after_close =
      let at_end = ap (closed conn) disconnect-left in
      (
        ap (λ t. t.0) at_end
            ∙ ap (λ (t : Server). record t { connections = delete_connection t.connections conn })
                (deregistered left_server conn c n known inside),
        ap (λ t. t.2) at_end,
      )

  -- The room has a name, since there is no playback without one.
  left_name : IsSound s → n.name ≢ []
  left_name w e = cc (playing, ap (λ k. lookup k s.playbacks) e, w.nameless)

  remaining :
      (w : IsSound s) (d : Str)
      → str_eq conn d ≡ false
      → IsPresent s.connections s.playbacks d
      → IsPresent after_close.connections after_close.playbacks d
  unfolding delete_connection
  remaining w d ne (member, there) =
      let cs = remove_from_namespace s.connections n.name conn in
      let at : ns cs d ≡ ns s.connections d =
        ap (λ m. room_name (lookup d m))
          (remove_from_namespace-AllNamed s.connections n.name conn w.rooms).1 in
      let k = ns s.connections d in
      let member' : is_member cs k d ≡ true =
        is_member-remove_from_namespace s.connections n.name conn k d
        ∙ rw (ne, member) (ground arith) in
      subst (λ j. (is_member cs j d ≡ true) × (is_some (lookup j after_close.playbacks) ≡ true))
        (sym at) (member', kept-insert n.name left_playback s.playbacks k there)

  pub after_close-IsSound : IsSound s → IsSound after_close
  unfolding delete_connection
  after_close-IsSound w =
      let (name, hs) = Named-at s.playbacks n.name p w.playbacks playing in
      let (name', hs') =
        handle_disconnection-Keeps (record p { last_updated = now }) conn s.authorizer now hs in
      record {
        rooms = (remove_from_namespace-AllNamed s.connections n.name conn w.rooms).0;
        playbacks = insert-Named n.name left_playback s.playbacks (name' ∙ name) hs' w.playbacks;
        nameless = nameless-insert n.name left_playback s.playbacks w.nameless (left_name w);
        present = λ d known' ne. elim (Bool-cases (str_eq conn d)) [
          | inl hit ↦
              let gone : lookup d (delete conn s.clients_by_id) ≡ none =
                lookup-delete conn d s.clients_by_id ∙ rw hit refl in
              absurd (cc (known', gone))
          | inr miss ↦
              let same : lookup d (delete conn s.clients_by_id) ≡ lookup d s.clients_by_id =
                lookup-delete conn d s.clients_by_id ∙ rw miss refl in
              let at : ns after_close.connections d ≡ ns s.connections d =
                ap (λ m. room_name (lookup d m))
                  (remove_from_namespace-AllNamed s.connections n.name conn w.rooms).1 in
              remaining w d miss (w.present d (ap is_some (sym same) ∙ known') (λ e. ne (at ∙ e)))
        ];
      }
