-- ===== src/Socket/Connect/Arrived.antt =====
-- pkg/socket/server/server.go: the admission of a connection keeps what holds of the server.
use streaming_server.Base.{
  ℕ, true, false, [], ◌∷◌, ◌≡◌, ◌≢◌, inl, inr, refl, sym, ap, ◌∙◌, arith, Option, Bool-cases, ok,
  subst,
}
use streaming_server.Base.Text.{Str, str_eq, str_eq_refl}
use streaming_server.Base.Dict.{lookup, insert, lookup-insert}
use streaming_server.Queue.Item.{Heap}
use streaming_server.Queue.RoundRobin.Singles.{HoldsStreams}
use streaming_server.Connections.{Connections, ns}
use streaming_server.Connections.Members.{is_some, is_member}
use streaming_server.Clients.{create_client}
use streaming_server.Socket.{Server}
use streaming_server.Socket.Connect.{admit}
use streaming_server.Socket.Connect.Sound.{AllNamed, IsPresent, IsSound}
use streaming_server.Socket.Connect.Admitted.{
  joined, joined-AllNamed, ns-joined, is_member-joined, is_member-lobby, admit-Opens,
}

module _ (generate_uuid : ℕ → Str) where
  -- Who was in a room stays there.
  is_member-kept :
      (s : Connections) (room conn r c : Str)
      → is_member s r c ≡ true
      → is_member (joined generate_uuid s room conn) r c ≡ true
  is_member-kept s [] conn r c there = is_member-lobby generate_uuid s conn r c ∙ there
  is_member-kept s (x ∷ xs) conn r c there =
      is_member-joined generate_uuid s (x ∷ xs) conn r c (λ e. cc e) ∙ rw there (ground arith)

  module _ (heap : Heap) (sources : Option Str → Str) (empty : HoldsStreams heap) where
    pub admit-IsSound :
        (s : Server) (room conn : Str) (now : ℕ)
        → IsSound s
        → IsSound (admit generate_uuid heap sources s room conn now).0
          × ((admit generate_uuid heap sources s room conn now).2 ≡ ok tt)
    unfolding create_client
    admit-IsSound s room conn now w =
        let (ends, cs, clients, named, nameless, there, kept) =
          admit-Opens generate_uuid heap sources empty s room conn now w in
        let t = (admit generate_uuid heap sources s room conn now).0 in
        let js = joined generate_uuid s.connections room conn in
        let newcomer : (c : Str)
            → str_eq conn c ≡ true
            → ns js c ≢ []
            → IsPresent js t.playbacks c =
          (λ c hit ne.
            let at : ns js c ≡ room =
              ns-joined generate_uuid s.connections room conn c w.rooms ∙ rw hit refl in
            let filled : room ≢ [] = (λ e. ne (at ∙ e)) in
            subst (λ k. (is_member js k c ≡ true) × (is_some (lookup k t.playbacks) ≡ true))
              (sym at)
              (
                is_member-joined generate_uuid s.connections room conn room c filled
                    ∙ rw (hit, str_eq_refl room) refl,
                there filled,
              )) in
        let others : (c : Str)
            → str_eq conn c ≡ false
            → is_some (lookup c s.clients_by_id) ≡ true
            → ns js c ≢ []
            → IsPresent js t.playbacks c =
          (λ c miss known ne.
            let at : ns js c ≡ ns s.connections c =
              ns-joined generate_uuid s.connections room conn c w.rooms ∙ rw miss refl in
            let (member, playing) = w.present c known (λ e. ne (at ∙ e)) in
            subst (λ k. (is_member js k c ≡ true) × (is_some (lookup k t.playbacks) ≡ true))
              (sym at)
              (
                is_member-kept s.connections room conn (ns s.connections c) c member,
                kept (ns s.connections c) playing,
              )) in
        let present : (c : Str)
            → is_some (lookup c t.clients_by_id) ≡ true
            → ns t.connections c ≢ []
            → IsPresent t.connections t.playbacks c =
          (λ c known ne.
            let ne' : ns js c ≢ [] = (λ e. ne (ap (λ x. ns x c) cs ∙ e)) in
            let known' : is_some
                  (lookup c (insert conn (record { id = conn; usernames = [] }) s.clients_by_id))
                ≡ true =
              ap (λ m. is_some (lookup c m)) (sym clients) ∙ known in
            subst (λ x. IsPresent x t.playbacks c) (sym cs)
              (elim (Bool-cases (str_eq conn c)) [
                | inl hit ↦ newcomer c hit ne'
                | inr miss ↦
                    let same : lookup c
                          (insert conn (record { id = conn; usernames = [] }) s.clients_by_id)
                        ≡ lookup c s.clients_by_id =
                      lookup-insert conn c (record { id = conn; usernames = [] }) s.clients_by_id
                      ∙ rw miss refl in
                    others c miss (ap is_some (sym same) ∙ known') ne'
              ])) in
        (
          record {
            rooms =
                subst (λ x. AllNamed x.ns_by_name) (sym cs)
                  (joined-AllNamed generate_uuid s.connections room conn w.rooms);
            playbacks = named;
            nameless = nameless;
            present = present;
          },
          ends,
        )
