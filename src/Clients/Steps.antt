-- ===== src/Clients/Steps.antt =====
-- pkg/socket/util/util.go: UpdateClientUsername, with the operations of the client handler in any
-- order, keeps the current user names of all clients different from each other and valid.
use streaming_server.Base.{
  true, false, [], ◌≡◌, inl, inr, refl, arith, some, Bool-cases, Option-cases,
}
use streaming_server.Base.Text.{Str}
use streaming_server.Base.Dict.{Dict, lookup, insert, values}
use streaming_server.Connections.{Connections, namespace}
use streaming_server.Clients.{
  Client, Clients, get_username, update_username, is_valid_name, is_reserved, is_taken, has_name,
  create_client, destroy_client, update_client_username, renamed, announced, last_name,
}
use streaming_server.Clients.Names.{update_username_lem}
use streaming_server.Clients.Unique.{
  HasNames, not_taken, named-HasNames, nameless-HasNames, delete-HasNames,
}

-- The operations on clients; the connections may change in any way between them.
pub data Step (s : Clients) : Clients → Type 0 where
  creates : (id : Str) → Step s (create_client s id)
  destroys : (id : Str) → Step s (destroy_client s id).0
  renames : (id name : Str) → Step s (update_client_username s id name).0
  moves : (cs : Connections) → Step s (record s { connections = cs })

pub data Reach (cs : Connections) : Clients → Type 0 where
  start : Reach cs (record { clients_by_id = []; connections = cs })
  later : {s t : Clients} → Reach cs s → Step s t → Reach cs t

announced-clients : (s : Clients) (id : Str) → (announced s id).0.clients_by_id ≡ s.clients_by_id
unfolding announced
announced-clients s id = elim (Option-cases (namespace s.connections id)) [
  | inl missing ↦ rw (missing, announced) refl
  | inr (n, found) ↦ rw (found, announced) refl
]

-- The branch that renames.
module _ (s : Clients) (id : Str) (c : Client) (name : Str) (w : HasNames s.clients_by_id)
    (found : lookup id s.clients_by_id ≡ some c) where
  abbrev changed : Dict Client
  changed = insert id (update_username c name).0 s.clients_by_id

  changed-HasNames :
      is_valid_name name ≡ true
      → is_taken name (values s.clients_by_id) ≡ false
      → is_reserved name ≡ false
      → HasNames changed
  changed-HasNames v t r = elim (update_username_lem c name (w.short id c found)) [
    | inl (r', _) ↦ absurd (ground (arith, r, r'))
    | inr (_, _, named, _, few) ↦
        named-HasNames s.clients_by_id id (update_username c name).0 w few name named v r
          (λ i. not_taken name i s.clients_by_id t)
  ]

  renamed-HasNames : HasNames (renamed s id c name).0.clients_by_id
  unfolding renamed
  renamed-HasNames = elim (Bool-cases (is_valid_name name)) [
    | inr bad ↦ rw (bad, renamed) w
    | inl v ↦ elim (Bool-cases (has_name (get_username c) name)) [
      | inl same ↦ rw (v, renamed) (rw same w)
      | inr other ↦ elim (Bool-cases (is_taken name (values s.clients_by_id))) [
        | inl taken ↦ rw (v, renamed) (rw other (rw taken w))
        | inr free ↦ elim (Bool-cases (is_reserved name)) [
          | inl res ↦ rw (v, renamed) (rw other (rw free (rw res w)))
          | inr r ↦
              rw (v, renamed)
                (rw other (
                  rw free (
                    rw r (
                      rw (announced-clients (record s { clients_by_id = changed }) id)
                        (changed-HasNames v free r)))))
        ]
      ]
    ]
  ]

update-HasNames :
    (s : Clients) (id name : Str)
    → HasNames s.clients_by_id
    → HasNames (update_client_username s id name).0.clients_by_id
unfolding update_client_username
update-HasNames s id name w = elim (Option-cases (lookup id s.clients_by_id)) [
  | inl missing ↦ rw (missing, update_client_username) w
  | inr (c, found) ↦ rw (found, update_client_username) (renamed-HasNames s id c name w found)
]

create-HasNames :
    (s : Clients) (id : Str)
    → HasNames s.clients_by_id
    → HasNames (create_client s id).clients_by_id
unfolding create_client last_name
create-HasNames s id w =
    nameless-HasNames s.clients_by_id id (record { id = id; usernames = [] }) w (omega arith) refl

destroy-HasNames :
    (s : Clients) (id : Str)
    → HasNames s.clients_by_id
    → HasNames (destroy_client s id).0.clients_by_id
unfolding destroy_client
destroy-HasNames s id w = elim (Option-cases (lookup id s.clients_by_id)) [
  | inl missing ↦ rw (missing, destroy_client) w
  | inr (c, found) ↦ rw (found, destroy_client) (delete-HasNames s.clients_by_id id w)
]

Step-HasNames : (s t : Clients) → Step s t → HasNames s.clients_by_id → HasNames t.clients_by_id
Step-HasNames s _ (creates id) w = create-HasNames s id w
Step-HasNames s _ (destroys id) w = destroy-HasNames s id w
Step-HasNames s _ (renames id name) w = update-HasNames s id name w
Step-HasNames s _ (moves cs) w = w

no_clients-HasNames : HasNames []
unfolding lookup
no_clients-HasNames = record {
  unique = λ i j n p q. absurd (ground (arith, p));
  valid = λ i n p. absurd (ground (arith, p));
  short = λ i c p. absurd (ground (arith, p));
}

-- In every state that the operations reach, no two clients have the same current user name, each
-- current name matches the pattern and is not reserved, and a client keeps two names at most.
pub Reach-HasNames : (cs : Connections) (s : Clients) → Reach cs s → HasNames s.clients_by_id
Reach-HasNames cs _ start = no_clients-HasNames
Reach-HasNames cs _ (later {s} {t} reach step) = Step-HasNames s t step (Reach-HasNames cs s reach)
