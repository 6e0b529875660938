-- ===== src/Clients.antt =====
-- pkg/socket/client/client.go, handler.go, pkg/validation/validation.go, and UpdateClientUsername of
-- pkg/socket/util/util.go: the clients and their user names. The messages to clients are left out,
-- except that a broadcast of a client without a namespace panics.
pub mod Names
pub mod Unique
pub mod Steps
mod Tests
use streaming_server.Base.{
  ℕ, ◌+◌, Bool, true, false, not, ◌&&◌, ◌||◌, List, [], ◌∷◌, ◌++◌, map, Option, none, some,
  if◌then◌else◌, leb, ltb, length, Outcome, ok, err, panic,
}
use streaming_server.Base.Text.{Str, codes, str_eq}
use streaming_server.Base.Dict.{Dict, lookup, insert, delete, values}
use streaming_server.Connections.{Connections, Namespace, namespace, remove_from_namespace, join}

abbrev pub max_username_hist : ℕ
max_username_hist = 2

pub data ClientError : Type 0 where
  reserved invalid_name same_name name_taken no_such_client : Str → ClientError

-- `usernames` has the current name last.
pub record Client : Type 0 where
  pub id : Str
  pub usernames : List Str

abbrev between : ℕ → ℕ → ℕ → Bool
between a b c = leb a c && leb c b

-- strings.ToLower on ASCII, which is all that a valid name has.
abbrev lower_byte : ℕ → ℕ
lower_byte c = if between 65 90 c then c + 32 else c

abbrev pub to_lower : Str → Str
to_lower s = map lower_byte s

abbrev pub is_reserved : Str → Bool
is_reserved name = str_eq (to_lower name) (codes "system")

-- The character class of ClientValidationPattern, and a match of the whole pattern.
abbrev pub is_name_byte : ℕ → Bool
is_name_byte c = between 97 122 c || between 65 90 c || between 95 95 c || between 48 57 c

abbrev pub all_name_bytes : Str → Bool
all_name_bytes [] = true
all_name_bytes (c ∷ s) = is_name_byte c && all_name_bytes s

abbrev pub is_valid_name : Str → Bool
is_valid_name [] = false
is_valid_name (c ∷ s) = all_name_bytes (c ∷ s)

-- The names after a new one: all but the oldest of two.
unfoldable pub pushed_name : List Str → Str → List Str
pushed_name names name =
    if ltb (length names) 2
    then names ++ name ∷ []
    else elim names [ [] ↦ [] | _ ∷ rest ↦ rest ++ name ∷ [] ]

unfoldable pub update_username : Client → Str → Client × Outcome ClientError (Unit {0})
update_username c name =
    if is_reserved name
    then (c, err (reserved name))
    else (record c { usernames = pushed_name c.usernames name }, ok tt)

unfoldable pub last_name : List Str → Option Str
last_name [] = none
last_name (n ∷ []) = some n
last_name (n ∷ m ∷ names) = last_name (m ∷ names)

abbrev pub get_username : Client → Option Str
get_username c = last_name c.usernames

unfoldable pub previous_name : List Str → Option Str
previous_name [] = none
previous_name (n ∷ []) = none
previous_name (n ∷ m ∷ []) = some n
previous_name (n ∷ m ∷ k ∷ names) = previous_name (m ∷ k ∷ names)

abbrev pub get_previous_username : Client → Option Str
get_previous_username c = previous_name c.usernames

unfoldable pub get_username_or_id : Client → Str
get_username_or_id c = elim (get_username c) [ none ↦ c.id | some name ↦ name ]

-- UsernameEquals.
unfoldable pub username_equals : Client → Client → Bool
username_equals c d = elim (get_username c) [
  | none ↦ false
  | some n ↦ elim (get_username d) [ none ↦ false | some m ↦ str_eq n m ]
]

pub record Clients : Type 0 where
  pub clients_by_id : Dict Client
  pub connections : Connections

unfoldable pub create_client : Clients → Str → Clients
create_client s id = record s {
  clients_by_id = insert id (record { id = id; usernames = [] }) s.clients_by_id;
}

-- UnsetNamespace leaves the room by the name that it has.
unfoldable pub unset_namespace : Connections → Str → Connections
unset_namespace cs id = elim (namespace cs id) [
  | none ↦ cs
  | some n ↦ remove_from_namespace cs n.name id
]

unfoldable pub destroy_client : Clients → Str → Clients × Outcome ClientError (Unit {0})
destroy_client s id = elim (lookup id s.clients_by_id) [
  | none ↦ (s, err (no_such_client id))
  | some _ ↦ (
    record s {
      clients_by_id = delete id s.clients_by_id;
      connections = unset_namespace s.connections id;
    },
    ok tt,
  )
]

unfoldable pub get_client : Clients → Str → Outcome ClientError Client
get_client s id = elim (lookup id s.clients_by_id) [
  | none ↦ err (no_such_client id)
  | some c ↦ ok c
]

-- The loop over the other clients; it meets the client itself too.
unfoldable pub is_taken : Str → List Client → Bool
is_taken name [] = false
is_taken name (c ∷ cs) =
    let rest = is_taken name cs in
    elim (get_username c) [ none ↦ rest | some n ↦ if str_eq name n then true else rest ]

abbrev pub has_name : Option Str → Str → Bool
has_name none name = false
has_name (some n) name = str_eq n name

-- The last step: BroadcastFrom panics where the client has no namespace.
announced : Clients → Str → Clients × Outcome ClientError (Unit {0})
announced s id = elim (namespace s.connections id) [ none ↦ (s, panic) | some _ ↦ (s, ok tt) ]

renamed : Clients → Str → Client → Str → Clients × Outcome ClientError (Unit {0})
unfolding announced
renamed s id c name =
    if not (is_valid_name name)
    then (s, err (invalid_name name))
    else if has_name (get_username c) name
    then (s, err (same_name name))
    else if is_taken name (values s.clients_by_id)
    then (s, err (name_taken name))
    else if is_reserved name
    then (s, err (reserved name))
    else announced
        (record s { clients_by_id = insert id (update_username c name).0 s.clients_by_id }) id

-- UpdateClientUsername, for the client that GetClient gives its callers.
unfoldable pub update_client_username :
    Clients → Str → Str → Clients × Outcome ClientError (Unit {0})
unfolding renamed
update_client_username s id name = elim (lookup id s.clients_by_id) [
  | none ↦ (s, err (no_such_client id))
  | some c ↦ renamed s id c name
]
