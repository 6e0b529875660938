-- ===== src/Connections.antt =====
-- pkg/socket/connection/namespace.go, connection.go, handler.go: the rooms and the connections in them.
pub mod Members
pub mod Steps
use streaming_server.Base.{
  Bool, true, false, List, [], ◌∷◌, ◌++◌, map, Option, none, some, if◌then◌else◌, Outcome, ok, err,
  ℕ, ◌+◌,
}
use streaming_server.Base.Text.{Str, str_eq}
use streaming_server.Base.Dict.{Dict, lookup, insert, delete, values}

pub data NamespaceError : Type 0 where
  already_added no_such_connection no_such_namespace : Str → NamespaceError

-- A connection is its id; `connections` stands for `connsById`.
pub record Namespace : Type 0 where
  pub name : Str
  pub id : Str
  pub connections : Dict Str

-- Add and Remove of NamespaceSpec.
unfoldable pub add : Namespace → Str → Namespace × Outcome NamespaceError (Unit {0})
add n conn = elim (lookup conn n.connections) [
  | some _ ↦ (n, err (already_added conn))
  | none ↦ (record n { connections = insert conn conn n.connections }, ok tt)
]

unfoldable pub remove : Namespace → Str → Namespace × Outcome NamespaceError (Unit {0})
remove n conn = elim (lookup conn n.connections) [
  | some _ ↦ (record n { connections = delete conn n.connections }, ok tt)
  | none ↦ (n, err (no_such_connection conn))
]

-- The state of NamespaceHandlerSpec and ConnHandler, the namespace `ns` that each SocketConn has
-- joined, and the ids that GenerateUUID gives, which is code of a library.
pub record Connections : Type 0 where
  pub ns_by_name : Dict Namespace
  pub conns_by_id : Dict Str
  pub joined : Dict Str
  pub fresh : ℕ

module _ (generate_uuid : ℕ → Str) where
  abbrev pub new_namespace : Connections → Str → Namespace
  new_namespace s name = record { name = name; id = generate_uuid s.fresh; connections = [] }

  -- NewNamespace of the handler.
  unfoldable pub ensure : Connections → Str → Connections × Namespace
  ensure s name = elim (lookup name s.ns_by_name) [
    | some n ↦ (s, n)
    | none ↦ (
      record s {
        ns_by_name = insert name (new_namespace s name) s.ns_by_name;
        fresh = s.fresh + 1;
      },
      new_namespace s name,
    )
  ]

  -- The error of Add is dropped.
  unfoldable pub add_to_namespace : Connections → Str → Str → Connections
  add_to_namespace s [] conn = s
  add_to_namespace s (c ∷ cs) conn =
      let found = ensure s (c ∷ cs) in
      record found.0 { ns_by_name = insert (c ∷ cs) (add found.1 conn).0 found.0.ns_by_name }

  -- Join and Leave of SocketConn. Leave keeps the name in the connection.
  unfoldable pub join : Connections → Str → Str → Connections
  join s conn room = add_to_namespace (record s { joined = insert conn room s.joined }) room conn

unfoldable pub remove_from_namespace : Connections → Str → Str → Connections
remove_from_namespace s name conn = elim (lookup name s.ns_by_name) [
  | none ↦ s
  | some n ↦ record s { ns_by_name = insert name (remove n conn).0 s.ns_by_name }
]

unfoldable pub delete_namespace_by_name :
    Connections → Str → Connections × Outcome NamespaceError (Unit {0})
delete_namespace_by_name s name = elim (lookup name s.ns_by_name) [
  | some _ ↦ (record s { ns_by_name = delete name s.ns_by_name }, ok tt)
  | none ↦ (s, err (no_such_namespace name))
]

-- The name of the room that a connection has joined, empty at first.
abbrev pub ns : Connections → Str → Str
ns s conn = elim (lookup conn s.joined) [ none ↦ [] | some room ↦ room ]

unfoldable pub namespace : Connections → Str → Option Namespace
namespace s conn = lookup (ns s conn) s.ns_by_name

unfoldable pub connections : Connections → Str → List Str
connections s conn = elim (ns s conn) [
  | [] ↦ []
  | c ∷ cs ↦ elim (lookup (c ∷ cs) s.ns_by_name) [ none ↦ [] | some n ↦ values n.connections ]
]

-- The connections that Broadcast and BroadcastFrom write to.
unfoldable pub receivers : Connections → Str → List Str
receivers s name = elim (lookup name s.ns_by_name) [ none ↦ [] | some n ↦ values n.connections ]

others : Str → List Str → List Str
others conn [] = []
others conn (c ∷ cs) = let rest = others conn cs in if str_eq c conn then rest else c ∷ rest

unfoldable pub receivers_from : Connections → Str → Str → List Str
unfolding others
receivers_from s name conn = others conn (receivers s name)

-- NewConnection with a given id, and DeleteConnection, of ConnHandler.
unfoldable pub new_connection : Connections → Str → Connections
new_connection s conn = record s {
  conns_by_id = insert conn conn s.conns_by_id;
  joined = insert conn [] s.joined;
}

unfoldable pub delete_connection : Connections → Str → Connections
delete_connection s conn = record s { conns_by_id = delete conn s.conns_by_id }
