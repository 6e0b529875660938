-- ===== src/Commands/Handler.antt =====
-- pkg/socket/cmd/handler.go, command.go, util/util.go: the table of commands, and the two handlers
-- that run them. What a command does is a parameter: it changes a state and returns a message.
use streaming_server.Base.{
  Bool, true, false, List, [], ◌∷◌, ◌++◌, ◌≡◌, inl, inr, refl, sym, ap, ◌∙◌, arith, Option, none,
  some, if◌then◌else◌, Outcome, ok, panic, Bool-cases,
}
use streaming_server.Base.Text.{Str, str_eq, str_eq_iff, is_in}
use streaming_server.Base.Dict.{Dict, lookup, insert, lookup-insert}
use streaming_server.Base.Split.{join}
use streaming_server.Rbac.Action.{slash}

pub record SocketCommand : Type 0 where
  pub name : Str
  pub aliases : List Str

pub record Handler : Type 0 where
  pub commands : Dict SocketCommand
  pub aliases : Dict SocketCommand

pub data CommandError : Type 0 where
  no_such_command no_rule unauthorized : CommandError
  failed : Str → CommandError

-- The loop of AddCommand over the aliases.
unfoldable pub add_aliases : Handler → SocketCommand → List Str → Outcome CommandError Handler
add_aliases h c [] = ok h
add_aliases h c (a ∷ more) = elim (lookup a h.aliases) [
  | some _ ↦ panic
  | none ↦ elim (lookup a h.commands) [
    | some _ ↦ panic
    | none ↦ add_aliases (record h { aliases = insert a c h.aliases }) c more
  ]
]

unfoldable pub add_command : Handler → SocketCommand → Outcome CommandError Handler
add_command h c = elim (lookup c.name h.commands) [
  | some _ ↦ panic
  | none ↦ elim (lookup c.name h.aliases) [
    | some _ ↦ panic
    | none ↦ add_aliases (record h { commands = insert c.name c h.commands }) c c.aliases
  ]
]

abbrev or_else : Option SocketCommand → Option SocketCommand → Option SocketCommand
or_else (some c) o = some c
or_else none o = o

abbrev pub resolve_command_alias : Str → Handler → Option SocketCommand
resolve_command_alias root h = or_else (lookup root h.commands) (lookup root h.aliases)

abbrev pub command_action : Str → List Str → Str
command_action root args = root ++ slash ∷ join slash args

resolve-insert_alias :
    (k a : Str) (c : SocketCommand) (h : Handler)
    → lookup a h.aliases ≡ none
    → lookup a h.commands ≡ none
    → resolve_command_alias k (record h { aliases = insert a c h.aliases })
      ≡ (if str_eq a k then some c else resolve_command_alias k h)
resolve-insert_alias k a c h na nc = elim (Bool-cases (str_eq a k)) [
  | inl hit ↦
      let e : lookup k h.commands ≡ none =
        ap (λ x. lookup x h.commands) (sym ((str_eq_iff a k).0 hit)) ∙ nc in
      rw (e, lookup-insert a k c h.aliases) (rw hit refl)
  | inr miss ↦ rw (lookup-insert a k c h.aliases) (rw miss refl)
]

resolve-insert_command :
    (k : Str) (c : SocketCommand) (h : Handler)
    → resolve_command_alias k (record h { commands = insert c.name c h.commands })
      ≡ (if str_eq c.name k then some c else resolve_command_alias k h)
resolve-insert_command k c h = elim (Bool-cases (str_eq c.name k)) [
  | inl hit ↦ rw (lookup-insert c.name k c h.commands) (rw hit refl)
  | inr miss ↦ rw (lookup-insert c.name k c h.commands) (rw miss refl)
]

-- What the table resolves after some names have been given to a command.
Resolves : Handler → SocketCommand → List Str → Handler → Type 0
Resolves h c names h' =
    (k : Str)
    → resolve_command_alias k h' ≡ (if is_in k names then some c else resolve_command_alias k h)

-- No name resolves yet, and none is given twice.
abbrev pub Fresh : Handler → List Str → Type 0
Fresh h [] = Unit
Fresh h (a ∷ names) = (resolve_command_alias a h ≡ none) × (is_in a names ≡ false) × Fresh h names

Fresh-extend :
    (h g : Handler) (a : Str) (c : SocketCommand) (names : List Str)
    → ((k : Str)
        → resolve_command_alias k g ≡ (if str_eq a k then some c else resolve_command_alias k h))
    → is_in a names ≡ false
    → Fresh h names
    → Fresh g names
Fresh-extend h g a c [] same new f = tt
Fresh-extend h g a c (b ∷ names) same new f =
    let miss : str_eq a b ≡ false = ground (arith, new, str_eq_iff a b, str_eq_iff b a) in
    (same b ∙ rw miss f.0, f.1, Fresh-extend h g a c names same (ground (arith, new)) f.2)

or_else-none : (o p : Option SocketCommand) → or_else o p ≡ none → (o ≡ none) × (p ≡ none)
or_else-none none p e = (refl, e)
or_else-none (some c) p e = absurd (ground (arith, e))

Added : Handler → SocketCommand → List Str → Outcome CommandError Handler → Type 0
Added h c names r = (h' : Handler) × (r ≡ ok h') × Resolves h c names h'

Added-next :
    (h g : Handler) (c : SocketCommand) (a : Str) (names : List Str)
    (r : Outcome CommandError Handler)
    → ((k : Str)
        → resolve_command_alias k g ≡ (if str_eq a k then some c else resolve_command_alias k h))
    → Added g c names r
    → Added h c (a ∷ names) r
unfolding Added Resolves
Added-next h g c a names r same (h', e, f) = (h', e, step)
  where
    step :
        (k : Str)
        → resolve_command_alias k h'
          ≡ (if is_in k (a ∷ names) then some c else resolve_command_alias k h)
    step k = f k ∙ elim (Bool-cases (str_eq a k)) [
      | inl hit ↦ rw (same k) (rw hit (same_either (is_in k names)))
      | inr miss ↦ rw (same k) (rw miss refl)
    ]
      where
        same_either : (b : Bool) → (if b then some c else some c) ≡ some c
        same_either true = refl
        same_either false = refl

add_aliases-Added :
    (h : Handler) (c : SocketCommand) (names : List Str)
    → Fresh h names
    → Added h c names (add_aliases h c names)
unfolding Added Resolves add_aliases
add_aliases-Added h c [] f = (h, refl, λ k. refl)
add_aliases-Added h c (a ∷ names) f =
    let (nc, na) = or_else-none (lookup a h.commands) (lookup a h.aliases) f.0 in
    let g : Handler = record h { aliases = insert a c h.aliases } in
    let same = λ (k : Str). resolve-insert_alias k a c h na nc in
    rw (na, add_aliases)
      (rw (nc, add_aliases)
        (Added-next h g c a names (add_aliases g c names) same
          (add_aliases-Added g c names (Fresh-extend h g a c names same f.1 f.2))))

-- AddCommand accepts a command whose name and aliases are new and differ from each other; the table
-- then resolves each of them to the command, and every other name as before.
pub add_command-Added :
    (h : Handler) (c : SocketCommand)
    → Fresh h (c.name ∷ c.aliases)
    → (h' : Handler) × (add_command h c ≡ ok h')
      × ((k : Str)
          → resolve_command_alias k h'
            ≡ (if is_in k (c.name ∷ c.aliases) then some c else resolve_command_alias k h))
unfolding Added Resolves add_command
add_command-Added h c f =
    let (nc, na) = or_else-none (lookup c.name h.commands) (lookup c.name h.aliases) f.0 in
    let g : Handler = record h { commands = insert c.name c h.commands } in
    let same = λ (k : Str). resolve-insert_command k c h in
    rw (nc, add_command)
      (rw (na, add_command)
        (Added-next h g c c.name c.aliases (add_aliases g c c.aliases) same
          (add_aliases-Added g c c.aliases (Fresh-extend h g c.name c c.aliases same f.1 f.2))))
