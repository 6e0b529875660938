-- ===== src/Commands/Authorized.antt =====
-- pkg/socket/cmd/handler.go: ExecuteCommand, with and without access control. What a command does
-- is a parameter: it changes a state and returns a message or fails.
use streaming_server.Base.{
  List, ◌≡◌, ◌⊎◌, inl, inr, refl, subst, arith, none, some, if◌then◌else◌, Outcome, err, Any,
  Bool-cases, Option-cases,
}
use streaming_server.Base.Text.{Str}
use streaming_server.Rbac.Role.{Rule}
use streaming_server.Rbac.Action.{rule_by_action, rule_by_action_lem, Allows}
use streaming_server.Rbac.Authorizer.{Authorizer, bindings, verify, verify_iff, Grants}
use streaming_server.Commands.Handler.{
  SocketCommand, Handler, CommandError, no_such_command, no_rule, unauthorized,
  resolve_command_alias, command_action,
}

-- The client is bound to a role with a rule of the same name as one that allows the action.
abbrev pub Permitted : Authorizer → Str → Str → Type 0
Permitted authorizer connection action =
    (rule : Rule) × Any (λ b. Any (λ x. x ≡ rule) b.role.rules) (bindings authorizer)
    × Allows action rule
    × Any (Grants connection rule.name) (bindings authorizer)

module _ {S : Type 0} (execute : SocketCommand → List Str → S → S × Outcome CommandError Str) where
  -- ExecuteCommand of the handler without access control.
  unfoldable pub execute_command : Handler → Str → List Str → S → S × Outcome CommandError Str
  execute_command h root args s = elim (resolve_command_alias root h) [
    | none ↦ (s, err no_such_command)
    | some c ↦ execute c args s
  ]

  -- ExecuteCommand of HandlerWithRBAC, for the connection of the client.
  unfoldable pub execute_authorized :
      Handler → Authorizer → Str → Str → List Str → S → S × Outcome CommandError Str
  execute_authorized h authorizer connection root args s = elim (resolve_command_alias root h) [
    | none ↦ (s, err no_such_command)
    | some c ↦ elim (rule_by_action (bindings authorizer) (command_action c.name args)) [
      | none ↦ (s, err no_rule)
      | some rule ↦
          if verify authorizer connection rule then execute c args s else (s, err unauthorized)
    ]
  ]

  found_rule :
      (authorizer : Authorizer) (action : Str) (rule : Rule)
      → rule_by_action (bindings authorizer) action ≡ some rule
      → Any (λ b. Any (λ x. x ≡ rule) b.role.rules) (bindings authorizer) × Allows action rule
  found_rule authorizer action rule e = elim (rule_by_action_lem (bindings authorizer) action) [
    | inl (r, e', held, allows) ↦
        let same : r ≡ rule = ground (arith, e, e') in
        subst
          (λ x. Any (λ b. Any (λ y. y ≡ x) b.role.rules) (bindings authorizer) × Allows action x)
          same (held, allows)
    | inr (e', _) ↦ absurd (ground (arith, e, e'))
  ]

  -- A client runs a command only if some role has a rule that allows the action, and the client is
  -- bound to a role with a rule of that name; otherwise the call fails and the state is as before.
  pub execute_authorized-Permitted :
      (h : Handler) (authorizer : Authorizer) (connection root : Str) (args : List Str) (s : S)
      → ((c : SocketCommand) × (resolve_command_alias root h ≡ some c)
          × Permitted authorizer connection (command_action c.name args)
          × (execute_authorized h authorizer connection root args s ≡ execute c args s))
        ⊎ ((e : CommandError) × (execute_authorized h authorizer connection root args s
              ≡ (s, err e)))
  unfolding execute_authorized
  execute_authorized-Permitted h authorizer connection root args s =
      elim (Option-cases (resolve_command_alias root h)) [
        | inl missing ↦ inr (no_such_command, rw (missing, execute_authorized) refl)
        | inr (c, found) ↦
            elim (Option-cases
              (rule_by_action (bindings authorizer) (command_action c.name args))) [
                | inl none_allows ↦
                    inr (no_rule, rw (found, execute_authorized) (rw none_allows refl))
                | inr (rule, allows) ↦ elim (Bool-cases (verify authorizer connection rule)) [
                  | inl granted ↦
                      let (held, allowed) =
                        found_rule authorizer (command_action c.name args) rule allows in
                      inl (
                        c,
                        found,
                        (rule, held, allowed, (verify_iff authorizer connection rule).0 granted),
                        rw (found, execute_authorized) (rw allows (rw granted refl)),
                      )
                  | inr refused ↦
                      inr
                        (unauthorized, rw (found, execute_authorized) (rw allows (rw refused refl)))
                ]
              ]
      ]
