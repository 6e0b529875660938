-- ===== src/Commands/Defaults/Escalation.antt =====
-- pkg/socket/cmd/handler.go: with the default roles, which commands need the admin role.
use streaming_server.Base.{
  Bool, true, false, not, ◌&&◌, ◌||◌, List, [], ◌∷◌, ◌≡◌, ◌⊎◌, inl, inr, refl, sym, arith, some,
  Outcome, err, Any, All, subst,
}
use streaming_server.Base.Text.{Str, codes, str_eq, str_eq_refl}
use streaming_server.Base.Split.{split, join, split-append, is_absent-Absent}
use streaming_server.Rbac.Role.{Rule, Role, has_rule}
use streaming_server.Rbac.Action.{
  slash, verify_action, verify_action_iff, Covers, ended, wild, same, Allows,
}
use streaming_server.Rbac.Binding.{RoleBinding}
use streaming_server.Rbac.Authorizer.{Authorizer, bindings, Grants, has_rule_iff}
use streaming_server.Commands.Handler.{
  SocketCommand, Handler, CommandError, resolve_command_alias, command_action,
}
use streaming_server.Commands.Authorized.{execute_authorized, execute_authorized-Permitted}
use streaming_server.Commands.Defaults.{viewer, user, admin, starting_roles}
use streaming_server.Commands.Defaults.Bound.{HasDefaultRole}

-- The first segment of an action of a rule is the word or covers it.
abbrev covers_first : Str → List Str → Bool
covers_first word [] = true
covers_first word (p ∷ ps) = str_eq p (codes "*") || str_eq p word

abbrev any_covers : Str → List Str → Bool
any_covers word [] = false
any_covers word (a ∷ more) = covers_first word (split slash a) || any_covers word more

-- The rule is about other commands, or no viewer and no user has it.
abbrev is_exclusive : Str → Rule → Bool
is_exclusive word x =
    not (any_covers word x.actions)
    || (not (has_rule x.name viewer.rules) && not (has_rule x.name user.rules))

abbrev all_exclusive : Str → List Rule → Bool
all_exclusive word [] = true
all_exclusive word (x ∷ xs) = is_exclusive word x && all_exclusive word xs

Covers-first :
    (word : Str) (ps rs : List Str)
    → Covers ps rs
    → (rest : List Str) → rs ≡ word ∷ rest
    → covers_first word ps ≡ true
Covers-first word [] rs ended rest e = refl
Covers-first word (_ ∷ ps) rs wild rest e = ground (arith, str_eq_refl (codes "*"))
Covers-first word (p ∷ ps) (_ ∷ rs) (same c) rest e =
    let head : p ≡ word = ground (arith, e) in rw (head, str_eq_refl word) (ground arith)

Allows-covers :
    (word : Str) (rest : List Str) (action : Str) (acts : List Str)
    → split slash action ≡ word ∷ rest
    → Any (λ a. verify_action a action ≡ true) acts
    → any_covers word acts ≡ true
Allows-covers word rest action [] e h = absurd h
Allows-covers word rest action (a ∷ acts) e (inl h) =
    let covered =
      Covers-first word (split slash a) (split slash action) ((verify_action_iff a action).0 h).2
        rest e in
    ground (arith, covered)
Allows-covers word rest action (a ∷ acts) e (inr h) =
    let covered = Allows-covers word rest action acts e h in ground (arith, covered)

exclusive_parts :
    (b c d : Bool) → (not b || (not c && not d)) ≡ true → b ≡ true → (c ≡ false) × (d ≡ false)
exclusive_parts b c d e h = (ground (arith, e, h), ground (arith, e, h))

exclusive_of :
    (word : Str) (x : Rule) (rs : List Rule)
    → all_exclusive word rs ≡ true
    → Any (λ y. y ≡ x) rs
    → any_covers word x.actions ≡ true
    → (has_rule x.name viewer.rules ≡ false) × (has_rule x.name user.rules ≡ false)
exclusive_of word x [] e h c = absurd h
exclusive_of word x (y ∷ rs) e (inl h) c =
    exclusive_parts (any_covers word x.actions) (has_rule x.name viewer.rules)
      (has_rule x.name user.rules) (subst (λ z. is_exclusive word z ≡ true) h (ground (arith, e))) c
exclusive_of word x (y ∷ rs) e (inr h) c = exclusive_of word x rs (ground (arith, e)) h c

-- No viewer and no user has a rule for the commands with this name.
abbrev pub AdminOnly : Str → Type 0
AdminOnly word = Any (λ w. w ≡ word) (codes "role" ∷ codes "debug" ∷ codes "subtitles" ∷ [])

exclusive :
    (word : Str)
    → AdminOnly word
    → All (λ (r : Role). all_exclusive word r.rules ≡ true) starting_roles
unfolding has_rule split str_eq
exclusive word (inl e) = rw (← e) (refl, (refl, (refl, tt)))
exclusive word (inr (inl e)) = rw (← e) (refl, (refl, (refl, tt)))
exclusive word (inr (inr (inl e))) = rw (← e) (refl, (refl, (refl, tt)))
exclusive word (inr (inr (inr e))) = absurd e

AdminOnly-Absent : (word : Str) → AdminOnly word → All (λ b. b ≡ slash → ⊥) word
AdminOnly-Absent word (inl e) = rw (← e) (is_absent-Absent slash (codes "role") refl)
AdminOnly-Absent word (inr (inl e)) = rw (← e) (is_absent-Absent slash (codes "debug") refl)
AdminOnly-Absent word (inr (inr (inl e))) =
    rw (← e) (is_absent-Absent slash (codes "subtitles") refl)
AdminOnly-Absent word (inr (inr (inr e))) = absurd e

-- The subject is bound to the role of that name.
abbrev pub IsAdmin : Authorizer → Str → Type 0
IsAdmin a s = Any (λ b. (b.role ≡ admin) × Any (λ t. t ≡ s) b.subjects) (bindings a)

held_exclusive :
    (word : Str) (rule : Rule) (bs : List RoleBinding)
    → All (λ (r : Role). all_exclusive word r.rules ≡ true) starting_roles
    → All HasDefaultRole bs
    → Any (λ b. Any (λ x. x ≡ rule) b.role.rules) bs
    → any_covers word rule.actions ≡ true
    → (has_rule rule.name viewer.rules ≡ false) × (has_rule rule.name user.rules ≡ false)
held_exclusive word rule [] e d h c = absurd h
held_exclusive word rule (b ∷ bs) e (d, ds) (inr h) c = held_exclusive word rule bs e ds h c
held_exclusive word rule (b ∷ bs) e (d, ds) (inl h) c =
    exclusive_of word rule b.role.rules (of_role d) h c
  where
    of_role : HasDefaultRole b → all_exclusive word b.role.rules ≡ true
    of_role (inl r) = subst (λ (z : Role). all_exclusive word z.rules ≡ true) r e.0
    of_role (inr (inl r)) = subst (λ (z : Role). all_exclusive word z.rules ≡ true) r e.1.0
    of_role (inr (inr (inl r))) = subst (λ (z : Role). all_exclusive word z.rules ≡ true) r e.1.1.0
    of_role (inr (inr (inr r))) = absurd r

granted_admin :
    (name s : Str) (bs : List RoleBinding)
    → has_rule name viewer.rules ≡ false
    → has_rule name user.rules ≡ false
    → All HasDefaultRole bs
    → Any (Grants s name) bs
    → Any (λ b. (b.role ≡ admin) × Any (λ t. t ≡ s) b.subjects) bs
granted_admin name s [] v u d g = absurd g
granted_admin name s (b ∷ bs) v u (d, ds) (inr g) = inr (granted_admin name s bs v u ds g)
granted_admin name s (b ∷ bs) v u (d, ds) (inl (subject, has)) = of_role d
  where
    holds : has_rule name b.role.rules ≡ true
    holds = (has_rule_iff name b.role.rules).1 has

    of_role : HasDefaultRole b → Any (λ b. (b.role ≡ admin) × Any (λ t. t ≡ s) b.subjects) (b ∷ bs)
    of_role (inl r) =
        absurd (cc (subst (λ (z : Role). has_rule name z.rules ≡ true) (sym r) holds, v))
    of_role (inr (inl r)) =
        absurd (cc (subst (λ (z : Role). has_rule name z.rules ≡ true) (sym r) holds, u))
    of_role (inr (inr (inl r))) = inl (sym r, subject)
    of_role (inr (inr (inr r))) = absurd r

module _ {S : Type 0} (execute : SocketCommand → List Str → S → S × Outcome CommandError Str) where
  -- If only default roles are bound, a client runs the role, debug or subtitles command only if it is
  -- bound to the admin role; otherwise the call fails and the state is as before.
  pub execute_authorized-IsAdmin :
      (h : Handler) (authorizer : Authorizer) (connection root : Str) (args : List Str) (s : S)
      (c : SocketCommand)
      → All HasDefaultRole (bindings authorizer)
      → resolve_command_alias root h ≡ some c
      → AdminOnly c.name
      → (IsAdmin authorizer connection
          × (execute_authorized execute h authorizer connection root args s ≡ execute c args s))
        ⊎ ((e : CommandError) × (execute_authorized execute h authorizer connection root args s
              ≡ (s, err e)))
  execute_authorized-IsAdmin h authorizer connection root args s c d found only =
      elim (execute_authorized-Permitted execute h authorizer connection root args s) [
        | inr failed ↦ inr failed
        | inl (c', found', (rule, held, allows, grants), ran) ↦
            let same : c' ≡ c = ground (arith, found, found') in
            let parts =
              split-append slash c.name (join slash args) (AdminOnly-Absent c.name only) in
            let allows' = subst (λ z. Allows (command_action z.name args) rule) same allows in
            let covered =
              Allows-covers c.name (split slash (join slash args)) (command_action c.name args)
                rule.actions parts allows' in
            let (v, u) =
              held_exclusive c.name rule (bindings authorizer) (exclusive c.name only) d held
                covered in
            inl (
              granted_admin rule.name connection (bindings authorizer) v u d grants,
              subst
                  (λ z.
                    execute_authorized execute h authorizer connection root args s
                    ≡ execute z args s)
                  same ran,
            )
      ]
