-- ===== src/Team/Owners.antt =====
-- A workspace keeps an owner: backend/src/modules/team/member.service.ts.
use mathlib.Core.Path.{subst}
use mathlib.Core.Bool.{false≢true}
use mathlib.Core.List.{Memᴰ}
use biz_pilot_ai.Prelude.{
  ℕ, suc, ◌≡◌, ◌≤◌, ◌∙◌, sym, refl, ◌⊎◌, inl, inr, Bool, true, false, not, ◌&&◌, ◌==◌, leb, List,
  [], ◌∷◌, Option, some, find_first, update_many, update_many-none, count, All, All-map, All-of_mem,
  All-find_first, Apart, Apart-mem, Apart-update_many, Bool-cases, Option-cases, find_first-mem,
  arith,
}
use biz_pilot_ai.Team.{
  WorkspaceMember, Team, RoleKey, is_owner, is_active_owner, is_member_of, has_member_id,
  mark_removed, give_role, count_active_owners, is_last_owner, remove_target, remove_member,
  change_target, change_member_role, TeamOperation, remove, change, perform, perform_requests,
}

abbrev IsOther : WorkspaceMember → WorkspaceMember → Type 0
IsOther a b = (a.id == b.id) ≡ false

module _ (p : WorkspaceMember → Bool) (id : ℕ) (f : WorkspaceMember → WorkspaceMember) where
  -- An update of one row loses one at most.
  count_drop :
      (members : List WorkspaceMember)
      → Apart IsOther members
      → count p members ≤ suc (count p (update_many (has_member_id id) f members))
  count_drop [] apart = omega arith
  count_drop (m ∷ ms) apart = elim (Bool-cases (has_member_id id m)) [
    | inl hit ↦
        rw
          (
            hit,
            update_many-none (has_member_id id) f ms (
                All-map (IsOther m) (λ n. (n.id == id) ≡ false) ms (λ n d. ground (arith, d, hit))
                  apart.0),
          )
          (ground arith)
    | inr miss ↦ rw miss (ground (arith, count_drop ms apart.1))
  ]

  -- An update of rows that do not count loses none.
  count_kept :
      (members : List WorkspaceMember)
      → All (λ m. ((m.id == id) ≡ false) ⊎ (p m ≡ false)) members
      → count p members ≤ count p (update_many (has_member_id id) f members)
  count_kept [] h = omega arith
  count_kept (m ∷ ms) h = elim (Bool-cases (has_member_id id m)) [
    | inl hit ↦ rw hit (elim h.0 [
      | inl differs ↦ absurd (false≢true (sym differs ∙ hit))
      | inr off ↦ rw off (ground (arith, count_kept ms h.1))
    ])
    | inr miss ↦ rw miss (ground (arith, count_kept ms h.1))
  ]

-- An update that keeps what counts loses none.
count_carried :
    (p : WorkspaceMember → Bool) (q : WorkspaceMember → Bool)
    (f : WorkspaceMember → WorkspaceMember) (members : List WorkspaceMember)
    → ((m : WorkspaceMember) → p m ≡ true → p (f m) ≡ true)
    → count p members ≤ count p (update_many q f members)
count_carried p q f [] keeps = omega arith
count_carried p q f (m ∷ ms) keeps = elim (Bool-cases (q m)) [
  | inl hit ↦ rw hit (ground (arith, keeps m, count_carried p q f ms keeps))
  | inr miss ↦ rw miss (ground (arith, count_carried p q f ms keeps))
]

-- A row that the operation may write keeps an owner in each workspace.
owner_left :
    (v w id : ℕ) (f : WorkspaceMember → WorkspaceMember) (members : List WorkspaceMember)
    (target : WorkspaceMember)
    → Apart IsOther members
    → find_first (is_member_of w id) members ≡ some target
    → (is_owner target.role && leb (count_active_owners w members) 1) ≡ false
    → 1 ≤ count_active_owners v members
    → 1 ≤ count_active_owners v (update_many (has_member_id target.id) f members)
unfolding count_active_owners
owner_left v w id f members target apart found several some_owner =
    elim (Bool-cases (is_owner target.role && v == w)) [
      | inl same ↦
          let v≡w : v ≡ w = ground (arith, same) in
          let two : 2 ≤ count (is_active_owner w) members = ground (arith, several, same) in
          subst
            (λ u. 1 ≤ count (is_active_owner u) (update_many (has_member_id target.id) f members))
            (sym v≡w) (omega (arith, two, count_drop (is_active_owner w) target.id f members apart))
      | inr other ↦ omega (
        arith,
        some_owner,
        count_kept (is_active_owner v) target.id f members (
            All-of_mem (λ m. ((m.id == target.id) ≡ false) ⊎ (is_active_owner v m ≡ false)) members
              (uncounted other)),
      )
    ]
  where
    in_workspace : (target.workspace_id == w) ≡ true
    in_workspace =
        let (_, e) =
          All-find_first (λ _. Unit {0}) (is_member_of w id) members
            (All-of_mem (λ _. Unit {0}) members (λ m n. tt)) found in
        ground (arith, e)

    uncounted :
        (is_owner target.role && v == w) ≡ false
        → (m : WorkspaceMember) → Memᴰ m members
        → ((m.id == target.id) ≡ false) ⊎ (is_active_owner v m ≡ false)
    uncounted other m n =
        elim (Apart-mem IsOther members apart n
          (find_first-mem (is_member_of w id) members found)) [
            | inl same ↦ inr (
                subst (λ z. is_active_owner v z ≡ false) (sym same)
                  (ground (arith, other, in_workspace)))
            | inr (inl differs) ↦ inl differs
            | inr (inr differs) ↦ inl (ground (arith, differs))
          ]

-- Each workspace that had an active owner has one.
KeepsOwner : ℕ → Team → Team → Type 0
KeepsOwner v s t =
    Apart IsOther t.members
    × ((1 ≤ count_active_owners v s.members) → (1 ≤ count_active_owners v t.members))

module _ (v w actor : ℕ) (s : Team) (apart : Apart IsOther s.members) where
  Apart-after :
      (q : WorkspaceMember → Bool) (f : WorkspaceMember → WorkspaceMember)
      → ((m : WorkspaceMember) → (f m).id ≡ m.id)
      → Apart IsOther (update_many q f s.members)
  Apart-after q f same =
      Apart-update_many IsOther q f s.members (λ a b d. ground (arith, same a, d))
        (λ a b d. ground (arith, same b, d)) apart

  remove_keeps :
      (target_id now : ℕ) → KeepsOwner v s (remove_member w actor target_id (λ t. t) now s).1
  unfolding KeepsOwner remove_member remove_target is_last_owner
  remove_keeps target_id now =
      elim (Option-cases (find_first (is_member_of w target_id) s.members)) [
        | inl missing ↦ rw (missing, remove_member) (apart, (λ h. h))
        | inr (target, found) ↦ elim (Bool-cases (is_last_owner w target s)) [
          | inl last ↦ rw (found, last, remove_member) (apart, (λ h. h))
          | inr several ↦
              rw (found, several, remove_member)
                (
                  Apart-after (has_member_id target.id) (mark_removed now) (λ m. refl),
                  owner_left v w target_id (mark_removed now) s.members target apart found several,
                )
        ]
      ]

  change_keeps :
      (acting target : WorkspaceMember) (target_id : ℕ) (role : RoleKey)
      → find_first (is_member_of w target_id) s.members ≡ some target
      → KeepsOwner v s (change_target w actor acting target role (λ t. t) s).1
  unfolding KeepsOwner change_target is_last_owner count_active_owners
  change_keeps acting target target_id role found =
      elim (Bool-cases (is_owner role && not (is_owner acting.role))) [
        | inl escalates ↦ rw (escalates, change_target) (apart, (λ h. h))
        | inr allowed ↦ elim (Bool-cases (not (is_owner role) && is_last_owner w target s)) [
          | inl last ↦ rw (allowed, last, change_target) (apart, (λ h. h))
          | inr several ↦
              rw (allowed, several, change_target)
                (
                  Apart-after (has_member_id target.id) (give_role role) (λ m. refl),
                  (λ some_owner. elim (Bool-cases (is_owner role)) [
                    | inl owns ↦ omega (
                      arith,
                      some_owner,
                      count_carried (is_active_owner v) (has_member_id target.id) (give_role role)
                          s.members (λ m e. ground (arith, e, owns)),
                    )
                    | inr lower ↦
                        owner_left v w target_id (give_role role) s.members target apart found
                          (ground (arith, several, lower)) some_owner
                  ]),
                )
        ]
      ]

  change_member_role_keeps :
      (acting_id target_id : ℕ) (new_role : Option RoleKey)
      → KeepsOwner v s (change_member_role w actor acting_id target_id new_role (λ t. t) s).1
  unfolding KeepsOwner change_member_role
  change_member_role_keeps acting_id target_id new_role =
      elim (Option-cases (find_first (is_member_of w target_id) s.members)) [
        | inl missing ↦ rw (missing, change_member_role) (apart, (λ h. h))
        | inr (target, found) ↦ elim (Option-cases new_role) [
          | inl unknown ↦ rw (found, unknown, change_member_role) (apart, (λ h. h))
          | inr (role, known) ↦
              elim (Option-cases (find_first (is_member_of w acting_id) s.members)) [
                | inl stranger ↦ rw (found, known, stranger, change_member_role) (apart, (λ h. h))
                | inr (acting, present) ↦
                    rw (found, known, present, change_member_role)
                      (change_keeps acting target target_id role found)
              ]
        ]
      ]

perform_keeps :
    (v : ℕ) (o : TeamOperation) (s : Team) → Apart IsOther s.members → KeepsOwner v s (perform o s)
unfolding perform
perform_keeps v (remove w actor target now) s apart = remove_keeps v w actor s apart target now
perform_keeps v (change w actor acting target role) s apart =
    change_member_role_keeps v w actor s apart acting target role

-- Where identifiers are unique, no requests to remove members or to change their roles, in whatever
-- workspaces and order, take the last active owner from a workspace that has one, if each is served
-- with no other between its check of the owners and its write.
pub perform_requests_keep_owner :
    (v : ℕ) (os : List TeamOperation) (s : Team)
    → Apart (λ a b. (a.id == b.id) ≡ false) s.members
    → 1 ≤ count_active_owners v s.members
    → 1 ≤ count_active_owners v (perform_requests os s).members
unfolding perform_requests KeepsOwner
perform_requests_keep_owner v [] s apart h = h
perform_requests_keep_owner v (o ∷ os) s apart h =
    let (apart', keeps) = perform_keeps v o s apart in
    perform_requests_keep_owner v os (perform o s) apart' (keeps h)
