-- ===== src/Team.antt =====
-- Members of a workspace: backend/src/modules/team/member.service.ts.
pub mod Owners
pub mod Invitations
pub mod Counting
pub mod Members
pub mod Releases
pub mod Seats
use biz_pilot_ai.Prelude.{
  ℕ, ◌+◌, Bool, true, false, not, ◌&&◌, ◌==◌, leb, List, [], ◌∷◌, ◌++◌, Option, none, some,
  find_first, update_many, count,
}
use biz_pilot_ai.Errors.{
  app, conflict_error, not_found_error, validation_error, insufficient_permission_error,
}
use biz_pilot_ai.Effects.{ok, err, M}
use biz_pilot_ai.Billing.Subscriptions.{Office}
use biz_pilot_ai.Billing.Subscriptions.Plans.{retry_pending_downgrade}

pub data RoleKey : Type 0 where
  owner admin manager member viewer guest : RoleKey

pub data WorkspaceMemberStatus : Type 0 where
  invited active suspended removed : WorkspaceMemberStatus

pub record WorkspaceMember : Type 0 where
  pub id : ℕ
  pub workspace_id : ℕ
  pub user_id : ℕ
  pub role : RoleKey
  pub status : WorkspaceMemberStatus
  pub deleted_at : Option ℕ

pub data TeamAudit : Type 0 where
  member_deleted : ℕ → ℕ → ℕ → WorkspaceMemberStatus → RoleKey → TeamAudit
  role_changed : ℕ → ℕ → ℕ → RoleKey → RoleKey → TeamAudit

-- `office` has the subscriptions, with the number of members that its own model reads.
pub record Team : Type 0 where
  pub members : List WorkspaceMember
  pub audits : List TeamAudit
  pub office : Office

abbrev pub is_owner : RoleKey → Bool
is_owner owner = true
is_owner _ = false

abbrev pub is_active : WorkspaceMemberStatus → Bool
is_active active = true
is_active _ = false

abbrev pub is_present : Option ℕ → Bool
is_present none = true
is_present (some _) = false

abbrev pub is_active_owner : ℕ → WorkspaceMember → Bool
is_active_owner w m =
    m.workspace_id == w && (is_owner m.role && (is_active m.status && is_present m.deleted_at))

abbrev pub is_active_member : ℕ → WorkspaceMember → Bool
is_active_member w m = m.workspace_id == w && (is_active m.status && is_present m.deleted_at)

unfoldable pub count_active_owners : ℕ → List WorkspaceMember → ℕ
count_active_owners w members = count (is_active_owner w) members

abbrev pub is_member_of : ℕ → ℕ → WorkspaceMember → Bool
is_member_of w id m = m.id == id && (m.workspace_id == w && is_present m.deleted_at)

abbrev pub has_member_id : ℕ → WorkspaceMember → Bool
has_member_id id m = m.id == id

abbrev pub mark_removed : ℕ → WorkspaceMember → WorkspaceMember
mark_removed now m = record m { status = removed; deleted_at = some now }

abbrev pub give_role : RoleKey → WorkspaceMember → WorkspaceMember
give_role role m = record m { role = role }

-- The number of members as it stands after the removal.
abbrev pub recounted : Team → Office
recounted s = record s.office { members_of = λ w. count (is_active_member w) s.members }

-- The transaction of `removeMember`, and the retry of a pending downgrade, whose error is dropped.
unfoldable pub remove_target : ℕ → ℕ → WorkspaceMember → ℕ → Team → Team
unfolding retry_pending_downgrade
remove_target w actor target now s =
    let after = record s {
      members = update_many (has_member_id target.id) (mark_removed now) s.members;
      audits = s.audits ++ member_deleted w actor target.id target.status target.role ∷ [];
    } in
    record after { office = (retry_pending_downgrade w (some actor) now (recounted after)).1 }

unfoldable pub is_last_owner : ℕ → WorkspaceMember → Team → Bool
unfolding count_active_owners
is_last_owner w target s = is_owner target.role && leb (count_active_owners w s.members) 1

-- `between` is what other requests commit after the reads and before the transaction.
unfoldable pub remove_member : ℕ → ℕ → ℕ → (Team → Team) → ℕ → M Team (Unit {0})
unfolding remove_target is_last_owner
remove_member w actor target_id between now s =
    elim (find_first (is_member_of w target_id) s.members) [
      | none ↦ (err (app not_found_error), s)
      | some target ↦ elim (is_last_owner w target s) [
        | true ↦ (err (app (conflict_error "TEAM_LAST_OWNER_PROTECTED")), s)
        | false ↦ (ok tt, remove_target w actor target now (between s))
      ]
    ]

abbrev pub change_role : ℕ → ℕ → WorkspaceMember → RoleKey → Team → Team
change_role w actor target role s = record s {
  members = update_many (has_member_id target.id) (give_role role) s.members;
  audits = s.audits ++ role_changed w actor target.id target.role role ∷ [];
}

unfoldable pub change_target :
    ℕ → ℕ → WorkspaceMember → WorkspaceMember → RoleKey → (Team → Team) → M Team WorkspaceMember
unfolding is_last_owner
change_target w actor acting target role between s =
    elim (is_owner role && not (is_owner acting.role)) [
      | true ↦ (err (app insufficient_permission_error), s)
      | false ↦ elim (not (is_owner role) && is_last_owner w target s) [
        | true ↦ (err (app (conflict_error "TEAM_LAST_OWNER_PROTECTED")), s)
        | false ↦ (ok (give_role role target), change_role w actor target role (between s))
      ]
    ]

-- `changeMemberRole`; a key that names no role is `none`.
unfoldable pub change_member_role :
    ℕ → ℕ → ℕ → ℕ → Option RoleKey → (Team → Team) → M Team WorkspaceMember
unfolding change_target
change_member_role w actor actor_member target_id new_role between s =
    elim (find_first (is_member_of w target_id) s.members) [
      | none ↦ (err (app not_found_error), s)
      | some target ↦ elim new_role [
        | none ↦ (err (app validation_error), s)
        | some role ↦ elim (find_first (is_member_of w actor_member) s.members) [
          | none ↦ (err (app not_found_error), s)
          | some acting ↦ change_target w actor acting target role between s
        ]
      ]
    ]

-- The requests of the two operations, each served with no other in between.
pub data TeamOperation : Type 0 where
  remove : ℕ → ℕ → ℕ → ℕ → TeamOperation
  change : ℕ → ℕ → ℕ → ℕ → Option RoleKey → TeamOperation

unfoldable pub perform : TeamOperation → Team → Team
unfolding remove_member change_member_role
perform (remove w actor target now) s = (remove_member w actor target (λ t. t) now s).1
perform (change w actor acting target role) s =
    (change_member_role w actor acting target role (λ t. t) s).1

unfoldable pub perform_requests : List TeamOperation → Team → Team
unfolding perform
perform_requests [] s = s
perform_requests (o ∷ os) s = perform_requests os (perform o s)
