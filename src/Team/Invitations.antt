-- ===== src/Team/Invitations.antt =====
-- Invitations into a workspace: backend/src/modules/team/invitation.service.ts. An e-mail address is
-- a number, `lower` is `String.toLowerCase`, and `week_after` is the `Date.setDate` of an expiry.
use biz_pilot_ai.Prelude.{
  ℕ, suc, ◌+◌, Bool, true, false, ◌&&◌, ◌==◌, ltb, leb, List, [], ◌∷◌, ◌++◌, Option, none, some,
  find_first, update_many, count,
}
use biz_pilot_ai.Errors.{
  app, conflict_error, not_found_error, validation_error, plan_limit_reached_error, plain_fault,
}
use biz_pilot_ai.Effects.{ok, err, M, ◌>>=◌, ◌>>◌, pure}
use biz_pilot_ai.Notifications.{
  NotificationType, create_notification, invitation_received, invitation_accepted,
}
use biz_pilot_ai.Billing.Subscriptions.{get_current_subscription}
use biz_pilot_ai.Billing.Subscriptions.Plans.{assert_not_downgrade_blocked}
use biz_pilot_ai.Team.{RoleKey, active, WorkspaceMember, Team, is_active_member}

pub data InviteStatus : Type 0 where
  pending accepted declined expired revoked : InviteStatus

pub record TeamInvite : Type 0 where
  pub id : ℕ
  pub workspace_id : ℕ
  pub email : ℕ
  pub role : RoleKey
  pub invited_by_user_id : ℕ
  pub token : ℕ
  pub status : InviteStatus
  pub expires_at : ℕ
  pub accepted_by_user_id : Option ℕ

pub data InviteAudit : Type 0 where
  invited : ℕ → ℕ → ℕ → ℕ → RoleKey → InviteAudit
  joined : ℕ → ℕ → ℕ → ℕ → InviteAudit
  invite_declined : ℕ → Option ℕ → ℕ → InviteAudit
  invite_revoked : ℕ → ℕ → ℕ → InviteAudit

-- The tables, with the users by address and the address of each user.
pub record Invitations : Type 0 where
  pub team : Team
  pub invites : List TeamInvite
  pub audits : List InviteAudit
  pub next_id : ℕ
  pub user_with : ℕ → Option ℕ
  pub email_of : ℕ → ℕ

abbrev pub is_pending : InviteStatus → Bool
is_pending pending = true
is_pending _ = false

abbrev pub is_pending_in : ℕ → TeamInvite → Bool
is_pending_in w i = i.workspace_id == w && is_pending i.status

abbrev pub is_pending_for : ℕ → ℕ → TeamInvite → Bool
is_pending_for w email i = i.email == email && is_pending_in w i

abbrev pub is_active_with : (ℕ → ℕ) → ℕ → ℕ → WorkspaceMember → Bool
is_active_with email_of w email m = email_of m.user_id == email && is_active_member w m

abbrev pub has_invite_id : ℕ → TeamInvite → Bool
has_invite_id id i = i.id == id

abbrev pub has_token : ℕ → TeamInvite → Bool
has_token token i = i.token == token

abbrev pub is_full : Option ℕ → ℕ → Bool
is_full none used = false
is_full (some seats) used = leb seats used

unfoldable pub seats_used : ℕ → Invitations → ℕ
seats_used w s = count (is_active_member w) s.team.members + count (is_pending_in w) s.invites

-- A notification, whose result is dropped.
abbrev pub announce : ℕ → ℕ → NotificationType → ℕ → ℕ → Invitations → Invitations
announce w recipient type invite now s = record s {
  team = record s.team {
    office = record s.team.office {
      mailbox =
          (create_notification
            (record {
              workspace_id = some w;
              recipient_user_id = recipient;
              type = type;
              related_entity_id = some (invite ∷ []);
            })
            now s.team.office.mailbox).1;
    };
  };
}

abbrev pub announce_invite : TeamInvite → ℕ → Invitations → Invitations
announce_invite i now s = elim (s.user_with i.email) [
  | none ↦ s
  | some user ↦ announce i.workspace_id user invitation_received i.id now s
]

abbrev pub insert_invite : TeamInvite → Invitations → Invitations
insert_invite i s = record s {
  invites = s.invites ++ i ∷ [];
  audits = s.audits ++ invited i.workspace_id i.invited_by_user_id i.id i.email i.role ∷ [];
  next_id = suc s.next_id;
}

-- The transaction of `inviteMember`, under the lock on the workspace, and the notification.
unfoldable pub reserve_seat : Option ℕ → TeamInvite → ℕ → M Invitations TeamInvite
unfolding seats_used
reserve_seat seats i now s = elim (find_first (is_pending_for i.workspace_id i.email) s.invites) [
  | some _ ↦ (err (app (conflict_error "TEAM_INVITE_ALREADY_PENDING")), s)
  | none ↦ elim (find_first (is_active_with s.email_of i.workspace_id i.email) s.team.members) [
    | some _ ↦ (err (app (conflict_error "TEAM_MEMBER_ALREADY_EXISTS")), s)
    | none ↦ elim (is_full seats (seats_used i.workspace_id s)) [
      | true ↦ (err (app plan_limit_reached_error), s)
      | false ↦ (ok i, announce_invite i now (insert_invite i s))
    ]
  ]
]

-- The plan is read before the transaction; nothing is written by the reads.
unfoldable pub invite_for : (ℕ → ℕ) → ℕ → ℕ → ℕ → RoleKey → ℕ → ℕ → M Invitations TeamInvite
unfolding reserve_seat
invite_for week_after w inviter email role token now s =
    elim ((get_current_subscription w >>= λ plan. assert_not_downgrade_blocked plan >> pure plan)
      s.team.office).0 [
        | err e ↦ (err e, s)
        | ok subscription ↦
            reserve_seat subscription.plan.max_team_seats
              (record {
                id = s.next_id;
                workspace_id = w;
                email = email;
                role = role;
                invited_by_user_id = inviter;
                token = token;
                status = pending;
                expires_at = week_after now;
                accepted_by_user_id = none;
              })
              now s
      ]

-- A key that names no role is `none`.
unfoldable pub invite_member :
    (ℕ → ℕ) → ℕ → ℕ → ℕ → Option RoleKey → ℕ → ℕ → M Invitations TeamInvite
unfolding invite_for
invite_member week_after w inviter email none token now s = (err (app validation_error), s)
invite_member week_after w inviter email (some role) token now s =
    invite_for week_after w inviter email role token now s

abbrev pub is_seat_of : ℕ → ℕ → WorkspaceMember → Bool
is_seat_of w user m = m.workspace_id == w && m.user_id == user

abbrev pub admit : RoleKey → WorkspaceMember → WorkspaceMember
admit role m = record m { role = role; status = active; deleted_at = none }

-- The `upsert` by workspace and user.
unfoldable pub upsert_member : ℕ → ℕ → RoleKey → ℕ → List WorkspaceMember → ℕ × List WorkspaceMember
upsert_member w user role id members = elim (find_first (is_seat_of w user) members) [
  | some m ↦ (m.id, update_many (is_seat_of w user) (admit role) members)
  | none ↦ (
    id,
    members
        ++ record {
          id = id;
          workspace_id = w;
          user_id = user;
          role = role;
          status = active;
          deleted_at = none;
        }
          ∷ [],
  )
]

abbrev pub set_status : InviteStatus → TeamInvite → TeamInvite
set_status status i = record i { status = status }

abbrev pub accept_row : ℕ → TeamInvite → TeamInvite
accept_row user i = record i { status = accepted; accepted_by_user_id = some user }

abbrev pub join : TeamInvite → ℕ → Invitations → Invitations
unfolding upsert_member
join i user s =
    let (id, members) = upsert_member i.workspace_id user i.role s.next_id s.team.members in
    record s {
      team = record s.team { members = members };
      invites = update_many (has_invite_id i.id) (accept_row user) s.invites;
      audits = s.audits ++ joined i.workspace_id user id i.id ∷ [];
      next_id = suc s.next_id;
    }

-- The transaction of `acceptInvitation`, and the notification: the workspace and the member.
unfoldable pub redeem : TeamInvite → ℕ → ℕ → M Invitations (ℕ × ℕ)
unfolding upsert_member
redeem i user now s = elim (find_first (has_invite_id i.id) s.invites) [
  | none ↦ (err plain_fault, s)
  | some current ↦ elim (is_pending current.status) [
    | false ↦ (err (app (conflict_error "TEAM_INVITE_ALREADY_USED")), s)
    | true ↦ (
      ok (i.workspace_id, (upsert_member i.workspace_id user i.role s.next_id s.team.members).0),
      announce i.workspace_id i.invited_by_user_id invitation_accepted i.id now (join i user s),
    )
  ]
]

abbrev pub settle : InviteStatus → TeamInvite → Invitations → Invitations
settle status i s = record s {
  invites = update_many (has_invite_id i.id) (set_status status) s.invites;
}

unfoldable pub accept_pending : (ℕ → ℕ) → TeamInvite → ℕ → ℕ → ℕ → M Invitations (ℕ × ℕ)
unfolding redeem
accept_pending lower i user email now s = elim (ltb i.expires_at now) [
  | true ↦ (err (app (conflict_error "TEAM_INVITE_EXPIRED")), settle expired i s)
  | false ↦ elim (lower i.email == lower email) [
    | false ↦ (err (app not_found_error), s)
    | true ↦ redeem i user now s
  ]
]

-- What a token stands for, if it is pending.
abbrev pub pending_by : (TeamInvite → Bool) → List TeamInvite → Option TeamInvite
pending_by p invites = elim (find_first p invites) [
  | none ↦ none
  | some i ↦ elim (is_pending i.status) [ true ↦ some i | false ↦ none ]
]

unfoldable pub accept_invitation : (ℕ → ℕ) → ℕ → ℕ → ℕ → ℕ → M Invitations (ℕ × ℕ)
unfolding accept_pending
accept_invitation lower token user email now s = elim (pending_by (has_token token) s.invites) [
  | none ↦ (err (app not_found_error), s)
  | some i ↦ accept_pending lower i user email now s
]

abbrev pub note : InviteAudit → Invitations → Invitations
note a s = record s { audits = s.audits ++ a ∷ [] }

unfoldable pub reject_invitation : ℕ → Option ℕ → M Invitations (Unit {0})
reject_invitation token user s = elim (pending_by (has_token token) s.invites) [
  | none ↦ (err (app not_found_error), s)
  | some i ↦ (ok tt, note (invite_declined i.workspace_id user i.id) (settle declined i s))
]

abbrev pub is_cancelable : ℕ → ℕ → TeamInvite → Bool
is_cancelable w id i = i.id == id && is_pending_in w i

unfoldable pub cancel_invitation : ℕ → ℕ → ℕ → M Invitations (Unit {0})
cancel_invitation w actor id s = elim (find_first (is_cancelable w id) s.invites) [
  | none ↦ (err (app not_found_error), s)
  | some i ↦ (ok tt, note (invite_revoked w actor i.id) (settle revoked i s))
]

-- The requests of the four operations.
pub data InvitationRequest : Type 0 where
  invite : ℕ → ℕ → ℕ → Option RoleKey → ℕ → ℕ → InvitationRequest
  accept : ℕ → ℕ → ℕ → ℕ → InvitationRequest
  reject : ℕ → Option ℕ → InvitationRequest
  cancel : ℕ → ℕ → ℕ → InvitationRequest

unfoldable pub serve : (ℕ → ℕ) → (ℕ → ℕ) → InvitationRequest → Invitations → Invitations
unfolding invite_member accept_invitation reject_invitation cancel_invitation
serve week_after lower (invite w inviter email role token now) s =
    (invite_member week_after w inviter email role token now s).1
serve week_after lower (accept token user email now) s =
    (accept_invitation lower token user email now s).1
serve week_after lower (reject token user) s = (reject_invitation token user s).1
serve week_after lower (cancel w actor id) s = (cancel_invitation w actor id s).1

unfoldable pub serve_all : (ℕ → ℕ) → (ℕ → ℕ) → List InvitationRequest → Invitations → Invitations
unfolding serve
serve_all week_after lower [] s = s
serve_all week_after lower (r ∷ rs) s = serve_all week_after lower rs (serve week_after lower r s)
