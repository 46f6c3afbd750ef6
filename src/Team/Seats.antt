-- ===== src/Team/Seats.antt =====
-- Invitations stay within the seats of the plan: backend/src/modules/team/invitation.service.ts.
use mathlib.Core.Path.{subst}
use mathlib.Core.Option.{some-injective}
use biz_pilot_ai.Prelude.{
  ℕ, suc, ◌≡◌, ◌≤◌, ◌∙◌, sym, ap, inl, inr, false, ◌&&◌, ◌==◌, ==_iff, List, [], ◌∷◌, Option, none,
  some, find_first, Apart, Bool-cases, Option-cases, arith,
}
use biz_pilot_ai.Billing.Subscriptions.{Subscription, latest, is_current, get_current_subscription}
use biz_pilot_ai.Billing.Subscriptions.Plans.{assert_not_downgrade_blocked}
use biz_pilot_ai.Team.{RoleKey}
use biz_pilot_ai.Team.Invitations.{
  TeamInvite, Invitations, pending, is_pending_in, is_pending_for, is_active_with, has_invite_id,
  is_full, seats_used, announce_invite, insert_invite, reserve_seat, invite_for, invite_member,
  set_status, InvitationRequest, invite, accept, reject, cancel, serve, serve_all,
}
use biz_pilot_ai.Team.Counting.{count-append, count-append_other}
use biz_pilot_ai.Team.Releases.{
  IsSeated, IsSeated-accept_invitation, IsSeated-reject_invitation, IsSeated-cancel_invitation,
}

module _ (w : ℕ) (plan : Subscription) (seats : ℕ) where
  IsSeated-announce_invite :
      (i : TeamInvite) (now : ℕ) (s : Invitations)
      → IsSeated w plan seats s
      → IsSeated w plan seats (announce_invite i now s)
  unfolding IsSeated seats_used
  IsSeated-announce_invite i now s seated = elim (Option-cases (s.user_with i.email)) [
    | inl stranger ↦ rw (stranger, announce_invite) seated
    | inr (user, known) ↦ rw (known, announce_invite) seated
  ]

  IsSeated-insert_invite :
      (i : TeamInvite) (s : Invitations)
      → (i.workspace_id ≡ w → suc (seats_used i.workspace_id s) ≤ seats)
      → IsSeated w plan seats s
      → IsSeated w plan seats (insert_invite i s)
  unfolding IsSeated seats_used
  IsSeated-insert_invite i s free (apart, current, within) = (
    apart,
    current,
    elim (Bool-cases (i.workspace_id == w)) [
      | inl here ↦
          let i≡w : i.workspace_id ≡ w = (==_iff i.workspace_id w).0 here in
          let left : suc (seats_used w s) ≤ seats =
            subst (λ v. suc (seats_used v s) ≤ seats) i≡w (free i≡w) in
          omega (
            arith,
            left,
            count-append (is_pending_in w) (has_invite_id 0) (set_status pending) s.invites i,
          )
      | inr there ↦ omega (
        arith,
        within,
        count-append_other (is_pending_in w) (has_invite_id 0) (set_status pending) s.invites i
            (ground (arith, there)),
      )
    ],
  )

  IsSeated-reserve_seat :
      (limit : Option ℕ) (i : TeamInvite) (now : ℕ) (s : Invitations)
      → (i.workspace_id ≡ w → limit ≡ some seats)
      → IsSeated w plan seats s
      → IsSeated w plan seats (reserve_seat limit i now s).1
  unfolding reserve_seat
  IsSeated-reserve_seat limit i now s limited seated =
      elim (Option-cases (find_first (is_pending_for i.workspace_id i.email) s.invites)) [
        | inr (known, waiting) ↦ rw (waiting, reserve_seat) seated
        | inl none_waits ↦
            elim (Option-cases
              (find_first (is_active_with s.email_of i.workspace_id i.email) s.team.members)) [
                | inr (member, there) ↦ rw (none_waits, there, reserve_seat) seated
                | inl absent ↦ elim (Bool-cases (is_full limit (seats_used i.workspace_id s))) [
                  | inl full ↦ rw (none_waits, absent, full, reserve_seat) seated
                  | inr free ↦
                      rw (none_waits, absent, free, reserve_seat)
                        (IsSeated-announce_invite i now (insert_invite i s)
                          (IsSeated-insert_invite i s (λ e. room (limited e) free) seated))
                ]
              ]
      ]
    where
      room :
          limit ≡ some seats
          → is_full limit (seats_used i.workspace_id s) ≡ false
          → suc (seats_used i.workspace_id s) ≤ seats
      room e f =
          let g : is_full (some seats) (seats_used i.workspace_id s) ≡ false =
            subst (λ l. is_full l (seats_used i.workspace_id s) ≡ false) e f in
          ground (arith, g)

  module _ (limit : plan.plan.max_team_seats ≡ some seats) where
    IsSeated-invite_for :
        (week_after : ℕ → ℕ) (v inviter email : ℕ) (role : RoleKey) (token now : ℕ)
        (s : Invitations)
        → IsSeated w plan seats s
        → IsSeated w plan seats (invite_for week_after v inviter email role token now s).1
    unfolding invite_for get_current_subscription assert_not_downgrade_blocked IsSeated seats_used
    IsSeated-invite_for week_after v inviter email role token now s seated =
        elim (Option-cases (latest (is_current v) s.team.office.subscriptions)) [
          | inl missing ↦ rw (missing, invite_for) seated
          | inr (x, current) ↦ elim (Option-cases x.pending_plan) [
            | inr (target, waiting) ↦ rw (current, invite_for) (rw waiting seated)
            | inl settled ↦
                rw (current, invite_for)
                  (rw settled (
                    IsSeated-reserve_seat x.plan.max_team_seats _ now s
                      (λ v≡w. ap (λ y. y.plan.max_team_seats) (same x v≡w current) ∙ limit) seated))
          ]
        ]
      where
        same :
            (x : Subscription)
            → v ≡ w
            → latest (is_current v) s.team.office.subscriptions ≡ some x
            → x ≡ plan
        same x v≡w current = some-injective x plan (
            sym current
            ∙ (ap (λ u. latest (is_current u) s.team.office.subscriptions) v≡w ∙ seated.1))

    IsSeated-serve :
        (week_after lower : ℕ → ℕ) (r : InvitationRequest) (s : Invitations)
        → IsSeated w plan seats s
        → IsSeated w plan seats (serve week_after lower r s)
    unfolding serve invite_member
    IsSeated-serve week_after lower (invite v inviter email none token now) s seated = seated
    IsSeated-serve week_after lower (invite v inviter email (some role) token now) s seated =
        IsSeated-invite_for week_after v inviter email role token now s seated
    IsSeated-serve week_after lower (accept token user email now) s seated =
        IsSeated-accept_invitation w plan seats lower token user email now s seated
    IsSeated-serve week_after lower (reject token user) s seated =
        IsSeated-reject_invitation w plan seats token user s seated
    IsSeated-serve week_after lower (cancel v actor id) s seated =
        IsSeated-cancel_invitation w plan seats v actor id s seated

-- Where a workspace's plan limits its seats and its members and pending invitations are within the
-- limit, they stay within it under any requests to invite, accept, reject and cancel, in whatever
-- workspaces and order, given that a user has one row in a workspace at most.
pub serve_all_within_seats :
    (week_after lower : ℕ → ℕ) (w seats : ℕ) (plan : Subscription) (rs : List InvitationRequest)
    (s : Invitations)
    → Apart
        (λ a b. (a.workspace_id == b.workspace_id && a.user_id == b.user_id) ≡ false)
        s.team.members
    → latest (is_current w) s.team.office.subscriptions ≡ some plan
    → plan.plan.max_team_seats ≡ some seats
    → seats_used w s ≤ seats
    → seats_used w (serve_all week_after lower rs s) ≤ seats
unfolding serve_all IsSeated
serve_all_within_seats week_after lower w seats plan [] s apart current limit within = within
serve_all_within_seats week_after lower w seats plan (r ∷ rs) s apart current limit within =
    let (apart', current', within') =
      IsSeated-serve w plan seats limit week_after lower r s (apart, current, within) in
    serve_all_within_seats week_after lower w seats plan rs (serve week_after lower r s) apart'
      current' limit within'
