-- ===== src/Team/Releases.antt =====
-- What becomes of a pending invitation: backend/src/modules/team/invitation.service.ts.
use mathlib.Core.List.{Memᴰ}
use biz_pilot_ai.Prelude.{
  ℕ, ◌≡◌, ◌≤◌, refl, ◌⊎◌, inl, inr, Bool, true, false, ◌==◌, ==_refl, ltb, List, Option, none, some,
  find_first, Apart, Bool-cases, Option-cases, find_first-mem, arith,
}
use biz_pilot_ai.Billing.Subscriptions.{Subscription, latest, is_current}
use biz_pilot_ai.Team.Invitations.{
  TeamInvite, Invitations, InviteStatus, declined, expired, revoked, is_pending, is_pending_in,
  has_invite_id, has_token, seats_used, upsert_member, set_status, accept_row, join, redeem, settle,
  accept_pending, pending_by, accept_invitation, reject_invitation, is_cancelable,
  cancel_invitation,
}
use biz_pilot_ai.Team.Counting.{count_shrinks, count_loses}
use biz_pilot_ai.Team.Members.{IsOtherSeat, upsert_member_lem}

-- The plan of the workspace is as it was, and its seats are within the limit.
unfoldable pub IsSeated : ℕ → Subscription → ℕ → Invitations → Type 0
IsSeated w plan seats s =
    Apart IsOtherSeat s.team.members
    × (latest (is_current w) s.team.office.subscriptions ≡ some plan)
    × (seats_used w s ≤ seats)

module _ (w : ℕ) (plan : Subscription) (seats : ℕ) where
  -- An invitation that is settled frees its seat or leaves it.
  IsSeated-settle :
      (to : InviteStatus) (i : TeamInvite) (s : Invitations)
      → is_pending to ≡ false
      → IsSeated w plan seats s
      → IsSeated w plan seats (settle to i s)
  unfolding IsSeated seats_used
  IsSeated-settle to i s off (apart, current, within) = (
    apart,
    current,
    omega (
      arith,
      within,
      count_shrinks (is_pending_in w) (has_invite_id i.id) (set_status to) s.invites
          (λ x hit on. ground (arith, off, on)),
    ),
  )

  -- Who joins takes the seat that the invitation held.
  IsSeated-join :
      (i : TeamInvite) (user : ℕ) (s : Invitations)
      → Memᴰ i s.invites
      → is_pending i.status ≡ true
      → IsSeated w plan seats s
      → IsSeated w plan seats (join i user s)
  unfolding IsSeated seats_used upsert_member
  IsSeated-join i user s m usable (apart, current, within) =
      let u = upsert_member_lem w i.workspace_id user i.role s.next_id s.team.members apart in
      (
        u.apart,
        current,
        elim (Bool-cases (i.workspace_id == w)) [
          | inl here ↦ omega (
            arith,
            within,
            u.grows,
            count_loses (is_pending_in w) (has_invite_id i.id) (accept_row user) s.invites m
                (==_refl i.id) (ground (arith, here, usable)) (λ x. ground arith),
          )
          | inr there ↦ omega (
            arith,
            within,
            u.elsewhere there,
            count_shrinks (is_pending_in w) (has_invite_id i.id) (accept_row user) s.invites
                (λ x hit on. ground (arith, on)),
          )
        ],
      )

  IsSeated-redeem :
      (i : TeamInvite) (user now : ℕ) (s : Invitations)
      → Memᴰ i s.invites
      → is_pending i.status ≡ true
      → IsSeated w plan seats s
      → IsSeated w plan seats (redeem i user now s).1
  unfolding IsSeated seats_used upsert_member redeem
  IsSeated-redeem i user now s m usable seated =
      elim (Option-cases (find_first (has_invite_id i.id) s.invites)) [
        | inl missing ↦ rw (missing, redeem) seated
        | inr (current, found) ↦ elim (Bool-cases (is_pending current.status)) [
          | inl held ↦ rw (found, held, redeem) (IsSeated-join i user s m usable seated)
          | inr spent ↦ rw (found, spent, redeem) seated
        ]
      ]

  pending_by_lem :
      (p : TeamInvite → Bool) (invites : List TeamInvite)
      → (pending_by p invites ≡ none)
        ⊎ ((i : TeamInvite) × (pending_by p invites ≡ some i)
            × Memᴰ i invites
            × (is_pending i.status ≡ true))
  pending_by_lem p invites = elim (Option-cases (find_first p invites)) [
    | inl missing ↦ inl (rw (missing, pending_by) refl)
    | inr (i, found) ↦ elim (Bool-cases (is_pending i.status)) [
      | inl held ↦ inr (i, rw (found, held, pending_by) refl, find_first-mem p invites found, held)
      | inr spent ↦ inl (rw (found, spent, pending_by) refl)
    ]
  ]

  pub IsSeated-accept_invitation :
      (lower : ℕ → ℕ) (token user email now : ℕ) (s : Invitations)
      → IsSeated w plan seats s
      → IsSeated w plan seats (accept_invitation lower token user email now s).1
  unfolding accept_invitation accept_pending
  IsSeated-accept_invitation lower token user email now s seated =
      elim (pending_by_lem (has_token token) s.invites) [
        | inl missing ↦ rw (missing, accept_invitation) seated
        | inr (i, found, m, usable) ↦ elim (Bool-cases (ltb i.expires_at now)) [
          | inl late ↦
              rw (found, late, accept_invitation, accept_pending)
                (IsSeated-settle expired i s refl seated)
          | inr in_time ↦ elim (Bool-cases (lower i.email == lower email)) [
            | inl same ↦
                rw (found, in_time, same, accept_invitation, accept_pending)
                  (IsSeated-redeem i user now s m usable seated)
            | inr other ↦ rw (found, in_time, other, accept_invitation, accept_pending) seated
          ]
        ]
      ]

  pub IsSeated-reject_invitation :
      (token : ℕ) (user : Option ℕ) (s : Invitations)
      → IsSeated w plan seats s
      → IsSeated w plan seats (reject_invitation token user s).1
  unfolding reject_invitation IsSeated seats_used
  IsSeated-reject_invitation token user s seated =
      elim (pending_by_lem (has_token token) s.invites) [
        | inl missing ↦ rw (missing, reject_invitation) seated
        | inr (i, found, m, usable) ↦
            rw (found, reject_invitation) (IsSeated-settle declined i s refl seated)
      ]

  pub IsSeated-cancel_invitation :
      (v actor id : ℕ) (s : Invitations)
      → IsSeated w plan seats s
      → IsSeated w plan seats (cancel_invitation v actor id s).1
  unfolding cancel_invitation IsSeated seats_used
  IsSeated-cancel_invitation v actor id s seated =
      elim (Option-cases (find_first (is_cancelable v id) s.invites)) [
        | inl missing ↦ rw (missing, cancel_invitation) seated
        | inr (i, found) ↦ rw (found, cancel_invitation) (IsSeated-settle revoked i s refl seated)
      ]
