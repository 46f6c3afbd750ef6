-- ===== src/Examples/Teams.antt =====
-- Concrete teams: backend/src/modules/team.
use biz_pilot_ai.Prelude.{
  ◌≡◌, ◌≤◌, ◌+◌, ◌==◌, if◌then◌else◌, refl, none, some, List, [], ◌∷◌, arith,
}
use biz_pilot_ai.Errors.{app, conflict_error}
use biz_pilot_ai.Effects.{err}
use biz_pilot_ai.Team.{
  WorkspaceMember, Team, owner, admin, active, count_active_owners, remove_member, TeamOperation,
  remove, change, perform_requests,
}
use biz_pilot_ai.Team.Owners.{perform_requests_keep_owner}
use biz_pilot_ai.Errors.{plan_limit_reached_error}
use biz_pilot_ai.Billing.Subscriptions.{Subscription, latest, get_current_subscription}
use biz_pilot_ai.Billing.Subscriptions.Plans.{assert_not_downgrade_blocked}
use biz_pilot_ai.Team.{member}
use biz_pilot_ai.Team.Invitations.{
  Invitations, InvitationRequest, invite, accept, invite_member, seats_used, serve_all,
}
use biz_pilot_ai.Team.Seats.{serve_all_within_seats}
use biz_pilot_ai.Examples.Payments.{accounts, subscription}

abbrev founder : WorkspaceMember
founder = record {
  id = 1;
  workspace_id = 10;
  user_id = 30;
  role = owner;
  status = active;
  deleted_at = none;
}

abbrev partner : WorkspaceMember
partner = record founder { id = 2; user_id = 31 }

abbrev team : Team
team = record { members = founder ∷ partner ∷ []; audits = []; office = accounts }

last_owner_stays :
    (remove_member 10 30 1 (λ t. t) 50 (record team { members = founder ∷ [] })).0
    ≡ err (app (conflict_error "TEAM_LAST_OWNER_PROTECTED"))
unfolding remove_member count_active_owners
last_owner_stays = refl

-- Both owners are removed where the second request comes between the check and the write of the first.
overlapping_removals :
    count_active_owners 10
      (remove_member 10 30 1 (λ t. (remove_member 10 31 2 (λ u. u) 50 t).1) 50 team).1.members
    ≡ 0
unfolding remove_member count_active_owners
overlapping_removals = refl

abbrev requests : List TeamOperation
requests = remove 10 30 2 50 ∷ change 10 30 1 1 (some admin) ∷ []

perform_requests_keep_owner_example :
    1 ≤ count_active_owners 10 (perform_requests requests team).members
unfolding count_active_owners
perform_requests_keep_owner_example =
    perform_requests_keep_owner 10 requests team ((refl, tt), (tt, tt)) (omega arith)

abbrev two_seats : Subscription
two_seats = record subscription { plan = record subscription.plan { max_team_seats = some 2 } }

-- User 40 has the address 7, and the founder's address is 3.
abbrev desk : Invitations
desk = record {
  team = record {
    members = founder ∷ [];
    audits = [];
    office = record accounts { subscriptions = two_seats ∷ [] };
  };
  invites = [];
  audits = [];
  next_id = 5;
  user_with = λ email. if email == 7 then some 40 else none;
  email_of = λ user. if user == 40 then 7 else 3;
}

abbrev invitations : List InvitationRequest
invitations = invite 10 30 7 (some member) 99 50 ∷ accept 99 40 7 55 ∷ []

third_seat_refused :
    (invite_member
      (λ t. t + 7)
      10
      30
      8
      (some member)
      98
      70
      (serve_all (λ t. t + 7) (λ a. a) invitations desk)).0
    ≡ err (app plan_limit_reached_error)
unfolding invite_member serve_all seats_used get_current_subscription assert_not_downgrade_blocked
    latest
third_seat_refused = refl

serve_all_within_seats_example :
    seats_used 10 (serve_all (λ t. t + 7) (λ a. a) invitations desk) ≤ 2
unfolding seats_used latest
serve_all_within_seats_example =
    serve_all_within_seats (λ t. t + 7) (λ a. a) 10 2 two_seats invitations desk (tt, tt) refl refl
      (omega arith)
