-- ===== src/Team/Members.antt =====
-- The member that `acceptInvitation` upserts:
-- backend/src/modules/team/invitation.service.ts.
use biz_pilot_ai.Prelude.{
  ℕ, suc, ◌≡◌, ◌≤◌, inl, inr, true, false, ◌&&◌, ◌==◌, List, none, find_first, count, All-map,
  Apart, Apart-update_many, Apart-append_one, Option-cases, find_first-eq-none, arith,
}
use biz_pilot_ai.Team.{WorkspaceMember, RoleKey, active, is_active_member}
use biz_pilot_ai.Team.Invitations.{is_seat_of, admit, upsert_member}
use biz_pilot_ai.Team.Counting.{
  count_shrinks, count_grows, count-append, count-append_other, Apart-map,
}

-- The unique constraint on workspace and user.
abbrev pub IsOtherSeat : WorkspaceMember → WorkspaceMember → Type 0
IsOtherSeat a b = (a.workspace_id == b.workspace_id && a.user_id == b.user_id) ≡ false

-- A seat of one workspace is taken at most, by whom it is for.
pub record Upserted (v w user : ℕ) (before after : List WorkspaceMember) : Type 0 where
  pub apart : Apart IsOtherSeat after
  pub grows : count (is_active_member v) after ≤ suc (count (is_active_member v) before)
  pub elsewhere :
      (w == v) ≡ false → count (is_active_member v) after ≤ count (is_active_member v) before

pub upsert_member_lem :
    (v w user : ℕ) (role : RoleKey) (id : ℕ) (members : List WorkspaceMember)
    → Apart IsOtherSeat members
    → Upserted v w user members (upsert_member w user role id members).1
unfolding upsert_member
upsert_member_lem v w user role id members apart =
    elim (Option-cases (find_first (is_seat_of w user) members)) [
      | inl missing ↦
          rw (missing, upsert_member)
            (record {
              apart =
                  Apart-append_one IsOtherSeat members fresh
                    (All-map (λ m. is_seat_of w user m ≡ false) (λ m. IsOtherSeat m fresh) members
                      (λ m e. e) (find_first-eq-none (is_seat_of w user) members missing))
                    apart;
              grows =
                  count-append (is_active_member v) (is_seat_of w user) (admit role) members fresh;
              elsewhere = λ n.
                  count-append_other (is_active_member v) (is_seat_of w user) (admit role) members
                    fresh (ground (arith, n));
            })
      | inr (m, found) ↦
          rw (found, upsert_member)
            (record {
              apart =
                  Apart-update_many IsOtherSeat (is_seat_of w user) (admit role) members
                    (λ a b d. d) (λ a b d. d) apart;
              grows = count_grows (is_active_member v) (is_seat_of w user) (admit role) members (
                  Apart-map IsOtherSeat
                    (λ a b. is_seat_of w user a ≡ true → is_seat_of w user b ≡ false) members
                    (λ a b d e. ground (arith, d, e)) apart);
              elsewhere = λ n.
                  count_shrinks (is_active_member v) (is_seat_of w user) (admit role) members
                    (λ x hit on. ground (arith, n, hit, on));
            })
    ]
  where
    fresh : WorkspaceMember
    fresh = record {
      id = id;
      workspace_id = w;
      user_id = user;
      role = role;
      status = active;
      deleted_at = none;
    }
