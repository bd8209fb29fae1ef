-- ===== src/Region/Replicas.antt =====
-- The replicas of a region: there is one, each stands at a valid end point, and so one can be picked.
use dingo_sdk.Base.{
  suc, ◌<◌, ◌&&◌, ltb_yes, List, [], ◌∷◌, map, true, ◌≡◌, refl, ap, All, Bool-cases, inl, inr,
  arith, get_elem?, length,
}
use dingo_sdk.Outcome.{check_some, Returns, Returns->>=, get_elem?-Returns}
use dingo_sdk.Region.{
  EndPoint, is_valid, end_point_eqb, Replica, Roles, mark_leader, mark_follower, get_leader,
  next_replica, set_leader, set_follower,
}
use dingo_sdk.Region.Leader.{end_point_eqb→eq, mark_leader_again, mark_leader_new}
use native.Mathlib.Nat.{mod-lt}

abbrev pub Valid : EndPoint → Type 0
Valid e = is_valid e ≡ true

-- A region has a replica, and its replicas stand at valid end points.
abbrev pub HasReplicas : Roles → Type 0
HasReplicas x = (0 < length x.replicas) × All (λ (r : Replica). Valid r.end_point) x.replicas

next_replica-Valid : (x : Roles) → HasReplicas x → Returns (next_replica x) Valid
unfolding next_replica
next_replica-Valid x h = rw (ltb_yes 0 (length x.replicas) h.0) (
    Returns->>= (λ (r : Replica). Valid r.end_point) Valid (check_some (get_elem? x.replicas _)) _
      (get_elem?-Returns _ x.replicas _ (mod-lt x.next_replica_index h.0) h.1) λ r v. v)

pub get_leader-Valid :
    (x : Roles) → HasReplicas x → Returns (get_leader x) (λ p. Valid p.0 × HasReplicas p.1)
unfolding get_leader
get_leader-Valid x h = elim (Bool-cases (is_valid x.leader_addr)) [
  | inl v ↦ rw (v) (v, h)
  | inr n ↦ rw (n) (Returns->>= Valid _ (next_replica x) _ (next_replica-Valid x h) λ e v. (v, h))
]

-- A change of the replicas that leaves them where they are.
map-HasReplicas :
    (f : Replica → Replica) (xs : List Replica)
    → ((r : Replica) → (f r).end_point ≡ r.end_point)
    → All (λ (r : Replica). Valid r.end_point) xs
    → (length (map f xs) ≡ length xs) × All (λ (r : Replica). Valid r.end_point) (map f xs)
map-HasReplicas f [] k h = (refl, tt)
map-HasReplicas f (x ∷ xs) k h =
    let (a, b) = map-HasReplicas f xs k h.1 in (ap suc a, (rw (k x) h.0, b))

pub mark_leader-HasReplicas :
    (e : EndPoint) (x : Roles) → HasReplicas x → HasReplicas (mark_leader e x)
mark_leader-HasReplicas e x h =
    elim (Bool-cases (is_valid x.leader_addr && end_point_eqb x.leader_addr e)) [
      | inl old ↦ rw (mark_leader_again e x old) h
      | inr new ↦
          let (a, b) =
            map-HasReplicas (set_leader e) x.replicas (λ r. unfold set_leader in refl) h.1 in
          rw (mark_leader_new e x new) (omega (arith, a, h.0), b)
    ]

pub mark_follower-HasReplicas :
    (e : EndPoint) (x : Roles) → HasReplicas x → HasReplicas (mark_follower e x)
unfolding mark_follower
mark_follower-HasReplicas e x h =
    let (a, b) =
      map-HasReplicas (set_follower e) x.replicas (λ r. unfold set_follower in ground arith) h.1 in
    (omega (arith, a, h.0), b)

-- After MarkLeader the region names that leader.
pub leader_addr-mark_leader : (e : EndPoint) (x : Roles) → (mark_leader e x).leader_addr ≡ e
leader_addr-mark_leader e x =
    elim (Bool-cases (is_valid x.leader_addr && end_point_eqb x.leader_addr e)) [
      | inl old ↦
          rw (mark_leader_again e x old) (end_point_eqb→eq x.leader_addr e (ground (arith, old)))
      | inr new ↦ rw (mark_leader_new e x new) refl
    ]
