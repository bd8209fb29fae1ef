-- ===== src/Rpc/Coordinator/Members.antt =====
-- The members that the controller knows: each is a valid end point, and one of them can be picked.
use dingo_sdk.Base.{
  ◌<◌, ◌%◌, ◌^◌, if◌then◌else◌, true, false, [], ◌∷◌, Option, none, some, ltb_yes, ◌≡◌, refl, All,
  All-append, Bool-cases, inl, inr, arith, length, length-append,
}
use dingo_sdk.Key.{is_empty}
use dingo_sdk.Outcome.{get_elem?-Returns, done, Returns, Returns->>=, Returns-map}
use dingo_sdk.Region.{EndPoint, is_valid}
use dingo_sdk.Region.Leader.{end_point_eqb→eq}
use dingo_sdk.Region.Replicas.{Valid}
use dingo_sdk.Rpc.{Location, location_to_end_point}
use dingo_sdk.Rpc.Coordinator.{
  MetaMemberInfo, next_member, pick_next_leader, mark_leader, mark_follower, with_member, is_member,
  is_leader, follow_location,
}
use native.Mathlib.Nat.{mod-lt}

abbrev pub HasMembers : MetaMemberInfo → Type 0
HasMembers i = (0 < length i.members) × All Valid i.members

next_member-Valid : (i : MetaMemberInfo) → HasMembers i → Returns (next_member i) Valid
unfolding next_member
next_member-Valid i h =
    rw (ltb_yes 0 (length i.members) h.0)
      (get_elem?-Returns Valid i.members _ (mod-lt i.next h.0) h.1)

pub pick_next_leader-Valid :
    (i : MetaMemberInfo)
    → HasMembers i
    → Returns (pick_next_leader i) (λ x. Valid x.0 × HasMembers x.1)
unfolding pick_next_leader
pick_next_leader-Valid i h = elim (Bool-cases (is_valid i.leader)) [
  | inl v ↦ rw (v) (v, h)
  | inr n ↦ rw (n) (Returns->>= Valid _ (next_member i) _ (next_member-Valid i h) λ e v. (v, h))
]

with_member-HasMembers :
    (e : EndPoint) (i : MetaMemberInfo)
    → Valid e
    → HasMembers i
    → HasMembers (record i { members = with_member e i.members })
unfolding with_member
with_member-HasMembers e i v h = elim (Bool-cases (is_member e i.members)) [
  | inl m ↦ rw (m) h
  | inr m ↦
      rw (m)
        (omega (arith, length-append i.members (e ∷ []), h.0), All-append Valid _ _ h.1 (v, tt))
]

pub mark_leader-HasMembers :
    (e : EndPoint) (i : MetaMemberInfo)
    → Valid e
    → HasMembers i
    → Returns (mark_leader e i) (λ j. HasMembers j × (j.leader ≡ e))
unfolding mark_leader
mark_leader-HasMembers e i v h = elim (Bool-cases (is_leader e i)) [
  | inl m ↦ rw (v, m) (h, known m)
  | inr m ↦ rw (v, m) (with_member-HasMembers e i v h, refl)
]
  where
    known : is_leader e i ≡ true → i.leader ≡ e
    known m = unfold is_leader in ground (arith, m, end_point_eqb→eq i.leader e)

pub mark_follower-HasMembers :
    (e : EndPoint) (i : MetaMemberInfo)
    → Valid e
    → HasMembers i
    → Returns (mark_follower e i) HasMembers
unfolding mark_follower
mark_follower-HasMembers e i v h = rw (v) (with_member-HasMembers e i v h)

-- The error names no place, or one with a host.
abbrev pub Located : Option Location → Type 0
Located none = Unit
Located (some l) = is_empty l.host ≡ false

pub follow_location-HasMembers :
    (o : Option Location) (i : MetaMemberInfo)
    → Located o
    → HasMembers i
    → Returns (follow_location o i) HasMembers
unfolding follow_location location_to_end_point
follow_location-HasMembers none i l h = h
follow_location-HasMembers (some l) i n h =
    rw (n) (located (record { host = l.host; port = l.port % 2 ^ 16 }))
  where
    located : (e : EndPoint) → Returns (if is_valid e then mark_leader e i else done i) HasMembers
    located e = elim (Bool-cases (is_valid e)) [
      | inl v ↦
          rw (v) (
            Returns-map _ HasMembers (mark_leader e i) (λ j x. x.0)
              (mark_leader-HasMembers e i v h))
      | inr v ↦ rw (v) h
    ]
