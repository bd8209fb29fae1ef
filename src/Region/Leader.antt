-- ===== src/Region/Leader.antt =====
-- What the region knows of its leader.
use dingo_sdk.Base.{
  Bool, true, false, ◌&&◌, List, [], ◌∷◌, map, ◌≡◌, ◌≢◌, refl, if◌then◌else◌, All, Bool-cases, inl,
  inr, arith,
}
use dingo_sdk.Key.Order.{eqb_iff, eqb_refl}
use dingo_sdk.Outcome.{done}
use dingo_sdk.Region.{
  EndPoint, no_end_point, is_valid, end_point_eqb, Replica, leader, follower, Roles, mark_leader,
  mark_follower, get_leader, set_leader, set_follower,
}

pub end_point_eqb→eq : (a b : EndPoint) → end_point_eqb a b ≡ true → a ≡ b
unfolding end_point_eqb
end_point_eqb→eq a b h = ground (arith, (eqb_iff a.host b.host).0)

pub end_point_eqb_refl : (a : EndPoint) → end_point_eqb a a ≡ true
unfolding end_point_eqb
end_point_eqb_refl a = ground (arith, eqb_refl a.host)

not-is_valid-no_end_point : is_valid no_end_point ≡ false
unfolding is_valid
not-is_valid-no_end_point = refl

-- A replica is held to be the leader only if it is the valid end point that the region names.
abbrev pub Agrees : EndPoint → Replica → Type 0
Agrees e x = x.role ≡ leader → (is_valid e ≡ true) × (x.end_point ≡ e)

abbrev pub Consistent : Roles → Type 0
Consistent r = All (Agrees r.leader_addr) r.replicas

-- After MarkLeader of a valid end point, that is the leader which GetLeader gives, and the
-- region does not change in the call.
pub get_leader-mark_leader :
    (e : EndPoint) (r : Roles)
    → is_valid e ≡ true
    → get_leader (mark_leader e r) ≡ done (e, mark_leader e r)
unfolding get_leader mark_leader
get_leader-mark_leader e r h = ground (arith, end_point_eqb→eq r.leader_addr e)

set_leader-Agrees :
    (e : EndPoint) (xs : List Replica) → is_valid e ≡ true → All (Agrees e) (map (set_leader e) xs)
unfolding set_leader
set_leader-Agrees e [] h = tt
set_leader-Agrees e (x ∷ xs) h =
    (λ l. ground (arith, end_point_eqb→eq x.end_point e), set_leader-Agrees e xs h)

set_follower-Agrees :
    (e a : EndPoint) (xs : List Replica)
    → All (Agrees a) xs
    → All (Agrees (if end_point_eqb a e then no_end_point else a)) (map (set_follower e) xs)
unfolding set_follower
set_follower-Agrees e a [] h = tt
set_follower-Agrees e a (x ∷ xs) h = (
  λ l. ground (arith, h.0, end_point_eqb→eq a e, end_point_eqb_refl e),
  set_follower-Agrees e a xs h.1,
)

module _ (e : EndPoint) (r : Roles) where
  pub mark_leader_again :
      (is_valid r.leader_addr && end_point_eqb r.leader_addr e) ≡ true → mark_leader e r ≡ r
  unfolding mark_leader
  mark_leader_again h = ground arith

  pub mark_leader_new :
      (is_valid r.leader_addr && end_point_eqb r.leader_addr e) ≡ false
      → mark_leader e r ≡ record r { leader_addr = e; replicas = map (set_leader e) r.replicas }
  unfolding mark_leader
  mark_leader_new h = ground arith

-- What a server says of its role.
pub data Report : Type 0 where
  leads follows : EndPoint → Report

abbrev pub learn : Report → Roles → Roles
learn (leads e) r = mark_leader e r
learn (follows e) r = mark_follower e r

abbrev pub valid_report : Report → Bool
valid_report (leads e) = is_valid e
valid_report (follows e) = true

-- What servers report, a leader only at a valid end point, keeps the replicas' roles consistent with the
-- leader that the region names.
pub learn-Consistent :
    (p : Report) (r : Roles) → valid_report p ≡ true → Consistent r → Consistent (learn p r)
unfolding mark_follower
learn-Consistent (leads e) r h c =
    elim (Bool-cases (is_valid r.leader_addr && end_point_eqb r.leader_addr e)) [
      | inl old ↦ rw (mark_leader_again e r old) c
      | inr new ↦ rw (mark_leader_new e r new) (set_leader-Agrees e r.replicas h)
    ]
learn-Consistent (follows e) r h c = set_follower-Agrees e r.leader_addr r.replicas c

-- The leader that the region names after a report, and the roles of its replicas.
abbrev pub Learnt : Report → Roles → Roles → Type 0
Learnt (leads e) r s = (s.leader_addr ≡ e) × Consistent s
Learnt (follows e) r s =
    (is_valid e ≡ true → s.leader_addr ≢ e)
    × (r.leader_addr ≢ e → s.leader_addr ≡ r.leader_addr)
    × All (λ (x : Replica). x.end_point ≡ e → x.role ≡ follower) s.replicas
    × Consistent s

one_demoted :
    (e : EndPoint) (x : Replica) (b : Bool)
    → end_point_eqb x.end_point e ≡ b
    → (if b then record x { role = follower } else x).end_point ≡ e
    → (if b then record x { role = follower } else x).role ≡ follower
one_demoted e x true h q = refl
one_demoted e x false h q = cc (h, q, end_point_eqb_refl e)

not_named :
    (a e : EndPoint) (b : Bool)
    → end_point_eqb a e ≡ b
    → is_valid e ≡ true
    → (if b then no_end_point else a) ≢ e
not_named a e true h v q = cc (v, not-is_valid-no_end_point, q)
not_named a e false h v q = cc (h, q, end_point_eqb_refl e)

still_named :
    (a e : EndPoint) (b : Bool)
    → end_point_eqb a e ≡ b
    → a ≢ e
    → (if b then no_end_point else a) ≡ a
still_named a e true h n = absurd (n (end_point_eqb→eq a e h))
still_named a e false h n = refl

named_now : (e : EndPoint) (r : Roles) → (mark_leader e r).leader_addr ≡ e
named_now e r = elim (Bool-cases (is_valid r.leader_addr && end_point_eqb r.leader_addr e)) [
  | inl old ↦
      rw (mark_leader_again e r old) (end_point_eqb→eq r.leader_addr e (ground (arith, old)))
  | inr new ↦ rw (mark_leader_new e r new) refl
]

demoted :
    (e : EndPoint) (xs : List Replica)
    → All (λ (x : Replica). x.end_point ≡ e → x.role ≡ follower) (map (set_follower e) xs)
unfolding set_follower
demoted e [] = tt
demoted e (x ∷ xs) = (one_demoted e x (end_point_eqb x.end_point e) refl, demoted e xs)

-- What a server reports of its role, a leader only at a valid end point, in a region whose roles are
-- consistent: after a report that it leads, the region names it as its leader; after a report that it
-- follows, the region does not name it if it is valid, names any other leader as before, and has it as a
-- follower. Each time a replica is held to be the leader only if it is the valid end point that the
-- region names.
pub learn-Learnt :
    (p : Report) (r : Roles) → valid_report p ≡ true → Consistent r → Learnt p r (learn p r)
unfolding mark_follower mark_leader
learn-Learnt (leads e) r h c = (named_now e r, learn-Consistent (leads e) r h c)
learn-Learnt (follows e) r h c = (
  not_named r.leader_addr e (end_point_eqb r.leader_addr e) refl,
  still_named r.leader_addr e (end_point_eqb r.leader_addr e) refl,
  demoted e r.replicas,
  learn-Consistent (follows e) r h c,
)
