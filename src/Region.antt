-- ===== src/Region.antt =====
-- src/sdk/region.h and region.cc, with EndPoint (src/sdk/utils/net_util.h), Range, RegionEpoch and
-- EpochCompare (src/sdk/common/common.h). A region object has a part that never changes, `Info`, and
-- a part under its lock, `Roles`; its stale flag is kept by the address of the object in `Memory`.
use dingo_sdk.Base.{
  ℕ, ◌+◌, ◌%◌, ◌^◌, Bool, true, false, not, ◌&&◌, List, [], ◌∷◌, map, if◌then◌else◌, ltb, ◌==◌,
  get_elem?, length,
}
use dingo_sdk.Key.{Key, key_eqb, is_empty}
use dingo_sdk.Outcome.{Outcome, done, aborted, check, check_some, ◌>>=◌, ◌>>◌}
pub mod Leader
pub mod Replicas

pub record EndPoint : Type 0 where
  pub host : Key
  pub port : ℕ

-- The default end point; its port is not set, and is never read while the host is empty.
abbrev pub no_end_point : EndPoint
no_end_point = record { host = []; port = 0 }

unfoldable pub is_valid : EndPoint → Bool
is_valid e = not (is_empty e.host) && ltb 0 e.port

unfoldable pub end_point_eqb : EndPoint → EndPoint → Bool
end_point_eqb a b = key_eqb a.host b.host && a.port == b.port

pub data RaftRole : Type 0 where
  leader follower : RaftRole

pub record Replica : Type 0 where
  pub end_point : EndPoint
  pub role : RaftRole

pub data RegionType : Type 0 where
  region_none region_store region_index region_document : RegionType

pub record Epoch : Type 0 where
  pub version : ℕ
  pub conf_version : ℕ

pub record Info : Type 0 where
  pub region_id : ℕ
  pub start_key : Key
  pub end_key : Key
  pub epoch : Epoch
  pub region_type : RegionType

pub record Roles : Type 0 where
  pub leader_addr : EndPoint
  pub replicas : List Replica
  pub next_replica_index : ℕ

pub data Comparison : Type 0 where
  newer same older : Comparison

-- `EpochCompare(a, b)`: `newer` is 1 (b is newer than a), `older` is -1.
unfoldable pub epoch_compare : Epoch → Epoch → Comparison
epoch_compare a b =
    if ltb a.version b.version
    then newer
    else (if ltb b.version a.version
        then older
        else (if ltb a.conf_version b.conf_version
            then newer
            else (if ltb b.conf_version a.conf_version then older else same)))

is_leader_role : RaftRole → Bool
is_leader_role leader = true
is_leader_role follower = false

first_leader : List Replica → EndPoint
first_leader [] = no_end_point
first_leader (r ∷ rs) = if is_leader_role r.role then r.end_point else first_leader rs

-- The constructor.
unfoldable pub new_roles : List Replica → Roles
unfolding first_leader is_leader_role
new_roles replicas = record {
  leader_addr = first_leader replicas;
  replicas = replicas;
  next_replica_index = 0;
}

unfoldable pub replica_end_point : Roles → List EndPoint
replica_end_point r = map (λ x. x.end_point) r.replicas

unfoldable pub is_leader : EndPoint → Roles → Bool
is_leader e r = if is_valid r.leader_addr then end_point_eqb r.leader_addr e else false

pub set_leader : EndPoint → Replica → Replica
set_leader e x = record x { role = if end_point_eqb x.end_point e then leader else follower }

-- `MarkLeader`, whose test is made once more under the write lock.
unfoldable pub mark_leader : EndPoint → Roles → Roles
unfolding is_leader set_leader
mark_leader e r =
    if is_leader e r
    then r
    else (if is_valid r.leader_addr && end_point_eqb r.leader_addr e
        then r
        else record r { leader_addr = e; replicas = map (set_leader e) r.replicas })

pub set_follower : EndPoint → Replica → Replica
set_follower e x = if end_point_eqb x.end_point e then record x { role = follower } else x

unfoldable pub mark_follower : EndPoint → Roles → Roles
unfolding set_follower
mark_follower e r = record r {
  replicas = map (set_follower e) r.replicas;
  leader_addr = if end_point_eqb r.leader_addr e then no_end_point else r.leader_addr;
}

-- The next replica in turn; the counter is 64 bits wide, and a region with no replica divides by
-- zero.
pub next_replica : Roles → Outcome EndPoint
next_replica r = do
  check (ltb 0 (length r.replicas))
  x ← check_some (get_elem? r.replicas (r.next_replica_index % length r.replicas))
  done x.end_point

-- `GetLeader`: the leader, and the region afterwards.
unfoldable pub get_leader : Roles → Outcome (EndPoint × Roles)
unfolding next_replica
get_leader r = if is_valid r.leader_addr then done (r.leader_addr, r) else (do
  e ← next_replica r
  done (e, record r { next_replica_index = (r.next_replica_index + 1) % 2 ^ 64 }))

-- A pointer to a region object.
pub record RegionPtr : Type 0 where
  pub addr : ℕ
  pub info : Info
  pub open info use *

-- What the region objects hold that can change, by address.
pub record Memory : Type 0 where
  pub next_addr : ℕ
  pub stale : ℕ → Bool
  pub roles : ℕ → Roles

abbrev pub update {ℓ} : {A : Type ℓ} → (ℕ → A) → ℕ → A → ℕ → A
update f p v q = if p == q then v else f q

-- `std::make_shared<Region>(...)`.
unfoldable pub make_region : Info → List Replica → Memory → RegionPtr × Memory
make_region info replicas m = (
  record { addr = m.next_addr; info = info },
  record {
    next_addr = m.next_addr + 1;
    stale = update m.stale m.next_addr false;
    roles = update m.roles m.next_addr (new_roles replicas);
  },
)
